-- ===== src/Lib.antt =====
-- Verification of the coordinator of an IOTA network, inx-coordinator.
--
-- The program issues signed milestones over a node that it reaches by INX. `core/coordinator` drives
-- it; `pkg/coordinator` holds the coordinator, which asks a quorum of other nodes for the merkle
-- roots of a milestone, takes a receipt of migrated funds from the migrator service of
-- `pkg/migrator`, sends the milestone and keeps its state in a file; `pkg/mselection` selects the
-- tips that checkpoints and milestones reference.
--
-- Base: the errors with hornet's critical and soft wrappers, state files with their backup, byte
-- arrays, lists and tests on native numbers.
--
-- Migrator (pkg/migrator/service.go): Service has the state, `Receipt`, `PersistState` and
-- `InitState`; Producer has the queries and the loops of `Start`; Delivery puts both together as a
-- step relation, in which a send on the unbuffered channel is its receive, and a process may end at
-- any point and begin again from the state file. Split, Ledger, Position, Answers, Receiving,
-- Fetching, Exact and StateFile hold the proofs. The inner loop takes fuel, and one more than the
-- number of entries is enough when the limit is positive. The queryer is a parameter; the hypotheses
-- are that its answers to the two questions of a round are the entries of the milestone asked for,
-- and those of the next one that has any, or no entries with any lower index when there is nothing
-- new. Plugin has the plugin of plugins/migrator/component.go, which checks the limit, starts the
-- service and handles its errors; Limits and Handler are about it.
--
-- Selection (pkg/mselection/heaviest.go, random.go): Selector has the tracked blocks and
-- `OnNewSolidBlock`; Picking has `SelectTips`. The map is a list with the newest block first. The
-- bit set library is the record of Bits, with its documented laws; the order of map iterations, the
-- random draws and the deadline are parameters. `SelectTips` is one step; what arrives between its
-- `TipsToList` and its `Reset` is dropped by the latter. Cone, Tips, Refs, Arrival and Describes
-- relate the selector to the tangle that arrived; Heaviest, Draws, Greedy, Collect, RandomTips,
-- Working and Outcome are about the selection.
--
-- Quorum (pkg/coordinator/quorum.go): Config has the groups and their statistics, Group the loop of
-- one group, Race the goroutines of all groups with their channels as a step relation. Verdict,
-- Agreement and Answer hold the proofs.
--
-- Coordinator (pkg/coordinator/coordinator.go, milestones.go): Types has the state, the milestone
-- and the environment of a call; Actions is a monad of errors and state that keeps changes before an
-- error; Build, Milestone and Operations have the functions, under their names. Hoare has triples;
-- Stages, Receipts, Outcomes, Sending and Endings follow `createAndSendMilestone` stage by stage;
-- Safety, Restart, Start, Emits and Checkpoints are about the operations, Sent and Chain about
-- successive milestones, Resumes, Progress, Kills and Lives about successive processes, which may be
-- killed between two effects of a call (the write of a file is one effect), Signing about the
-- retries of the signer, Treasury about receipts. Options has the options and `New`, with proofs in
-- Defaults; Json has the state's encoding (state.go). `milestoneLock` is held from start to end of
-- an operation, so a run is a sequence of them. Block IDs and milestone IDs are numbers. The node's
-- functions, iotago's builder, signing and serialisation, hive.go's JSON files, the clock and the
-- file system are parameters; a write that reports no error is read back.
--
-- Runner (core/coordinator/component.go): Handlers has the variables of the worker with
-- `onBlockSolid` and `onConfirmedMilestoneChanged`; Loop has the worker of `run` with one turn for
-- each signal, and `handleError`. Handlers run between the turns, and within a milestone turn at its
-- four waits, for it holds no lock; a checkpoint turn keeps confirmations out by its lock, and a
-- solid block that arrives in its course changes the selector only, as it does behind it. Signals
-- has the two channels that wake the worker. Invariant, Front, Consistency, Coverage and Milestones
-- hold the proofs. How hornet recognises critical and soft errors is a parameter. Wiring has
-- `initCoordinator` and `configure`, which put a signing provider, the options and the node's latest
-- milestone together (params.go, pkg/todo/todo.go); StartUp is about them.
--
-- Signing (pkg/coordinator/signing_provider.go, core/coordinator/component.go): Keys has the loading
-- of private keys, Choice `initSigningProvider`, Provider the two providers, and Signed the use of
-- one in `createMilestone`. Loading and Threshold hold the proofs. iota.go's key manager, its
-- signing functions, `Sign` and `VerifySignatures` are the records KeyManager, Signers and Sealing,
-- with their documented laws.
--
-- Node (core/coordinator): Send has `sendBlock` with its registrations as a list of calls, Treasury
-- the listener of treasury_listener.go over the results of its stream, WhiteFlag the request of
-- whiteflag.go. Closes, Confirms, Roots and Updates hold the proofs, the last three with the
-- coordinator on top. hornet's `nodebridge` is a parameter.
--
-- Tests: concrete inputs, among them a bit set and a file system with the laws that are assumed.
--
-- Not modelled: the daemon's workers, the ticker's clock and the hooking of events, which are calls
-- of hive.go; the start of the application; the metrics and the tool that fixes a state file, whose
-- code is commented out; the generation of the documentation.
pub mod Base
pub mod Migrator
pub mod Selection
pub mod Quorum
pub mod Coordinator
pub mod Signing
pub mod Node
pub mod Tests
pub mod Runner
