-- ===== src/Coordinator/Types.antt =====
-- pkg/coordinator: the data of the coordinator, and what it takes from outside. Block IDs and
-- milestone IDs are 32 byte arrays, here their numbers; the empty ID is 0. Times are nanoseconds.
use inx_coordinator.Base.{
  ℕ, ◌/◌, Bool, Option, List, u32, Error, Result, StateFile, JsonIo, ◌-◌, ◌+◌, ◌%◌, u64_mod,
}
use inx_coordinator.Migrator.Service.{MigrationResult, Receipt, Service}
use inx_coordinator.Migrator.Service
use inx_coordinator.Quorum.Group.{MilestoneMerkleRoots}

-- `State`
pub record State : Type 0 where
  pub latest_milestone_index : ℕ
  pub latest_milestone_block_id : ℕ
  pub latest_milestone_id : ℕ
  pub latest_milestone_time : ℕ

-- `LatestMilestoneInfo`
pub record LatestMilestoneInfo : Type 0 where
  pub index : ℕ
  pub timestamp : ℕ
  pub milestone_id : ℕ

-- `LatestTreasuryOutput`
pub record LatestTreasuryOutput : Type 0 where
  pub milestone_id : ℕ
  pub amount : ℕ

-- `iotago.TreasuryTransaction`, with its input and the amount of its output.
pub record TreasuryTransaction : Type 0 where
  pub input : ℕ
  pub output_amount : ℕ

-- `iotago.ReceiptMilestoneOpt` with its treasury transaction.
pub record ReceiptOpt (F : Type 0) : Type 0 where
  pub migrated_at : ℕ
  pub final : Bool
  pub funds : List F
  pub transaction : TreasuryTransaction

-- The fields of `iotago.Milestone` that are set.
pub record Milestone (F : Type 0) : Type 0 where
  pub index : ℕ
  pub timestamp : ℕ
  pub protocol_version : ℕ
  pub previous_milestone_id : ℕ
  pub parents : List ℕ
  pub roots : MilestoneMerkleRoots
  pub opts : Option (ReceiptOpt F)

-- The fields of `iotago.Block` that the builder sets.
pub record Block (F : Type 0) : Type 0 where
  pub version : ℕ
  pub parents : List ℕ
  pub payload : Option (Milestone F)

-- What others see of a run, in order.
pub data Effect (F : Type 0) : Type 0 where
  -- the event QuorumFinished
  quorum_finished : Option Error → Effect F
  -- a call of the migrator's `PersistState` that succeeded
  persisted_migrator : Bool → Effect F
  -- the state file was moved to its backup, or was not there
  moved_state_file : Effect F
  -- `sendBlockFunc` was called, with the milestone index for a milestone
  sent_block : Block F → Option ℕ → Effect F
  -- the state file was written
  wrote_state_file : Effect F
  -- the event IssuedMilestone
  issued_milestone : ℕ → ℕ → ℕ → Effect F
  -- the event IssuedCheckpointBlock
  issued_checkpoint : ℕ → ℕ → ℕ → ℕ → Effect F

-- The state of the coordinator and what it changes: its state, the flag, its state file, the
-- migrator service, and the effects so far.
pub record World (F : Type 0) : Type 0 where
  pub state : State
  pub bootstrapped : Bool
  pub file : StateFile State
  pub migrator : Option Service
  pub effects : List (Effect F)

-- What one call takes from outside: the functions that the coordinator is created with, iotago's
-- and hive.go's functions, the clock, and what the file system answers.
pub record Env (F : Type 0) : Type 0 where
  -- `merkleRootFunc` of an index, a timestamp, the parents and the previous milestone ID
  pub merkle_root : ℕ → ℕ → List ℕ → ℕ → Result MilestoneMerkleRoots
  -- `opts.quorum` with what `checkMerkleTreeHash` returns
  pub quorum : Option (MilestoneMerkleRoots → ℕ → ℕ → List ℕ → ℕ → Option Error)
  pub is_node_synced : Bool
  -- what the back pressure functions return
  pub backpressure : List Bool
  pub now : ℕ
  -- what the migrator's `Receipt` receives from its channel
  pub received : Option (MigrationResult F)
  pub migrator_io : JsonIo Service.State
  pub migrator_rename_fault : Bool → Option Error
  pub treasury_output : Result LatestTreasuryOutput
  pub protocol_version : ℕ
  -- the block builder, `Sign` behind its retries, `VerifySignatures` and `Serialize`
  pub build : Block F → Result (Unit {0})
  pub sign : Milestone F → Result (Unit {0})
  pub verify_signatures : Milestone F → Result (Unit {0})
  pub serialize : Block F → Result (Unit {0})
  pub milestone_id : Milestone F → Result ℕ
  pub remove_dups_and_sort : List ℕ → List ℕ
  pub receipt_sum : List F → ℕ
  pub sort_funds : List F → List F
  pub rename_fault : Option Error
  -- `sendBlockFunc`
  pub send_block : Block F → Option ℕ → Result ℕ
  pub state_io : JsonIo State

-- `uint32(t.Unix())`
abbrev pub unix_seconds : ℕ → ℕ
unix_seconds t = u32 (t / 1000000000)

-- a - b on uint64
abbrev pub sub_u64 : ℕ → ℕ → ℕ
sub_u64 a b = (a + u64_mod - b) % u64_mod
