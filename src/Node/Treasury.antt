-- ===== src/Node/Treasury.antt =====
-- core/coordinator/treasury_listener.go: the latest treasury output. The stream's results are a list; the
-- mutex makes each access one step.
use inx_coordinator.Base.{
  ℕ, Bool, true, false, Option, none, some, List, [], ◌∷◌, Error, Result, ok, err,
  no_treasury_output,
}
use inx_coordinator.Coordinator.Types.{LatestTreasuryOutput}

-- `inx.TreasuryUpdate`, with its created output.
pub record TreasuryUpdate : Type 0 where
  pub milestone_index : ℕ
  pub created : LatestTreasuryOutput

-- `TreasuryListener`, with `latestTreasuryOutput`.
pub record TreasuryListener : Type 0 where
  pub latest_treasury_output : Option LatestTreasuryOutput

-- `NewTreasuryListener`
abbrev pub new_treasury_listener : TreasuryListener
new_treasury_listener = record { latest_treasury_output = none }

-- `processTreasuryUpdate`
unfoldable pub process_treasury_update : TreasuryUpdate → TreasuryListener → TreasuryListener
process_treasury_update u n = record n { latest_treasury_output = some u.created }

-- `LatestTreasuryOutput`
unfoldable pub latest_treasury_output : TreasuryListener → Result LatestTreasuryOutput
latest_treasury_output n = elim n.latest_treasury_output [
  | none ↦ err no_treasury_output
  | some o ↦ ok o
]

-- One round of the loop: `stream.Recv` fails (the stream has ended, the context was cancelled, or any
-- other error, which is logged), or yields an update, and then the context is cancelled or not.
pub data Received : Type 0 where
  failed : Error → Received
  update : TreasuryUpdate → Bool → Received

-- Where the goroutine of `listenToTreasuryUpdates` stands behind the results so far.
pub data Listening : Type 0 where
  -- it waits for the next result
  waiting : TreasuryListener → Listening
  -- it has left the loop and cancelled the context of `Run`, which returns
  stopped : TreasuryListener → Listening

-- The loop of `listenToTreasuryUpdates`.
unfoldable pub listen : List Received → TreasuryListener → Listening
unfolding process_treasury_update
listen [] n = waiting n
listen (failed e ∷ rs) n = stopped n
listen (update u true ∷ rs) n = stopped n
listen (update u false ∷ rs) n = listen rs (process_treasury_update u n)

-- `listenToTreasuryUpdates`: without a stream its error is returned, and logged by `Run`; the deferred
-- `cancel` ends `Run` either way.
unfoldable pub listen_to_treasury_updates :
    Option Error → List Received → TreasuryListener → Listening
unfolding listen
listen_to_treasury_updates (some e) rs n = stopped n
listen_to_treasury_updates none rs n = listen rs n

-- The listener when it stands there.
abbrev pub listener_of : Listening → TreasuryListener
listener_of (waiting n) = n
listener_of (stopped n) = n
