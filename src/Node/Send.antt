-- ===== src/Node/Send.antt =====
-- core/coordinator/component.go: `sendBlock`. The registered events, and what ends a registration, are
-- a list of calls in order; the node's answers are parameters.
use inx_coordinator.Base.{ℕ, Option, none, some, List, [], ◌∷◌, ◌++◌, Error, Result, ok, err}
use inx_coordinator.Coordinator.Actions.{Action, ◌>>◌, return}

-- An event that `sendBlock` waits for.
pub data Registration : Type 0 where
  -- the milestone of the index is confirmed
  milestone_confirmed : ℕ → Registration
  -- the block is solid
  block_solid : ℕ → Registration

pub data Call : Type 0 where
  -- `RegisterMilestoneConfirmedEvent` or `RegisterBlockSolidEvent`
  register : Registration → Call
  -- `DeregisterMilestoneConfirmedEvent` or `DeregisterBlockSolidEvent`
  deregister : Registration → Call
  -- the channel of the registration was closed by the listener
  arrived : Registration → Call

-- The answers of the node to one call of `sendBlock` for blocks `B`.
pub record Answers (B : Type 0) : Type 0 where
  -- `SubmitBlock`
  pub submit_block : B → Result ℕ
  -- the error of `WaitForChannelClosed`, or none if the channel was closed
  pub wait_for : Registration → Option Error

abbrev pub call : Call → Action (List Call) (Unit {0})
call c w = (ok tt, w ++ (c ∷ []))

-- A deferred function that deregisters if there is an error.
abbrev pub deregister_on_error :
    {A : Type 0} → Registration → Action (List Call) A → Action (List Call) A
deregister_on_error r m w = elim (m w).0 [
  | ok a ↦ (ok a, (m w).1)
  | err e ↦ (err e, (m w).1 ++ (deregister r ∷ []))
]

module _ {B : Type 0} (node : Answers B) where
  -- `events.WaitForChannelClosed`
  unfoldable pub wait : Registration → Action (List Call) (Unit {0})
  wait r w = elim (node.wait_for r) [ none ↦ (ok tt, w ++ (arrived r ∷ [])) | some e ↦ (err e, w) ]

  -- The wait for a milestone's confirmation, for a milestone.
  unfoldable pub wait_confirmed : Option ℕ → Action (List Call) (Unit {0})
  unfolding wait
  wait_confirmed none = return tt
  wait_confirmed (some index) = wait (milestone_confirmed index)

  -- From the registration of the block on.
  unfoldable pub wait_for_block : Option ℕ → ℕ → Action (List Call) ℕ
  unfolding wait wait_confirmed
  wait_for_block index id = do
    call (register (block_solid id))
    deregister_on_error (block_solid id) (do wait (block_solid id); wait_confirmed index; return id)

  -- `SubmitBlock`, and the rest.
  unfoldable pub submit : Option ℕ → B → Action (List Call) ℕ
  unfolding wait_for_block
  submit index block w = elim (node.submit_block block) [
    | err e ↦ (err e, w)
    | ok id ↦ wait_for_block index id w
  ]

  -- `sendBlock`
  unfoldable pub send_block : B → Option ℕ → Action (List Call) ℕ
  unfolding submit
  send_block block none = submit none block
  send_block block (some index) = do
    call (register (milestone_confirmed index))
    deregister_on_error (milestone_confirmed index) (submit (some index) block)
