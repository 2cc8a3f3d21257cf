-- ===== src/Coordinator/Operations.antt =====
-- pkg/coordinator/coordinator.go: the operations. Each holds `milestoneLock` from start to end, so a
-- run of the coordinator is a sequence of them.
use inx_coordinator.Base.{
  ℕ, zero, suc, ◌+◌, ◌-◌, ◌*◌, ◌/◌, Bool, true, false, not, ◌&&◌, none, List, [], ◌∷◌, length, take,
  drop, Error, ok, err, critical, soft, wrap, u32, ◌==◌, if◌then◌else◌, exists, no_tips_given,
  network_bootstrapped, node_load_too_high, node_not_synced, previous_milestone_mismatch,
  previous_milestone_genesis, state_file_not_found, panicked, JsonIo,
}
use inx_coordinator.Coordinator.Types.{State, LatestMilestoneInfo, World, Env, issued_checkpoint}
use inx_coordinator.Coordinator.Actions.{Action, ◌>>=◌, ◌>>◌, return, get, lift, assert, emit}
use inx_coordinator.Coordinator.Build.{create_checkpoint}
use inx_coordinator.Coordinator.Milestone.{create_and_send_milestone, send}

-- `iotago.EmptyBlockID()`
abbrev pub empty_block_id : ℕ
empty_block_id = 0

abbrev pub is_empty_milestone_id : ℕ → Bool
is_empty_milestone_id id = id == 0

-- `SoftError(fmt.Errorf("…: %w", err))`
abbrev pub soft_wrap : Error → Error
soft_wrap e = soft (wrap e)

-- `CriticalError` of the error that is returned; a panic is no error.
abbrev pub critical_error : Error → Error
critical_error panicked = panicked
critical_error e = critical e

abbrev pub start_of : ℕ → ℕ
start_of start_index = if start_index == 0 then 1 else start_index

-- `&State{}`
abbrev pub zero_state : State
zero_state = record {
  latest_milestone_index = 0;
  latest_milestone_block_id = 0;
  latest_milestone_id = 0;
  latest_milestone_time = 0;
}

module _ {F : Type 0} where
  -- `InitState` for a bootstrap; the indices are uint32, and the start index is not 0 at the
  -- subtractions.
  unfoldable pub init_bootstrap : ℕ → ℕ → LatestMilestoneInfo → Action (World F) (Unit {0})
  init_bootstrap now start latest w =
      let s = start_of start in
      let id = if s == 1 then 0 else latest.milestone_id in
      if exists w.file
      then (err network_bootstrapped, w)
      else if not (latest.index == s - 1)
      then (err previous_milestone_mismatch, w)
      else if not (s == 1) && is_empty_milestone_id latest.milestone_id
      then (err previous_milestone_genesis, w)
      else (
        ok tt,
        record w {
          state = record {
            latest_milestone_index = s - 1;
            latest_milestone_block_id = empty_block_id;
            latest_milestone_id = id;
            latest_milestone_time = now;
          };
          bootstrapped = false;
        },
      )

  -- `InitState` from the state file. The state is set before it is compared with the node's; a failed
  -- read leaves the new state as it was made.
  unfoldable pub init_resume : JsonIo State → LatestMilestoneInfo → Action (World F) (Unit {0})
  init_resume io latest w =
      if exists w.file
      then (elim (io.read w.file) [
        | err e ↦ (err e, record w { state = zero_state })
        | ok s ↦
            if latest.index == s.latest_milestone_index
            then (ok tt, record w { state = s; bootstrapped = true })
            else (err previous_milestone_mismatch, record w { state = s })
      ])
      else (err state_file_not_found, w)

  -- `InitState`
  unfoldable pub init_state :
      JsonIo State → ℕ → Bool → ℕ → LatestMilestoneInfo → Action (World F) (Unit {0})
  init_state io now bootstrap start latest =
      if bootstrap then init_bootstrap now start latest else init_resume io latest

-- `checkBackPressureFunctions`
unfoldable pub check_back_pressure_functions : List Bool → Bool
check_back_pressure_functions [] = false
check_back_pressure_functions (b ∷ bs) = if b then true else check_back_pressure_functions bs

-- `int(math.Ceil(float64(n) / 7.0))`
abbrev pub checkpoints_number : ℕ → ℕ
checkpoints_number n = (n + 6) / 7

module _ {F : Type 0} (env : Env F) where
  abbrev pub wrapped_action :
      {A : Type 0} → (Error → Error) → Action (World F) A → Action (World F) A
  wrapped_action f m w = elim (m w).0 [ ok a ↦ (ok a, (m w).1) | err e ↦ (err (f e), (m w).1) ]

  abbrev pub set_bootstrapped : Action (World F) (Unit {0})
  set_bootstrapped w = (ok tt, record w { bootstrapped = true })

  abbrev pub latest_block_id : Action (World F) ℕ
  latest_block_id w = (ok w.state.latest_milestone_block_id, w)

  -- `Bootstrap`: every error is made critical.
  unfoldable pub bootstrap : Action (World F) ℕ
  bootstrap w =
      if w.bootstrapped
      then latest_block_id w
      else (do
        wrapped_action critical_error (
            create_and_send_milestone env (w.state.latest_milestone_block_id ∷ [])
              (u32 (w.state.latest_milestone_index + 1)) w.state.latest_milestone_id)
        set_bootstrapped
        latest_block_id)
          w

  -- The checks that `IssueCheckpoint` and `IssueMilestone` begin with.
  unfoldable pub check_node : Action (World F) (Unit {0})
  unfolding check_back_pressure_functions
  check_node = do
    assert env.is_node_synced (soft node_not_synced)
    assert (not (check_back_pressure_functions env.backpressure)) (soft node_load_too_high)

  -- `IssueMilestone`
  unfoldable pub issue_milestone : List ℕ → Action (World F) ℕ
  issue_milestone parents = do
    check_node
    w ← get
    create_and_send_milestone env parents (u32 (w.state.latest_milestone_index + 1))
        w.state.latest_milestone_id
    latest_block_id

  -- The body of the loop of `IssueCheckpoint` in round `i`, which sends the tips from `i * 7` on.
  unfoldable pub issue_one : ℕ → ℕ → ℕ → ℕ → List ℕ → Action (World F) ℕ
  issue_one checkpoint_index number i last tips = do
    let parents = env.remove_dups_and_sort (last ∷ take 7 (drop (i * 7) tips))
    block ← lift soft_wrap (create_checkpoint env parents)
    id ← send env soft_wrap block none
    emit (issued_checkpoint checkpoint_index i number id)
    return id

  -- The loop, with the rounds left.
  unfoldable pub issue_rounds : ℕ → ℕ → ℕ → ℕ → ℕ → List ℕ → Action (World F) ℕ
  issue_rounds checkpoint_index number zero i last tips = return last
  issue_rounds checkpoint_index number (suc left) i last tips =
      issue_one checkpoint_index number i last tips >>= λ id.
      issue_rounds checkpoint_index number left (suc i) id tips

  -- `IssueCheckpoint`
  unfoldable pub issue_checkpoint : ℕ → ℕ → List ℕ → Action (World F) ℕ
  issue_checkpoint checkpoint_index last [] = λ w. (err no_tips_given, w)
  issue_checkpoint checkpoint_index last (t ∷ ts) = do
    check_node
    issue_rounds checkpoint_index (checkpoints_number (length (t ∷ ts)))
        (checkpoints_number (length (t ∷ ts))) 0 last (t ∷ ts)
