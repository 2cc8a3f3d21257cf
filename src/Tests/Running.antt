-- ===== src/Tests/Running.antt =====
-- The worker: a start on a bootstrapped network, a confirmed milestone and a milestone turn.
use inx_coordinator.Base.{
  ℕ, ◌+◌, ◌≤◌, ◌≡◌, refl, Bool, true, false, List, [], ◌∷◌, take, ◌++◌, length, Error, ok, critical,
  soft,
}
use inx_coordinator.Coordinator.Operations.{bootstrap}
use inx_coordinator.Runner.Loop.{
  goes_on, begin, after_bootstrap, milestone_tips, milestone_parents, after_milestone,
  milestone_signal, Reached, begun, next, handler, milestone, from_milestone,
}
use inx_coordinator.Runner.Consistency.{Reached-IsConsistent}
use inx_coordinator.Runner.Invariant.{IsConsistent}
use inx_coordinator.Runner.Coverage.{Rest, milestone_tips-Rest, milestone_tips_forget}
use inx_coordinator.Runner.Handlers.{
  Runner, Meanwhile, milestone_confirmed, handle, handle_one, on_confirmed_milestone_changed,
}
use inx_coordinator.Tests.Bits.{words}
use inx_coordinator.Tests.Selection.{fresh, in_order}
use inx_coordinator.Selection.Picking.{select_tips, tips_to_list}
use inx_coordinator.Selection.Selector.{reset}
use inx_coordinator.Coordinator.Operations.{issue_milestone, check_node}
use inx_coordinator.Coordinator.Milestone.{
  prepare_receipt, ask_quorum, send_milestone, create_and_send_milestone, move_state_file, send,
  store_state, persist_migrator,
}
use inx_coordinator.Coordinator.Build.{create_milestone}
use inx_coordinator.Migrator.Service.{
  receipt, update_state, moved_to, create_receipt, persist_state,
}
use inx_coordinator.Coordinator.Chain.{IsLinked}
use inx_coordinator.Runner.Signals.{
  working, waiting, Signals, checkpoint_turn, milestone_turn, Event, ticks, over_limit, selects,
  signal_milestone, signal_checkpoint, select_signal, react, turns, ticks_of, milestone_turns,
  waiting_signals, StartsMilestone, turns-StartsMilestone,
}
use inx_coordinator.Runner.Milestones.{Reached-IsLinked}
use inx_coordinator.Tests.Coordination.{env, world, eight_tips}

abbrev is_critical_error : Error → Bool
is_critical_error (critical e) = true
is_critical_error e = false

abbrev is_soft_error : Error → Bool
is_soft_error (soft e) = true
is_soft_error e = false

abbrev idle_runner : Runner words ℕ
idle_runner = record {
  world = world;
  selector = fresh;
  last_milestone_block_id = 0;
  last_checkpoint_block_id = 0;
  last_checkpoint_index = 3;
}

abbrev started_runner : Runner words ℕ
started_runner = from_milestone words 50 idle_runner

starts : begin words is_critical_error is_soft_error env idle_runner ≡ goes_on started_runner
unfolding begin after_bootstrap bootstrap
starts = refl

reached :
    Reached words is_critical_error is_soft_error env idle_runner
      (on_confirmed_milestone_changed words started_runner)
unfolding handle_one on_confirmed_milestone_changed
reached = next (begun starts) (handler milestone_confirmed refl)

Reached-IsConsistent_example :
    IsConsistent words (on_confirmed_milestone_changed words started_runner)
Reached-IsConsistent_example =
    Reached-IsConsistent words is_critical_error is_soft_error (λ e. refl) env idle_runner
      (on_confirmed_milestone_changed words started_runner) reached

-- A milestone is confirmed behind the checkpoint in front.
abbrev busy : Meanwhile
busy = record {
  after_selection = [];
  in_checkpoint = [];
  before_parents = milestone_confirmed ∷ [];
  in_milestone = milestone_confirmed ∷ [];
}

milestone_tips_forget_example :
    let (kept, t) = milestone_tips words busy env (ok eight_tips, fresh) started_runner in
    milestone_parents words kept t ≡ take 6 eight_tips ++ (50 ∷ 50 ∷ [])
milestone_tips_forget_example =
    milestone_tips_forget words busy env eight_tips fresh started_runner refl

milestone_tips-Rest_example :
    (length (
        milestone_parents words
          (milestone_tips words busy env (ok eight_tips, fresh) started_runner).0
          (milestone_tips words busy env (ok eight_tips, fresh) started_runner).1)
      ≤ 8)
    × ((rest : List ℕ) × ((milestone_tips words busy env (ok eight_tips, fresh) started_runner).0
            ++ rest
          ≡ eight_tips)
        × Rest words busy env
            (handle words [] (record started_runner { selector = fresh }))
            (milestone_tips words busy env (ok eight_tips, fresh) started_runner).1
            rest)
milestone_tips-Rest_example = milestone_tips-Rest words busy env eight_tips fresh started_runner

-- No tips are selected, so that the parents of the milestone are the last block twice.
abbrev issued_runner : Runner words ℕ
issued_runner =
    from_milestone words 99
      (record started_runner { world = (issue_milestone env (50 ∷ 50 ∷ []) world).1 })

issues :
    milestone_signal words is_critical_error is_soft_error 7000000000 in_order busy env env
      started_runner
    ≡ goes_on issued_runner
unfolding milestone_signal milestone_tips after_milestone select_tips handle issue_milestone
    create_and_send_milestone check_node ask_quorum prepare_receipt receipt update_state moved_to
    create_receipt persist_state create_milestone send_milestone move_state_file send store_state
    persist_migrator tips_to_list reset
issues = refl

abbrev issued : Reached words is_critical_error is_soft_error env idle_runner issued_runner
issued = next (begun starts) (milestone 7000000000 in_order busy env env issues)

Reached-IsLinked_example : IsLinked env.milestone_id world issued_runner.world
Reached-IsLinked_example =
    Reached-IsLinked words is_critical_error is_soft_error (λ e. refl) env.milestone_id env
      idle_runner issued_runner issued (refl, refl)

-- The worker waits, a checkpoint comes first, and two ticks come in its turn: the second is
-- dropped, as one is pending.
abbrev early : List Event
early = over_limit ∷ ticks ∷ over_limit ∷ ticks ∷ selects ∷ selects ∷ over_limit ∷ []

wakes :
    turns early (record { milestone_pending = false; worker = waiting })
    ≡ checkpoint_turn ∷ milestone_turn ∷ checkpoint_turn ∷ []
unfolding turns react signal_milestone signal_checkpoint select_signal
wakes = refl

turns-StartsMilestone_example :
    StartsMilestone (
      turns
        (ticks ∷ (early ++ (selects ∷ [])))
        (record { milestone_pending = false; worker = working }))
    × ((fs : List Event) (s : Signals)
        → milestone_turns (turns fs s) ≤ ticks_of fs + waiting_signals s)
turns-StartsMilestone_example = turns-StartsMilestone false working early tt (λ e. cc)
