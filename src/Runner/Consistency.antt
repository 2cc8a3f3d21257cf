-- ===== src/Runner/Consistency.antt =====
-- core/coordinator/component.go: the variables of the worker agree with the coordinator in every run.
use inx_coordinator.Base.{
  ℕ, ◌/◌, Bool, true, false, List, Error, critical, ◌==◌, ◌≡◌, ◌≢◌, refl, sym, ap, subst, ◌∙◌, inl,
  inr, Bool-cases, arith,
}
use inx_coordinator.Selection.Bits.{Bitset}
use inx_coordinator.Selection.Picking.{Choices, select_tips}
use inx_coordinator.Coordinator.Types.{World, Env}
use inx_coordinator.Coordinator.Operations.{issue_milestone}
use inx_coordinator.Coordinator.Hoare.{succeeds, fails}
use inx_coordinator.Coordinator.Stages.{IsFatal, is_critical, is_panic}
use inx_coordinator.Coordinator.Safety.{issue_milestone-Ends, issue_milestone-nonfatal}
use inx_coordinator.Coordinator.Start.{bootstrap-Ends}
use inx_coordinator.Runner.Loop.{
  Handled, shutdown, warned, unknown, handle_error, Turn, goes_on, shuts_down, panics,
  from_milestone, after_bootstrap, begin, milestone_tips, milestone_parents, after_milestone,
  milestone_signal, Step, checkpoint, milestone, handler, Reached, begun, next,
}
use inx_coordinator.Runner.Handlers.{Meanwhile, Runner, handle}
use inx_coordinator.Runner.Invariant.{
  IsConsistent, handle_one-IsConsistent, checkpoint_signal-IsConsistent,
}
use inx_coordinator.Runner.Front.{handle-KeepsLatest, milestone_tips-KeepsLatest}

-- No fatal error is only warned of.
pub handle_error-IsFatal :
    (is_critical_error is_soft_error : Error → Bool)
    → ((e : Error) → is_critical_error (critical e) ≡ true)
    → (e : Error) → IsFatal e
    → handle_error is_critical_error is_soft_error e ≢ warned
unfolding handle_error
handle_error-IsFatal c s h _ (is_critical {e = e}) q = ground (arith, h e)
handle_error-IsFatal c s h _ is_panic q = cc

abbrev pub runner_of : {R : Type 0} → Turn R → R
runner_of (goes_on r) = r
runner_of (shuts_down r) = r
runner_of (panics r) = r

module _ (B : Bitset) {F : Type 0} (is_critical_error is_soft_error : Error → Bool)
    (recognises : (e : Error) → is_critical_error (critical e) ≡ true) where
  pub by_handled :
      (h : Handled) (warn : Runner B F → Runner B F) (r y : Runner B F)
      → (elim h as (λ _. Turn (Runner B F)) [
        | shutdown ↦ shuts_down r
        | warned ↦ goes_on (warn r)
        | unknown ↦ panics r
      ])
        ≡ goes_on y
      → (h ≡ warned) × (y ≡ warn r)
  by_handled shutdown warn r y q = cc
  by_handled warned warn r y q = (refl, ap runner_of (sym q))
  by_handled unknown warn r y q = cc

  from_milestone-IsConsistent :
      (id : ℕ) (r : Runner B F)
      → id ≡ r.world.state.latest_milestone_block_id
      → IsConsistent B (from_milestone B id r)
  from_milestone-IsConsistent id r e = record { latest = e; anchored = λ z. refl }

  begin-IsConsistent :
      (env : Env F) (r y : Runner B F)
      → begin B is_critical_error is_soft_error env r ≡ goes_on y
      → IsConsistent B y
  unfolding begin after_bootstrap
  begin-IsConsistent env r y q = elim (bootstrap-Ends env r.world) [
    | succeeds id v e p ↦
        subst (IsConsistent B)
          (ap runner_of
            (sym (ap (λ x. after_bootstrap B is_critical_error is_soft_error x r) e) ∙ q))
          (from_milestone-IsConsistent id (record r { world = v }) p.0)
    | fails e v z p ↦
        let (w, t) =
          by_handled (handle_error is_critical_error is_soft_error e) (from_milestone B 0)
            (record r { world = v }) y
            (sym (ap (λ x. after_bootstrap B is_critical_error is_soft_error x r) z) ∙ q) in
        absurd (handle_error-IsFatal is_critical_error is_soft_error recognises e p.0 w)
  ]

  after_milestone-IsConsistent :
      (env : Env F) (parents : List ℕ) (w : World F) (r y : Runner B F)
      → r.last_milestone_block_id ≡ w.state.latest_milestone_block_id
      → after_milestone B is_critical_error is_soft_error (issue_milestone env parents w) r
        ≡ goes_on y
      → IsConsistent B y
  unfolding after_milestone
  after_milestone-IsConsistent env parents w r y c q = elim (issue_milestone-Ends env parents w) [
    | succeeds id v e p ↦
        subst (IsConsistent B)
          (ap runner_of
            (sym (ap (λ x. after_milestone B is_critical_error is_soft_error x r) e) ∙ q))
          (from_milestone-IsConsistent id (record r { world = v }) p.1)
    | fails e v z p ↦
        let (warns, t) =
          by_handled (handle_error is_critical_error is_soft_error e)
            (λ x. from_milestone B x.last_milestone_block_id x) (record r { world = v }) y
            (sym (ap (λ x. after_milestone B is_critical_error is_soft_error x r) z) ∙ q) in
        let (m, u) =
          issue_milestone-nonfatal env parents w v e z
            (λ f. handle_error-IsFatal is_critical_error is_soft_error recognises e f warns) in
        subst (IsConsistent B) (sym t) (
          from_milestone-IsConsistent r.last_milestone_block_id (record r { world = v })
            (c ∙ ap (λ s. s.latest_milestone_block_id) (sym u.same_state)))
  ]

  pub too_fast :
      (now : ℕ) (c : Choices B.Bits) (m : Meanwhile) (front env : Env F) (r : Runner B F)
      → (r.world.state.latest_milestone_time / 1000000000 == now / 1000000000) ≡ true
      → milestone_signal B is_critical_error is_soft_error now c m front env r ≡ goes_on r
  unfolding milestone_signal
  too_fast now c m front env r e = simp (e, milestone_signal) refl

  pub in_time :
      (now : ℕ) (c : Choices B.Bits) (m : Meanwhile) (front env : Env F) (r : Runner B F)
      → (r.world.state.latest_milestone_time / 1000000000 == now / 1000000000) ≡ false
      → let x = milestone_tips B m front (select_tips B c 1 r.selector) r in
        milestone_signal B is_critical_error is_soft_error now c m front env r
        ≡ after_milestone B is_critical_error is_soft_error
            (issue_milestone env (milestone_parents B x.0 x.1) x.1.world)
            (handle B m.in_milestone x.1)
  unfolding milestone_signal
  in_time now c m front env r e = simp (e, milestone_signal) refl

  milestone_signal-IsConsistent :
      (now : ℕ) (c : Choices B.Bits) (m : Meanwhile) (front env : Env F) (r y : Runner B F)
      → IsConsistent B r
      → milestone_signal B is_critical_error is_soft_error now c m front env r ≡ goes_on y
      → IsConsistent B y
  unfolding milestone_signal
  milestone_signal-IsConsistent now c m front env r y h q =
      elim (Bool-cases (r.world.state.latest_milestone_time / 1000000000 == now / 1000000000)) [
        | inl e ↦ subst (IsConsistent B) (ap runner_of (sym (too_fast now c m front env r e) ∙ q)) h
        | inr e ↦
            let x = milestone_tips B m front (select_tips B c 1 r.selector) r in
            let (same, state) =
              milestone_tips-KeepsLatest B m front (select_tips B c 1 r.selector) r in
            after_milestone-IsConsistent env (milestone_parents B x.0 x.1) x.1.world
              (handle B m.in_milestone x.1) y
              ((handle-KeepsLatest B m.in_milestone x.1).0
                ∙ same
                ∙ h.latest
                ∙ ap (λ s. s.latest_milestone_block_id) (sym state))
              (sym (in_time now c m front env r e) ∙ q)
      ]

  Step-IsConsistent :
      (x y : Runner B F)
      → Step B is_critical_error is_soft_error x y
      → IsConsistent B x
      → IsConsistent B y
  Step-IsConsistent x y (checkpoint max c hs env q) h =
      subst (IsConsistent B) (sym q) (checkpoint_signal-IsConsistent B max c hs env x h)
  Step-IsConsistent x y (milestone now c m front env q) h =
      milestone_signal-IsConsistent now c m front env x y h q
  Step-IsConsistent x y (handler a q) h =
      subst (IsConsistent B) (sym q) (handle_one-IsConsistent B a x h)

  -- In every state that the worker reaches, over any signals, events, errors and choices, it remembers
  -- the block of the coordinator's latest milestone, and while no checkpoint is counted the next one
  -- starts from that block. hornet recognises a critical error as one.
  pub Reached-IsConsistent :
      (env : Env F) (x y : Runner B F)
      → Reached B is_critical_error is_soft_error env x y
      → IsConsistent B y
  Reached-IsConsistent env x y (begun q) = begin-IsConsistent env x y q
  Reached-IsConsistent env x y (next {y = z} r s) =
      Step-IsConsistent z y s (Reached-IsConsistent env x z r)
