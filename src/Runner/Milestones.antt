-- ===== src/Runner/Milestones.antt =====
-- core/coordinator/component.go: the milestones that the worker sends, over all its turns.
use inx_coordinator.Base.{
  ℕ, ◌/◌, Bool, true, List, [], ◌∷◌, Error, Result, ok, err, critical, ltb, ◌==◌, ◌≡◌, refl, sym,
  ap, subst, ◌∙◌, inl, inr, Bool-cases, length, drop,
}
use inx_coordinator.Selection.Bits.{Bitset}
use inx_coordinator.Selection.Selector.{Selector, tracked_blocks_count}
use inx_coordinator.Selection.Picking.{Choices, select_tips}
use inx_coordinator.Coordinator.Types.{Milestone, World, Env}
use inx_coordinator.Coordinator.Operations.{issue_milestone, issue_checkpoint}
use inx_coordinator.Coordinator.Hoare.{succeeds, fails}
use inx_coordinator.Coordinator.Safety.{issue_milestone-Ends}
use inx_coordinator.Coordinator.Start.{bootstrap-Ends}
use inx_coordinator.Coordinator.Chain.{
  IsLinked, none-IsLinked, trans-IsLinked, issue_milestone_ok-IsLinked,
  issue_milestone_err-IsLinked, bootstrap-IsLinked, issue_checkpoint-IsLinked,
}
use inx_coordinator.Runner.Handlers.{Happening, Meanwhile, Runner, handle_one, handle}
use inx_coordinator.Runner.Loop.{
  goes_on, handle_error, from_milestone, after_bootstrap, begin, after_checkpoint, checkpoint_tips,
  checkpoint_signal, after_front, front_checkpoint, milestone_tips, milestone_parents,
  after_milestone, milestone_signal, Step, checkpoint, milestone, handler, Reached, begun, next,
}
use inx_coordinator.Runner.Coverage.{handle-world}
use inx_coordinator.Runner.Consistency.{
  runner_of, by_handled, handle_error-IsFatal, too_fast, in_time,
}

module _ (B : Bitset) {F : Type 0} (hash : Milestone F → Result ℕ) where
  -- From one runner to another the milestones are linked.
  abbrev Linked : Runner B F → Runner B F → Type 0
  Linked r t = IsLinked hash r.world t.world

  Linked-same : (r t : Runner B F) → t.world ≡ r.world → Linked r t
  Linked-same r t e = subst (IsLinked hash r.world) (sym e) (none-IsLinked hash r.world)

  after_checkpoint-world :
      (x : Result ℕ × World F) (r : Runner B F) → (after_checkpoint B x r).world ≡ x.1
  unfolding after_checkpoint
  after_checkpoint-world (ok id, w) r = refl
  after_checkpoint-world (err e, w) r = refl

  after_front_world : (x : Result ℕ × World F) (r : Runner B F) → (after_front B x r).world ≡ x.1
  unfolding after_front
  after_front_world (ok id, w) r = refl
  after_front_world (err e, w) r = refl

  checkpoint_tips-Linked :
      (env : Env F) (x : Result (List ℕ) × Selector B.Bits) (r : Runner B F)
      → Linked r (checkpoint_tips B env x r)
  unfolding checkpoint_tips
  checkpoint_tips-Linked env (ok tips, s) r =
      subst (IsLinked hash r.world)
        (sym (
          after_checkpoint-world
            (issue_checkpoint env r.last_checkpoint_index r.last_checkpoint_block_id tips r.world)
            (record r { selector = s })))
        (issue_checkpoint-IsLinked env hash r.last_checkpoint_index r.last_checkpoint_block_id tips
          r.world)
  checkpoint_tips-Linked env (err e, s) r = none-IsLinked hash r.world

  checkpoint_signal-Linked :
      (max : ℕ) (c : Choices B.Bits) (hs : List Happening) (env : Env F) (r : Runner B F)
      → Linked r (checkpoint_signal B max c hs env r)
  unfolding checkpoint_signal
  checkpoint_signal-Linked max c hs env r =
      elim (Bool-cases (ltb (tracked_blocks_count r.selector) max)) [
        | inl e ↦ rw (e) (none-IsLinked hash r.world)
        | inr e ↦ rw (e) (
            subst
              (λ w.
                IsLinked hash w
                  (checkpoint_tips B env (select_tips B c 0 (handle B hs r).selector)
                    (handle B hs r)).world)
              (handle-world B hs r)
              (checkpoint_tips-Linked env (select_tips B c 0 (handle B hs r).selector)
                (handle B hs r)))
      ]

  front_checkpoint-Linked :
      (m : Meanwhile) (env : Env F) (tips : List ℕ) (r : Runner B F)
      → Linked r (front_checkpoint B m env tips r)
  unfolding front_checkpoint
  front_checkpoint-Linked m env tips r = elim (Bool-cases (ltb 6 (length tips))) [
    | inl e ↦ rw (e) (
        subst (IsLinked hash r.world)
          (sym (
            after_front_world
              (issue_checkpoint env r.last_checkpoint_index r.last_checkpoint_block_id (drop 6 tips)
                r.world)
              (handle B m.in_checkpoint r)))
          (issue_checkpoint-IsLinked env hash r.last_checkpoint_index r.last_checkpoint_block_id
            (drop 6 tips) r.world))
    | inr e ↦ rw (e) (none-IsLinked hash r.world)
  ]

  milestone_tips-Linked :
      (m : Meanwhile) (env : Env F) (x : Result (List ℕ) × Selector B.Bits) (r : Runner B F)
      → Linked r (milestone_tips B m env x r).1
  unfolding milestone_tips
  milestone_tips-Linked m env (ok tips, s) r =
      let a = handle B m.after_selection (record r { selector = s }) in
      let f = front_checkpoint B m env tips a in
      subst (IsLinked hash r.world) (sym (handle-world B m.before_parents f)) (
        subst (λ w. IsLinked hash w f.world)
          (handle-world B m.after_selection (record r { selector = s }))
          (front_checkpoint-Linked m env tips a))
  milestone_tips-Linked m env (err e, s) r =
      Linked-same r (handle B m.before_parents (record r { selector = s }))
        (handle-world B m.before_parents (record r { selector = s }))

module _ (B : Bitset) {F : Type 0} (is_critical_error is_soft_error : Error → Bool)
    (hash : Milestone F → Result ℕ) where
  -- The environment of a milestone turn has this milestone ID.
  abbrev StepHashes : {x y : Runner B F} → Step B is_critical_error is_soft_error x y → Type 0
  StepHashes (checkpoint max c hs env q) = Unit
  StepHashes (milestone now c m front env q) = env.milestone_id ≡ hash
  StepHashes (handler h q) = Unit

  -- All environments that issue milestones in the run have this milestone ID.
  abbrev pub Hashes :
      {env : Env F} {x y : Runner B F} → Reached B is_critical_error is_soft_error env x y → Type 0
  Hashes {env = env} (begun q) = env.milestone_id ≡ hash
  Hashes (next r s) = Hashes r × StepHashes s

module _ (B : Bitset) {F : Type 0} (is_critical_error is_soft_error : Error → Bool)
    (recognises : (e : Error) → is_critical_error (critical e) ≡ true)
    (hash : Milestone F → Result ℕ) where
  begin-Linked :
      (env : Env F) (r y : Runner B F)
      → env.milestone_id ≡ hash
      → begin B is_critical_error is_soft_error env r ≡ goes_on y
      → Linked B hash r y
  unfolding begin after_bootstrap
  begin-Linked env r y h q = elim (bootstrap-Ends env r.world) [
    | succeeds id v e p ↦
        subst (IsLinked hash r.world)
          (ap (λ t. (runner_of {R = Runner B F} t).world)
            (sym (ap (λ x. after_bootstrap B is_critical_error is_soft_error x r) e) ∙ q))
          (subst (λ f. IsLinked f r.world v) h (bootstrap-IsLinked env r.world v id e))
    | fails e v z p ↦
        let (w, t) =
          by_handled B is_critical_error is_soft_error recognises
            (handle_error is_critical_error is_soft_error e) (from_milestone B 0)
            (record r { world = v }) y
            (sym (ap (λ x. after_bootstrap B is_critical_error is_soft_error x r) z) ∙ q) in
        absurd (handle_error-IsFatal is_critical_error is_soft_error recognises e p.0 w)
  ]

  after_milestone-Linked :
      (env : Env F) (parents : List ℕ) (w : World F) (r y : Runner B F)
      → env.milestone_id ≡ hash
      → after_milestone B is_critical_error is_soft_error (issue_milestone env parents w) r
        ≡ goes_on y
      → IsLinked hash w y.world
  unfolding after_milestone
  after_milestone-Linked env parents w r y h q = elim (issue_milestone-Ends env parents w) [
    | succeeds id v e p ↦
        subst (IsLinked hash w)
          (ap (λ t. (runner_of {R = Runner B F} t).world)
            (sym (ap (λ x. after_milestone B is_critical_error is_soft_error x r) e) ∙ q))
          (subst (λ f. IsLinked f w v) h (issue_milestone_ok-IsLinked env parents w v id e))
    | fails e v z p ↦
        let (warns, t) =
          by_handled B is_critical_error is_soft_error recognises
            (handle_error is_critical_error is_soft_error e)
            (λ x. from_milestone B x.last_milestone_block_id x) (record r { world = v }) y
            (sym (ap (λ x. after_milestone B is_critical_error is_soft_error x r) z) ∙ q) in
        subst (IsLinked hash w) (sym (ap (λ x. x.world) t)) (
          issue_milestone_err-IsLinked env hash parents w v e z
            (λ f. handle_error-IsFatal is_critical_error is_soft_error recognises e f warns))
  ]

  milestone_signal-Linked :
      (now : ℕ) (c : Choices B.Bits) (m : Meanwhile) (front env : Env F) (r y : Runner B F)
      → env.milestone_id ≡ hash
      → milestone_signal B is_critical_error is_soft_error now c m front env r ≡ goes_on y
      → Linked B hash r y
  milestone_signal-Linked now c m front env r y h q =
      elim (Bool-cases (r.world.state.latest_milestone_time / 1000000000 == now / 1000000000)) [
        | inl e ↦
            subst (IsLinked hash r.world)
              (ap (λ t. (runner_of {R = Runner B F} t).world)
                (sym (too_fast B is_critical_error is_soft_error recognises now c m front env r e)
                  ∙ q))
              (none-IsLinked hash r.world)
        | inr e ↦
            let x = milestone_tips B m front (select_tips B c 1 r.selector) r in
            trans-IsLinked hash r.world x.1.world y.world
              (milestone_tips-Linked B hash m front (select_tips B c 1 r.selector) r)
              (after_milestone-Linked env (milestone_parents B x.0 x.1) x.1.world
                (handle B m.in_milestone x.1) y h
                (sym (in_time B is_critical_error is_soft_error recognises now c m front env r e)
                  ∙ q))
      ]

  Step-Linked :
      (x y : Runner B F) (s : Step B is_critical_error is_soft_error x y)
      → StepHashes B is_critical_error is_soft_error hash s
      → Linked B hash x y
  unfolding handle handle_one
  Step-Linked x y (checkpoint max c hs env q) h =
      subst (IsLinked hash x.world) (sym (ap (λ t. t.world) q))
        (checkpoint_signal-Linked B hash max c hs env x)
  Step-Linked x y (milestone now c m front env q) h =
      milestone_signal-Linked now c m front env x y h q
  Step-Linked x y (handler a q) h =
      Linked-same B hash x y (ap (λ t. t.world) q ∙ handle-world B (a ∷ []) x)

  -- In every run of the worker, over any signals, events, errors and choices, the milestones that were
  -- sent form a chain from the coordinator's first state to the one that is reached: each has the next
  -- index and the ID of the one before. The milestone ID is one function in all turns, and hornet
  -- recognises a critical error as one.
  pub Reached-IsLinked :
      (env : Env F) (x y : Runner B F) (r : Reached B is_critical_error is_soft_error env x y)
      → Hashes B is_critical_error is_soft_error hash r
      → IsLinked hash x.world y.world
  Reached-IsLinked env x y (begun q) h = begin-Linked env x y h q
  Reached-IsLinked env x y (next {y = z} r s) h =
      trans-IsLinked hash x.world z.world y.world (Reached-IsLinked env x z r h.0)
        (Step-Linked z y s h.1)
