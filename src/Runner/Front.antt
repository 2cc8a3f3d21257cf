-- ===== src/Runner/Front.antt =====
-- core/coordinator/component.go: what stays in a milestone turn up to the milestone.
use inx_coordinator.Base.{
  ℕ, true, false, List, [], ◌∷◌, length, Result, ok, err, ltb, ◌≡◌, refl, sym, ◌∙◌, inl, inr,
  Bool-cases, drop,
}
use inx_coordinator.Selection.Bits.{Bitset}
use inx_coordinator.Selection.Selector.{Selector}
use inx_coordinator.Coordinator.Types.{World, Env}
use inx_coordinator.Coordinator.Operations.{issue_checkpoint}
use inx_coordinator.Runner.Loop.{after_front, front_checkpoint, milestone_tips}
use inx_coordinator.Runner.Handlers.{
  Happening, block_solid, milestone_confirmed, Meanwhile, Runner, handle_one, handle,
  on_block_solid, on_confirmed_milestone_changed,
}
use inx_coordinator.Runner.Invariant.{issue_checkpoint-state}

module _ (B : Bitset) {F : Type 0} where
  -- In front of a milestone the block of the last milestone and the coordinator's state stay.
  abbrev pub KeepsLatest : Runner B F → Runner B F → Type 0
  KeepsLatest r t =
      (t.last_milestone_block_id ≡ r.last_milestone_block_id) × (t.world.state ≡ r.world.state)

  after_front-KeepsLatest :
      (x : Result ℕ × World F) (r : Runner B F)
      → x.1.state ≡ r.world.state
      → KeepsLatest r (after_front B x r)
  unfolding after_front
  after_front-KeepsLatest (ok id, w) r e = (refl, e)
  after_front-KeepsLatest (err d, w) r e = (refl, e)

  KeepsLatest-trans : (r t u : Runner B F) → KeepsLatest r t → KeepsLatest t u → KeepsLatest r u
  KeepsLatest-trans r t u a b = (b.0 ∙ a.0, b.1 ∙ a.1)

  handle_one-KeepsLatest : (h : Happening) (r : Runner B F) → KeepsLatest r (handle_one B h r)
  unfolding handle_one on_block_solid on_confirmed_milestone_changed
  handle_one-KeepsLatest (block_solid max true id parents) r = (refl, refl)
  handle_one-KeepsLatest (block_solid max false id parents) r = (refl, refl)
  handle_one-KeepsLatest milestone_confirmed r = (refl, refl)

  pub handle-KeepsLatest : (hs : List Happening) (r : Runner B F) → KeepsLatest r (handle B hs r)
  unfolding handle
  handle-KeepsLatest [] r = (refl, refl)
  handle-KeepsLatest (h ∷ hs) r =
      KeepsLatest-trans r (handle_one B h r) (handle B hs (handle_one B h r))
        (handle_one-KeepsLatest h r) (handle-KeepsLatest hs (handle_one B h r))

  front_checkpoint-KeepsLatest :
      (m : Meanwhile) (env : Env F) (tips : List ℕ) (r : Runner B F)
      → KeepsLatest r (front_checkpoint B m env tips r)
  unfolding front_checkpoint
  front_checkpoint-KeepsLatest m env tips r = elim (Bool-cases (ltb 6 (length tips))) [
    | inl e ↦ rw (e) (
        let (same, state) = handle-KeepsLatest m.in_checkpoint r in
        let x =
          issue_checkpoint env r.last_checkpoint_index r.last_checkpoint_block_id (drop 6 tips)
            r.world in
        KeepsLatest-trans r (handle B m.in_checkpoint r)
          (after_front B x (handle B m.in_checkpoint r)) (same, state)
          (after_front-KeepsLatest x (handle B m.in_checkpoint r) (
            issue_checkpoint-state B env r.last_checkpoint_index r.last_checkpoint_block_id
              (drop 6 tips) r.world
            ∙ sym state)))
    | inr e ↦ rw (e) (refl, refl)
  ]

  pub milestone_tips-KeepsLatest :
      (m : Meanwhile) (env : Env F) (x : Result (List ℕ) × Selector B.Bits) (r : Runner B F)
      → KeepsLatest r (milestone_tips B m env x r).1
  unfolding milestone_tips
  milestone_tips-KeepsLatest m env (ok tips, s) r =
      let a = handle B m.after_selection (record r { selector = s }) in
      let b = front_checkpoint B m env tips a in
      KeepsLatest-trans r b (handle B m.before_parents b)
        (KeepsLatest-trans r a b (handle-KeepsLatest m.after_selection (record r { selector = s }))
          (front_checkpoint-KeepsLatest m env tips a))
        (handle-KeepsLatest m.before_parents b)
  milestone_tips-KeepsLatest m env (err e, s) r =
      handle-KeepsLatest m.before_parents (record r { selector = s })
