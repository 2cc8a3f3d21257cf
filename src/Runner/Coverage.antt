-- ===== src/Runner/Coverage.antt =====
-- core/coordinator/component.go: which blocks a milestone references.
use inx_coordinator.Base.{
  ℕ, ◌≤◌, Bool, true, false, List, [], ◌∷◌, ◌++◌, length, take, drop, Error, Result, ok, err, ltb,
  ◌≡◌, refl, sym, subst, ap, ◌∙◌, inl, inr, Bool-cases, arith, length-append, length-take,
  take-append-drop, drop_all, if◌then◌else◌,
}
use inx_coordinator.Selection.Bits.{Bitset}
use inx_coordinator.Selection.Selector.{Selector}
use inx_coordinator.Coordinator.Types.{World, Env, Effect}
use inx_coordinator.Coordinator.Operations.{issue_checkpoint, checkpoints_number}
use inx_coordinator.Coordinator.Hoare.{succeeds, fails}
use inx_coordinator.Coordinator.Emits.{Emits}
use inx_coordinator.Coordinator.Checkpoints.{Chain, issue_checkpoint-Ends}
use inx_coordinator.Runner.Handlers.{
  Happening, block_solid, milestone_confirmed, Meanwhile, Runner, handle_one, handle,
  on_block_solid, on_confirmed_milestone_changed,
}
use inx_coordinator.Runner.Loop.{after_front, front_checkpoint, milestone_tips, milestone_parents}

-- A milestone is confirmed meanwhile.
abbrev pub confirms : List Happening → Bool
confirms [] = false
confirms (block_solid max should_reattach id parents ∷ hs) = confirms hs
confirms (milestone_confirmed ∷ hs) = true

same_both : (b : Bool) (n : ℕ) → (if b then n else n) ≡ n
same_both true n = refl
same_both false n = refl

module _ (B : Bitset) {F : Type 0} where
  handle-last_checkpoint :
      (hs : List Happening) (r : Runner B F)
      → (handle B hs r).last_checkpoint_block_id
        ≡ (if confirms hs then r.last_milestone_block_id else r.last_checkpoint_block_id)
  unfolding handle handle_one on_block_solid on_confirmed_milestone_changed
  handle-last_checkpoint [] r = refl
  handle-last_checkpoint (block_solid max true id parents ∷ hs) r = handle-last_checkpoint hs r
  handle-last_checkpoint (block_solid max false id parents ∷ hs) r =
      handle-last_checkpoint hs (handle_one B (block_solid max false id parents) r)
  handle-last_checkpoint (milestone_confirmed ∷ hs) r =
      handle-last_checkpoint hs (on_confirmed_milestone_changed B r) ∙ same_both (confirms hs) _

  handle-last_milestone :
      (hs : List Happening) (r : Runner B F)
      → (handle B hs r).last_milestone_block_id ≡ r.last_milestone_block_id
  unfolding handle handle_one on_block_solid on_confirmed_milestone_changed
  handle-last_milestone [] r = refl
  handle-last_milestone (block_solid max true id parents ∷ hs) r = handle-last_milestone hs r
  handle-last_milestone (block_solid max false id parents ∷ hs) r =
      handle-last_milestone hs (handle_one B (block_solid max false id parents) r)
  handle-last_milestone (milestone_confirmed ∷ hs) r =
      handle-last_milestone hs (on_confirmed_milestone_changed B r)

  pub handle-world : (hs : List Happening) (r : Runner B F) → (handle B hs r).world ≡ r.world
  unfolding handle handle_one on_block_solid on_confirmed_milestone_changed
  handle-world [] r = refl
  handle-world (block_solid max true id parents ∷ hs) r = handle-world hs r
  handle-world (block_solid max false id parents ∷ hs) r =
      handle-world hs (handle_one B (block_solid max false id parents) r)
  handle-world (milestone_confirmed ∷ hs) r = handle-world hs (on_confirmed_milestone_changed B r)

  -- The tips of the milestone turn, from the runner `r` after the selection to the runner `t` when
  -- the parents are collected: what became of those beyond the limit. There were none; or the
  -- checkpoint has failed; or a chain of checkpoints from the last one references them all, and its
  -- end is the new last checkpoint, unless a milestone was confirmed behind it, for then the last
  -- checkpoint is the block of the last milestone.
  pub data Rest (m : Meanwhile) (env : Env F) (r t : Runner B F) (rest : List ℕ) : Type 0 where
    fits : rest ≡ [] → Rest m env r t rest
    lost :
        (e : Error) (v : World F)
        → issue_checkpoint env r.last_checkpoint_index r.last_checkpoint_block_id rest r.world
          ≡ (err e, v)
        → Rest m env r t rest
    chained :
        (id : ℕ) (es : List (Effect F))
        → Chain env r.last_checkpoint_index
            (checkpoints_number (length rest))
            0
            (checkpoints_number (length rest))
            r.last_checkpoint_block_id
            rest
            es
            id
        → Emits r.world t.world es
        → t.last_checkpoint_block_id
          ≡ (if confirms m.before_parents then r.last_milestone_block_id else id)
        → Rest m env r t rest

  -- The runner behind the checkpoint, and when the parents are collected.
  abbrev behind : Meanwhile → Env F → List ℕ → Runner B F → Runner B F
  behind m env rest r =
      after_front B
        (issue_checkpoint env r.last_checkpoint_index r.last_checkpoint_block_id rest r.world)
        (handle B m.in_checkpoint r)

  after_front-last_milestone :
      (x : Result ℕ × World F) (r : Runner B F)
      → (after_front B x r).last_milestone_block_id ≡ r.last_milestone_block_id
  unfolding after_front
  after_front-last_milestone (ok id, w) r = refl
  after_front-last_milestone (err e, w) r = refl

  behind_ok :
      (m : Meanwhile) (r : Runner B F) (id : ℕ) (v : World F)
      → (handle B m.before_parents
          (after_front B (ok id, v) (handle B m.in_checkpoint r))).last_checkpoint_block_id
        ≡ (if confirms m.before_parents then r.last_milestone_block_id else id)
  unfolding after_front
  behind_ok m r id v =
      handle-last_checkpoint m.before_parents
        (after_front B (ok id, v) (handle B m.in_checkpoint r))
      ∙ ap (λ x. if confirms m.before_parents then x else id)
          (handle-last_milestone m.in_checkpoint r)

  after_front-world :
      (m : Meanwhile) (r : Runner B F) (id : ℕ) (v : World F)
      → (handle B m.before_parents (after_front B (ok id, v) (handle B m.in_checkpoint r))).world
        ≡ v
  unfolding after_front
  after_front-world m r id v =
      handle-world m.before_parents (after_front B (ok id, v) (handle B m.in_checkpoint r))

  behind-Rest :
      (m : Meanwhile) (env : Env F) (rest : List ℕ) (r : Runner B F)
      → Rest m env r (handle B m.before_parents (behind m env rest r)) rest
  behind-Rest m env rest r =
      elim (issue_checkpoint-Ends env r.last_checkpoint_index r.last_checkpoint_block_id rest
        r.world) [
          | succeeds id v q (es, c, e) ↦
              subst
                (λ x.
                  Rest m env r
                    (handle B m.before_parents (after_front B x (handle B m.in_checkpoint r))) rest)
                (sym q) (chained id es c (after_front-world m r id v ∙ e) (behind_ok m r id v))
          | fails e v q h ↦ lost e v q
        ]

  milestone_parents-length :
      (tips : List ℕ) (t : Runner B F) → length (milestone_parents B (take 6 tips) t) ≤ 8
  milestone_parents-length tips t = omega (
    arith,
    length-append (take 6 tips) (t.last_milestone_block_id ∷ t.last_checkpoint_block_id ∷ []),
    length-take 6 tips,
  )

  front_checkpoint-Rest :
      (m : Meanwhile) (env : Env F) (tips : List ℕ) (r : Runner B F)
      → Rest m env r (handle B m.before_parents (front_checkpoint B m env tips r)) (drop 6 tips)
  unfolding front_checkpoint
  front_checkpoint-Rest m env tips r = elim (Bool-cases (ltb 6 (length tips))) [
    | inr e ↦ rw (e) (fits (drop_all 6 tips (ground arith)))
    | inl e ↦ rw (e) (behind-Rest m env (drop 6 tips) r)
  ]

  front_checkpoint-last_milestone :
      (m : Meanwhile) (env : Env F) (tips : List ℕ) (r : Runner B F)
      → (front_checkpoint B m env tips r).last_milestone_block_id ≡ r.last_milestone_block_id
  unfolding front_checkpoint
  front_checkpoint-last_milestone m env tips r = elim (Bool-cases (ltb 6 (length tips))) [
    | inr e ↦ rw (e) refl
    | inl e ↦ rw (e) (
        after_front-last_milestone
          (issue_checkpoint env r.last_checkpoint_index r.last_checkpoint_block_id (drop 6 tips)
            r.world)
          (handle B m.in_checkpoint r)
        ∙ handle-last_milestone m.in_checkpoint r)
  ]

  -- The tips of a milestone turn: at most six stay for the milestone, so that it has at most eight
  -- parents, the selected tips are these and the rest, and the rest is as `Rest` says, from the runner
  -- after the selection. The block of the last milestone and the last checkpoint are parents too.
  pub milestone_tips-Rest :
      (m : Meanwhile) (env : Env F) (tips : List ℕ) (s : Selector B.Bits) (r : Runner B F)
      → let (kept, t) = milestone_tips B m env (ok tips, s) r in
        (length (milestone_parents B kept t) ≤ 8)
        × ((rest : List ℕ) × (kept ++ rest ≡ tips)
            × Rest m env (handle B m.after_selection (record r { selector = s })) t rest)
  unfolding milestone_tips
  milestone_tips-Rest m env tips s r =
      let a = handle B m.after_selection (record r { selector = s }) in
      (
        milestone_parents-length tips (handle B m.before_parents (front_checkpoint B m env tips a)),
        (drop 6 tips, take-append-drop 6 tips, front_checkpoint-Rest m env tips a),
      )

  -- If the confirmation of a milestone is handled between the checkpoint in front and the
  -- collection of the parents, the parents are the tips that stay and twice the block of the last
  -- milestone: the checkpoint with the rest of the tips is none of them.
  pub milestone_tips_forget :
      (m : Meanwhile) (env : Env F) (tips : List ℕ) (s : Selector B.Bits) (r : Runner B F)
      → confirms m.before_parents ≡ true
      → let (kept, t) = milestone_tips B m env (ok tips, s) r in
        milestone_parents B kept t
        ≡ take 6 tips ++ (r.last_milestone_block_id ∷ r.last_milestone_block_id ∷ [])
  unfolding milestone_tips
  milestone_tips_forget m env tips s r c =
      let a = handle B m.after_selection (record r { selector = s }) in
      let f = front_checkpoint B m env tips a in
      let kept =
        front_checkpoint-last_milestone m env tips a
        ∙ handle-last_milestone m.after_selection (record r { selector = s }) in
      let last = handle-last_milestone m.before_parents f ∙ kept in
      let forgotten =
        handle-last_checkpoint m.before_parents f
        ∙ ap (λ b. if b then f.last_milestone_block_id else f.last_checkpoint_block_id) c
        ∙ kept in
      λ i. take 6 tips ++ (last i ∷ forgotten i ∷ [])
