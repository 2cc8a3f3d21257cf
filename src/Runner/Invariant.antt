-- ===== src/Runner/Invariant.antt =====
-- core/coordinator/component.go: what the variables of the worker have to do with the coordinator, between
-- the turns; the handlers and the checkpoint turn keep it.
use inx_coordinator.Base.{
  ℕ, true, false, List, [], ◌∷◌, Result, ok, err, ltb, ◌≡◌, refl, sym, ap, subst, ◌∙◌, inl, inr,
  Bool-cases, arith,
}
use inx_coordinator.Selection.Bits.{Bitset}
use inx_coordinator.Selection.Selector.{Selector, tracked_blocks_count}
use inx_coordinator.Selection.Picking.{Choices, select_tips}
use inx_coordinator.Coordinator.Types.{World, Env}
use inx_coordinator.Coordinator.Operations.{issue_checkpoint}
use inx_coordinator.Coordinator.Hoare.{succeeds, fails}
use inx_coordinator.Coordinator.Checkpoints.{issue_checkpoint-Ends}
use inx_coordinator.Runner.Loop.{after_checkpoint, checkpoint_tips, checkpoint_signal}
use inx_coordinator.Runner.Handlers.{
  Happening, block_solid, milestone_confirmed, Runner, handle_one, handle, on_block_solid,
  on_confirmed_milestone_changed,
}

module _ (B : Bitset) {F : Type 0} where
  -- The worker remembers the block of the coordinator's latest milestone, and with no checkpoint
  -- counted the next one starts from it.
  pub record IsConsistent (r : Runner B F) : Type 0 where
    pub latest : r.last_milestone_block_id ≡ r.world.state.latest_milestone_block_id
    pub anchored :
        r.last_checkpoint_index ≡ 0 → r.last_checkpoint_block_id ≡ r.last_milestone_block_id

  moved_world :
      (r : Runner B F) (w : World F)
      → w.state ≡ r.world.state
      → IsConsistent r
      → IsConsistent (record r { world = w })
  moved_world r w e c = record {
    latest = c.latest ∙ ap (λ s. s.latest_milestone_block_id) (sym e);
    anchored = c.anchored;
  }

  pub handle_one-IsConsistent :
      (h : Happening) (r : Runner B F) → IsConsistent r → IsConsistent (handle_one B h r)
  unfolding handle_one on_block_solid on_confirmed_milestone_changed
  handle_one-IsConsistent (block_solid max true id parents) r h = h
  handle_one-IsConsistent (block_solid max false id parents) r h = record {
    latest = h.latest;
    anchored = h.anchored;
  }
  handle_one-IsConsistent milestone_confirmed r h = record {
    latest = h.latest;
    anchored = λ z. refl;
  }

  handle-IsConsistent :
      (hs : List Happening) (r : Runner B F) → IsConsistent r → IsConsistent (handle B hs r)
  unfolding handle
  handle-IsConsistent [] r h = h
  handle-IsConsistent (x ∷ hs) r h =
      handle-IsConsistent hs (handle_one B x r) (handle_one-IsConsistent x r h)

  -- A checkpoint leaves the coordinator's state alone.
  pub issue_checkpoint-state :
      (env : Env F) (i last : ℕ) (tips : List ℕ) (w : World F)
      → (issue_checkpoint env i last tips w).1.state ≡ w.state
  issue_checkpoint-state env i last tips w = elim (issue_checkpoint-Ends env i last tips w) [
    | succeeds id v e (es, c, m) ↦ ap (λ x. x.1.state) e ∙ ap (λ x. x.state) m
    | fails d v e (s, (es, m, a)) ↦ ap (λ x. x.1.state) e ∙ ap (λ x. x.state) m
  ]

  after_checkpoint-IsConsistent :
      (x : Result ℕ × World F) (r : Runner B F)
      → x.1.state ≡ r.world.state
      → IsConsistent r
      → IsConsistent (after_checkpoint B x r)
  unfolding after_checkpoint
  after_checkpoint-IsConsistent (ok id, w) r e c = record {
    latest = (moved_world r w e c).latest;
    anchored = λ z. absurd (ground arith);
  }
  after_checkpoint-IsConsistent (err d, w) r e c = moved_world r w e c

  checkpoint_tips-IsConsistent :
      (env : Env F) (x : Result (List ℕ) × Selector B.Bits) (r : Runner B F)
      → IsConsistent r
      → IsConsistent (checkpoint_tips B env x r)
  unfolding checkpoint_tips
  checkpoint_tips-IsConsistent env (ok tips, s) r c =
      after_checkpoint-IsConsistent _ (record r { selector = s })
        (issue_checkpoint-state env r.last_checkpoint_index r.last_checkpoint_block_id tips r.world)
        (record { latest = c.latest; anchored = c.anchored })
  checkpoint_tips-IsConsistent env (err e, s) r c = record {
    latest = c.latest;
    anchored = c.anchored;
  }

  pub checkpoint_signal-IsConsistent :
      (max : ℕ) (c : Choices B.Bits) (hs : List Happening) (env : Env F) (r : Runner B F)
      → IsConsistent r
      → IsConsistent (checkpoint_signal B max c hs env r)
  unfolding checkpoint_signal
  checkpoint_signal-IsConsistent max c hs env r h =
      elim (Bool-cases (ltb (tracked_blocks_count r.selector) max)) [
        | inl e ↦ subst (IsConsistent) (sym (simp (e, checkpoint_signal) refl)) h
        | inr e ↦ subst (IsConsistent) (sym (simp (e, checkpoint_signal) refl)) (
            checkpoint_tips-IsConsistent env (select_tips B c 0 (handle B hs r).selector)
              (handle B hs r) (handle-IsConsistent hs r h))
      ]
