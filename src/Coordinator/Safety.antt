-- ===== src/Coordinator/Safety.antt =====
-- pkg/coordinator/coordinator.go: what `IssueMilestone` guarantees on every branch.
use inx_coordinator.Base.{
  ℕ, ◌+◌, true, false, some, List, [], ◌∷◌, ◌++◌, Error, err, soft, ◌≡◌, refl, sym, subst, ap, ◌⊎◌,
  inl, inr, append-nil, All, u32, Bool-cases, node_not_synced, node_load_too_high,
}
use inx_coordinator.Coordinator.Types.{World, Effect, Env, quorum_finished}
use inx_coordinator.Coordinator.Hoare.{Ends, succeeds, fails, Ends->>=, Ends-err}
use inx_coordinator.Coordinator.Actions.{Action, ◌>>=◌, ◌>>◌, get}
use inx_coordinator.Coordinator.Milestone.{create_and_send_milestone}
use inx_coordinator.Coordinator.Operations.{
  check_back_pressure_functions, check_node, issue_milestone, latest_block_id,
}
use inx_coordinator.Coordinator.Stages.{IsFatal, is_critical, Keeps}
use inx_coordinator.Coordinator.Outcomes.{IsUnsent, unmoved, torn, unwritten}
use inx_coordinator.Coordinator.Endings.{
  Issued, Failed, refused, halted, broken, create_and_send_milestone-Ends,
}

-- The node is not synchronised, or a back pressure function signals load.
pub data NotReady {F : Type 0} (env : Env F) : Error → Type 0 where
  not_synced : env.is_node_synced ≡ false → NotReady env (soft node_not_synced)
  too_busy :
      env.is_node_synced ≡ true
      → check_back_pressure_functions env.backpressure ≡ true
      → NotReady env (soft node_load_too_high)

module _ {F : Type 0} where
  -- The index of the next milestone.
  abbrev pub next_index : World F → ℕ
  next_index w = u32 (w.state.latest_milestone_index + 1)

  -- Nothing was sent, and only effects that others do not act on were added.
  pub record Unchanged (w w' : World F) : Type 0 where
    pub same_state : w'.state ≡ w.state
    pub same_file : w'.file ≡ w.file
    pub same_flag : w'.bootstrapped ≡ w.bootstrapped
    pub new_effects : List (Effect F)
    pub effects_eq : w'.effects ≡ w.effects ++ new_effects
    pub are_unsent : All IsUnsent new_effects

  pub Unchanged-same : {w v : World F} → v ≡ w → Unchanged w v
  Unchanged-same {w = w} q =
      subst (λ y. Unchanged w y) (sym q)
        (record {
          same_state = refl;
          same_file = refl;
          same_flag = refl;
          new_effects = [];
          effects_eq = sym (append-nil w.effects);
          are_unsent = tt;
        })

  pub Keeps-Unchanged :
      {w v : World F} {es : List (Effect F)} → Keeps w v es → All IsUnsent es → Unchanged w v
  Keeps-Unchanged {es = es} k u = record {
    same_state = k.state_eq;
    same_file = k.file_eq;
    same_flag = k.bootstrapped_eq;
    new_effects = es;
    effects_eq = k.effects_eq;
    are_unsent = u;
  }

  pub refused-Unchanged :
      {w v : World F} (e : Error)
      → v ≡ record w { effects = w.effects ++ (quorum_finished (some e) ∷ []) }
      → Unchanged w v
  refused-Unchanged {w = w} e q =
      subst (λ y. Unchanged w y) (sym q)
        (record {
          same_state = refl;
          same_file = refl;
          same_flag = refl;
          new_effects = quorum_finished (some e) ∷ [];
          effects_eq = refl;
          are_unsent = (tt, tt);
        })

module _ {F : Type 0} (env : Env F) where
  pub check_node-Ends :
      (w : World F)
      → Ends
          (check_node env w)
          (λ _ v.
            (env.is_node_synced ≡ true)
            × (check_back_pressure_functions env.backpressure ≡ false)
            × (v ≡ w))
          (λ e v. NotReady env e × (v ≡ w))
  unfolding check_node
  check_node-Ends w = elim (Bool-cases env.is_node_synced) [
    | inr n ↦ fails (soft node_not_synced) w (simp (n, check_node) refl) (not_synced n, refl)
    | inl y ↦ elim (Bool-cases (check_back_pressure_functions env.backpressure)) [
      | inl b ↦
          fails (soft node_load_too_high) w (simp (y, b, check_node) refl) (too_busy y b, refl)
      | inr b ↦ succeeds tt w (simp (y, b, check_node) refl) (y, b, refl)
    ]
  ]

  abbrev milestone_from : List ℕ → World F → Action (World F) ℕ
  milestone_from parents v =
      create_and_send_milestone env parents (next_index v) v.state.latest_milestone_id
      >> latest_block_id env

  abbrev pub IssuesNext : List ℕ → World F → ℕ → World F → Type 0
  IssuesNext parents w id v =
      Issued env parents (next_index w) w.state.latest_milestone_id w v
      × (id ≡ v.state.latest_milestone_block_id)

  abbrev pub FailsNext : List ℕ → World F → Error → World F → Type 0
  FailsNext parents w e v =
      (NotReady env e × (v ≡ w))
      ⊎ Failed env parents (next_index w) w.state.latest_milestone_id w e v

  pub issue_milestone-Ends :
      (parents : List ℕ) (w : World F)
      → Ends (issue_milestone env parents w) (IssuesNext parents w) (FailsNext parents w)
  unfolding issue_milestone
  issue_milestone-Ends parents w =
      Ends->>= (check_node env) (λ _. get >>= milestone_from parents) w (check_node-Ends w)
        (λ e v h. inl h)
        (λ _ v (y, b, q).
          subst
            (λ v. Ends (milestone_from parents v v) (IssuesNext parents w) (FailsNext parents w))
            (sym q)
            (Ends->>=
              (create_and_send_milestone env parents (next_index w) w.state.latest_milestone_id)
              (λ _. latest_block_id env) w
              (create_and_send_milestone-Ends env parents (next_index w) w.state.latest_milestone_id
                w)
              (λ e v h. inr h)
              (λ _ v h. succeeds v.state.latest_milestone_block_id v refl (h, refl))))

  Failed-nonfatal :
      {parents : List ℕ} {i p : ℕ} {w v : World F} {e : Error}
      → ¬ IsFatal e
      → Failed env parents i p w e v
      → (v.migrator ≡ w.migrator) × Unchanged w v
  Failed-nonfatal {w = w} n (refused {e = e} roots r q) =
      (ap (λ y. y.migrator) q, refused-Unchanged e q)
  Failed-nonfatal n (halted flags f c k y) = absurd (n f)
  Failed-nonfatal n (broken opts p unmoved) = absurd (n is_critical)
  Failed-nonfatal n (broken opts p (torn f g s b)) = absurd (n f)
  Failed-nonfatal n (broken opts p (unwritten f d m x y z b)) = absurd (n is_critical)

  -- When `IssueMilestone` returns an error that does not stop the program, nothing is lost: the
  -- state, the state file, the flag and the migrator with its next receipt are as they were, and no
  -- block was sent.
  pub issue_milestone-nonfatal :
      (parents : List ℕ) (w v : World F) (e : Error)
      → issue_milestone env parents w ≡ (err e, v)
      → ¬ IsFatal e
      → (v.migrator ≡ w.migrator) × Unchanged w v
  issue_milestone-nonfatal parents w v e q n = elim (Ends-err (issue_milestone-Ends parents w) q) [
    | inl (r, u) ↦ (ap (λ y. y.migrator) u, Unchanged-same u)
    | inr f ↦ Failed-nonfatal n f
  ]
