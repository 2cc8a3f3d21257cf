-- ===== src/Coordinator/Stages.antt =====
-- pkg/coordinator/coordinator.go: how each stage of `createAndSendMilestone` ends.
use inx_coordinator.Base.{
  soft, ◌≢◌, ℕ, Bool, Option, none, some, List, [], ◌∷◌, ◌++◌, Error, ok, critical, panicked, ◌≡◌,
  refl, sym, ap, some-injective, ◌∙◌, ◌⊎◌, inl, inr, Result-cases, Option-cases, append_assoc,
  append-nil,
}
use inx_coordinator.Migrator.Service.{
  Receipt, Receive, panic, returns, receipt, persist_state, Service,
}
use inx_coordinator.Migrator.Service
use inx_coordinator.Quorum.Group.{MilestoneMerkleRoots}
use inx_coordinator.Coordinator.Types.{
  World, Effect, Env, quorum_finished, persisted_migrator, unix_seconds,
}
use inx_coordinator.Coordinator.Hoare.{Ends, succeeds, fails}
use inx_coordinator.Coordinator.Milestone.{critical_wrap, ask_quorum, persist_migrator}

-- An error that stops the program: hornet's critical error, or a panic.
pub data IsFatal : Error → Type 0 where
  is_critical : {e : Error} → IsFatal (critical e)
  is_panic : IsFatal panicked

pub IsFatal-soft : {d : Error} (e : Error) → IsFatal d → d ≢ soft e
IsFatal-soft e is_critical p = cc
IsFatal-soft e is_panic p = cc

module _ {F : Type 0} where
  -- The stages before the state file is moved change the migrator and the effects, by `es`.
  pub record Keeps (w w' : World F) (es : List (Effect F)) : Type 0 where
    pub state_eq : w'.state ≡ w.state
    pub file_eq : w'.file ≡ w.file
    pub bootstrapped_eq : w'.bootstrapped ≡ w.bootstrapped
    pub effects_eq : w'.effects ≡ w.effects ++ es

  pub Keeps-same :
      {w : World F} {m : Option Service} {es fs : List (Effect F)}
      → w.effects ++ es ≡ fs
      → Keeps w (record w { migrator = m; effects = fs }) es
  Keeps-same p = record {
    state_eq = refl;
    file_eq = refl;
    bootstrapped_eq = refl;
    effects_eq = sym p;
  }

  pub Keeps-trans :
      {w w1 w2 : World F} {es fs : List (Effect F)}
      → Keeps w w1 es
      → Keeps w1 w2 fs
      → Keeps w w2 (es ++ fs)
  Keeps-trans {w = w} {es = es} {fs = fs} k l = record {
    state_eq = cc (k.state_eq, l.state_eq);
    file_eq = cc (k.file_eq, l.file_eq);
    bootstrapped_eq = cc (k.bootstrapped_eq, l.bootstrapped_eq);
    effects_eq = rw (l.effects_eq, k.effects_eq) (rw (append_assoc) refl);
  }

  pub Receive-cases :
      (x : Receive F)
      → (x ≡ panic)
        ⊎ ((t : Service.State) × (x ≡ returns t none))
        ⊎ ((t : Service.State) × (r : Receipt F) × (x ≡ returns t (some r)))
  Receive-cases panic = inl refl
  Receive-cases (returns t none) = inr (inl (t, refl))
  Receive-cases (returns t (some r)) = inr (inr (t, r, refl))

module _ {F : Type 0} (env : Env F) where
  abbrev pub quorum_effects : List (Effect F)
  quorum_effects = elim env.quorum [ none ↦ [] | some c ↦ quorum_finished none ∷ [] ]

  -- The quorum has agreed, or there is none.
  abbrev pub Agrees : MilestoneMerkleRoots → ℕ → List ℕ → ℕ → Type 0
  Agrees roots i ps prev =
      (c : MilestoneMerkleRoots → ℕ → ℕ → List ℕ → ℕ → Option Error)
      → env.quorum ≡ some c
      → c roots i (unix_seconds env.now) ps prev ≡ none

  -- The quorum answers with the error.
  abbrev pub Refuses : MilestoneMerkleRoots → ℕ → List ℕ → ℕ → Error → Type 0
  Refuses roots i ps prev e =
      (c : MilestoneMerkleRoots → ℕ → ℕ → List ℕ → ℕ → Option Error) × (env.quorum ≡ some c)
      × (c roots i (unix_seconds env.now) ps prev ≡ some e)

  pub ask_quorum-Ends :
      (roots : MilestoneMerkleRoots) (i : ℕ) (ps : List ℕ) (prev : ℕ) (w : World F)
      → Ends
          (ask_quorum env roots i ps prev w)
          (λ _ w'.
            Agrees roots i ps prev × (w' ≡ record w { effects = w.effects ++ quorum_effects }))
          (λ e w'.
            Refuses roots i ps prev e
            × (w' ≡ record w { effects = w.effects ++ (quorum_finished (some e) ∷ []) }))
  unfolding ask_quorum
  ask_quorum-Ends roots i ps prev w = elim (Option-cases env.quorum) [
    | inl q ↦
        succeeds tt w (rw (q, ask_quorum) refl)
          ((λ c e. cc (q, e)), rw (q) (rw (append-nil w.effects) refl))
    | inr (c, q) ↦ elim (Option-cases (c roots i (unix_seconds env.now) ps prev)) [
      | inl r ↦
          succeeds tt (record w { effects = w.effects ++ (quorum_finished none ∷ []) })
            (rw (q, r, ask_quorum) refl)
            (
              (λ d e.
                  ap (λ h. h roots i (unix_seconds env.now) ps prev)
                    (some-injective _ _ (sym e ∙ q))
                  ∙ r),
              rw (q) refl,
            )
      | inr (e, r) ↦
          fails e (record w { effects = w.effects ++ (quorum_finished (some e) ∷ []) })
            (rw (q, r, ask_quorum) refl) ((c, q, r), refl)
    ]
  ]

  -- The migrator's state is in its file, with the flag.
  abbrev pub Persists : Bool → Service → Service → Type 0
  Persists b s t =
      ((persist_state env.migrator_io (env.migrator_rename_fault b) b s).0 ≡ ok tt)
      × (t ≡ (persist_state env.migrator_io (env.migrator_rename_fault b) b s).1)

  pub persist_migrator-Ends :
      (b : Bool) (s : Service) (w : World F)
      → w.migrator ≡ some s
      → Ends
          (persist_migrator env b w)
          (λ _ w'.
            Keeps w w' (persisted_migrator b ∷ [])
            × ((t : Service) × (w'.migrator ≡ some t) × Persists b s t))
          (λ e w'. IsFatal e × Keeps w w' [])
  unfolding persist_migrator
  persist_migrator-Ends b s w m =
      elim (Result-cases (persist_state env.migrator_io (env.migrator_rename_fault b) b s).0) [
        | inl (a, e) ↦
            succeeds tt
              (record w {
                migrator = some (persist_state env.migrator_io (env.migrator_rename_fault b) b s).1;
                effects = w.effects ++ (persisted_migrator b ∷ []);
              })
              (rw (m, persist_migrator, e) refl) (Keeps-same refl, (_, refl, (e, refl)))
        | inr (e, r) ↦
            fails (critical_wrap e)
              (record w {
                migrator = some (persist_state env.migrator_io (env.migrator_rename_fault b) b s).1;
              })
              (rw (m, persist_migrator, r) refl) (is_critical, Keeps-same (append-nil w.effects))
      ]
