-- ===== src/Coordinator/Start.antt =====
-- pkg/coordinator/coordinator.go: `InitState` and `Bootstrap`.
use inx_coordinator.Base.{
  ℕ, ◌+◌, ◌-◌, Bool, true, false, not, ◌&&◌, [], ◌∷◌, Error, ok, err, panicked, ◌≡◌, ◌≢◌, ◌↔◌, refl,
  sym, subst, ap, ◌∙◌, ◌⊎◌, inl, inr, ◌==◌, ==_iff, Bool-cases, exists, arith, JsonIo, Result-cases,
  if◌then◌else◌,
}
use inx_coordinator.Coordinator.Types.{State, LatestMilestoneInfo, World, Env}
use inx_coordinator.Coordinator.Hoare.{Ends, succeeds, fails, Ends->>=}
use inx_coordinator.Coordinator.Actions.{Action, ◌>>=◌, ◌>>◌}
use inx_coordinator.Coordinator.Milestone.{create_and_send_milestone}
use inx_coordinator.Coordinator.Operations.{
  start_of, is_empty_milestone_id, init_bootstrap, init_resume, init_state, critical_error,
  wrapped_action, set_bootstrapped, latest_block_id, bootstrap,
}
use inx_coordinator.Coordinator.Stages.{IsFatal, is_critical, is_panic}
use inx_coordinator.Coordinator.Endings.{Issued, create_and_send_milestone-Ends}
use inx_coordinator.Coordinator.Safety.{next_index}
use inx_coordinator.Coordinator.Restart.{Leaves, Failed-Leaves}

abbrev bootstrap_state : ℕ → ℕ → LatestMilestoneInfo → State
bootstrap_state now s latest = record {
  latest_milestone_index = s - 1;
  latest_milestone_block_id = 0;
  latest_milestone_id = if s == 1 then 0 else latest.milestone_id;
  latest_milestone_time = now;
}

-- The index of the first milestone: the start index, and 1 for 0.
abbrev pub first_index : ℕ → ℕ
first_index start = if start == 0 then 1 else start

prior_eq : (n i : ℕ) → (i == start_of n - 1) ≡ true → i + 1 ≡ start_of n
prior_eq n i e = ground arith

prior_other : (n i : ℕ) → (i == start_of n - 1) ≡ false → i + 1 ≢ start_of n
prior_other n i e = ground arith

module _ {F : Type 0} where
  -- `InitState` for a bootstrap succeeds exactly if there is no state file, the node's latest
  -- milestone is the one before the start index, which is at least 1, and it is not the genesis if it
  -- has to be referenced.
  pub init_bootstrap-accepts :
      (now start : ℕ) (latest : LatestMilestoneInfo) (w : World F)
      → ((init_bootstrap now start latest w).0 ≡ ok tt) ↔ (
          (exists w.file ≡ false)
          × (latest.index + 1 ≡ first_index start)
          × ((first_index start ≡ 1) ⊎ (latest.milestone_id ≢ 0)))
  unfolding init_bootstrap
  init_bootstrap-accepts now start latest w = elim (Bool-cases (exists w.file)) [
    | inl x ↦ rw (x) ((λ h. ground arith), (λ h. ground arith))
    | inr x ↦ rw (x) elim (Bool-cases (latest.index == start_of start - 1)) [
      | inr y ↦ rw (y) ((λ h. ground arith), (λ h. absurd (prior_other start latest.index y h.1)))
      | inl y ↦ rw (y) elim (Bool-cases (start_of start == 1)) [
        | inl z ↦
            rw (z)
              ((λ h. (refl, prior_eq start latest.index y, inl ((==_iff _ _).0 z))), (λ h. refl))
        | inr z ↦ rw (z) elim (Bool-cases (is_empty_milestone_id latest.milestone_id)) [
          | inl a ↦
              rw (a) (
                (λ h. ground arith),
                (λ h. elim h.2 [ inl g ↦ ground arith | inr g ↦ ground arith ]),
              )
          | inr a ↦
              rw (a)
                ((λ h. (refl, prior_eq start latest.index y, inr (λ m. ground arith))), (λ h. refl))
        ]
      ]
    ]
  ]

  init_bootstrap_ok :
      (now start : ℕ) (latest : LatestMilestoneInfo) (w : World F)
      → exists w.file ≡ false
      → (latest.index == start_of start - 1) ≡ true
      → (not (start_of start == 1) && is_empty_milestone_id latest.milestone_id) ≡ false
      → init_bootstrap now start latest w ≡ (
        ok tt,
        record w { state = bootstrap_state now (start_of start) latest; bootstrapped = false },
      )
  unfolding init_bootstrap
  init_bootstrap_ok now start latest w x y z = simp (x, y, z, init_bootstrap) refl

  init_resume_ok :
      (io : JsonIo State) (latest : LatestMilestoneInfo) (w : World F) (s : State)
      → exists w.file ≡ true
      → io.read w.file ≡ ok s
      → (latest.index == s.latest_milestone_index) ≡ true
      → init_resume io latest w ≡ (ok tt, record w { state = s; bootstrapped = true })
  unfolding init_resume
  init_resume_ok io latest w s x y z = simp (x, y, z, init_resume) refl

  -- The state that `InitState` leaves: for a bootstrap the milestone in front of the first one,
  -- which has the node's milestone ID, or the ID 0 if the first one has the index 1, no block ID
  -- and the time of the call; else what is read from the state file.
  abbrev pub StateFor : JsonIo State → ℕ → Bool → ℕ → LatestMilestoneInfo → World F → State → Type 0
  StateFor io now true start latest w s =
      (s.latest_milestone_index + 1 ≡ first_index start)
      × (((first_index start ≡ 1) × (s.latest_milestone_id ≡ 0))
          ⊎ ((first_index start ≢ 1)
              × (s.latest_milestone_id ≡ latest.milestone_id)
              × (latest.milestone_id ≢ 0)))
      × (s.latest_milestone_block_id ≡ 0)
      × (s.latest_milestone_time ≡ now)
  StateFor io now false start latest w s = io.read w.file ≡ ok s

  bootstrap-StateFor :
      (io : JsonIo State) (now start : ℕ) (latest : LatestMilestoneInfo) (w : World F)
      → (latest.index == start_of start - 1) ≡ true
      → (not (start_of start == 1) && is_empty_milestone_id latest.milestone_id) ≡ false
      → StateFor io now true start latest w (bootstrap_state now (start_of start) latest)
  bootstrap-StateFor io now start latest w y z = elim (Bool-cases (start_of start == 1)) [
    | inl e ↦ rw (e) (
      omega (arith, prior_eq start latest.index y, (==_iff _ _).0 e),
      inl ((==_iff _ _).0 e, refl),
      refl,
      refl,
    )
    | inr e ↦ rw (e) (
      ground (arith, prior_eq start latest.index y),
      inr ((λ q. ground arith), refl, (λ q. ground arith)),
      refl,
      refl,
    )
  ]

  -- After a successful `InitState` the index of the latest milestone is the node's, the rest of the
  -- state is as `StateFor` says, the flag fits the mode, a state file is there exactly if the run
  -- is no bootstrap, and the state file and the migrator are as they were.
  pub init_state-agrees :
      (io : JsonIo State) (now : ℕ) (boot : Bool) (start : ℕ) (latest : LatestMilestoneInfo)
      (w v : World F)
      → init_state io now boot start latest w ≡ (ok tt, v)
      → (v.state.latest_milestone_index ≡ latest.index)
        × StateFor io now boot start latest w v.state
        × (v.bootstrapped ≡ not boot)
        × (exists w.file ≡ not boot)
        × (v.file ≡ w.file)
        × (v.migrator ≡ w.migrator)
  unfolding init_state init_bootstrap init_resume
  init_state-agrees io now true start latest w v q = elim (Bool-cases (exists w.file)) [
    | inl x ↦ ground arith
    | inr x ↦ elim (Bool-cases (latest.index == start_of start - 1)) [
      | inl y ↦
          elim (Bool-cases
            (not (start_of start == 1) && is_empty_milestone_id latest.milestone_id)) [
              | inl z ↦ ground arith
              | inr z ↦
                  let e = ap (λ r. r.1) (sym (init_bootstrap_ok now start latest w x y z) ∙ q) in
                  (
                    ap (λ u. u.state.latest_milestone_index) (sym e) ∙ sym ((==_iff _ _).0 y),
                    subst (λ u. StateFor io now true start latest w u.state) e
                        (bootstrap-StateFor io now start latest w y z),
                    ap (λ u. u.bootstrapped) (sym e),
                    x,
                    ap (λ u. u.file) (sym e),
                    ap (λ u. u.migrator) (sym e),
                  )
            ]
      | inr y ↦ ground arith
    ]
  ]
  init_state-agrees io now false start latest w v q = elim (Bool-cases (exists w.file)) [
    | inr x ↦ ground arith
    | inl x ↦ elim (Result-cases (io.read w.file)) [
      | inr (e, y) ↦ ground arith
      | inl (s, y) ↦ elim (Bool-cases (latest.index == s.latest_milestone_index)) [
        | inl z ↦
            let e = ap (λ r. r.1) (sym (init_resume_ok io latest w s x y z) ∙ q) in
            (
              ap (λ u. u.state.latest_milestone_index) (sym e) ∙ sym ((==_iff _ _).0 z),
              subst (λ u. StateFor io now false start latest w u.state) e y,
              ap (λ u. u.bootstrapped) (sym e),
              x,
              ap (λ u. u.file) (sym e),
              ap (λ u. u.migrator) (sym e),
            )
        | inr z ↦ ground arith
      ]
    ]
  ]

critical_error-IsFatal : (e : Error) → IsFatal (critical_error e)
critical_error-IsFatal panicked = is_panic
critical_error-IsFatal e = is_critical

module _ {F : Type 0} (env : Env F) where
  abbrev first_milestone : World F → Action (World F) (Unit {0})
  first_milestone w =
      create_and_send_milestone env (w.state.latest_milestone_block_id ∷ []) (next_index w)
        w.state.latest_milestone_id

  abbrev first : World F → Action (World F) ℕ
  first w = wrapped_action env critical_error (first_milestone w) >>= λ _.
      set_bootstrapped env >> latest_block_id env

  bootstrap-first : (w : World F) → w.bootstrapped ≡ false → bootstrap env w ≡ first w w
  unfolding bootstrap
  bootstrap-first w x = simp (x, bootstrap) refl

  abbrev pub Bootstraps : World F → ℕ → World F → Type 0
  Bootstraps w id v =
      (id ≡ v.state.latest_milestone_block_id)
      × (v.bootstrapped ≡ true)
      × (((w.bootstrapped ≡ true) × (v ≡ w))
          ⊎ ((w.bootstrapped ≡ false)
              × ((u : World F) × (v ≡ record u { bootstrapped = true })
                  × Issued env (w.state.latest_milestone_block_id ∷ []) (next_index w)
                      w.state.latest_milestone_id w u)))

  abbrev pub FailsFirst : World F → Error → World F → Type 0
  FailsFirst w e v = IsFatal e × (w.bootstrapped ≡ false) × Leaves env w v

  wrapped-Ends :
      {A : Type 0} {P : A → World F → Type 0} {Q : Error → World F → Type 0} (f : Error → Error)
      (m : Action (World F) A) (w : World F)
      → Ends (m w) P Q
      → Ends (wrapped_action env f m w) P (λ e v. (d : Error) × (e ≡ f d) × Q d v)
  wrapped-Ends f m w (succeeds a v q p) =
      succeeds a v (ap (λ r. elim r.0 [ ok a ↦ (ok a, r.1) | err e ↦ (err (f e), r.1) ]) q) p
  wrapped-Ends f m w (fails e v q p) =
      fails (f e) v (ap (λ r. elim r.0 [ ok a ↦ (ok a, r.1) | err e ↦ (err (f e), r.1) ]) q)
        (e, refl, p)

  -- `Bootstrap` issues a milestone at most once: with the flag set it changes nothing, and without it
  -- the next milestone is issued on the latest block alone and the flag is set. Every error is fatal
  -- and leaves the disk as a failed milestone does.
  pub bootstrap-Ends : (w : World F) → Ends (bootstrap env w) (Bootstraps w) (FailsFirst w)
  unfolding bootstrap
  bootstrap-Ends w = elim (Bool-cases w.bootstrapped) [
    | inl x ↦
        succeeds w.state.latest_milestone_block_id w (simp (x, bootstrap) refl)
          (refl, x, inl (x, refl))
    | inr x ↦
        subst (λ r. Ends r (Bootstraps w) (FailsFirst w)) (sym (bootstrap-first w x))
          (Ends->>= (wrapped_action env critical_error (first_milestone w))
            (λ _. set_bootstrapped env >> latest_block_id env) w
            (wrapped-Ends critical_error (first_milestone w) w (
              create_and_send_milestone-Ends env (w.state.latest_milestone_block_id ∷ [])
                (next_index w) w.state.latest_milestone_id w))
            (λ e v (d, g, f).
              (subst IsFatal (sym g) (critical_error-IsFatal d), x, Failed-Leaves env f))
            (λ _ v i.
              succeeds v.state.latest_milestone_block_id (record v { bootstrapped = true }) refl
                (refl, refl, inr (x, (v, refl, i)))))
  ]
