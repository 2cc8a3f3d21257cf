-- ===== src/Migrator/Limits.antt =====
-- plugins/migrator/component.go with pkg/migrator: what the plugin's checks promise to the service.
use inx_coordinator.Base.{
  ℕ, zero, suc, ◌≤◌, true, false, some, length, Result, ok, err, invalid_state, wrap, List,
  panicked, ltb, StateFile, JsonIo, exists, ◌≡◌, ◌≢◌, refl, sym, ap, subst, ◌∙◌, inl, inr,
  Bool-cases, Result-cases, arith, ◌>>=◌, ◌==◌, >>=-eq-ok, wrapped, wrapped-eq-ok,
  state_file_already_exists,
}
use inx_coordinator.Migrator.Service.{
  State, Service, MigrationResult, init_state, initial_state, validate,
}
use inx_coordinator.Migrator.Producer.{batches}
use inx_coordinator.Migrator.Split.{IsSplit, batches-IsSplit}
use inx_coordinator.Migrator.Plugin.{
  ℤ, pos, negsuc, Parameters, check_max_entries, Limited, zero_state, new_service, provide,
  ms_index, configure,
}

-- The configured number of entries is the limit, at least 1 and at most the greatest one.
abbrev pub Allows : ℕ → ℤ → ℕ → Type 0
Allows most n max = (n ≡ pos max) × (1 ≤ max) × (max ≤ most)

check_max_entries-Allows :
    (most : ℕ) (n : ℤ) (max : ℕ) → check_max_entries most n ≡ ok max → Allows most n max
unfolding check_max_entries
check_max_entries-Allows most (negsuc n) max h = cc
check_max_entries-Allows most (pos zero) max h = cc
check_max_entries-Allows most (pos (suc n)) max h = elim (Bool-cases (ltb most (suc n))) [
  | inl e ↦ let f : err panicked ≡ ok max = (rw (e) at h) in cc
  | inr e ↦
      let f : ◌≡◌ {A = Result ℕ} (ok (suc n)) (ok max) = (rw (e) at h) in
      let same : suc n ≡ max = cc in
      subst (Allows most (pos (suc n))) same (refl, omega arith, ground arith)
]

-- Every answer of the legacy node is cut into results that fit into a receipt.
abbrev pub Cuts : Type 0 → ℕ → Type 0
Cuts F max =
    (ms : ℕ) (funds : List F)
    → (bs : List (MigrationResult F)) × (batches (suc (length funds)) max ms funds ≡ some bs)
      × IsSplit max ms funds bs

Allows-Cuts : (F : Type 0) (most : ℕ) (n : ℤ) (max : ℕ) → Allows most n max → Cuts F max
Allows-Cuts F most n max a ms funds =
    batches-IsSplit (suc (length funds)) max ms funds (omega (arith, a.1)) (omega arith)

-- A state that marks no receipt as sent, and names a milestone.
abbrev pub IsIdle : State → Type 0
IsIdle s = (s.sending_receipt ≡ false) × (s.latest_migrated_at_index ≢ 0)

validate_ok :
    (s : State)
    → s.sending_receipt ≡ false
    → (s.latest_migrated_at_index == 0) ≡ false
    → validate s ≡ ok s
unfolding validate
validate_ok s e g = simp (e, g, validate) refl

validate-IsIdle : (s t : State) → validate s ≡ ok t → (t ≡ s) × IsIdle s
unfolding validate
validate-IsIdle s t h = elim (Bool-cases s.sending_receipt) [
  | inl e ↦ let f : err (wrap invalid_state) ≡ ok t = (rw (e) at h) in cc
  | inr e ↦ elim (Bool-cases (s.latest_migrated_at_index == 0)) [
    | inl g ↦ let f : err (wrap invalid_state) ≡ ok t = (rw (e, g) at h) in cc
    | inr g ↦ let f : ok s ≡ ok t = sym (validate_ok s e g) ∙ h in (cc, (e, (λ z. ground arith)))
  ]
]

module _ (io : JsonIo State) (p : Parameters) (file : StateFile State) where
  -- A bootstrap found no file and begins with the start index; any other run has the file's state.
  pub data Begins (s : State) : Type 0 where
    bootstrapped :
        p.bootstrap ≡ true
        → exists file ≡ false
        → s ≡ record zero_state { latest_migrated_at_index = p.start_index }
        → Begins s
    loaded : p.bootstrap ≡ false → io.read file ≡ ok s → Begins s

  initial_state-Begins : (s : State) → initial_state io (ms_index p) file ≡ ok s → Begins s
  unfolding initial_state
  initial_state-Begins s h = elim (Bool-cases p.bootstrap) [
    | inr b ↦
        let f : wrapped wrap (io.read file) ≡ ok s = (rw (b) at h) in
        loaded b (wrapped-eq-ok wrap (io.read file) s f)
    | inl b ↦ elim (Bool-cases (exists file)) [
      | inl e ↦ let f : err state_file_already_exists ≡ ok s = (rw (b, e) at h) in cc
      | inr e ↦
          let f : ok (record zero_state { latest_migrated_at_index = p.start_index }) ≡ ok s =
            (rw (b, e) at h) in
          bootstrapped b e cc
    ]
  ]

  -- The service that has started.
  pub record IsReady (most : ℕ) (l : Limited) : Type 0 where
    pub allows : Allows most p.receipt_max_entries l.receipt_max_entries
    pub idle : IsIdle l.service.state
    pub begins : Begins l.service.state
    pub file_eq : l.service.file ≡ file

  -- `InitState` by the state that it finds.
  abbrev found : Service → Result State
  found s = initial_state io (ms_index p) s.file >>= validate

  init_state_eq :
      (s : Service) (r : Result State)
      → found s ≡ r
      → init_state io (ms_index p) s
        ≡ elim r [ err e ↦ (err e, s) | ok t ↦ (ok tt, record s { state = t }) ]
  unfolding init_state
  init_state_eq s r q =
      ap
        (λ (r : Result State). elim r as (λ _. Result (Unit {0}) × Service) [
          | err e ↦ (err e, s)
          | ok t ↦ (ok tt, record s { state = t })
        ])
        q

  configure_eq :
      (l : Limited) (r : Result (Unit {0}) × Service)
      → init_state io (ms_index p) l.service ≡ r
      → configure io p l ≡ elim r.0 as (λ _. Result Limited) [
        | err e ↦ err e
        | ok _ ↦ ok (record l { service = r.1 })
      ]
  unfolding configure
  configure_eq l r q =
      ap
        (λ (r : Result (Unit {0}) × Service). elim r.0 as (λ _. Result Limited) [
          | err e ↦ err e
          | ok _ ↦ ok (record l { service = r.1 })
        ])
        q

  -- A service that `configure` lets start has the state that was found, and it is idle.
  configure-eq-ok :
      (l m : Limited)
      → configure io p l ≡ ok m
      → (s : State) × (initial_state io (ms_index p) l.service.file ≡ ok s)
        × IsIdle s
        × (record l { service = record l.service { state = s } } ≡ m)
  configure-eq-ok l m h = elim (Result-cases (found l.service)) [
    | inr (e, q) ↦ cc (configure_eq l _ (init_state_eq l.service (err e) q))
    | inl (t, q) ↦
        let (s, first, second) =
          >>=-eq-ok (initial_state io (ms_index p) l.service.file) validate t q in
        let (same, idle) = validate-IsIdle s t second in
        let done = configure_eq l _ (init_state_eq l.service (ok t) q) in
        let f : ok (record l { service = record l.service { state = t } }) ≡ ok m = sym done ∙ h in
        (
          s,
          first,
          idle,
          ap (λ x. record l { service = record l.service { state = x } }) (sym same) ∙ cc,
        )
  ]

  -- A migrator that starts has a positive limit of at most the greatest number of entries; it marks no
  -- receipt as sent, names a milestone, and begins with the start index of a bootstrap that found no
  -- file, or with the state of the file, which is as it was. So each answer of the legacy node is cut
  -- into finitely many results that respect the limit.
  pub configure-IsReady :
      (F : Type 0) (most : ℕ) (m : Limited)
      → (provide most p file >>= configure io p) ≡ ok m
      → IsReady most m × Cuts F m.receipt_max_entries
  unfolding provide
  configure-IsReady F most m h =
      let (l, provided, configured) = >>=-eq-ok (provide most p file) (configure io p) m h in
      let (max, checked, made) =
        >>=-eq-ok (check_max_entries most p.receipt_max_entries) (λ max. ok (new_service file max))
          l provided in
      let allowed = check_max_entries-Allows most p.receipt_max_entries max checked in
      let new : new_service file max ≡ l = cc in
      let (s, first, idle, same) =
        configure-eq-ok (new_service file max) m (ap (configure io p) new ∙ configured) in
      subst (λ l. IsReady most l × Cuts F l.receipt_max_entries) same
        (
          record {
            allows = allowed;
            idle = idle;
            begins = initial_state-Begins s first;
            file_eq = refl;
          },
          Allows-Cuts F most p.receipt_max_entries max allowed,
        )
