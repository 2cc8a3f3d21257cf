-- ===== src/Migrator/Handler.antt =====
-- plugins/migrator/component.go with pkg/migrator: which errors end the service.
use inx_coordinator.Base.{
  ℕ, Bool, true, false, some, Error, Result, ok, err, u32, ◌+◌, List, if◌then◌else◌, ◌≡◌, ◌↔◌, refl,
  sym, ap, ◌∙◌, ◌⊎◌, inl, inr, Bool-cases, Result-cases,
}
use inx_coordinator.Migrator.Service.{State}
use inx_coordinator.Migrator.Producer.{
  Queryer, Round, stops, retries, fetches, round, next_migrations,
}
use inx_coordinator.Migrator.Plugin.{on_error, react}

module _ {F : Type 0} (is_critical_error is_soft_error : Error → Bool) (slept : Bool)
    (q : Queryer F) (start : ℕ) (s : State) where
  abbrev handled_round : Round F
  handled_round = round (some (on_error is_critical_error is_soft_error slept)) q start s

  fetched :
      (r : ℕ × List F)
      → next_migrations q start s ≡ ok r
      → (ms : ℕ) × (funds : List F) × (next : ℕ) × (handled_round ≡ fetches ms funds next)
  unfolding round
  fetched r x = (r.0, r.1, u32 (r.0 + 1), simp (x, round) refl)

  on_error_eq :
      (e : Error)
      → on_error is_critical_error is_soft_error slept e
        ≡ (if is_critical_error e then false else slept)
  unfolding on_error react
  on_error_eq e = elim (Bool-cases (is_critical_error e)) [
    | inl c ↦ simp (c, on_error, react) refl
    | inr c ↦ simp (c, on_error, react) refl
  ]

  failed :
      (e : Error)
      → next_migrations q start s ≡ err e
      → handled_round ≡ (if (if is_critical_error e then false else slept) then retries else stops)
  unfolding round
  failed e x =
      ap
        (λ (r : Result (ℕ × List F)). elim r as (λ _. Round F) [
          | ok (ms, funds) ↦ fetches ms funds (u32 (ms + 1))
          | err e ↦ if on_error is_critical_error is_soft_error slept e then retries else stops
        ])
        x
      ∙ ap (λ b. if b then retries else stops) (on_error_eq e)

  going :
      (e : Error)
      → next_migrations q start s ≡ err e
      → is_critical_error e ≡ false
      → handled_round ≡ (if slept then retries else stops)
  going e x c = failed e x ∙ ap (λ b. if (if b then false else slept) then retries else stops) c

  -- With the plugin's error handler a round of the service ends it exactly if the query has failed and
  -- the error is critical or the sleep was interrupted, and it is repeated exactly if the query has
  -- failed otherwise.
  pub round-handled :
      ((round (some (on_error is_critical_error is_soft_error slept)) q start s ≡ stops) ↔ (
        (e : Error) × (next_migrations q start s ≡ err e)
        × ((is_critical_error e ≡ true) ⊎ (slept ≡ false))))
      × ((round (some (on_error is_critical_error is_soft_error slept)) q start s ≡ retries) ↔ (
          (e : Error) × (next_migrations q start s ≡ err e)
          × (is_critical_error e ≡ false)
          × (slept ≡ true)))
  round-handled = elim (Result-cases (next_migrations q start s)) [
    | inl (r, x) ↦
        let (ms, funds, next, f) = fetched r x in
        (
          ((λ h. cc), (λ (e, y, c). let g : ok r ≡ err e = sym x ∙ y in cc)),
          ((λ h. cc), (λ (e, y, c, k). let g : ok r ≡ err e = sym x ∙ y in cc)),
        )
    | inr (e, x) ↦ elim (Bool-cases (is_critical_error e)) [
      | inl c ↦
          let g : handled_round ≡ stops =
            failed e x ∙ ap (λ b. if (if b then false else slept) then retries else stops) c in
          (
            ((λ h. (e, x, inl c)), (λ h. g)),
            (
              (λ h. cc),
              (λ (d, y, n, w).
                  let same : ◌≡◌ {A = Result (ℕ × List F)} (err e) (err d) = sym x ∙ y in
                  let t : e ≡ d = cc in cc (ap is_critical_error t)),
            ),
          )
      | inr c ↦ elim (Bool-cases slept) [
        | inl w ↦
            let g : handled_round ≡ retries =
              going e x c ∙ ap (λ b. if b then retries else stops) w in
            (
              (
                (λ h. cc),
                (λ (d, y, o).
                    let same : ◌≡◌ {A = Result (ℕ × List F)} (err e) (err d) = sym x ∙ y in
                    let t : e ≡ d = cc in
                    absurd (elim o [ inl k ↦ cc (ap is_critical_error t) | inr k ↦ cc ])),
              ),
              ((λ h. (e, x, c, w)), (λ h. g)),
            )
        | inr w ↦
            let g : handled_round ≡ stops =
              going e x c ∙ ap (λ b. if b then retries else stops) w in
            (((λ h. (e, x, inr w)), (λ h. g)), ((λ h. cc), (λ (d, y, n, k). cc)))
      ]
    ]
  ]
