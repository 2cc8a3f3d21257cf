-- ===== src/Migrator/Producer.antt =====
-- pkg/migrator/service.go: the background loop that queries migrated funds and cuts them in batches.
use inx_coordinator.Base.{
  ℕ, zero, suc, ◌+◌, Bool, true, false, Option, none, some, List, [], ◌∷◌, length, take, drop, u32,
  ltb, leb, ◌==◌, if◌then◌else◌, Error, Result, ok, err, critical, wrap, invalid_state, ◌>>=◌,
  wrapped,
}
use inx_coordinator.Migrator.Service.{State, MigrationResult}

-- `Queryer`: what the legacy node answers to one round of queries.
pub record Queryer (F : Type 0) : Type 0 where
  pub query_migrated_funds : ℕ → Result (List F)
  pub query_next_migrated_funds : ℕ → Result (ℕ × List F)

abbrev pub is_empty {ℓ} : {A : Type ℓ} → List A → Bool
is_empty [] = true
is_empty (x ∷ xs) = false

module _ {F : Type 0} where
  -- `stateMigrations`: the entries of the milestone of the state that are not included yet.
  unfoldable pub state_migrations : Queryer F → State → Result (ℕ × List F)
  state_migrations q s = do
    funds ← q.query_migrated_funds s.latest_migrated_at_index
    if leb s.latest_included_index (u32 (length funds))
        then ok (s.latest_migrated_at_index, drop s.latest_included_index funds)
        else err (critical (wrap invalid_state))

  -- `nextMigrations`; a start index of 0 asks for the position of the state.
  unfoldable pub next_migrations : Queryer F → ℕ → State → Result (ℕ × List F)
  unfolding state_migrations
  next_migrations q start s =
      if start == 0
      then wrapped wrap (state_migrations q s)
        >>= (λ r. if is_empty r.1 then q.query_next_migrated_funds (u32 (r.0 + 1)) else ok r)
      else q.query_next_migrated_funds start

  abbrev pub result : ℕ → Bool → List F → MigrationResult F
  result ms last batch = record { stop_index = ms; last_batch = last; migrated_funds = batch }

  abbrev pub prepend :
      MigrationResult F → Option (List (MigrationResult F)) → Option (List (MigrationResult F))
  prepend b none = none
  prepend b (some bs) = some (b ∷ bs)

  -- The inner loop of `Start`: the results that one answer is cut into, sent in this order. The loop
  -- tests its condition at the end, so an empty answer is one empty result. `none`: out of fuel.
  unfoldable pub batches : ℕ → ℕ → ℕ → List F → Option (List (MigrationResult F))
  batches zero max ms funds = none
  batches (suc fuel) max ms funds =
      let batch = if ltb max (length funds) then take max funds else funds in
      let last_batch = if ltb max (length funds) then false else true in
      let rest = drop (length batch) funds in
      let more = batches fuel max ms rest in
      if is_empty rest
      then some (result ms last_batch batch ∷ [])
      else prepend (result ms last_batch batch) more

-- One round of the outer loop of `Start`, up to the sends: the error handler decides whether to go
-- on (`onError == nil || onError(err)`).
pub data Round (F : Type 0) : Type 0 where
  -- the channel is closed and the loop left
  stops : Round F
  -- the same start index is tried again
  retries : Round F
  -- results to send for the milestone, and the next start index
  fetches : ℕ → List F → ℕ → Round F

module _ {F : Type 0} where
  unfoldable pub round : Option (Error → Bool) → Queryer F → ℕ → State → Round F
  round on_error q start s = elim (next_migrations q start s) [
    | ok (ms, funds) ↦ fetches ms funds (u32 (ms + 1))
    | err e ↦ elim on_error [ none ↦ retries | some handler ↦ if handler e then retries else stops ]
  ]
