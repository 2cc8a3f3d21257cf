-- ===== src/Migrator/Answers.antt =====
-- pkg/migrator/service.go: what `nextMigrations` answers.
use inx_coordinator.Base.{
  ℕ, zero, suc, ◌+◌, ◌^◌, ◌≤◌, ◌≡◌, refl, inl, inr, ◌≢◌, List, [], ◌∷◌, length, drop, arith, u32,
  ok, leb, Bool-cases, true, Result-cases, inl, inr,
}
use inx_coordinator.Migrator.Service.{State}
use inx_coordinator.Migrator.Producer.{Queryer, next_migrations, is_empty}
use native.Mathlib.Nat.{mod-le}

module _ {F : Type 0} where
  -- What `nextMigrations` answers: the rest of the milestone of the state, or the next milestone.
  pub data Answers (q : Queryer F) (start : ℕ) (s : State) (ms : ℕ) (l : List F) : Type 0 where
    rest_of :
        (funds : List F)
        → q.query_migrated_funds s.latest_migrated_at_index ≡ ok funds
        → s.latest_included_index ≤ length funds
        → ms ≡ s.latest_migrated_at_index
        → l ≡ drop s.latest_included_index funds
        → Answers q start s ms l
    next_of : start ≢ 0 → q.query_next_migrated_funds start ≡ ok (ms, l) → Answers q start s ms l
    next_of_state :
        (funds : List F)
        → start ≡ 0
        → s.latest_included_index ≤ length funds
        → q.query_migrated_funds s.latest_migrated_at_index ≡ ok funds
        → drop s.latest_included_index funds ≡ []
        → q.query_next_migrated_funds (u32 (s.latest_migrated_at_index + 1)) ≡ ok (ms, l)
        → Answers q start s ms l

  is_empty-nil : (l : List F) → is_empty l ≡ true → l ≡ []
  is_empty-nil [] h = refl
  is_empty-nil (x ∷ l) h = cc

  from_state :
      (q : Queryer F) (s : State) (ms : ℕ) (l funds : List F)
      → q.query_migrated_funds s.latest_migrated_at_index ≡ ok funds
      → next_migrations q 0 s ≡ ok (ms, l)
      → Answers q 0 s ms l
  unfolding next_migrations
  from_state q s ms l funds e h =
      elim (Bool-cases (leb s.latest_included_index (u32 (length funds)))) [
        | inr more ↦ absurd (ground arith)
        | inl fits ↦ elim (Bool-cases (is_empty (drop s.latest_included_index funds))) [
          | inl done ↦
              next_of_state funds refl (ground (arith, mod-le (length funds) (2 ^ 32))) e
                (is_empty-nil _ done) (ground arith)
          | inr some_left ↦
              rest_of funds e (ground (arith, mod-le (length funds) (2 ^ 32))) (ground arith)
                (ground arith)
        ]
      ]

  pub next_migrations-Answers :
      (q : Queryer F) (start : ℕ) (s : State) (ms : ℕ) (l : List F)
      → next_migrations q start s ≡ ok (ms, l)
      → Answers q start s ms l
  unfolding next_migrations
  next_migrations-Answers q zero s ms l h =
      elim (Result-cases (q.query_migrated_funds s.latest_migrated_at_index)) [
        | inl (funds, e) ↦ from_state q s ms l funds e h
        | inr (x, e) ↦ absurd (ground arith)
      ]
  next_migrations-Answers q (suc n) s ms l h = next_of (omega arith) (ground arith)
