-- ===== src/Migrator/Split.antt =====
-- pkg/migrator/service.go: what the inner loop of `Start` sends for one answer of the legacy node.
use inx_coordinator.Base.{
  ℕ, zero, suc, ◌≤◌, ◌<◌, ◌≡◌, ◌≢◌, refl, ap, ◌∙◌, inl, inr, true, false, Option, none, some, List,
  [], ◌∷◌, ◌++◌, length, take, drop, ltb, All, Bool-cases, arith, append-nil, take-append-drop,
  length-take, length-drop, drop-length,
}
use inx_coordinator.Migrator.Service.{MigrationResult}
use inx_coordinator.Migrator.Producer.{batches, is_empty, result, prepend}

module _ {F : Type 0} where
  -- All entries of the results, in order.
  abbrev pub entries : List (MigrationResult F) → List F
  entries [] = []
  entries (b ∷ bs) = b.migrated_funds ++ entries bs

  -- A result of the milestone that respects the limit.
  abbrev pub Fits : ℕ → ℕ → MigrationResult F → Type 0
  Fits max ms b = (b.stop_index ≡ ms) × (length b.migrated_funds ≤ max)

  -- The last result, and no other, is marked as the last batch.
  abbrev pub MarksLast : List (MigrationResult F) → Type 0
  MarksLast [] = ⊥
  MarksLast (b ∷ []) = b.last_batch ≡ true
  MarksLast (b ∷ c ∷ bs) = (b.last_batch ≡ false) × MarksLast (c ∷ bs)

  abbrev pub IsSplit : ℕ → ℕ → List F → List (MigrationResult F) → Type 0
  IsSplit max ms funds bs = (entries bs ≡ funds) × All (Fits max ms) bs × MarksLast bs

  MarksLast-cons :
      (b : MigrationResult F) (bs : List (MigrationResult F))
      → b.last_batch ≡ false
      → MarksLast bs
      → MarksLast (b ∷ bs)
  MarksLast-cons b [] h m = absurd m
  MarksLast-cons b (c ∷ bs) h m = (h, m)

  is_empty-false : (xs : List F) → 0 < length xs → is_empty xs ≡ false
  is_empty-false [] h = absurd (omega arith)
  is_empty-false (x ∷ xs) h = refl

  -- The answer fits into one receipt.
  batches_small :
      (fuel max ms : ℕ) (funds : List F)
      → ltb max (length funds) ≡ false
      → batches (suc fuel) max ms funds ≡ some (result ms true funds ∷ [])
  unfolding batches
  batches_small fuel max ms funds h = rw (h, drop-length funds)

  length-take_big :
      (max : ℕ) (funds : List F) → ltb max (length funds) ≡ true → length (take max funds) ≡ max
  length-take_big max funds h = ground (arith, length-take max funds)

  drop_big :
      (max : ℕ) (funds : List F) → ltb max (length funds) ≡ true → is_empty (drop max funds) ≡ false
  drop_big max funds h = is_empty-false (drop max funds) (ground (arith, length-drop max funds))

  -- It does not, and the loop goes on with the entries behind the first batch.
  batches_big :
      (fuel max ms : ℕ) (funds : List F)
      → ltb max (length funds) ≡ true
      → batches (suc fuel) max ms funds
        ≡ prepend (result ms false (take max funds)) (batches fuel max ms (drop max funds))
  unfolding batches
  batches_big fuel max ms funds h =
      ground (arith, length-take_big max funds h, drop_big max funds h)

  -- With a positive limit and fuel for every entry the loop ends, and it sends the whole answer.
  pub batches-IsSplit :
      (fuel max ms : ℕ) (funds : List F)
      → 0 < max
      → length funds < fuel
      → (bs : List (MigrationResult F)) × (batches fuel max ms funds ≡ some bs)
        × IsSplit max ms funds bs
  batches-IsSplit zero max ms funds p h = absurd (omega arith)
  batches-IsSplit (suc fuel) max ms funds p h = elim (Bool-cases (ltb max (length funds))) [
    | inr small ↦ (
      result ms true funds ∷ [],
      batches_small fuel max ms funds small,
      (append-nil funds, ((refl, ground arith), tt), refl),
    )
    | inl big ↦
        let (bs, e, (whole, fit, last)) =
          batches-IsSplit fuel max ms (drop max funds) p (ground (arith, length-drop max funds)) in
        (
          result ms false (take max funds) ∷ bs,
          batches_big fuel max ms funds big ∙ ap (prepend (result ms false (take max funds))) e,
          (
            ap (◌++◌ (take max funds)) whole ∙ take-append-drop max funds,
            ((refl, ground (arith, length-take_big max funds big)), fit),
            MarksLast-cons (result ms false (take max funds)) bs refl last,
          ),
        )
  ]

  -- A limit of 0 keeps the loop running for ever on an answer with an entry.
  pub batches_zero_limit : (fuel ms : ℕ) (f : F) (fs : List F) → batches fuel 0 ms (f ∷ fs) ≡ none
  unfolding batches
  batches_zero_limit zero ms f fs = refl
  batches_zero_limit (suc fuel) ms f fs = ground (arith, batches_zero_limit fuel ms f fs)

  abbrev pub Sends : ℕ → List F → Option (List (MigrationResult F)) → Type 0
  Sends ms funds none = Unit
  Sends ms funds (some bs) = (entries bs ≡ funds) × All (λ b. b.stop_index ≡ ms) bs × (bs ≢ [])

  Sends-prepend :
      (max ms : ℕ) (funds : List F) (o : Option (List (MigrationResult F)))
      → Sends ms (drop max funds) o
      → Sends ms funds (prepend (result ms false (take max funds)) o)
  Sends-prepend max ms funds none h = tt
  Sends-prepend max ms funds (some bs) h =
      (ap (◌++◌ (take max funds)) h.0 ∙ take-append-drop max funds, (refl, h.1), (λ e. cc))

  -- Whatever the limit: if the loop ends, it has sent the whole answer, under the right milestone.
  pub batches-Sends :
      (fuel max ms : ℕ) (funds : List F) → Sends ms funds (batches fuel max ms funds)
  batches-Sends zero max ms funds = unfold batches in tt
  batches-Sends (suc fuel) max ms funds = elim (Bool-cases (ltb max (length funds))) [
    | inr small ↦
        rw (batches_small fuel max ms funds small) (append-nil funds, (refl, tt), (λ e. cc))
    | inl big ↦
        rw (batches_big fuel max ms funds big)
          (Sends-prepend max ms funds _ (batches-Sends fuel max ms (drop max funds)))
  ]
