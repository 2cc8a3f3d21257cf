-- ===== src/Selection/Refs.antt =====
-- pkg/mselection/heaviest.go: the bits of a new block are those of its known parents and its own.
use inx_coordinator.Base.{
  ℕ, ◌≡◌, refl, sym, Bool, true, false, ◌||◌, none, some, List, [], ◌∷◌, ◌==◌, arith, Bool-cases,
  inl, inr, subst, Option-cases,
}
use inx_coordinator.Selection.Bits.{Bitset}
use inx_coordinator.Selection.Selector.{TrackedBlock, contains, find, known_parents, union_refs}
use inx_coordinator.Selection.Tips.{refs_at}

module _ (B : Bitset) where
  open B use {Bits, test, new, set, union}

  -- Whether a block is tracked and references the block of a bit.
  abbrev pub test_at : ℕ → List (TrackedBlock Bits) → ℕ → Bool
  test_at a bs j = elim (refs_at a bs) [ none ↦ false | some r ↦ test r j ]

  abbrev pub any_ref : List (TrackedBlock Bits) → List ℕ → ℕ → Bool
  any_ref bs [] j = false
  any_ref bs (p ∷ ps) j = test_at p bs j || any_ref bs ps j

  known_parents_miss :
      (bs : List (TrackedBlock Bits)) (p : ℕ) (ps : List ℕ)
      → find p bs ≡ none
      → known_parents bs (p ∷ ps) ≡ known_parents bs ps
  unfolding known_parents
  known_parents_miss bs p ps e = rw (e, known_parents)

  known_parents_hit :
      (bs : List (TrackedBlock Bits)) (p : ℕ) (ps : List ℕ) (b : TrackedBlock Bits)
      → find p bs ≡ some b
      → known_parents bs (p ∷ ps) ≡ b ∷ known_parents bs ps
  unfolding known_parents
  known_parents_hit bs p ps b e = rw (e, known_parents)

  union_refs-cons :
      (r : Bits) (b : TrackedBlock Bits) (l : List (TrackedBlock Bits))
      → union_refs B r (b ∷ l) ≡ union_refs B (union r b.refs) l
  unfolding union_refs
  union_refs-cons r b l = refl

  union_refs-nil : (r : Bits) → union_refs B r [] ≡ r
  unfolding union_refs
  union_refs-nil r = refl

  pub union_refs_lem :
      (r : Bits) (bs : List (TrackedBlock Bits)) (ps : List ℕ) (j : ℕ)
      → test (union_refs B r (known_parents bs ps)) j ≡ (test r j || any_ref bs ps j)
  union_refs_lem r bs [] j = unfold known_parents in rw (union_refs-nil r) (ground arith)
  union_refs_lem r bs (p ∷ ps) j = elim (Option-cases (find p bs)) [
    | inl e ↦ rw (known_parents_miss bs p ps e) (ground (arith, union_refs_lem r bs ps j))
    | inr (b, e) ↦
        rw (known_parents_hit bs p ps b e, union_refs-cons r b (known_parents bs ps))
          (ground (arith, union_refs_lem (union r b.refs) bs ps j, B.test-union r b.refs j))
  ]

  pub any_ref_sound :
      (bs : List (TrackedBlock Bits)) (ps : List ℕ) (j : ℕ)
      → any_ref bs ps j ≡ true
      → (p : ℕ) × (contains ps p ≡ true) × (test_at p bs j ≡ true)
  any_ref_sound bs [] j h = cc
  any_ref_sound bs (p ∷ ps) j h = elim (Bool-cases (test_at p bs j)) [
    | inl e ↦ (p, ground arith, e)
    | inr e ↦ let (q, m, t) = any_ref_sound bs ps j (ground arith) in (q, ground arith, t)
  ]

  pub any_ref_complete :
      (bs : List (TrackedBlock Bits)) (ps : List ℕ) (j p : ℕ)
      → contains ps p ≡ true
      → test_at p bs j ≡ true
      → any_ref bs ps j ≡ true
  any_ref_complete bs [] j p m t = cc
  any_ref_complete bs (q ∷ ps) j p m t = elim (Bool-cases (q == p)) [
    | inl e ↦
        let same : q ≡ p = ground arith in rw (subst (λ x. test_at x bs j ≡ true) (sym same) t) refl
    | inr e ↦ ground (arith, any_ref_complete bs ps j p)
  ]
