-- ===== src/Migrator/Ledger.antt =====
-- pkg/migrator/service.go: what the legacy network holds, and what a state of the service says of it.
use inx_coordinator.Base.{
  ℕ, zero, suc, ◌+◌, ◌^◌, ◌≤◌, ◌<◌, ◌≡◌, ◌⊎◌, u32, refl, sym, ap, ◌∙◌, List, [], ◌∷◌, ◌++◌, length,
  take, drop, subst, append_assoc, Bool, arith, append-nil, take-append-drop, ok, length-append,
  length-take,
}
use native.Mathlib.Decide.{dec_le}
use inx_coordinator.Migrator.Service.{State}
use inx_coordinator.Migrator.Producer.{Queryer}

-- The index from which `nextMigrations` asks for the next milestone.
abbrev pub asked : ℕ → State → ℕ
asked zero s = u32 (s.latest_migrated_at_index + 1)
asked (suc n) s = suc n

module _ {F : Type 0} where
  -- The entries of the milestones below an index, in order.
  pub before : (ℕ → List F) → ℕ → List F
  before funds zero = []
  before funds (suc n) = before funds n ++ funds n

  -- The entries that a state counts as migrated.
  pub covered : (ℕ → List F) → State → List F
  covered funds s =
      before funds s.latest_migrated_at_index
      ++ take s.latest_included_index (funds s.latest_migrated_at_index)

  -- The legacy network: no milestone has 2^32 entries.
  abbrev pub IsLedger : (ℕ → List F) → Type 0
  IsLedger funds = (i : ℕ) → length (funds i) < 2 ^ 32

  -- The answer `(j, l)` to a question from index `i`: the entries of milestone `j`, with none in
  -- between; or, when there is nothing new, no entries and any lower index.
  abbrev pub IsNext : (ℕ → List F) → ℕ → ℕ → List F → Type 0
  IsNext funds i j l =
      ((i ≤ j) × (l ≡ funds j) × ((k : ℕ) → i ≤ k → k < j → funds k ≡ [])) ⊎ ((j < i) × (l ≡ []))

  -- What hornet's validator promises of the answers to the two questions of a round: the entries of
  -- the milestone of the state, and the next ones.
  pub record IsFaithful (funds : ℕ → List F) (q : Queryer F) (start : ℕ) (s : State) : Type 0 where
    pub current :
        (l : List F)
        → q.query_migrated_funds s.latest_migrated_at_index ≡ ok l
        → l ≡ funds s.latest_migrated_at_index
    pub next :
        (j : ℕ) (l : List F)
        → q.query_next_migrated_funds (asked start s) ≡ ok (j, l)
        → (j + 1 < 2 ^ 32) × IsNext funds (asked start s) j l

  -- Milestones without entries add nothing.
  pub before_gap :
      (funds : ℕ → List F) (i j : ℕ)
      → i ≤ j
      → ((k : ℕ) → i ≤ k → k < j → funds k ≡ [])
      → before funds j ≡ before funds i
  unfolding before
  before_gap funds i zero h gap = let e : i ≡ 0 = omega arith in rw e
  before_gap funds i (suc j) h gap = elim (dec_le i j) [
    | yes le ↦
        rw (gap j le (omega arith))
          (append-nil (before funds j) ∙ before_gap funds i j le (λ k a b. gap k a (omega arith)))
    | no gt ↦ let e : i ≡ suc j = omega arith in rw e
  ]

  -- A state at the end of its milestone covers all entries up to there.
  pub covered_end :
      (funds : ℕ → List F) (s : State)
      → drop s.latest_included_index (funds s.latest_migrated_at_index) ≡ []
      → covered funds s ≡ before funds (suc s.latest_migrated_at_index)
  unfolding covered before
  covered_end funds s e = ap (◌++◌ (before funds s.latest_migrated_at_index)) (
      sym (append-nil _)
      ∙ ap (◌++◌ (take s.latest_included_index (funds s.latest_migrated_at_index))) (sym e)
      ∙ take-append-drop s.latest_included_index (funds s.latest_migrated_at_index))

  take-append : (us vs : List F) → take (length us) (us ++ vs) ≡ us
  take-append [] vs = refl
  take-append (u ∷ us) vs = ap (◌∷◌ u) (take-append us vs)

  -- What follows the first entries of a list is a longer prefix with them.
  pub take_prefix :
      (n : ℕ) (xs ys zs : List F)
      → (take n xs ++ ys) ++ zs ≡ xs
      → n ≤ length xs
      → take (n + length ys) xs ≡ take n xs ++ ys
  take_prefix n xs ys zs e h =
      let us = take n xs ++ ys in
      let size : length us ≡ n + length ys =
        omega (arith, length-append (take n xs) ys, length-take n xs) in
      subst (λ k. take k xs ≡ us) size (subst (λ l. take (length us) l ≡ us) e (take-append us zs))

  covered_at :
      (funds : ℕ → List F) (s : State) (m : ℕ)
      → s.latest_migrated_at_index ≡ m
      → covered funds s ≡ before funds m ++ take s.latest_included_index (funds m)
  unfolding covered
  covered_at funds s m e = rw e

  pub covered_extend :
      (funds : ℕ → List F) (s t : State) (m : ℕ) (ys : List F)
      → s.latest_migrated_at_index ≡ m
      → t.latest_migrated_at_index ≡ m
      → take t.latest_included_index (funds m) ≡ take s.latest_included_index (funds m) ++ ys
      → covered funds t ≡ covered funds s ++ ys
  covered_extend funds s t m ys es et h =
      rw (covered_at funds s m es, covered_at funds t m et, h)
        (sym (append_assoc (before funds m) (take s.latest_included_index (funds m)) ys))

  pub covered_next :
      (funds : ℕ → List F) (s t : State) (m : ℕ) (ys : List F)
      → covered funds s ≡ before funds m
      → t.latest_migrated_at_index ≡ m
      → take t.latest_included_index (funds m) ≡ ys
      → covered funds t ≡ covered funds s ++ ys
  covered_next funds s t m ys es et h = rw (es, covered_at funds t m et, h)

  pub covered_whole :
      (funds : ℕ → List F) (s : State) (m : ℕ)
      → s.latest_migrated_at_index ≡ m
      → take s.latest_included_index (funds m) ≡ funds m
      → covered funds s ≡ before funds (suc m)
  unfolding before
  covered_whole funds s m e h = rw (covered_at funds s m e, h)

  -- The flag plays no part.
  pub covered-flag :
      (funds : ℕ → List F) (s : State) (sending : Bool)
      → covered funds (record s { sending_receipt = sending }) ≡ covered funds s
  unfolding covered
  covered-flag funds s sending = refl
