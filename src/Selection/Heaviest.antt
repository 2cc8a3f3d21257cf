-- ===== src/Selection/Heaviest.antt =====
-- pkg/mselection/heaviest.go: `selectTip` returns one of the heaviest tips of the working list.
use inx_coordinator.Base.{
  ℕ, ◌-◌, ◌≤◌, ◌≡◌, refl, ap, sym, ◌∙◌, ◌⊎◌, inl, inr, ◌≢◌, Option, none, some, List, [], ◌∷◌, ◌++◌,
  length, Among, Among-append, get_elem?-Among, get_elem?_total, All, All-append, Bool-cases, arith,
  ltb, ◌==◌, if◌then◌else◌, subst,
}
use inx_coordinator.Selection.Bits.{Bitset}
use inx_coordinator.Selection.Selector.{TrackedBlock}
use inx_coordinator.Selection.Picking.{
  Choices, random_insecure, choose, with_count, best, select_tip,
}

-- An iteration over a Go map visits the blocks that are there, in some order.
pub record IsIteration {R : Type 0} (c : Choices R) : Type 0 where
  pub visits :
      (k : ℕ) (xs : List (TrackedBlock R)) (x : TrackedBlock R)
      → Among x (c.order k xs)
      → Among x xs
  pub covers :
      (k : ℕ) (xs : List (TrackedBlock R)) (x : TrackedBlock R)
      → Among x xs
      → Among x (c.order k xs)
  pub size : (k : ℕ) (xs : List (TrackedBlock R)) → length (c.order k xs) ≡ length xs

-- The draw is between the bounds.
pub random_insecure_bounds :
    (raw min max : ℕ)
    → min ≤ max
    → (min ≤ random_insecure raw min max) × (random_insecure raw min max ≤ max)
unfolding random_insecure
random_insecure_bounds raw min max h = grind arith

module _ (B : Bitset) where
  open B use {Bits, count}

  abbrev Weighs : ℕ → TrackedBlock Bits → Type 0
  Weighs n t = count t.refs ≡ n

  abbrev next_tips : List (TrackedBlock Bits) → ℕ → TrackedBlock Bits → List (TrackedBlock Bits)
  next_tips tips n b =
      if ltb n (count b.refs) then b ∷ [] else if count b.refs == n then tips ++ b ∷ [] else tips

  abbrev next_count : ℕ → TrackedBlock Bits → ℕ
  next_count n b = if ltb n (count b.refs) then count b.refs else n

  -- No block is heavier than the result.
  best_max :
      (tips : List (TrackedBlock Bits)) (n : ℕ) (bs : List (TrackedBlock Bits))
      → (n ≤ (best B tips n bs).1)
        × ((o : TrackedBlock Bits) → Among o bs → count o.refs ≤ (best B tips n bs).1)
  unfolding best
  best_max tips n [] = (omega arith, λ o h. absurd h)
  best_max tips n (b ∷ bs) =
      let (above, all) = best_max (next_tips tips n b) (next_count n b) bs in
      (ground arith, λ o h. elim h [ inl e ↦ ground arith | inr r ↦ all o r ])

  next_tips-Weighs :
      (tips : List (TrackedBlock Bits)) (n : ℕ) (b : TrackedBlock Bits)
      → All (Weighs n) tips
      → All (Weighs (next_count n b)) (next_tips tips n b)
  next_tips-Weighs tips n b h = ground (arith, All-append (Weighs n) tips (b ∷ []) h)

  next_tips-Among :
      (tips : List (TrackedBlock Bits)) (n : ℕ) (b t : TrackedBlock Bits)
      → Among t (next_tips tips n b)
      → Among t tips ⊎ (t ≡ b)
  next_tips-Among tips n b t h = elim (Bool-cases (ltb n (count b.refs))) [
    | inl more ↦ ground arith
    | inr less ↦ elim (Bool-cases (count b.refs == n)) [
      | inl equal ↦ elim (Among-append t tips (b ∷ []) (subst (Among t) (ground arith) h)) [
        | inl old ↦ inl old
        | inr q ↦ elim q [ inl e ↦ inr e | inr none_left ↦ absurd none_left ]
      ]
      | inr other ↦ inl (subst (Among t) (ground arith) h)
    ]
  ]

  -- The tips of the result all have its count, and come from the blocks.
  best_from :
      (tips : List (TrackedBlock Bits)) (n : ℕ) (bs : List (TrackedBlock Bits))
      → All (Weighs n) tips
      → All (Weighs (best B tips n bs).1) (best B tips n bs).0
        × ((t : TrackedBlock Bits) → Among t (best B tips n bs).0 → Among t tips ⊎ Among t bs)
  unfolding best
  best_from tips n [] h = (h, λ t a. inl a)
  best_from tips n (b ∷ bs) h =
      let (weigh, from) =
        best_from (next_tips tips n b) (next_count n b) bs (next_tips-Weighs tips n b h) in
      (
        weigh,
        λ t a. elim (from t a) [
          | inr r ↦ inr (inr r)
          | inl q ↦ elim (next_tips-Among tips n b t q) [ inl old ↦ inl old | inr e ↦ inr (inl e) ]
        ],
      )

  append-some : (xs : List (TrackedBlock Bits)) (b : TrackedBlock Bits) → (xs ++ b ∷ []) ≢ []
  append-some [] b e = cc
  append-some (x ∷ xs) b e = cc

  next_tips-some :
      (tips : List (TrackedBlock Bits)) (n : ℕ) (b : TrackedBlock Bits)
      → ((tips ≡ []) × (n ≡ 0)) ⊎ (tips ≢ [])
      → next_tips tips n b ≢ []
  next_tips-some tips n b h = ground (arith, append-some tips b)

  -- There is a result as soon as there is a block.
  best_some :
      (tips : List (TrackedBlock Bits)) (n : ℕ) (bs : List (TrackedBlock Bits))
      → ((tips ≡ []) × (n ≡ 0) × (bs ≢ [])) ⊎ (tips ≢ [])
      → (best B tips n bs).0 ≢ []
  unfolding best
  best_some tips n [] h = ground arith
  best_some tips n (b ∷ bs) h =
      best_some (next_tips tips n b) (next_count n b) bs
        (inr (next_tips-some tips n b (elim h [ inl p ↦ inl (p.0, p.1) | inr q ↦ inr q ])))

  choose-Among :
      (raw : ℕ) (tips : List (TrackedBlock Bits)) (t : TrackedBlock Bits)
      → choose raw tips ≡ some t
      → Among t tips
  unfolding choose
  choose-Among raw [] t h = cc
  choose-Among raw (x ∷ xs) t h = get_elem?-Among (x ∷ xs) _ t h

  choose_total :
      (raw : ℕ) (tips : List (TrackedBlock Bits))
      → tips ≢ []
      → (t : TrackedBlock Bits) × (choose raw tips ≡ some t)
  unfolding choose
  choose_total raw [] h = absurd (h refl)
  choose_total raw (x ∷ xs) h =
      get_elem?_total (x ∷ xs) (random_insecure raw 0 (length (x ∷ xs) - 1))
        (omega (arith, random_insecure_bounds raw 0 (length (x ∷ xs) - 1) (omega arith)))

  -- A tip that is at least as heavy as every block of the list, with its weight.
  pub record IsHeaviest (working : List (TrackedBlock Bits)) (t : TrackedBlock Bits) (n : ℕ)
      : Type 0 where
    pub member : Among t working
    pub weight : count t.refs ≡ n
    pub maximal : (o : TrackedBlock Bits) → Among o working → count o.refs ≤ n

  abbrev pub Selects : List (TrackedBlock Bits) → Option (TrackedBlock Bits × ℕ) → Type 0
  Selects working none = working ≡ []
  Selects working (some (t, n)) = IsHeaviest working t n

  module _ (c : Choices Bits) (iterates : IsIteration c) (i : ℕ) where
    weighed :
        (t : TrackedBlock Bits) (n : ℕ) (tips : List (TrackedBlock Bits))
        → All (Weighs n) tips
        → Among t tips
        → count t.refs ≡ n
    weighed t n [] w a = absurd a
    weighed t n (x ∷ xs) w (inl e) = ap (λ (y : TrackedBlock Bits). count y.refs) e ∙ w.0
    weighed t n (x ∷ xs) w (inr a) = weighed t n xs w.1 a

    order-some : (w : TrackedBlock Bits) (ws : List (TrackedBlock Bits)) → c.order i (w ∷ ws) ≢ []
    order-some w ws e = subst (Among w) e (iterates.covers i (w ∷ ws) w (inl refl))

    -- `selectTip` fails on an empty list only, and returns one of the heaviest tips otherwise.
    pub select_tip-Selects :
        (working : List (TrackedBlock Bits)) → Selects working (select_tip B c i working)
    unfolding select_tip
    select_tip-Selects [] = refl
    select_tip-Selects (w ∷ ws) =
        let bs = c.order i (w ∷ ws) in
        let (weigh, from) = best_from [] 0 bs tt in
        let (t, e) =
          choose_total (c.draw i) (best B [] 0 bs).0
            (best_some [] 0 bs (inl (refl, refl, order-some w ws))) in
        let a : Among t (best B [] 0 bs).0 = choose-Among (c.draw i) _ t e in
        subst (λ o. Selects (w ∷ ws) (with_count (best B [] 0 bs).1 o)) (sym e)
          (record {
            member =
                iterates.visits i (w ∷ ws) t (elim (from t a) [ inl z ↦ absurd z | inr m ↦ m ]);
            weight = weighed t (best B [] 0 bs).1 (best B [] 0 bs).0 weigh a;
            maximal = λ o m. (best_max [] 0 bs).1 o (iterates.covers i (w ∷ ws) o m);
          })
