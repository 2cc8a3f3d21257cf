-- ===== src/Selection/RandomTips.antt =====
-- pkg/mselection/heaviest.go: the second loop of `SelectTips`, which adds random tips.
use inx_coordinator.Base.{
  ℕ, zero, suc, ◌-◌, ◌≤◌, ◌<◌, ◌≡◌, ◌≢◌, refl, ap, sym, ◌∙◌, ◌⊎◌, inl, inr, List, [], ◌∷◌, ◌++◌,
  length, Among, arith, subst, append_assoc, append-nil, Option-cases, Option, none, some,
  some-injective,
}
use inx_coordinator.Selection.Bits.{Bitset}
use inx_coordinator.Selection.Selector.{TrackedBlock, ids}
use inx_coordinator.Selection.Picking.{
  Choices, reference_tip, random_tip, random_insecure, add_random, countdown,
}
use inx_coordinator.Selection.Heaviest.{IsIteration, random_insecure_bounds}
use inx_coordinator.Selection.Draws.{Draws, done, draw, contains-ids, ids-reference_tip}

module _ {A : Type 0} where
  countdown-Among : (i : ℕ) (l : List A) (x : A) → countdown i l ≡ some x → Among x l
  unfolding countdown
  countdown-Among i [] x h = cc
  countdown-Among zero (y ∷ l) x h = inl (some-injective x y (sym h))
  countdown-Among (suc i) (y ∷ l) x h = inr (countdown-Among i l x h)

  countdown_total : (i : ℕ) (l : List A) → i < length l → countdown i l ≢ none
  unfolding countdown
  countdown_total i [] h e = absurd (omega arith)
  countdown_total zero (y ∷ l) h e = cc
  countdown_total (suc i) (y ∷ l) h e = countdown_total i l (omega arith) e

module _ (B : Bitset) (c : Choices (B.Bits)) (iterates : IsIteration c) where
  open B use {Bits}

  -- `randomTip` fails on an empty list only.
  abbrev Finds : List (TrackedBlock Bits) → Option (TrackedBlock Bits) → Type 0
  Finds w none = w ≡ []
  Finds w (some t) = Among t w

  random_tip-Finds : (i : ℕ) (w : List (TrackedBlock Bits)) → Finds w (random_tip c i w)
  unfolding random_tip
  random_tip-Finds i [] = refl
  random_tip-Finds i (x ∷ w) =
      let r = random_insecure (c.draw i) 0 (length (x ∷ w) - 1) in
      elim (Option-cases (countdown r (c.order i (x ∷ w)))) [
        | inl e ↦ absurd (
            countdown_total r (c.order i (x ∷ w))
              (omega (
                arith,
                random_insecure_bounds (c.draw i) 0 (length (x ∷ w) - 1) (omega arith),
                iterates.size i (x ∷ w),
              ))
              e)
        | inr (t, e) ↦
            subst (Finds (x ∷ w)) (sym e)
              (iterates.visits i (x ∷ w) t (countdown-Among r (c.order i (x ∷ w)) t e))
      ]

  pub record Added (left : ℕ) (working : List (TrackedBlock Bits)) (tips out : List ℕ)
      : Type 0 where
    pub picked : List ℕ
    pub rest : List ℕ
    pub result : out ≡ tips ++ picked
    pub drawn : Draws (ids working) picked rest
    pub within : length picked ≤ left
    pub full : (length picked ≡ left) ⊎ (rest ≡ [])

  pub add_random-Added :
      (left i : ℕ) (working : List (TrackedBlock Bits)) (tips : List ℕ)
      → Added left working tips (add_random B c left i working tips)
  unfolding add_random
  add_random-Added zero i working tips = record {
    picked = [];
    rest = ids working;
    result = sym (append-nil tips);
    drawn = done;
    within = omega arith;
    full = inl refl;
  }
  add_random-Added (suc left) i working tips = elim (Option-cases (random_tip c i working)) [
    | inl e ↦
        rw (e, add_random)
          (record {
            picked = [];
            rest = ids working;
            result = sym (append-nil tips);
            drawn = done;
            within = omega arith;
            full = inr (ap ids (subst (Finds working) e (random_tip-Finds i working)));
          })
    | inr (t, e) ↦
        let m = subst (Finds working) e (random_tip-Finds i working) in
        let next =
          add_random-Added left (suc i) (reference_tip B t working) (tips ++ t.block_id ∷ []) in
        rw (e, add_random)
          (record {
            picked = t.block_id ∷ next.picked;
            rest = next.rest;
            result = next.result ∙ append_assoc tips (t.block_id ∷ []) next.picked;
            drawn = draw (contains-ids t working m) (
                subst (λ l. Draws l next.picked next.rest) (ids-reference_tip B t working)
                  next.drawn);
            within = omega (arith, next.within);
            full = elim next.full [ inl q ↦ inl (ap suc q) | inr q ↦ inr q ];
          })
  ]
