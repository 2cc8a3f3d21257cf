-- ===== src/Selection/Greedy.antt =====
-- pkg/mselection/heaviest.go: the tips that `SelectTips` picks cover the most new blocks, each time.
use inx_coordinator.Base.{
  ℕ, ◌≤◌, ◌≡◌, refl, ap, sym, ◌∙◌, inl, inr, Bool, true, false, not, ◌&&◌, ◌||◌, List, [], ◌∷◌,
  Among, arith, ◌==◌, subst, Bool-cases,
}
use mathlib.Core.Path.{fun_ext}
use inx_coordinator.Selection.Bits.{Bitset, tally}
use inx_coordinator.Selection.Selector.{TrackedBlock}
use inx_coordinator.Selection.Picking.{remove_id, subtract, reference_tip}

module _ (B : Bitset) where
  open B use {Bits, test, count, difference}

  -- How many of the first `n` blocks are in the cone of a tip and not covered.
  abbrev pub uncovered : ℕ → (ℕ → Bool) → TrackedBlock Bits → ℕ
  uncovered n cov b = tally (λ j. test b.refs j && not (cov j)) n

  abbrev pub cover : (ℕ → Bool) → TrackedBlock Bits → ℕ → Bool
  cover cov t j = cov j || test t.refs j

  -- Picks from the available tips, each covering at least as many uncovered blocks as any other that
  -- is still available; its cone is covered from then on. The references are the original ones.
  pub data Greedy (n : ℕ) : (ℕ → Bool) → List (TrackedBlock Bits) → List ℕ → Type 0 where
    stop : {cov : ℕ → Bool} {avail : List (TrackedBlock Bits)} → Greedy n cov avail []
    pick :
        {cov : ℕ → Bool} {avail : List (TrackedBlock Bits)} {rest : List ℕ} (t : TrackedBlock Bits)
        (id : ℕ)
        → id ≡ t.block_id
        → Among t avail
        → ((o : TrackedBlock Bits) → Among o avail → uncovered n cov o ≤ uncovered n cov t)
        → Greedy n (cover cov t) (remove_id id avail) rest
        → Greedy n cov avail (id ∷ rest)

  -- The working list holds the available tips, with the covered blocks taken out of their bits.
  abbrev pub Matches : (ℕ → Bool) → List (TrackedBlock Bits) → List (TrackedBlock Bits) → Type 0
  Matches cov [] [] = Unit
  Matches cov [] (w ∷ ws) = ⊥
  Matches cov (a ∷ as') [] = ⊥
  Matches cov (a ∷ as') (w ∷ ws) =
      (w.block_id ≡ a.block_id)
      × ((j : ℕ) → test w.refs j ≡ (test a.refs j && not (cov j)))
      × Matches cov as' ws

  -- An available tip with what the working list makes of it.
  pub record Pair (cov : ℕ → Bool) (a w : TrackedBlock Bits) : Type 0 where
    pub same_id : w.block_id ≡ a.block_id
    pub bits : (j : ℕ) → test w.refs j ≡ (test a.refs j && not (cov j))

  pub Matches-refl : (l : List (TrackedBlock Bits)) → Matches (λ j. false) l l
  Matches-refl [] = tt
  Matches-refl (b ∷ l) = (refl, (λ j. ground arith), Matches-refl l)

  pub working_to_avail :
      (cov : ℕ → Bool) (as' ws : List (TrackedBlock Bits)) (w : TrackedBlock Bits)
      → Matches cov as' ws
      → Among w ws
      → (a : TrackedBlock Bits) × Among a as' × Pair cov a w
  working_to_avail cov as' [] w m h = absurd h
  working_to_avail cov [] (x ∷ ws) w m h = absurd m
  working_to_avail cov (a ∷ as') (x ∷ ws) w m (inl e) =
      (a, inl refl, subst (Pair cov a) (sym e) (record { same_id = m.0; bits = m.1 }))
  working_to_avail cov (a ∷ as') (x ∷ ws) w m (inr h) =
      let (b, k, p) = working_to_avail cov as' ws w m.2 h in (b, inr k, p)

  pub avail_to_working :
      (cov : ℕ → Bool) (as' ws : List (TrackedBlock Bits)) (a : TrackedBlock Bits)
      → Matches cov as' ws
      → Among a as'
      → (w : TrackedBlock Bits) × Among w ws × Pair cov a w
  avail_to_working cov [] ws a m h = absurd h
  avail_to_working cov (x ∷ as') [] a m h = absurd m
  avail_to_working cov (x ∷ as') (w ∷ ws) a m (inl e) =
      (w, inl refl, subst (λ z. Pair cov z w) (sym e) (record { same_id = m.0; bits = m.1 }))
  avail_to_working cov (x ∷ as') (w ∷ ws) a m (inr h) =
      let (b, k, p) = avail_to_working cov as' ws a m.2 h in (b, inr k, p)

  -- The count of a working tip is what it would cover in addition.
  pub Pair-count :
      (n : ℕ) (cov : ℕ → Bool) (a w : TrackedBlock Bits)
      → ((j : ℕ) → n ≤ j → test a.refs j ≡ false)
      → Pair cov a w
      → count w.refs ≡ uncovered n cov a
  Pair-count n cov a w b p =
      B.count-tally w.refs n (λ j le. p.bits j ∙ ground (arith, b j))
      ∙ ap (λ q. tally q n) (fun_ext p.bits)

  Matches-remove_id :
      (cov : ℕ → Bool) (i : ℕ) (as' ws : List (TrackedBlock Bits))
      → Matches cov as' ws
      → Matches cov (remove_id i as') (remove_id i ws)
  unfolding remove_id
  Matches-remove_id cov i [] [] m = tt
  Matches-remove_id cov i [] (w ∷ ws) m = absurd m
  Matches-remove_id cov i (a ∷ as') [] m = absurd m
  Matches-remove_id cov i (a ∷ as') (w ∷ ws) m = elim (Bool-cases (a.block_id == i)) [
    | inl e ↦
        let e' : (w.block_id == i) ≡ true = ground arith in
        rw (e, e') (Matches-remove_id cov i as' ws m.2)
    | inr e ↦
        let e' : (w.block_id == i) ≡ false = ground arith in
        rw (e, e') (m.0, m.1, Matches-remove_id cov i as' ws m.2)
  ]

  Matches-subtract :
      (cov : ℕ → Bool) (t u : TrackedBlock Bits) (as' ws : List (TrackedBlock Bits))
      → Pair cov t u
      → Matches cov as' ws
      → Matches (cover cov t) as' (subtract B u.refs ws)
  unfolding subtract
  Matches-subtract cov t u [] [] p m = tt
  Matches-subtract cov t u [] (w ∷ ws) p m = absurd m
  Matches-subtract cov t u (a ∷ as') [] p m = absurd m
  Matches-subtract cov t u (a ∷ as') (w ∷ ws) p m = (
    m.0,
    (λ j. ground (arith, B.test-difference w.refs u.refs j, p.bits j, m.1 j)),
    Matches-subtract cov t u as' ws p m.2,
  )

  -- `referenceTip` on the working list covers the cone of the tip.
  pub Matches-reference_tip :
      (cov : ℕ → Bool) (t u : TrackedBlock Bits) (as' ws : List (TrackedBlock Bits))
      → Pair cov t u
      → Matches cov as' ws
      → Matches (cover cov t) (remove_id u.block_id as') (reference_tip B u ws)
  unfolding reference_tip
  Matches-reference_tip cov t u as' ws p m =
      Matches-subtract cov t u (remove_id u.block_id as') (remove_id u.block_id ws) p
        (Matches-remove_id cov u.block_id as' ws m)

  -- No block beyond the first `n` is in the cone of an available tip.
  abbrev pub IsBounded : ℕ → List (TrackedBlock Bits) → Type 0
  IsBounded n avail =
      (a : TrackedBlock Bits) → Among a avail → (j : ℕ) → n ≤ j → test a.refs j ≡ false

  Among-remove_id :
      (i : ℕ) (o : TrackedBlock Bits) (l : List (TrackedBlock Bits))
      → Among o (remove_id i l)
      → Among o l
  unfolding remove_id
  Among-remove_id i o [] h = h
  Among-remove_id i o (b ∷ l) h = elim (Bool-cases (b.block_id == i)) [
    | inl e ↦ inr (Among-remove_id i o l (rw e at h))
    | inr e ↦ elim (rw e at h) as (λ _. Among o (b ∷ l)) [
      | inl q ↦ inl q
      | inr r ↦ inr (Among-remove_id i o l r)
    ]
  ]

  pub remove_id-IsBounded :
      (n i : ℕ) (l : List (TrackedBlock Bits)) → IsBounded n l → IsBounded n (remove_id i l)
  remove_id-IsBounded n i l h a m = h a (Among-remove_id i a l m)
