-- ===== src/Selection/Describes.antt =====
-- pkg/mselection/heaviest.go: the bits of the tracked blocks are the past cones, after any arrivals.
use inx_coordinator.Base.{
  ℕ, suc, ◌≡◌, refl, ap, sym, ◌∙◌, true, false, List, [], ◌∷◌, ◌==◌, if◌then◌else◌, arith,
  Bool-cases, inl, inr, subst, Option-cases, length,
}
use inx_coordinator.Selection.Bits.{Bitset}
use inx_coordinator.Selection.Selector.{
  Selector, find, on_new_solid_block, reset, remove_tip, remove_tips, flagged, known_parents, ids,
}
use inx_coordinator.Selection.Refs.{test_at, any_ref, any_ref_complete}
use inx_coordinator.Selection.Arrival.{
  Follows, grown, arrival_new, arrival_old, removed, grown_test, grown_all, grown_tips, grown_agree,
  any_ref-known, grown_bound,
}
use inx_coordinator.Selection.Cone.{
  History, known, Reaches, self, up, arrive, place, place-lt, Reaches-known, Reaches-weaken,
  Reaches-old, Reaches-new,
}

module _ (B : Bitset) where
  open B use {Bits}

  module _ (h : History) (s : Selector Bits) (i : ℕ) (ps : List ℕ) (f : Follows B h s)
      (new_id : known h i ≡ false) where
    abbrev h' : History
    h' = (i, ps) ∷ h

    abbrev s' : Selector Bits
    s' = grown B i ps s

    -- The new block references what its parents reference.
    through_parent :
        (b : ℕ) → known h b ≡ true → any_ref B s.tracked ps (place h b) ≡ true → Reaches h' b i
    through_parent b kb e =
        let (p, m, k, t) = any_ref-known B h s i ps f new_id (place h b) e in
        up (ground arith) (Reaches-weaken i ps h new_id b (f.sound p b k kb t))

    sound_new :
        (b : ℕ) → known h' b ≡ true → test_at B i s'.tracked (place h' b) ≡ true → Reaches h' b i
    sound_new b kb t = elim (Bool-cases (i == b)) [
      | inl e ↦ let same : i ≡ b = ground arith in subst (Reaches h' b) (sym same) (self kb)
      | inr e ↦
          let old : known h b ≡ true = ground arith in
          through_parent b old
            (ground (arith, grown_test B h s i ps f new_id i (place h' b), place-lt h b))
    ]

    grown_sound :
        (a b : ℕ)
        → known h' a ≡ true
        → known h' b ≡ true
        → test_at B a s'.tracked (place h' b) ≡ true
        → Reaches h' b a
    grown_sound a b ka kb t = elim (Bool-cases (i == a)) [
      | inl e ↦
          let same : i ≡ a = ground arith in
          subst (Reaches h' b) same
            (sound_new b kb (subst (λ x. test_at B x s'.tracked (place h' b) ≡ true) (sym same) t))
      | inr e ↦
          let old : known h a ≡ true = ground arith in
          Reaches-weaken i ps h new_id b (
            f.sound a b old
              (ground (arith, grown_test B h s i ps f new_id a (place h' b), f.bound a (length h)))
              (ground (arith, grown_test B h s i ps f new_id a (place h' b), f.bound a (length h))))
    ]

    complete_new : (b : ℕ) → Reaches h' b i → test_at B i s'.tracked (place h' b) ≡ true
    complete_new b r = elim (Reaches-new i ps h new_id b refl r) [
      | inl e ↦ ground (arith, grown_test B h s i ps f new_id i (place h' b))
      | inr (p, m, k, q) ↦
          let (kp, kb) = Reaches-known h b q in
          ground (
            arith,
            grown_test B h s i ps f new_id i (place h' b),
            any_ref_complete B s.tracked ps (place h b) p m (f.complete p b q),
          )
    ]

    grown_complete : (a b : ℕ) → Reaches h' b a → test_at B a s'.tracked (place h' b) ≡ true
    grown_complete a b r = elim (Bool-cases (i == a)) [
      | inl e ↦
          let same : i ≡ a = ground arith in
          subst (λ x. test_at B x s'.tracked (place h' b) ≡ true) same
            (complete_new b (subst (Reaches h' b) (sym same) r))
      | inr e ↦
          let old : known h a ≡ true = ground (arith, (Reaches-known h' b r).0) in
          let q = Reaches-old i ps h new_id b old r in
          ground (
            arith,
            grown_test B h s i ps f new_id a (place h' b),
            (Reaches-known h b q).1,
            f.complete a b q,
          )
    ]

    grown-Follows : Follows B h' s'
    grown-Follows = record {
      fresh = (new_id, f.fresh);
      agree = grown_agree B h s i ps f new_id;
      size = ap suc ((removed B h s i ps f new_id).size ∙ f.size);
      all = grown_all B h s i ps f new_id;
      tips = grown_tips B h s i ps f new_id;
      bound = grown_bound B h s i ps f new_id;
      sound = grown_sound;
      complete = grown_complete;
    }

  -- `OnNewSolidBlock` keeps the agreement, and returns the number of blocks known since the reset;
  -- for a block that is known already it changes nothing and returns 0.
  pub on_new_solid_block-Follows :
      (h : History) (s : Selector Bits) (i : ℕ) (ps : List ℕ)
      → Follows B h s
      → Follows B (arrive h i ps) (on_new_solid_block B s i ps).0
        × ((on_new_solid_block B s i ps).1 ≡ (if known h i then 0 else length (arrive h i ps)))
  on_new_solid_block-Follows h s i ps f = elim (Option-cases (find i s.tracked)) [
    | inr (b, e) ↦
        let old : known h i ≡ true = ground (arith, f.all i) in
        rw (arrival_old B s i ps b e, old) (f, refl)
    | inl e ↦
        let new_id : known h i ≡ false = ground (arith, f.all i) in
        rw (arrival_new B s i ps e, new_id)
          (grown-Follows h s i ps f new_id, ap suc ((removed B h s i ps f new_id).size ∙ f.size))
  ]

  abbrev pub feed : Selector Bits → List (ℕ × List ℕ) → Selector Bits
  feed s [] = s
  feed s ((i, ps) ∷ l) = feed (on_new_solid_block B s i ps).0 l

  abbrev pub arrivals : History → List (ℕ × List ℕ) → History
  arrivals h [] = h
  arrivals h ((i, ps) ∷ l) = arrivals (arrive h i ps) l

  feed-Follows :
      (h : History) (s : Selector Bits) (l : List (ℕ × List ℕ))
      → Follows B h s
      → Follows B (arrivals h l) (feed s l)
  feed-Follows h s [] f = f
  feed-Follows h s ((i, ps) ∷ l) f =
      feed-Follows (arrive h i ps) (on_new_solid_block B s i ps).0 l
        (on_new_solid_block-Follows h s i ps f).0

  pub reset-Follows : (s : Selector Bits) → Follows B [] (reset s)
  unfolding reset
  reset-Follows s = record {
    fresh = tt;
    agree = record { flags = λ c. refl; nodup = tt };
    size = refl;
    all = λ a. refl;
    tips = λ a. refl;
    bound = λ a j le. refl;
    sound = λ a b k l t. absurd (ground arith);
    complete = λ a b r. absurd (ground (arith, (Reaches-known [] b r).0));
  }

  reset-remove_tip : (a : ℕ) (s : Selector Bits) → reset (remove_tip a s) ≡ reset s
  unfolding reset remove_tip
  reset-remove_tip a s = elim (Bool-cases (flagged a s.tracked)) [
    | inl e ↦ rw (e, remove_tip) refl
    | inr e ↦ rw (e, remove_tip) refl
  ]

  reset-remove_tips : (l : List ℕ) (s : Selector Bits) → reset (remove_tips l s) ≡ reset s
  unfolding remove_tips
  reset-remove_tips [] s = refl
  reset-remove_tips (a ∷ l) s = reset-remove_tips l (remove_tip a s) ∙ reset-remove_tip a s

  reset-on_new_solid_block :
      (s : Selector Bits) (i : ℕ) (ps : List ℕ) → reset (on_new_solid_block B s i ps).0 ≡ reset s
  unfolding reset on_new_solid_block
  reset-on_new_solid_block s i ps = elim (Option-cases (find i s.tracked)) [
    | inl e ↦ rw (e, on_new_solid_block) (reset-remove_tips (ids (known_parents s.tracked ps)) s)
    | inr (b, e) ↦ rw (e, on_new_solid_block) refl
  ]

  -- What arrives before a reset is dropped by it, so a success of `SelectTips` leaves the same
  -- selector when blocks arrive between its `TipsToList` and its `Reset`.
  reset-feed : (s : Selector Bits) (l : List (ℕ × List ℕ)) → reset (feed s l) ≡ reset s
  reset-feed s [] = refl
  reset-feed s ((i, ps) ∷ l) =
      reset-feed (on_new_solid_block B s i ps).0 l ∙ reset-on_new_solid_block s i ps

  -- After a reset and any arrivals, in any order and with repetitions: the tracked blocks are those
  -- that arrived; the tips are those with no later child, each once, and the tip pointers agree with
  -- that; and the bit of `b` is set in the references of `a` exactly if `b` is in the past cone of
  -- `a` among them. The bit set library is any with the documented laws.
  pub feed-reset-Follows :
      (s : Selector Bits) (l : List (ℕ × List ℕ)) → Follows B (arrivals [] l) (feed (reset s) l)
  feed-reset-Follows s l = feed-Follows [] (reset s) l (reset-Follows s)
