-- ===== src/Selection/Arrival.antt =====
-- pkg/mselection/heaviest.go: after any arrivals the selector describes the past cones and the tips.
use inx_coordinator.Base.{
  ℕ, ◌+◌, ◌≤◌, ◌≡◌, true, false, not, ◌&&◌, ◌||◌, none, some, List, [], ◌∷◌, ◌++◌, ◌==◌,
  if◌then◌else◌, arith, Bool-cases, inl, inr, length,
}
use inx_coordinator.Selection.Bits.{Bitset}
use inx_coordinator.Selection.Selector.{
  TrackedBlock, Selector, contains, find, known_parents, ids, union_refs, on_new_solid_block,
  remove_tips, tracked_blocks_count,
}
use inx_coordinator.Selection.Tips.{
  is_tracked, TipsAgree, Removed, remove_tips-Removed, contains-known_parents, contains-append,
  append-IsNodup,
}
use inx_coordinator.Selection.Refs.{test_at, any_ref, union_refs_lem, any_ref_sound}
use inx_coordinator.Selection.Cone.{
  History, known, has_child, Reaches, place, IsFresh, has_child-known,
}

module _ (B : Bitset) where
  open B use {Bits, test, new, set, union}

  -- The selector agrees with the blocks that arrived since its reset.
  pub record Follows (h : History) (s : Selector Bits) : Type 0 where
    pub fresh : IsFresh h
    pub agree : TipsAgree s
    pub size : length s.tracked ≡ length h
    pub all : (a : ℕ) → is_tracked a s.tracked ≡ known h a
    -- The tips are the blocks with no child.
    pub tips : (a : ℕ) → contains s.tips a ≡ (known h a && not (has_child h a))
    pub bound : (a j : ℕ) → length h ≤ j → test_at B a s.tracked j ≡ false
    -- A bit is set exactly for the blocks of the past cone.
    pub sound :
        (a b : ℕ)
        → known h a ≡ true
        → known h b ≡ true
        → test_at B a s.tracked (place h b) ≡ true
        → Reaches h b a
    pub complete : (a b : ℕ) → Reaches h b a → test_at B a s.tracked (place h b) ≡ true

  -- The references of a block that is new to the selector.
  abbrev pub new_refs : List (TrackedBlock Bits) → List ℕ → Bits
  new_refs bs ps = union_refs B (set (new (length bs + 1)) (length bs)) (known_parents bs ps)

  test-new_refs :
      (bs : List (TrackedBlock Bits)) (ps : List ℕ) (j : ℕ)
      → test (new_refs bs ps) j ≡ ((length bs == j) || any_ref B bs ps j)
  test-new_refs bs ps j = ground (
    arith,
    union_refs_lem B (set (new (length bs + 1)) (length bs)) bs ps j,
    B.test-set (new (length bs + 1)) (length bs) j,
    B.test-new (length bs + 1) j,
  )

  abbrev pub new_item : ℕ → List ℕ → Selector Bits → TrackedBlock Bits
  new_item i ps s = record { block_id = i; is_tip = true; refs = new_refs s.tracked ps }

  abbrev pub untipped : List ℕ → Selector Bits → Selector Bits
  untipped ps s = remove_tips (ids (known_parents s.tracked ps)) s

  abbrev pub grown : ℕ → List ℕ → Selector Bits → Selector Bits
  grown i ps s =
      let t = untipped ps s in
      record t { tracked = new_item i ps s ∷ t.tracked; tips = t.tips ++ i ∷ [] }

  pub arrival_new :
      (s : Selector Bits) (i : ℕ) (ps : List ℕ)
      → find i s.tracked ≡ none
      → on_new_solid_block B s i ps ≡ (grown i ps s, length (grown i ps s).tracked)
  unfolding on_new_solid_block tracked_blocks_count
  arrival_new s i ps e = rw (e, on_new_solid_block)

  pub arrival_old :
      (s : Selector Bits) (i : ℕ) (ps : List ℕ) (b : TrackedBlock Bits)
      → find i s.tracked ≡ some b
      → on_new_solid_block B s i ps ≡ (s, 0)
  unfolding on_new_solid_block
  arrival_old s i ps b e = rw (e, on_new_solid_block)

  module _ (h : History) (s : Selector Bits) (i : ℕ) (ps : List ℕ) (f : Follows h s)
      (new_id : known h i ≡ false) where
    pub removed : Removed (ids (known_parents s.tracked ps)) s (untipped ps s)
    removed = remove_tips-Removed (ids (known_parents s.tracked ps)) s f.agree

    pub grown_test :
        (a j : ℕ)
        → test_at B a (grown i ps s).tracked j ≡ (
            if i == a then (length h == j) || any_ref B s.tracked ps j else test_at B a s.tracked j)
    grown_test a j = ground (arith, removed.refs a, test-new_refs s.tracked ps j, f.size)

    pub grown_all : (a : ℕ) → is_tracked a (grown i ps s).tracked ≡ known ((i, ps) ∷ h) a
    grown_all a = ground (arith, removed.refs a, f.all a)

    taken :
        (a : ℕ)
        → contains (untipped ps s).tips a
          ≡ (known h a && (not (has_child h a) && not (contains ps a)))
    taken a =
        ground (arith, removed.tips a, contains-known_parents s.tracked ps a, f.all a, f.tips a)

    pub grown_tips :
        (a : ℕ)
        → contains (grown i ps s).tips a
          ≡ (known ((i, ps) ∷ h) a && not (has_child ((i, ps) ∷ h) a))
    grown_tips a =
        ground
          (arith, contains-append (untipped ps s).tips (i ∷ []) a, taken a, has_child-known h a)

    pub grown_agree : TipsAgree (grown i ps s)
    grown_agree = record {
      flags = λ c.
          ground (arith, removed.agree.flags c, contains-append (untipped ps s).tips (i ∷ []) c);
      nodup = append-IsNodup (untipped ps s).tips i removed.agree.nodup (ground (arith, taken i));
    }

    pub any_ref-known :
        (j : ℕ)
        → any_ref B s.tracked ps j ≡ true
        → (p : ℕ) × (contains ps p ≡ true) × (known h p ≡ true) × (test_at B p s.tracked j ≡ true)
    any_ref-known j e =
        let (p, m, t) = any_ref_sound B s.tracked ps j e in (p, m, ground (arith, f.all p), t)

    pub grown_bound :
        (a j : ℕ) → length ((i, ps) ∷ h) ≤ j → test_at B a (grown i ps s).tracked j ≡ false
    grown_bound a j le = elim (Bool-cases (any_ref B s.tracked ps j)) [
      | inr e ↦ ground (arith, grown_test a j, f.bound a j)
      | inl e ↦ let (p, m, k, t) = any_ref-known j e in absurd (ground (arith, f.bound p j))
    ]
