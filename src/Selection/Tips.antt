-- ===== src/Selection/Tips.antt =====
-- pkg/mselection/heaviest.go: what `removeTip` does to the tips and to the tracked blocks.
use inx_coordinator.Base.{
  ℕ, suc, ◌≡◌, refl, ap, ◌∙◌, Bool, true, false, not, ◌&&◌, ◌||◌, Option, none, some, List, [], ◌∷◌,
  ◌++◌, length, ◌==◌, arith,
}
use inx_coordinator.Selection.Selector.{
  TrackedBlock, Selector, contains, remove_elem, find, clear_tip, flagged, remove_tip, remove_tips,
  known_parents, ids,
}

abbrev pub IsNodup : List ℕ → Type 0
IsNodup [] = Unit
IsNodup (x ∷ xs) = (contains xs x ≡ false) × IsNodup xs

pub contains-remove_elem :
    (a c : ℕ) (xs : List ℕ)
    → IsNodup xs
    → contains (remove_elem a xs) c ≡ (contains xs c && not (a == c))
unfolding remove_elem
contains-remove_elem a c [] n = refl
contains-remove_elem a c (x ∷ xs) n = ground (arith, contains-remove_elem a c xs n.1)

remove_elem-IsNodup : (a : ℕ) (xs : List ℕ) → IsNodup xs → IsNodup (remove_elem a xs)
unfolding remove_elem
remove_elem-IsNodup a [] n = tt
remove_elem-IsNodup a (x ∷ xs) n =
    ground (arith, remove_elem-IsNodup a xs n.1, contains-remove_elem a x xs n.1)

pub contains-append :
    (xs ys : List ℕ) (c : ℕ) → contains (xs ++ ys) c ≡ (contains xs c || contains ys c)
contains-append [] ys c = refl
contains-append (x ∷ xs) ys c = ground (arith, contains-append xs ys c)

pub append-IsNodup :
    (xs : List ℕ) (y : ℕ) → IsNodup xs → contains xs y ≡ false → IsNodup (xs ++ y ∷ [])
append-IsNodup [] y n h = (refl, tt)
append-IsNodup (x ∷ xs) y n h =
    ground (arith, append-IsNodup xs y n.1, contains-append xs (y ∷ []) x)

module _ {R : Type 0} where
  -- The references of a tracked block.
  abbrev pub refs_at : ℕ → List (TrackedBlock R) → Option R
  refs_at a bs = elim (find a bs) [ none ↦ none | some b ↦ some b.refs ]

  abbrev pub is_tracked : ℕ → List (TrackedBlock R) → Bool
  is_tracked a bs = elim (find a bs) [ none ↦ false | some b ↦ true ]

  flagged-clear_tip :
      (a c : ℕ) (bs : List (TrackedBlock R))
      → flagged c (clear_tip a bs) ≡ (flagged c bs && not (a == c))
  unfolding clear_tip
  flagged-clear_tip a c [] = refl
  flagged-clear_tip a c (b ∷ bs) = ground (arith, flagged-clear_tip a c bs)

  refs_at-clear_tip :
      (a c : ℕ) (bs : List (TrackedBlock R)) → refs_at c (clear_tip a bs) ≡ refs_at c bs
  unfolding clear_tip
  refs_at-clear_tip a c [] = refl
  refs_at-clear_tip a c (b ∷ bs) = ground (arith, refs_at-clear_tip a c bs)

  length-clear_tip : (a : ℕ) (bs : List (TrackedBlock R)) → length (clear_tip a bs) ≡ length bs
  unfolding clear_tip
  length-clear_tip a [] = refl
  length-clear_tip a (b ∷ bs) = ap suc (length-clear_tip a bs)

  abbrev pub HasId : ℕ → Option (TrackedBlock R) → Type 0
  HasId a none = Unit
  HasId a (some b) = b.block_id ≡ a

  pub find-HasId : (bs : List (TrackedBlock R)) (a : ℕ) → HasId a (find a bs)
  find-HasId [] a = tt
  find-HasId (b ∷ bs) a = ground (arith, find-HasId bs a)

  -- The tip pointers agree with the list of tips, which holds nothing twice.
  pub record TipsAgree (s : Selector R) : Type 0 where
    pub flags : (c : ℕ) → flagged c s.tracked ≡ contains s.tips c
    pub nodup : IsNodup s.tips

  -- `t` is `s` with the blocks `as'` taken out of the tips.
  pub record Removed (as' : List ℕ) (s t : Selector R) : Type 0 where
    pub agree : TipsAgree t
    pub tips : (c : ℕ) → contains t.tips c ≡ (contains s.tips c && not (contains as' c))
    pub refs : (c : ℕ) → refs_at c t.tracked ≡ refs_at c s.tracked
    pub size : length t.tracked ≡ length s.tracked
    pub limits : t.limits ≡ s.limits

  remove_tip-flags :
      (a : ℕ) (s : Selector R) (c : ℕ)
      → TipsAgree s
      → flagged c (remove_tip a s).tracked ≡ contains (remove_tip a s).tips c
  unfolding remove_tip
  remove_tip-flags a s c g = ground (
    arith,
    g.flags a,
    g.flags c,
    contains-remove_elem a c s.tips g.nodup,
    flagged-clear_tip a c s.tracked,
  )

  remove_tip-IsNodup : (a : ℕ) (s : Selector R) → TipsAgree s → IsNodup (remove_tip a s).tips
  unfolding remove_tip
  remove_tip-IsNodup a s g = ground (arith, remove_elem-IsNodup a s.tips g.nodup)

  remove_tip-tips :
      (a : ℕ) (s : Selector R) (c : ℕ)
      → TipsAgree s
      → contains (remove_tip a s).tips c ≡ (contains s.tips c && not (contains (a ∷ []) c))
  unfolding remove_tip
  remove_tip-tips a s c g = ground (arith, g.flags a, contains-remove_elem a c s.tips g.nodup)

  remove_tip-refs :
      (a : ℕ) (s : Selector R) (c : ℕ) → refs_at c (remove_tip a s).tracked ≡ refs_at c s.tracked
  unfolding remove_tip
  remove_tip-refs a s c = ground (arith, refs_at-clear_tip a c s.tracked)

  remove_tip-Removed : (a : ℕ) (s : Selector R) → TipsAgree s → Removed (a ∷ []) s (remove_tip a s)
  unfolding remove_tip
  remove_tip-Removed a s g = record {
    agree = record { flags = λ c. remove_tip-flags a s c g; nodup = remove_tip-IsNodup a s g };
    tips = λ c. remove_tip-tips a s c g;
    refs = remove_tip-refs a s;
    size = ground (arith, length-clear_tip a s.tracked);
    limits = ground arith;
  }

  -- The loop over the parents takes all of them out, and changes nothing else.
  pub remove_tips-Removed :
      (as' : List ℕ) (s : Selector R) → TipsAgree s → Removed as' s (remove_tips as' s)
  unfolding remove_tips
  remove_tips-Removed [] s g = record {
    agree = g;
    tips = λ c. ground arith;
    refs = λ c. refl;
    size = refl;
    limits = refl;
  }
  remove_tips-Removed (a ∷ as') s g =
      let one = remove_tip-Removed a s g in
      let rest = remove_tips-Removed as' (remove_tip a s) one.agree in
      record {
        agree = rest.agree;
        tips = λ c. ground (arith, one.tips c, rest.tips c);
        refs = λ c. rest.refs c ∙ one.refs c;
        size = rest.size ∙ one.size;
        limits = rest.limits ∙ one.limits;
      }

  -- The parents that are found are those that are tracked.
  pub contains-known_parents :
      (bs : List (TrackedBlock R)) (ps : List ℕ) (c : ℕ)
      → contains (ids (known_parents bs ps)) c ≡ (contains ps c && is_tracked c bs)
  unfolding known_parents
  contains-known_parents bs [] c = refl
  contains-known_parents bs (p ∷ ps) c =
      ground (arith, contains-known_parents bs ps c, find-HasId bs p)
