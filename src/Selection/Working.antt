-- ===== src/Selection/Working.antt =====
-- pkg/mselection/heaviest.go: the working list of `SelectTips` holds the tips of the selector.
use inx_coordinator.Base.{
  ℕ, ◌≡◌, refl, ap, sym, ◌∙◌, inl, inr, true, List, [], ◌∷◌, Among, arith, subst, Option-cases,
  Option, none, some,
}
use inx_coordinator.Selection.Selector.{TrackedBlock, contains, ids, find}
use inx_coordinator.Selection.Tips.{HasId, find-HasId, is_tracked}
use inx_coordinator.Selection.Picking.{tips_to_list}

module _ {R : Type 0} where
  tips_to_list_miss :
      (a : ℕ) (tips : List ℕ) (bs : List (TrackedBlock R))
      → find a bs ≡ none
      → tips_to_list (a ∷ tips) bs ≡ tips_to_list tips bs
  unfolding tips_to_list
  tips_to_list_miss a tips bs e = rw (e, tips_to_list)

  tips_to_list_hit :
      (a : ℕ) (tips : List ℕ) (bs : List (TrackedBlock R)) (b : TrackedBlock R)
      → find a bs ≡ some b
      → tips_to_list (a ∷ tips) bs ≡ b ∷ tips_to_list tips bs
  unfolding tips_to_list
  tips_to_list_hit a tips bs b e = rw (e, tips_to_list)

  tips_to_list-nil : (bs : List (TrackedBlock R)) → tips_to_list [] bs ≡ []
  unfolding tips_to_list
  tips_to_list-nil bs = refl

  abbrev Found : List ℕ → List (TrackedBlock R) → TrackedBlock R → Type 0
  Found tips bs t = (a : ℕ) × (contains tips a ≡ true) × (find a bs ≡ some t)

  -- The working list holds the tracked blocks of the tips.
  pub tips_to_list-Found :
      (tips : List ℕ) (bs : List (TrackedBlock R)) (t : TrackedBlock R)
      → Among t (tips_to_list tips bs)
      → Found tips bs t
  tips_to_list-Found [] bs t h = absurd (subst (Among t) (tips_to_list-nil bs) h)
  tips_to_list-Found (a ∷ as') bs t h = elim (Option-cases (find a bs)) [
    | inl e ↦
        let (x, m, f) =
          tips_to_list-Found as' bs t (subst (Among t) (tips_to_list_miss a as' bs e) h) in
        (x, ground arith, f)
    | inr (b, e) ↦ elim (subst (Among t) (tips_to_list_hit a as' bs b e) h) [
      | inl q ↦ (a, ground arith, e ∙ ap {B = Option (TrackedBlock R)} some (sym q))
      | inr r ↦ let (x, m, f) = tips_to_list-Found as' bs t r in (x, ground arith, f)
    ]
  ]

  pub contains-tips_to_list :
      (tips : List ℕ) (bs : List (TrackedBlock R)) (x : ℕ)
      → contains (ids (tips_to_list tips bs)) x ≡ true
      → contains tips x ≡ true
  unfolding tips_to_list
  contains-tips_to_list [] bs x h = cc
  contains-tips_to_list (a ∷ as') bs x h =
      ground (arith, contains-tips_to_list as' bs x, find-HasId bs a)

  -- A tip that is tracked is in the working list.
  pub tips_to_list-contains :
      (tips : List ℕ) (bs : List (TrackedBlock R)) (x : ℕ)
      → contains tips x ≡ true
      → is_tracked x bs ≡ true
      → contains (ids (tips_to_list tips bs)) x ≡ true
  tips_to_list-contains [] bs x h k = cc
  tips_to_list-contains (a ∷ as') bs x h k = elim (Option-cases (find a bs)) [
    | inl e ↦ rw (tips_to_list_miss a as' bs e) (tips_to_list-contains as' bs x (ground arith) k)
    | inr (b, e) ↦
        rw (tips_to_list_hit a as' bs b e)
          (ground (arith, tips_to_list-contains as' bs x, subst (HasId a) e (find-HasId bs a)))
  ]

  pub no_tips :
      (tips : List ℕ) (w : List (TrackedBlock R))
      → ((x : ℕ) → contains tips x ≡ true → contains (ids w) x ≡ true)
      → w ≡ []
      → tips ≡ []
  no_tips [] w h e = refl
  no_tips (a ∷ as') w h e = cc (subst (λ l. contains (ids l) a ≡ true) e (h a (ground arith)))
