-- ===== src/Selection/Draws.antt =====
-- pkg/mselection/heaviest.go: picking from the working list takes every tip at most once.
use inx_coordinator.Base.{
  ◌⊎◌, ℕ, ◌≡◌, refl, ap, ◌∙◌, inl, inr, true, not, ◌&&◌, List, [], ◌∷◌, ◌++◌, Among, arith, ◌==◌,
  if◌then◌else◌, Bool-cases,
}
use inx_coordinator.Selection.Bits.{Bitset}
use inx_coordinator.Selection.Selector.{TrackedBlock, contains, ids}
use inx_coordinator.Selection.Picking.{remove_id, subtract, reference_tip}
use inx_coordinator.Selection.Tips.{IsNodup}

abbrev pub without : ℕ → List ℕ → List ℕ
without a [] = []
without a (x ∷ xs) = if x == a then without a xs else x ∷ without a xs

contains-without :
    (a c : ℕ) (xs : List ℕ) → contains (without a xs) c ≡ (contains xs c && not (a == c))
contains-without a c [] = refl
contains-without a c (x ∷ xs) = ground (arith, contains-without a c xs)

-- IDs taken out of a list one after the other, and what is left of it.
pub data Draws : List ℕ → List ℕ → List ℕ → Type 0 where
  done : {l : List ℕ} → Draws l [] l
  draw :
      {l r as' : List ℕ} {a : ℕ}
      → contains l a ≡ true
      → Draws (without a l) as' r
      → Draws l (a ∷ as') r

pub Draws-append : {l m r as' bs : List ℕ} → Draws l as' m → Draws m bs r → Draws l (as' ++ bs) r
Draws-append done e = e
Draws-append (draw h d) e = draw h (Draws-append d e)

-- What is drawn was there.
pub Draws-contains :
    {l r as' : List ℕ} (c : ℕ) → Draws l as' r → contains as' c ≡ true → contains l c ≡ true
Draws-contains c done h = cc
Draws-contains c (draw {l = l} {as' = as'} {a = a} k d) h = elim (Bool-cases (a == c)) [
  | inl e ↦ ground arith
  | inr e ↦ ground (arith, Draws-contains c d, contains-without a c l)
]

-- Nothing is drawn twice.
pub Draws-IsNodup : {l r as' : List ℕ} → Draws l as' r → IsNodup as'
Draws-IsNodup done = tt
Draws-IsNodup (draw {l = l} {as' = as'} {a = a} k d) = (
  elim (Bool-cases (contains as' a)) [
    | inr e ↦ e
    | inl e ↦ absurd (ground (arith, Draws-contains a d e, contains-without a a l))
  ],
  Draws-IsNodup d,
)

-- What is not left was drawn.
pub Draws-rest :
    {l r as' : List ℕ} (c : ℕ)
    → Draws l as' r
    → contains l c ≡ true
    → (contains as' c ≡ true) ⊎ (contains r c ≡ true)
Draws-rest c done h = inr h
Draws-rest c (draw {l = l} {as' = as'} {a = a} k d) h = elim (Bool-cases (a == c)) [
  | inl e ↦ inl (ground arith)
  | inr e ↦ elim (Draws-rest c d (ground (arith, contains-without a c l))) [
    | inl q ↦ inl (ground arith)
    | inr q ↦ inr q
  ]
]

pub Draws-nil : {l r as' : List ℕ} → Draws l as' r → as' ≡ [] → l ≡ r
Draws-nil done e = refl
Draws-nil (draw h d) e = cc

module _ {R : Type 0} where
  pub contains-ids :
      (t : TrackedBlock R) (w : List (TrackedBlock R))
      → Among t w
      → contains (ids w) t.block_id ≡ true
  contains-ids t [] a = absurd a
  contains-ids t (x ∷ w) (inl e) = ground arith
  contains-ids t (x ∷ w) (inr a) = ground (arith, contains-ids t w a)

  ids-remove_id : (a : ℕ) (w : List (TrackedBlock R)) → ids (remove_id a w) ≡ without a (ids w)
  unfolding remove_id
  ids-remove_id a [] = refl
  ids-remove_id a (b ∷ w) = ground (arith, ids-remove_id a w)

module _ (B : Bitset) where
  open B use {Bits}

  ids-subtract : (r : Bits) (w : List (TrackedBlock Bits)) → ids (subtract B r w) ≡ ids w
  unfolding subtract
  ids-subtract r [] = refl
  ids-subtract r (b ∷ w) = ap (◌∷◌ b.block_id) (ids-subtract r w)

  -- `referenceTip` takes the tip's ID out.
  pub ids-reference_tip :
      (t : TrackedBlock Bits) (w : List (TrackedBlock Bits))
      → ids (reference_tip B t w) ≡ without t.block_id (ids w)
  unfolding reference_tip
  ids-reference_tip t w = ids-subtract t.refs (remove_id t.block_id w) ∙ ids-remove_id t.block_id w
