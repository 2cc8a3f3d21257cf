-- ===== src/Selection/Cone.antt =====
-- The blocks that reached the selector since its reset, as a graph: the description that the
-- selector's bit sets and list of tips are held to.
use inx_coordinator.Base.{
  ℕ, ◌<◌, ◌≡◌, Bool, true, false, ◌&&◌, ◌||◌, List, [], ◌∷◌, ◌==◌, if◌then◌else◌, arith, length,
  inl, inr, sym, ◌∙◌, ◌⊎◌,
}
use inx_coordinator.Selection.Selector.{contains}

-- Block IDs with their parents, the newest first.
abbrev pub History : Type 0
History = List (ℕ × List ℕ)

abbrev pub known : History → ℕ → Bool
known [] a = false
known ((i, ps) ∷ h) a = (i == a) || known h a

-- `p` is a parent of `a` that was known when `a` arrived.
abbrev pub is_parent : History → ℕ → ℕ → Bool
is_parent [] a p = false
is_parent ((i, ps) ∷ h) a p = if i == a then contains ps p && known h p else is_parent h a p

abbrev pub has_child : History → ℕ → Bool
has_child [] a = false
has_child ((i, ps) ∷ h) a = (contains ps a && known h a) || has_child h a

-- `b` lies in the past cone of `a`, or is `a`.
pub data Reaches (h : History) (b : ℕ) : ℕ → Type 0 where
  self : known h b ≡ true → Reaches h b b
  up : {a p : ℕ} → is_parent h a p ≡ true → Reaches h b p → Reaches h b a

-- A block that is known already is dropped.
abbrev pub arrive : History → ℕ → List ℕ → History
arrive h i ps = if known h i then h else (i, ps) ∷ h

-- The place of a block in the order of arrival.
abbrev pub place : History → ℕ → ℕ
place [] a = 0
place ((i, ps) ∷ h) a = if i == a then length h else place h a

pub place-lt : (h : History) (a : ℕ) → known h a ≡ true → place h a < length h
place-lt [] a k = cc
place-lt ((i, ps) ∷ h) a k = ground (arith, place-lt h a)

-- Different blocks have different places, if no block is there twice.
abbrev pub IsFresh : History → Type 0
IsFresh [] = Unit
IsFresh ((i, ps) ∷ h) = (known h i ≡ false) × IsFresh h

pub is_parent-known :
    (h : History) (a p : ℕ) → is_parent h a p ≡ true → (known h a ≡ true) × (known h p ≡ true)
is_parent-known [] a p k = cc
is_parent-known ((i, ps) ∷ h) a p k = ground (arith, is_parent-known h a p)

pub has_child-known : (h : History) (a : ℕ) → has_child h a ≡ true → known h a ≡ true
has_child-known [] a k = cc
has_child-known ((i, ps) ∷ h) a k = ground (arith, has_child-known h a)

pub Reaches-known :
    (h : History) (b : ℕ) {a : ℕ} → Reaches h b a → (known h a ≡ true) × (known h b ≡ true)
Reaches-known h b (self k) = (k, k)
Reaches-known h b (up {a = a} {p = p} e r) = ((is_parent-known h a p e).0, (Reaches-known h b r).1)

module _ (i : ℕ) (ps : List ℕ) (h : History) (fresh : known h i ≡ false) where
  -- A new block is in nobody's cone but its own.
  is_parent_old : (a p : ℕ) → known h a ≡ true → is_parent ((i, ps) ∷ h) a p ≡ is_parent h a p
  is_parent_old a p k = ground arith

  pub Reaches-weaken : (b : ℕ) {a : ℕ} → Reaches h b a → Reaches ((i, ps) ∷ h) b a
  Reaches-weaken b (self k) = self (ground arith)
  Reaches-weaken b (up {a = a} {p = p} e r) =
      up (is_parent_old a p (is_parent-known h a p e).0 ∙ e) (Reaches-weaken b r)

  pub Reaches-old : (b : ℕ) {a : ℕ} → known h a ≡ true → Reaches ((i, ps) ∷ h) b a → Reaches h b a
  Reaches-old b k (self e) = self k
  Reaches-old b k (up {a = a} {p = p} e r) =
      let e' = sym (is_parent_old a p k) ∙ e in up e' (Reaches-old b (is_parent-known h a p e').1 r)

  -- The cone of a new block: itself, and the cones of its known parents.
  pub Reaches-new :
      (b : ℕ) {a : ℕ}
      → a ≡ i
      → Reaches ((i, ps) ∷ h) b a
      → (b ≡ i) ⊎ ((p : ℕ) × (contains ps p ≡ true) × (known h p ≡ true) × Reaches h b p)
  Reaches-new b e (self k) = inl e
  Reaches-new b e (up {a = a} {p = p} k r) =
      let kp : known h p ≡ true = ground arith in inr (p, ground arith, kp, Reaches-old b kp r)
