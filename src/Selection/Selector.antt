-- ===== src/Selection/Selector.antt =====
-- pkg/mselection/heaviest.go: the state of the selector and `OnNewSolidBlock`. Block IDs are numbers.
-- The map of tracked blocks is a list, the newest first; a pointer to a block is its ID, since the
-- map holds every block that the list of tips points to.
use inx_coordinator.Base.{
  ℕ, ◌+◌, Bool, true, false, Option, none, some, List, [], ◌∷◌, ◌++◌, length, ◌==◌, if◌then◌else◌,
  ◌||◌,
}
use inx_coordinator.Selection.Bits.{Bitset}

-- `trackedBlock`; `is_tip` says that `tip`, the element in the list of tips, is not nil.
pub record TrackedBlock (R : Type 0) : Type 0 where
  pub block_id : ℕ
  pub is_tip : Bool
  pub refs : R

-- The fields of `HeaviestSelector` that steer the selection.
pub record Limits : Type 0 where
  pub min_unreferenced : ℕ
  pub max_heaviest_tips : ℕ
  pub random_tips : ℕ

-- `HeaviestSelector`
pub record Selector (R : Type 0) : Type 0 where
  pub limits : Limits
  pub tracked : List (TrackedBlock R)
  pub tips : List ℕ

abbrev pub contains : List ℕ → ℕ → Bool
contains [] a = false
contains (x ∷ xs) a = (x == a) || contains xs a

-- `list.Remove` of the element that holds an ID.
unfoldable pub remove_elem : ℕ → List ℕ → List ℕ
remove_elem a [] = []
remove_elem a (x ∷ xs) = if x == a then xs else x ∷ remove_elem a xs

module _ {R : Type 0} where
  -- `Reset`
  unfoldable pub reset : Selector R → Selector R
  reset s = record s { tracked = []; tips = [] }

  -- `s.trackedBlocks[id]`
  abbrev pub find : ℕ → List (TrackedBlock R) → Option (TrackedBlock R)
  find a [] = none
  find a (b ∷ bs) = if b.block_id == a then some b else find a bs

  -- The tip pointer of a block is set to nil.
  unfoldable pub clear_tip : ℕ → List (TrackedBlock R) → List (TrackedBlock R)
  clear_tip a [] = []
  clear_tip a (b ∷ bs) =
      (if b.block_id == a then record b { is_tip = false } else b) ∷ clear_tip a bs

  abbrev pub flagged : ℕ → List (TrackedBlock R) → Bool
  flagged a bs = elim (find a bs) [ none ↦ false | some b ↦ b.is_tip ]

  -- `removeTip`: nothing is done for a block whose tip pointer is nil.
  unfoldable pub remove_tip : ℕ → Selector R → Selector R
  remove_tip a s =
      if flagged a s.tracked
      then record s { tips = remove_elem a s.tips; tracked = clear_tip a s.tracked }
      else s

  unfoldable pub remove_tips : List ℕ → Selector R → Selector R
  remove_tips [] s = s
  remove_tips (a ∷ as') s = remove_tips as' (remove_tip a s)

  -- The parents that are tracked, with repetitions.
  unfoldable pub known_parents : List (TrackedBlock R) → List ℕ → List (TrackedBlock R)
  known_parents bs [] = []
  known_parents bs (p ∷ ps) = elim (find p bs) [
    | none ↦ known_parents bs ps
    | some b ↦ b ∷ known_parents bs ps
  ]

  abbrev pub ids : List (TrackedBlock R) → List ℕ
  ids [] = []
  ids (b ∷ bs) = b.block_id ∷ ids bs

  -- `TrackedBlocksCount`
  unfoldable pub tracked_blocks_count : Selector R → ℕ
  tracked_blocks_count s = length s.tracked

module _ (B : Bitset) where
  open B use {Bits, new, set, union}

  -- The union of the references of the parents, in the order of the parents.
  unfoldable pub union_refs : Bits → List (TrackedBlock Bits) → Bits
  union_refs r [] = r
  union_refs r (p ∷ ps) = union_refs (union r p.refs) ps

  -- `OnNewSolidBlock`, with the tracked count that it returns (0 for a duplicate).
  unfoldable pub on_new_solid_block : Selector Bits → ℕ → List ℕ → Selector Bits × ℕ
  unfolding union_refs
  on_new_solid_block s id parents = elim (find id s.tracked) [
    | some b ↦ (s, 0)
    | none ↦
        let parent_items = known_parents s.tracked parents in
        let idx = length s.tracked in
        let refs = union_refs (set (new (idx + 1)) idx) parent_items in
        let item : TrackedBlock Bits = record { block_id = id; is_tip = true; refs = refs } in
        let t = remove_tips (ids parent_items) s in
        let u = record t { tracked = item ∷ t.tracked; tips = t.tips ++ id ∷ [] } in
        (u, tracked_blocks_count u)
  ]
