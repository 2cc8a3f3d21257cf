-- ===== src/Selection/Picking.antt =====
-- pkg/mselection/heaviest.go and random.go: `SelectTips` and what it calls. The working list holds
-- copies of the tracked blocks of the tips: the code shares them with the map, and every run that
-- writes to them ends in `Reset`, which drops the map.
use inx_coordinator.Base.{
  get_elem?, ℕ, zero, suc, ◌+◌, ◌-◌, ◌%◌, Bool, false, Option, none, some, List, [], ◌∷◌, ◌++◌,
  length, ltb, ◌==◌, if◌then◌else◌, ◌&&◌, ◌||◌, Result, ok, err, no_tips_available,
}
use inx_coordinator.Selection.Bits.{Bitset}
use inx_coordinator.Selection.Selector.{TrackedBlock, Selector, find, reset}

-- `randomInsecure`: `Intn(max + 1 - min) + min`, for a raw draw of the generator. Every number that
-- `Intn` can return is `raw % n` for some draw.
unfoldable pub random_insecure : ℕ → ℕ → ℕ → ℕ
random_insecure raw min max = raw % (max + 1 - min) + min

module _ {A : Type 0} where
  -- The loop of `randomTip`: the index counts down over the blocks, and the one at which it falls
  -- below zero is returned.
  unfoldable pub countdown : ℕ → List A → Option A
  countdown i [] = none
  countdown zero (t ∷ ts) = some t
  countdown (suc i) (t ∷ ts) = countdown i ts

-- What one call of `SelectTips` takes from outside: the order of each iteration over the map (Go's
-- is unspecified), the draws of the random generator, and whether the deadline has passed when a
-- round asks.
pub record Choices (R : Type 0) : Type 0 where
  pub order : ℕ → List (TrackedBlock R) → List (TrackedBlock R)
  pub draw : ℕ → ℕ
  pub expired : ℕ → Bool

module _ {R : Type 0} where
  -- `removeTip` of the working list
  unfoldable pub remove_id : ℕ → List (TrackedBlock R) → List (TrackedBlock R)
  remove_id a [] = []
  remove_id a (b ∷ bs) = let rest = remove_id a bs in if b.block_id == a then rest else b ∷ rest

  -- `TipsToList`
  unfoldable pub tips_to_list : List ℕ → List (TrackedBlock R) → List (TrackedBlock R)
  tips_to_list [] bs = []
  tips_to_list (a ∷ as') bs = elim (find a bs) [
    | none ↦ tips_to_list as' bs
    | some b ↦ b ∷ tips_to_list as' bs
  ]

  -- `randomTip`
  unfoldable pub random_tip : Choices R → ℕ → List (TrackedBlock R) → Option (TrackedBlock R)
  unfolding random_insecure countdown
  random_tip c i [] = none
  random_tip c i (t ∷ ts) =
      countdown (random_insecure (c.draw i) 0 (length (t ∷ ts) - 1)) (c.order i (t ∷ ts))

module _ {R : Type 0} where
  -- The end of `selectTip`: a random one of the best tips.
  unfoldable pub choose : ℕ → List (TrackedBlock R) → Option (TrackedBlock R)
  choose raw [] = none
  choose raw (t ∷ ts) = get_elem? (t ∷ ts) (random_insecure raw 0 (length (t ∷ ts) - 1))

  abbrev pub with_count : ℕ → Option (TrackedBlock R) → Option (TrackedBlock R × ℕ)
  with_count n none = none
  with_count n (some t) = some (t, n)

module _ (B : Bitset) where
  open B use {Bits, difference, count}

  unfoldable pub subtract : Bits → List (TrackedBlock Bits) → List (TrackedBlock Bits)
  subtract r [] = []
  subtract r (b ∷ bs) = record b { refs = difference b.refs r } ∷ subtract r bs

  -- `referenceTip`
  unfoldable pub reference_tip :
      TrackedBlock Bits → List (TrackedBlock Bits) → List (TrackedBlock Bits)
  reference_tip tip working = subtract tip.refs (remove_id tip.block_id working)

  -- The loop of `selectTip` over the blocks: the best tips so far and their count.
  unfoldable pub best :
      List (TrackedBlock Bits) → ℕ → List (TrackedBlock Bits) → List (TrackedBlock Bits) × ℕ
  best tips n [] = (tips, n)
  best tips n (b ∷ bs) =
      let c = count b.refs in
      best (if ltb n c then b ∷ [] else if c == n then tips ++ b ∷ [] else tips)
        (if ltb n c then c else n) bs

  -- `selectTip`: a random one of the heaviest tips, with its count.
  unfoldable pub select_tip :
      Choices Bits → ℕ → List (TrackedBlock Bits) → Option (TrackedBlock Bits × ℕ)
  select_tip c i [] = none
  select_tip c i (w ∷ ws) =
      let (tips, n) = best [] 0 (c.order i (w ∷ ws)) in with_count n (choose (c.draw i) tips)

  -- The first loop of `SelectTips`, in round `i` with the given number of rounds left; the result is
  -- the working list and the tips picked so far.
  unfoldable pub collect :
      Choices Bits
      → ℕ
      → ℕ
      → ℕ
      → ℕ
      → Bool
      → List (TrackedBlock Bits)
      → List ℕ
      → List (TrackedBlock Bits) × List ℕ
  collect c threshold required zero i exceeded working tips = (working, tips)
  collect c threshold required (suc left) i exceeded working tips =
      let exceeded' = exceeded || c.expired i in
      elim (select_tip c i working) [
        | none ↦ (working, tips)
        | some (tip, n) ↦
            let next =
              collect c threshold required left (suc i) exceeded' (reference_tip tip working)
                (tips ++ tip.block_id ∷ []) in
            if ltb required (length tips) && (ltb n threshold || exceeded')
            then (working, tips)
            else next
      ]

  -- The second loop, which adds random tips.
  unfoldable pub add_random : Choices Bits → ℕ → ℕ → List (TrackedBlock Bits) → List ℕ → List ℕ
  add_random c zero i working tips = tips
  add_random c (suc left) i working tips = elim (random_tip c i working) [
    | none ↦ tips
    | some tip ↦ add_random c left (suc i) (reference_tip tip working) (tips ++ tip.block_id ∷ [])
  ]

  -- The end of `SelectTips`: no tips is an error, else random tips are added and the selector is
  -- reset.
  unfoldable pub finish :
      Choices Bits
      → Selector Bits
      → List (TrackedBlock Bits) × List ℕ
      → Result (List ℕ) × Selector Bits
  finish c s (working, []) = (err no_tips_available, s)
  finish c s (working, t ∷ ts) =
      (ok (add_random c s.limits.random_tips s.limits.max_heaviest_tips working (t ∷ ts)), reset s)

  -- `SelectTips`, in one step. The source holds no lock between `TipsToList` and `Reset`: a block that
  -- arrives in between is in no working list, and `Reset` drops it (`reset-feed` of Describes).
  unfoldable pub select_tips : Choices Bits → ℕ → Selector Bits → Result (List ℕ) × Selector Bits
  select_tips c required s = elim (tips_to_list s.tips s.tracked) [
    | [] ↦ (err no_tips_available, s)
    | b ∷ bs ↦ finish c s (
        collect c s.limits.min_unreferenced required s.limits.max_heaviest_tips 0 false (b ∷ bs) [])
  ]
