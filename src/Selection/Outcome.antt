-- ===== src/Selection/Outcome.antt =====
-- pkg/mselection/heaviest.go: the outcome of `SelectTips`.
use inx_coordinator.Base.{
  ℕ, ◌≤◌, ◌<◌, ◌≡◌, ◌≢◌, ◌⊎◌, true, false, List, [], ◌++◌, length, Result, ok, err,
  no_tips_available,
}
use inx_coordinator.Selection.Bits.{Bitset}
use inx_coordinator.Selection.Selector.{Selector, contains, ids, reset}
use inx_coordinator.Selection.Tips.{IsNodup}
use inx_coordinator.Selection.Picking.{Choices, tips_to_list}
use inx_coordinator.Selection.Heaviest.{IsIteration}
use inx_coordinator.Selection.Greedy.{Greedy}
use inx_coordinator.Selection.Collect.{Rounds}

module _ (B : Bitset) (c : Choices (B.Bits)) (iterates : IsIteration c) where
  open B use {Bits, test}

  -- The working list holds all tips of the selector.
  abbrev pub Offers : Selector Bits → Type 0
  Offers s =
      (x : ℕ) → contains s.tips x ≡ true → contains (ids (tips_to_list s.tips s.tracked)) x ≡ true

  -- The picks of a run that succeeded, first the heaviest tips and then the random ones.
  pub record Picks (n required : ℕ) (s : Selector Bits) (tips : List ℕ) : Type 0 where
    pub heaviest : List ℕ
    pub random : List ℕ
    pub all : tips ≡ heaviest ++ random
    pub some_picked : heaviest ≢ []
    -- All tips of the selector are offered.
    pub offered : Offers s
    -- Each of the heaviest tips covers the most blocks that those before it do not cover.
    pub greedy : Greedy B n (λ j. false) (tips_to_list s.tips s.tracked) heaviest
    -- The rounds keep the threshold and the deadline.
    pub rounds :
        Rounds B c n s.limits.min_unreferenced required s.limits.max_heaviest_tips 0 false
          (λ j. false)
          (tips_to_list s.tips s.tracked)
          0
          heaviest
    pub heaviest_within : length heaviest ≤ s.limits.max_heaviest_tips
    pub random_within : length random ≤ s.limits.random_tips
    -- All the random tips, unless the tips are used up.
    pub random_full :
        (length random ≡ s.limits.random_tips)
        ⊎ ((x : ℕ) → contains s.tips x ≡ true → contains tips x ≡ true)
    -- More than the required tips, unless the limit is reached or the tips are used up.
    pub enough :
        (length heaviest ≡ s.limits.max_heaviest_tips)
        ⊎ ((x : ℕ) → contains s.tips x ≡ true → contains heaviest x ≡ true)
        ⊎ (required < length heaviest)
    pub distinct : IsNodup tips
    pub from_tips : (x : ℕ) → contains tips x ≡ true → contains s.tips x ≡ true

  abbrev pub Outcome : ℕ → ℕ → Selector Bits → Result (List ℕ) × Selector Bits → Type 0
  Outcome n required s (err e, t) =
      (e ≡ no_tips_available) × (t ≡ s) × ((s.tips ≡ []) ⊎ (s.limits.max_heaviest_tips ≡ 0))
  Outcome n required s (ok tips, t) = Picks n required s tips × (t ≡ reset s)
