-- ===== src/Selection/Collect.antt =====
-- pkg/mselection/heaviest.go: the two loops of `SelectTips`.
use inx_coordinator.Base.{
  ℕ, zero, suc, ◌+◌, ◌≤◌, ◌<◌, ◌≡◌, refl, ap, sym, ◌∙◌, ◌⊎◌, inl, inr, Bool, ◌&&◌, ◌||◌, List, [],
  ◌∷◌, ◌++◌, length, Among, arith, subst, true, false, Bool-cases, append_assoc, append-nil,
  Option-cases, ltb, length-append,
}
use inx_coordinator.Selection.Bits.{Bitset}
use inx_coordinator.Selection.Selector.{TrackedBlock, ids}
use inx_coordinator.Selection.Picking.{Choices, remove_id, reference_tip, select_tip, collect}
use inx_coordinator.Selection.Heaviest.{IsIteration, IsHeaviest, Selects, select_tip-Selects}
use inx_coordinator.Selection.Draws.{Draws, done, draw, contains-ids, ids-reference_tip}
use inx_coordinator.Selection.Greedy.{
  Greedy, stop, pick, Matches, Pair, IsBounded, uncovered, cover, working_to_avail,
  avail_to_working, Pair-count, Matches-reference_tip, remove_id-IsBounded,
}

module _ (B : Bitset) (c : Choices (B.Bits)) where
  open B use {Bits}

  -- The rounds of the first loop from round `i` on, over the cones of the available tips, with the
  -- tips left to pick, whether the deadline has passed before, what is covered, and the number of
  -- tips picked before: a round picks a tip that covers the most blocks, and if more than the
  -- required tips were picked, only one with the threshold of blocks and before the deadline. It
  -- ends at the limit, with no tip left, or if more than the required tips were picked and no tip
  -- reaches the threshold or the deadline has passed.
  pub data Rounds (n threshold required : ℕ)
      : ℕ → ℕ → Bool → (ℕ → Bool) → List (TrackedBlock Bits) → ℕ → List ℕ → Type 0 where
    limit :
        {i k : ℕ} {ex : Bool} {cov : ℕ → Bool} {avail : List (TrackedBlock Bits)}
        → Rounds n threshold required 0 i ex cov avail k []
    used_up :
        {left i k : ℕ} {ex : Bool} {cov : ℕ → Bool} {avail : List (TrackedBlock Bits)}
        → avail ≡ []
        → Rounds n threshold required left i ex cov avail k []
    halted :
        {left i k : ℕ} {ex : Bool} {cov : ℕ → Bool} {avail : List (TrackedBlock Bits)}
        → required < k
        → ((o : TrackedBlock Bits) → Among o avail → uncovered B n cov o < threshold)
          ⊎ ((ex || c.expired i) ≡ true)
        → Rounds n threshold required left i ex cov avail k []
    goes_on :
        {left i k : ℕ} {ex : Bool} {cov : ℕ → Bool} {avail : List (TrackedBlock Bits)}
        {rest : List ℕ} (t : TrackedBlock Bits) (id : ℕ)
        → id ≡ t.block_id
        → Among t avail
        → ((o : TrackedBlock Bits) → Among o avail → uncovered B n cov o ≤ uncovered B n cov t)
        → (required < k → (threshold ≤ uncovered B n cov t) × ((ex || c.expired i) ≡ false))
        → Rounds n threshold required left
            (suc i)
            (ex || c.expired i)
            (cover B cov t)
            (remove_id id avail)
            (suc k)
            rest
        → Rounds n threshold required (suc left) i ex cov avail k (id ∷ rest)

module _ (B : Bitset) (c : Choices (B.Bits)) (iterates : IsIteration c) where
  open B use {Bits}

  -- What the first loop picks, after `tips` were picked before.
  pub record Collected (n threshold required left i : ℕ) (ex : Bool) (cov : ℕ → Bool)
      (avail working : List (TrackedBlock Bits)) (tips : List ℕ)
      (out : List (TrackedBlock Bits) × List ℕ) : Type 0 where
    pub picked : List ℕ
    pub result : out.1 ≡ tips ++ picked
    pub greedy : Greedy B n cov avail picked
    pub rounds : Rounds B c n threshold required left i ex cov avail (length tips) picked
    pub drawn : Draws (ids working) picked (ids out.0)
    pub within : length picked ≤ left
    pub enough : (length picked ≡ left) ⊎ (out.0 ≡ []) ⊎ (required < length tips + length picked)

  -- Nothing more is picked.
  nothing_more :
      (n threshold required left i : ℕ) (ex : Bool) (cov : ℕ → Bool)
      (avail working : List (TrackedBlock Bits)) (tips : List ℕ)
      → Rounds B c n threshold required left i ex cov avail (length tips) []
      → ((0 ≡ left) ⊎ (working ≡ []) ⊎ (required < length tips))
      → Collected n threshold required left i ex cov avail working tips (working, tips)
  nothing_more n threshold required left i ex cov avail working tips r h = record {
    rounds = r;
    picked = [];
    result = sym (append-nil tips);
    greedy = stop;
    drawn = done;
    within = omega arith;
    enough = elim h [
      | inl e ↦ inl e
      | inr (inl e) ↦ inr (inl e)
      | inr (inr e) ↦ inr (inr (omega arith))
    ];
  }

  -- One pick of the heaviest tip, and the rest.
  one_more :
      (n threshold required left i : ℕ) (ex : Bool) (cov : ℕ → Bool)
      (avail working : List (TrackedBlock Bits)) (tips : List ℕ)
      (out : List (TrackedBlock Bits) × List ℕ) (w a : TrackedBlock Bits) (k : ℕ)
      → IsBounded B n avail
      → Matches B cov avail working
      → IsHeaviest B working w k
      → Among a avail
      → Pair B cov a w
      → (required < length tips → (threshold ≤ k) × ((ex || c.expired i) ≡ false))
      → Collected n threshold required left
          (suc i)
          (ex || c.expired i)
          (cover B cov a)
          (remove_id w.block_id avail)
          (reference_tip B w working)
          (tips ++ w.block_id ∷ [])
          out
      → Collected n threshold required (suc left) i ex cov avail working tips out
  one_more n threshold required left i ex cov avail working tips out w a k bounded m heavy among p
        more rest =
      record {
        rounds =
            goes_on a w.block_id p.same_id among most (λ h. (reaches (more h).0, (more h).1))
              (subst
                (λ j.
                  Rounds B c n threshold required left (suc i) (ex || c.expired i) (cover B cov a)
                    (remove_id w.block_id avail) j rest.picked)
                (omega (arith, length-append tips (w.block_id ∷ []))) rest.rounds);
        picked = w.block_id ∷ rest.picked;
        result = rest.result ∙ append_assoc tips (w.block_id ∷ []) rest.picked;
        greedy = pick a w.block_id p.same_id among most rest.greedy;
        drawn = draw (contains-ids w working heavy.member) (
            subst (λ l. Draws l rest.picked (ids out.0)) (ids-reference_tip B w working)
              rest.drawn);
        within = omega (arith, rest.within);
        enough = elim rest.enough [
          | inl e ↦ inl (ap suc e)
          | inr (inl e) ↦ inr (inl e)
          | inr (inr e) ↦ inr (inr (omega (arith, length-append tips (w.block_id ∷ []))))
        ];
      }
    where
      reaches : threshold ≤ k → threshold ≤ uncovered B n cov a
      reaches h = omega (arith, heavy.weight, Pair-count B n cov a w (bounded a among) p)

      most : (o : TrackedBlock Bits) → Among o avail → uncovered B n cov o ≤ uncovered B n cov a
      most o h =
          let (v, q, r) = avail_to_working B cov avail working o m h in
          omega (
            arith,
            heavy.maximal v q,
            heavy.weight,
            Pair-count B n cov o v (bounded o h) r,
            Pair-count B n cov a w (bounded a among) p,
          )

  none_available :
      (cov : ℕ → Bool) (avail working : List (TrackedBlock Bits))
      → working ≡ []
      → Matches B cov avail working
      → avail ≡ []
  none_available cov [] working e m = refl
  none_available cov (a ∷ avail) [] e m = absurd m
  none_available cov (a ∷ avail) (w ∷ working) e m = cc

  -- The loop is left: no available tip covers more than the heaviest one, which is too light, or it is
  -- late.
  halting :
      (n threshold required left i : ℕ) (ex : Bool) (cov : ℕ → Bool)
      (avail working : List (TrackedBlock Bits)) (tips : List ℕ) (w : TrackedBlock Bits) (k : ℕ)
      → IsBounded B n avail
      → Matches B cov avail working
      → IsHeaviest B working w k
      → (ltb required (length tips) && (ltb k threshold || (ex || c.expired i))) ≡ true
      → Rounds B c n threshold required (suc left) i ex cov avail (length tips) []
  halting n threshold required left i ex cov avail working tips w k bounded m heavy halt =
      halted (ground arith) (elim (Bool-cases (ex || c.expired i)) [
        | inl late ↦ inr late
        | inr soon ↦
            let light : k < threshold = ground arith in
            inl (λ o h.
              let (v, q, r) = avail_to_working B cov avail working o m h in
              omega (arith, heavy.maximal v q, Pair-count B n cov o v (bounded o h) r, light))
      ])

  pub collect-Collected :
      (n threshold required left i : ℕ) (ex : Bool) (cov : ℕ → Bool)
      (avail working : List (TrackedBlock Bits)) (tips : List ℕ)
      → IsBounded B n avail
      → Matches B cov avail working
      → Collected n threshold required left i ex cov avail working tips
          (collect B c threshold required left i ex working tips)
  unfolding collect
  collect-Collected n threshold required zero i ex cov avail working tips bounded m =
      nothing_more n threshold required zero i ex cov avail working tips limit (inl refl)
  collect-Collected n threshold required (suc left) i ex cov avail working tips bounded m =
      elim (Option-cases (select_tip B c i working)) [
        | inl e ↦
            rw (e, collect)
              (let empty =
                  subst (Selects B working) e (select_tip-Selects B c iterates i working) in
                nothing_more n threshold required (suc left) i ex cov avail working tips
                  (used_up (none_available cov avail working empty m)) (inr (inl empty)))
        | inr ((w, k), e) ↦
            let heavy = subst (Selects B working) e (select_tip-Selects B c iterates i working) in
            rw (e, collect)
              (elim (Bool-cases
                (ltb required (length tips) && (ltb k threshold || (ex || c.expired i)))) [
                  | inl halt ↦ rw halt (
                      nothing_more n threshold required (suc left) i ex cov avail working tips
                        (halting n threshold required left i ex cov avail working tips w k bounded m
                          heavy halt)
                        (inr (inr (ground arith))))
                  | inr more ↦
                      let (a, among, p) = working_to_avail B cov avail working w m heavy.member in
                      rw more (
                        one_more n threshold required left i ex cov avail working tips _ w a k
                          bounded m heavy among p (λ h. (ground arith, ground arith))
                          (collect-Collected n threshold required left (suc i) (ex || c.expired i)
                            (cover B cov a) (remove_id w.block_id avail) (reference_tip B w working)
                            (tips ++ w.block_id ∷ [])
                            (remove_id-IsBounded B n w.block_id avail bounded)
                            (Matches-reference_tip B cov a w avail working p m)))
                ])
      ]
