-- ===== src/Migrator/Receiving.antt =====
-- pkg/migrator/service.go: what a call of `Receipt` that receives a result does.
use inx_coordinator.Base.{
  ℕ, ◌+◌, ◌^◌, ◌≤◌, ◌<◌, ◌≡◌, refl, ap, ◌∙◌, ◌↔◌, Bool, some, List, [], ◌∷◌, ◌++◌, length, take,
  All, arith, append_assoc, subst, length-append, length-take,
}
use inx_coordinator.Migrator.Service.{
  State, MigrationResult, Receive, panic, returns, receipt, update_state, create_receipt,
}
use inx_coordinator.Migrator.Split.{entries}
use inx_coordinator.Migrator.Ledger.{
  before, covered, IsLedger, take_prefix, covered_extend, covered_next,
}
use inx_coordinator.Migrator.Delivery.{receipt_entries}
use inx_coordinator.Migrator.Position.{StopsAt, Inv, idle, within, ahead, stale}

module _ {F : Type 0} where
  -- The state after a receipt with `b`, when `n` entries of the milestone were included.
  abbrev advanced : ℕ → ℕ → State → MigrationResult F → State
  advanced m n s b = record s {
    latest_migrated_at_index = m;
    latest_included_index = n + length b.migrated_funds;
  }

  create_receipt-entries :
      (m : ℕ) (last : Bool) (l : List F) → receipt_entries (create_receipt m last l) ≡ l
  unfolding create_receipt
  create_receipt-entries m last [] = refl
  create_receipt-entries m last (x ∷ l) = refl

  receipt-within :
      (m : ℕ) (s : State) (b : MigrationResult F)
      → b.stop_index ≡ m
      → s.latest_migrated_at_index ≡ m
      → s.latest_included_index + length b.migrated_funds < 2 ^ 32
      → receipt (some b) s
        ≡ returns
            (advanced m s.latest_included_index s b)
            (create_receipt b.stop_index b.last_batch b.migrated_funds)
  unfolding receipt update_state
  receipt-within m s b e h k = ground arith

  receipt-ahead :
      (m : ℕ) (s : State) (b : MigrationResult F)
      → b.stop_index ≡ m
      → s.latest_migrated_at_index < m
      → length b.migrated_funds < 2 ^ 32
      → receipt (some b) s
        ≡ returns (advanced m 0 s b) (create_receipt b.stop_index b.last_batch b.migrated_funds)
  unfolding receipt update_state
  receipt-ahead m s b e h k = ground arith

  receipt-stale :
      (m : ℕ) (s : State) (b : MigrationResult F)
      → b.stop_index ≡ m
      → m < s.latest_migrated_at_index
      → receipt (some b) s ≡ panic
  unfolding receipt update_state
  receipt-stale m s b e h = ground arith

  -- A batch that comes next in the milestone extends the included prefix by its entries.
  extends :
      (xs ys rest : List F) (n : ℕ)
      → n ≤ length xs
      → take n xs ++ (ys ++ rest) ≡ xs
      → (n + length ys ≤ length xs)
        × (take (n + length ys) xs ≡ take n xs ++ ys)
        × (take (n + length ys) xs ++ rest ≡ xs)
  extends xs ys rest n h e =
      let whole : (take n xs ++ ys) ++ rest ≡ xs = append_assoc (take n xs) ys rest ∙ e in
      let next : take (n + length ys) xs ≡ take n xs ++ ys = take_prefix n xs ys rest whole h in
      (
        omega (
          arith,
          ap length whole,
          length-append (take n xs ++ ys) rest,
          length-append (take n xs) ys,
          length-take n xs,
        ),
        next,
        ap (λ l. l ++ rest) next ∙ whole,
      )

  -- What a receive does to a state in the invariant, if it does not panic: the entries of the
  -- receipt are exactly what the state covers in addition.
  abbrev pub Receives : (ℕ → List F) → ℕ → List (MigrationResult F) → State → Receive F → Type 0
  Receives funds start bs s panic = Unit
  Receives funds start bs s (returns t r) =
      Inv funds start bs t × (covered funds t ≡ covered funds s ++ receipt_entries r)

  receive_within :
      (funds : ℕ → List F) (start : ℕ) (b : MigrationResult F) (bs : List (MigrationResult F))
      (s : State) (m : ℕ)
      → IsLedger funds
      → start ≡ m + 1
      → m + 1 < 2 ^ 32
      → All (StopsAt m) (b ∷ bs)
      → s.latest_migrated_at_index ≡ m
      → s.latest_included_index ≤ length (funds m)
      → take s.latest_included_index (funds m) ++ entries (b ∷ bs) ≡ funds m
      → Receives funds start bs s (receipt (some b) s)
  receive_within funds start b bs s m ledger e hm stops at h rest =
      let (fits, next, rest') =
        extends (funds m) b.migrated_funds (entries bs) s.latest_included_index h rest in
      let t = advanced m s.latest_included_index s b in
      rw (receipt-within m s b stops.0 at (omega (arith, ledger m, fits))) (
        within m e hm stops.1 refl fits rest',
        rw (create_receipt-entries b.stop_index b.last_batch b.migrated_funds)
            (covered_extend funds s t m b.migrated_funds at refl next),
      )

  receive_ahead :
      (funds : ℕ → List F) (start : ℕ) (b : MigrationResult F) (bs : List (MigrationResult F))
      (s : State) (m : ℕ)
      → IsLedger funds
      → start ≡ m + 1
      → m + 1 < 2 ^ 32
      → All (StopsAt m) (b ∷ bs)
      → s.latest_migrated_at_index < m
      → covered funds s ≡ before funds m
      → entries (b ∷ bs) ≡ funds m
      → Receives funds start bs s (receipt (some b) s)
  receive_ahead funds start b bs s m ledger e hm stops at cov rest =
      let (fits, next, rest') =
        extends (funds m) b.migrated_funds (entries bs) 0 (omega arith) rest in
      let t = advanced m 0 s b in
      rw (receipt-ahead m s b stops.0 at (omega (arith, ledger m, fits))) (
        within m e hm stops.1 refl fits rest',
        rw (create_receipt-entries b.stop_index b.last_batch b.migrated_funds)
            (covered_next funds s t m b.migrated_funds cov refl next),
      )

  pub receive_lem :
      (funds : ℕ → List F) (start : ℕ) (b : MigrationResult F) (bs p : List (MigrationResult F))
      (s : State)
      → IsLedger funds
      → p ≡ b ∷ bs
      → Inv funds start p s
      → Receives funds start bs s (receipt (some b) s)
  receive_lem funds start b bs p s ledger q (idle _ none_left _) = cc
  receive_lem funds start b bs p s ledger q (within m e hm stops at h rest) =
      receive_within funds start b bs s m ledger e hm (subst (All (StopsAt m)) q stops) at h
        (subst (λ l. take s.latest_included_index (funds m) ++ entries l ≡ funds m) q rest)
  receive_lem funds start b bs p s ledger q (stale m e hs stops below none_there some_left) =
      let now = subst (All (StopsAt m)) q stops in rw (receipt-stale m s b now.0 below) tt
  receive_lem funds start b bs p s ledger q (ahead m e hm stops at cov rest some_left) =
      receive_ahead funds start b bs s m ledger e hm (subst (All (StopsAt m)) q stops) at cov
        (subst (λ l. entries l ≡ funds m) q rest)

  first-nil : (us vs : List F) → us ++ vs ≡ [] → us ≡ []
  first-nil [] vs e = refl
  first-nil (u ∷ us) vs e = cc

  -- A receive panics exactly if the loop has been answered with an index below the state's, and
  -- then the result has no entries.
  pub receipt_panics :
      (funds : ℕ → List F) (start : ℕ) (b : MigrationResult F) (bs p : List (MigrationResult F))
      (s : State)
      → IsLedger funds
      → p ≡ b ∷ bs
      → Inv funds start p s
      → ((receipt (some b) s ≡ panic) ↔ (start ≤ s.latest_migrated_at_index))
        × (receipt (some b) s ≡ panic → b.migrated_funds ≡ [])
  receipt_panics funds start b bs p s ledger q (idle _ none_left _) = cc
  receipt_panics funds start b bs p s ledger q (within m e hm stops at h rest) =
      let now = subst (All (StopsAt m)) q stops in
      let whole =
        subst (λ l. take s.latest_included_index (funds m) ++ entries l ≡ funds m) q rest in
      let (fits, next, rest') =
        extends (funds m) b.migrated_funds (entries bs) s.latest_included_index h whole in
      let safe = receipt-within m s b now.0 at (omega (arith, ledger m, fits)) in
      (((λ z. cc (safe, z)), (λ z. absurd (omega arith))), (λ z. cc (safe, z)))
  receipt_panics funds start b bs p s ledger q (ahead m e hm stops at cov rest some_left) =
      let now = subst (All (StopsAt m)) q stops in
      let (fits, next, rest') =
        extends (funds m) b.migrated_funds (entries bs) 0 (omega arith)
          (subst (λ l. entries l ≡ funds m) q rest) in
      let safe = receipt-ahead m s b now.0 at (omega (arith, ledger m, fits)) in
      (((λ z. cc (safe, z)), (λ z. absurd (omega arith))), (λ z. cc (safe, z)))
  receipt_panics funds start b bs p s ledger q (stale m e hs stops below none_there some_left) =
      let now = subst (All (StopsAt m)) q stops in
      (
        ((λ z. omega arith), (λ z. receipt-stale m s b now.0 below)),
        (λ z. first-nil b.migrated_funds (entries bs) (subst (λ l. entries l ≡ []) q none_there)),
      )
