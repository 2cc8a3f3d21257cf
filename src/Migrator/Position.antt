-- ===== src/Migrator/Position.antt =====
-- pkg/migrator/service.go: where the service stands between two steps.
use inx_coordinator.Base.{
  ℕ, suc, ◌+◌, ◌^◌, ◌≤◌, ◌<◌, ◌≡◌, sym, ◌∙◌, ◌≢◌, Bool, List, [], ◌++◌, length, take, All, arith,
  append-nil, subst,
}
use inx_coordinator.Migrator.Service.{State, MigrationResult}
use inx_coordinator.Migrator.Split.{entries}
use inx_coordinator.Migrator.Ledger.{before, covered, covered-flag}

module _ {F : Type 0} where
  abbrev pub StopsAt : ℕ → MigrationResult F → Type 0
  StopsAt m b = b.stop_index ≡ m

  -- Where the service stands: the loop has asked for nothing yet; or it sends the rest of the
  -- milestone of the state; or it sends a later milestone, and nothing lies in between; or it sends an
  -- answer without entries under an index below the state's.
  pub data Inv (funds : ℕ → List F) (start : ℕ) (p : List (MigrationResult F)) (s : State)
      : Type 0 where
    idle : start ≡ 0 → p ≡ [] → s.latest_migrated_at_index + 1 < 2 ^ 32 → Inv funds start p s
    within :
        (m : ℕ)
        → start ≡ m + 1
        → m + 1 < 2 ^ 32
        → All (StopsAt m) p
        → s.latest_migrated_at_index ≡ m
        → s.latest_included_index ≤ length (funds m)
        → take s.latest_included_index (funds m) ++ entries p ≡ funds m
        → Inv funds start p s
    ahead :
        (m : ℕ)
        → start ≡ m + 1
        → m + 1 < 2 ^ 32
        → All (StopsAt m) p
        → s.latest_migrated_at_index < m
        → covered funds s ≡ before funds m
        → entries p ≡ funds m
        → p ≢ []
        → Inv funds start p s
    stale :
        (m : ℕ)
        → start ≡ m + 1
        → s.latest_migrated_at_index + 1 < 2 ^ 32
        → All (StopsAt m) p
        → m < s.latest_migrated_at_index
        → entries p ≡ []
        → p ≢ []
        → Inv funds start p s

  -- With nothing left to send, the loop goes on behind the milestone of the state, which is covered.
  pub sent_all :
      (funds : ℕ → List F) (start : ℕ) (p : List (MigrationResult F)) (s : State)
      → p ≡ []
      → start ≢ 0
      → Inv funds start p s
      → (start ≡ suc s.latest_migrated_at_index)
        × (s.latest_included_index ≤ length (funds s.latest_migrated_at_index))
        × (take s.latest_included_index (funds s.latest_migrated_at_index)
            ≡ funds s.latest_migrated_at_index)
  sent_all funds start p s q pos (idle e _ _) = absurd (pos e)
  sent_all funds start p s q pos (within m e hm stops at h rest) =
      let done : take s.latest_included_index (funds m) ≡ funds m =
        sym (append-nil _)
        ∙ subst (λ l. take s.latest_included_index (funds m) ++ entries l ≡ funds m) q rest in
      (
        omega arith,
        subst (λ k. s.latest_included_index ≤ length (funds k)) (sym at) h,
        subst (λ k. take s.latest_included_index (funds k) ≡ funds k) (sym at) done,
      )
  sent_all funds start p s q pos (ahead m e hm stops at cov rest some_left) = absurd (some_left q)
  sent_all funds start p s q pos (stale m e hs stops below none_there some_left) =
      absurd (some_left q)

  pub Inv-small :
      (funds : ℕ → List F) (start : ℕ) (p : List (MigrationResult F)) (s : State)
      → Inv funds start p s
      → s.latest_migrated_at_index + 1 < 2 ^ 32
  Inv-small funds start p s (idle e n h) = h
  Inv-small funds start p s (within m e hm stops at h rest) = omega arith
  Inv-small funds start p s (ahead m e hm stops at cov rest some_left) = omega arith
  Inv-small funds start p s (stale m e hs stops below none_there some_left) = hs

  -- The flag plays no part.
  pub Inv-flag :
      (funds : ℕ → List F) (start : ℕ) (p : List (MigrationResult F)) (s : State) (sending : Bool)
      → Inv funds start p s
      → Inv funds start p (record s { sending_receipt = sending })
  Inv-flag funds start p s sending (idle e n h) = idle e n h
  Inv-flag funds start p s sending (within m e hm stops at h rest) = within m e hm stops at h rest
  Inv-flag funds start p s sending (ahead m e hm stops at cov rest some_left) =
      ahead m e hm stops at (covered-flag funds s sending ∙ cov) rest some_left
  Inv-flag funds start p s sending (stale m e hs stops below none_there some_left) =
      stale m e hs stops below none_there some_left
