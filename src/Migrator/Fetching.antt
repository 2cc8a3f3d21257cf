-- ===== src/Migrator/Fetching.antt =====
-- pkg/migrator/service.go: an answer of the legacy node leaves the service in one of its positions.
use native.Mathlib.Decide.{dec_le}
use inx_coordinator.Base.{
  ℕ, zero, suc, ◌+◌, ◌^◌, ◌≤◌, ◌<◌, ◌≡◌, refl, sym, ap, ◌∙◌, ◌≢◌, some, List, [], ◌++◌, length,
  take, drop, All, arith, append-nil, u32, subst, take-append-drop, inl, inr,
}
use inx_coordinator.Migrator.Service.{State, MigrationResult}
use inx_coordinator.Migrator.Producer.{Queryer}
use inx_coordinator.Migrator.Ledger.{before, asked, IsNext, IsFaithful, before_gap, covered_whole}
use inx_coordinator.Migrator.Split.{Sends}
use inx_coordinator.Migrator.Position.{Inv, within, ahead, stale, StopsAt, sent_all, Inv-small}
use inx_coordinator.Migrator.Answers.{Answers, rest_of, next_of, next_of_state}

module _ {F : Type 0} (funds : ℕ → List F) where
  -- An answer behind a covered milestone: a later milestone, or nothing new.
  fetch_next :
      (i j : ℕ) (l : List F) (bs : List (MigrationResult F)) (s : State)
      → (j + 1 < 2 ^ 32) × IsNext funds i j l
      → s.latest_migrated_at_index + 1 < 2 ^ 32
      → i ≡ suc s.latest_migrated_at_index
      → s.latest_included_index ≤ length (funds s.latest_migrated_at_index)
      → take s.latest_included_index (funds s.latest_migrated_at_index)
        ≡ funds s.latest_migrated_at_index
      → Sends j l (some bs)
      → Inv funds (u32 (j + 1)) bs s
  fetch_next i j l bs s (small, inl (le, found, gap)) hs e h full (whole, stops, some_left) =
      ahead j (omega arith) small stops (omega arith)
        (covered_whole funds s s.latest_migrated_at_index refl full
          ∙ ap (before funds) (sym e)
          ∙ sym (before_gap funds i j le gap))
        (whole ∙ found) some_left
  fetch_next i j l bs s (small, inr (lt, found)) hs e h full (whole, stops, some_left) =
      elim (dec_le s.latest_migrated_at_index j) [
        | yes le ↦
            let same : s.latest_migrated_at_index ≡ j = omega arith in
            within j (omega arith) small stops same
              (subst (λ k. s.latest_included_index ≤ length (funds k)) same h)
              (ap (◌++◌ (take s.latest_included_index (funds j))) (whole ∙ found)
                ∙ append-nil _
                ∙ subst (λ k. take s.latest_included_index (funds k) ≡ funds k) same full)
        | no gt ↦ stale j (omega arith) hs stops (omega arith) (whole ∙ found) some_left
      ]

  asked-start : (start : ℕ) (s : State) → start ≢ 0 → asked start s ≡ start
  asked-start zero s h = absurd (h refl)
  asked-start (suc n) s h = refl

  asked_state :
      (start : ℕ) (s : State)
      → start ≡ 0
      → s.latest_migrated_at_index + 1 < 2 ^ 32
      → asked start s ≡ suc s.latest_migrated_at_index
  asked_state zero s e h = omega arith
  asked_state (suc n) s e h = absurd (omega arith)

  pub fetch_lem :
      (q : Queryer F) (start ms : ℕ) (l : List F) (p bs : List (MigrationResult F)) (s : State)
      → IsFaithful funds q start s
      → p ≡ []
      → Inv funds start p s
      → Answers q start s ms l
      → Sends ms l (some bs)
      → Inv funds (u32 (ms + 1)) bs s
  fetch_lem q start ms l p bs s f none_left v (rest_of r e h same cut) (whole, stops, some_left) =
      let found : r ≡ funds s.latest_migrated_at_index = f.current r e in
      within s.latest_migrated_at_index (omega (arith, Inv-small funds start p s v))
        (Inv-small funds start p s v) (subst (λ m. All (StopsAt m) bs) same stops) refl
        (subst (λ x. s.latest_included_index ≤ length x) found h)
        (ap (◌++◌ (take s.latest_included_index (funds s.latest_migrated_at_index)))
            (whole ∙ cut ∙ ap (drop s.latest_included_index) found)
          ∙ take-append-drop s.latest_included_index _)
  fetch_lem q start ms l p bs s f none_left v (next_of pos e) sent =
      let (at, h, full) = sent_all funds start p s none_left pos v in
      let same = asked-start start s pos in
      fetch_next (asked start s) ms l bs s (f.next ms l (ap q.query_next_migrated_funds same ∙ e))
        (Inv-small funds start p s v) (same ∙ at) h full sent
  fetch_lem q start ms l p bs s f none_left v (next_of_state r z h e done next) sent =
      let found : r ≡ funds s.latest_migrated_at_index = f.current r e in
      let small = Inv-small funds start p s v in
      let same = asked_state start s z small in
      let asks : asked start s ≡ u32 (s.latest_migrated_at_index + 1) =
        omega (arith, same, small) in
      fetch_next (asked start s) ms l bs s
        (f.next ms l (ap q.query_next_migrated_funds asks ∙ next)) small same
        (subst (λ x. s.latest_included_index ≤ length x) found h)
        (subst (λ x. take s.latest_included_index x ≡ x) found
          (sym (append-nil _)
            ∙ ap (◌++◌ (take s.latest_included_index r)) (sym done)
            ∙ take-append-drop s.latest_included_index r))
        sent
