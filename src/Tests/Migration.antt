-- ===== src/Tests/Migration.antt =====
-- The migrator service: the mock of service_test.go with a batch size of two.
use inx_coordinator.Base.{
  ℕ, ◌+◌, ◌^◌, ◌<◌, ◌≤◌, ◌≡◌, ◌≢◌, ◌↔◌, refl, sym, ap, ◌∙◌, Option, ◌⊎◌, inl, inr, true, false,
  none, some, List, [], ◌∷◌, ◌++◌, ◌==◌, leb, if◌then◌else◌, Bool-cases, arith, ok, err, external,
  wrap, invalid_state, StateFile, JsonIo,
}
use inx_coordinator.Migrator.Service.{
  State, MigrationResult, Service, panic, returns, update_state, create_receipt, moved_to, receipt,
  initial_state, validate, persist_state, init_state,
}
use inx_coordinator.Migrator.Producer.{Queryer, fetches, round, batches, result, next_migrations}
use inx_coordinator.Migrator.Ledger.{covered, IsLedger, IsFaithful, IsNext, asked}
use inx_coordinator.Migrator.Delivery.{
  System, started, Run, here, then, fetch, receive, persist, restart,
}
use inx_coordinator.Migrator.Split.{batches-IsSplit, IsSplit}
use inx_coordinator.Migrator.Exact.{Run-delivered, Run-receipt_panics}
use inx_coordinator.Migrator.StateFile.{restarted, init-persist}

-- The file system of a test: every write succeeds.
abbrev pub plain_io : (S : Type 0) → JsonIo S
plain_io S = record {
  write = λ s f. (ok tt, record { current = some s; backup = f.backup });
  read = λ f. elim f.current [ none ↦ err (external 0) | some s ↦ ok s ];
  write_ok = λ s f e. refl;
  read_none = λ f e. (external 0, read_missing f e);
  read_ok = λ s f e. read_found s f e;
}
  where
    read_missing :
        {S : Type 0} (f : StateFile S)
        → f.current ≡ none
        → (elim f.current [ none ↦ err (external 0) | some s ↦ ok s ]) ≡ err (external 0)
    read_missing f e = rw (e) refl

    read_found :
        {S : Type 0} (s : S) (f : StateFile S)
        → f.current ≡ some s
        → (elim f.current [ none ↦ err (external 0) | some s ↦ ok s ]) ≡ ok s
    read_found s f e = rw (e) refl

-- The legacy network and the mock of service_test.go: one milestone with three entries. Asked for
-- more, it answers the index of that milestone and no entries.
abbrev legacy : ℕ → List ℕ
legacy i = if i == 2 then 1 ∷ 2 ∷ 3 ∷ [] else []

legacy-IsLedger : IsLedger legacy
legacy-IsLedger i = elim (Bool-cases (i == 2)) [
  | inl e ↦ rw (e) (omega arith)
  | inr e ↦ rw (e) (omega arith)
]

abbrev mock_queryer : Queryer ℕ
mock_queryer = record {
  query_migrated_funds = λ i. ok (legacy i);
  query_next_migrated_funds = λ i. if leb i 2 then ok (2, legacy 2) else ok (2, []);
}

answers_two :
    (i j : ℕ) (l : List ℕ)
    → leb i 2 ≡ true
    → mock_queryer.query_next_migrated_funds i ≡ ok (j, l)
    → (2 ≡ j) × (legacy 2 ≡ l)
answers_two i j l le e = ground arith

answers_nothing :
    (i j : ℕ) (l : List ℕ)
    → leb i 2 ≡ false
    → mock_queryer.query_next_migrated_funds i ≡ ok (j, l)
    → (2 ≡ j) × ([] ≡ l)
answers_nothing i j l gt e = ground arith

skipped : (k : ℕ) → k < 2 → legacy k ≡ []
skipped k h = ground arith

answers-IsNext :
    (i j : ℕ) (l : List ℕ)
    → mock_queryer.query_next_migrated_funds i ≡ ok (j, l)
    → (j + 1 < 2 ^ 32) × IsNext legacy i j l
answers-IsNext i j l e = elim (Bool-cases (leb i 2)) [
  | inl le ↦
      let (a, b) = answers_two i j l le e in
      (omega arith, inl (ground arith, sym b ∙ ap legacy a, (λ k p q. skipped k (omega arith))))
  | inr gt ↦ let (a, b) = answers_nothing i j l gt e in (omega arith, inr (ground arith, sym b))
]

mock_queryer-IsFaithful : (start : ℕ) (s : State) → IsFaithful legacy mock_queryer start s
mock_queryer-IsFaithful start s = record {
  current = λ l e. cc;
  next = λ j l e. answers-IsNext (asked start s) j l e;
}

abbrev at_one : State
at_one = record { latest_migrated_at_index = 1; latest_included_index = 0; sending_receipt = false }

abbrev at_two : ℕ → State
at_two n = record {
  latest_migrated_at_index = 2;
  latest_included_index = n;
  sending_receipt = false;
}

abbrev service_at : State → Option State → Service
service_at s f = record { state = s; file = record { current = f; backup = none } }

abbrev system : ℕ → List (MigrationResult ℕ) → Service → List ℕ → List ℕ → System ℕ
system start p s out saved = record {
  start_index = start;
  pending = p;
  service = s;
  delivered = out;
  saved = saved;
}

-- A bootstrapped service hands out two entries, is persisted, and restarts from its file; the new
-- process hands out the rest, and then asks from index 3 and gets nothing new.
abbrev first_half : System ℕ
first_half = system 3 (result 2 true (3 ∷ []) ∷ []) (service_at (at_two 2) none) (1 ∷ 2 ∷ []) []

abbrev polling : System ℕ
polling =
    system 3 (result 2 true [] ∷ []) (service_at (at_two 3) (some (at_two 2))) (1 ∷ 2 ∷ 3 ∷ [])
      (1 ∷ 2 ∷ [])

asks : round none mock_queryer 0 at_one ≡ fetches 2 (1 ∷ 2 ∷ 3 ∷ []) 3
unfolding round next_migrations
asks = refl

asks_rest : round none mock_queryer 0 (at_two 2) ≡ fetches 2 (3 ∷ []) 3
unfolding round next_migrations
asks_rest = refl

asks_more : round none mock_queryer 3 (at_two 3) ≡ fetches 2 [] 3
unfolding round next_migrations
asks_more = refl

cuts :
    batches {F = ℕ} 4 2 2 (1 ∷ 2 ∷ 3 ∷ [])
    ≡ some (result 2 false (1 ∷ 2 ∷ []) ∷ result 2 true (3 ∷ []) ∷ [])
unfolding batches
cuts = refl

cuts_rest : batches {F = ℕ} 4 2 2 (3 ∷ []) ≡ some (result 2 true (3 ∷ []) ∷ [])
unfolding batches
cuts_rest = refl

cuts_nothing : batches {F = ℕ} 4 2 2 [] ≡ some (result 2 true [] ∷ [])
unfolding batches
cuts_nothing = refl

hands_out :
    receipt {F = ℕ} (some (result 2 false (1 ∷ 2 ∷ []))) at_one
    ≡ returns (at_two 2) (some (record { migrated_at = 2; final = false; funds = 1 ∷ 2 ∷ [] }))
unfolding receipt update_state create_receipt moved_to
hands_out = refl

hands_out_rest :
    receipt {F = ℕ} (some (result 2 true (3 ∷ []))) (at_two 2)
    ≡ returns (at_two 3) (some (record { migrated_at = 2; final = true; funds = 3 ∷ [] }))
unfolding receipt update_state create_receipt moved_to
hands_out_rest = refl

saves :
    persist_state (plain_io State) none false first_half.service
    ≡ (ok tt, service_at (at_two 2) (some (at_two 2)))
unfolding persist_state
saves = refl

loads :
    init_state (plain_io State) none (restarted at_one (service_at at_one (some (at_two 2))).file)
    ≡ (ok tt, service_at (at_two 2) (some (at_two 2)))
unfolding init_state initial_state validate
loads = refl

half_way : Run 2 legacy (started (service_at at_one none) []) first_half
half_way =
    (then)
      ((then) here
        (fetch none mock_queryer 4 2 3 _ _ (mock_queryer-IsFaithful 0 at_one) refl asks cuts refl))
      (receive _ _ _ _ refl hands_out refl)

-- The new process.
again :
    Run 2 legacy
      (started (service_at at_one none) [])
      (started (service_at (at_two 2) (some (at_two 2))) (1 ∷ 2 ∷ []))
again =
    (then) ((then) half_way (persist (plain_io State) none false _ saves refl))
      (restart (plain_io State) at_one _ loads refl)

polls : Run 2 legacy (started (service_at at_one none) []) polling
polls =
    (then)
      ((then)
        ((then) again (
          fetch none mock_queryer 4 2 3 _ _ (mock_queryer-IsFaithful 0 (at_two 2)) refl asks_rest
            cuts_rest refl))
        (receive _ _ _ _ refl hands_out_rest refl))
      (fetch none mock_queryer 4 2 3 _ _ (mock_queryer-IsFaithful 3 (at_two 3)) refl asks_more
        cuts_nothing refl)

Run-delivered_example : covered legacy (at_two 3) ≡ covered legacy at_one ++ (1 ∷ 2 ∷ 3 ∷ [])
Run-delivered_example =
    Run-delivered legacy legacy-IsLedger 2 (service_at at_one none) polling (inl refl, omega arith)
      polls

Run-receipt_panics_example :
    ((receipt {F = ℕ} (some (result 2 true [])) (at_two 3) ≡ panic) ↔ (3 ≤ 2))
    × (receipt {F = ℕ} (some (result 2 true [])) (at_two 3) ≡ panic
        → (result {F = ℕ} 2 true []).migrated_funds ≡ [])
Run-receipt_panics_example =
    Run-receipt_panics legacy legacy-IsLedger 2 (service_at at_one none) polling (result 2 true [])
      [] (inl refl, omega arith) polls refl

batches-IsSplit_example :
    (bs : List (MigrationResult ℕ)) × (batches 4 2 5 (1 ∷ 2 ∷ 3 ∷ []) ≡ some bs)
    × IsSplit 2 5 (1 ∷ 2 ∷ 3 ∷ []) bs
batches-IsSplit_example = batches-IsSplit 4 2 5 (1 ∷ 2 ∷ 3 ∷ []) (omega arith) (omega arith)

abbrev running : Service
running = record { state = at_one; file = record { current = none; backup = none } }

abbrev persisted_service : Service
persisted_service = record {
  state = at_one;
  file = record { current = some at_one; backup = none };
}

persists : persist_state (plain_io State) none false running ≡ (ok tt, persisted_service)
unfolding persist_state
persists = refl

init-persist_example :
    let r = init_state (plain_io State) none (restarted at_one persisted_service.file) in
    ((false ≡ false) × (at_one.latest_migrated_at_index ≢ 0) × (r.0 ≡ ok tt) × (r.1.state ≡ at_one))
    ⊎ (((false ≡ true) ⊎ (at_one.latest_migrated_at_index ≡ 0))
        × (r.0 ≡ err (wrap invalid_state))
        × (r.1.state ≡ at_one))
init-persist_example =
    init-persist (plain_io State) none false running persisted_service at_one persists
