-- ===== src/Migrator/Exact.antt =====
-- pkg/migrator/service.go: every entry is handed out once, and in order.

use inx_coordinator.Base.{
  ℕ, ◌+◌, ◌^◌, ◌≤◌, ◌<◌, ◌≡◌, refl, sym, ap, ◌∙◌, ◌⊎◌, ◌↔◌, Bool, Option, none, some, List, [], ◌∷◌,
  ◌++◌, arith, append-nil, append_assoc, u32, Error, ok, err, subst, Result, Result-cases, inl, inr,
  JsonIo, some-injective,
}
use inx_coordinator.Migrator.Service.{
  State, Service, MigrationResult, Receive, panic, returns, receipt, persist_state, init_state,
}
use inx_coordinator.Migrator.StateFile.{
  restarted, persisted, persist_state-flag, init_state-restarted,
}
use inx_coordinator.Migrator.Producer.{Queryer, fetches, round, next_migrations}
use inx_coordinator.Migrator.Ledger.{covered, IsLedger, covered-flag}
use inx_coordinator.Migrator.Delivery.{
  System, receipt_entries, started, received, Step, fetch, retry, receive, nothing, persist,
  persist_failed, restart, Run, here, then,
}
use inx_coordinator.Migrator.Split.{Sends, batches-Sends}
use inx_coordinator.Migrator.Position.{Inv, idle, Inv-small, Inv-flag}
use inx_coordinator.Migrator.Receiving.{Receives, receive_lem, receipt_panics}
use inx_coordinator.Migrator.Answers.{next_migrations-Answers}
use inx_coordinator.Migrator.Fetching.{fetch_lem}

module _ {F : Type 0} (funds : ℕ → List F) (ledger : IsLedger funds) where
  -- The state in the file covers what the first state covered and what was handed out until it was
  -- written.
  abbrev Saved : List F → System F → Type 0
  Saved base x =
      (t : State)
      → x.service.file.current ≡ some t
      → (covered funds t ≡ base ++ x.saved) × (t.latest_migrated_at_index + 1 < 2 ^ 32)

  -- What holds between two steps: the position of the service, and that the state covers what the
  -- first state covered and what has been delivered since, and so does the state in the file.
  abbrev Holds : List F → System F → Type 0
  Holds base x =
      Inv funds x.start_index x.pending x.service.state
      × (covered funds x.service.state ≡ base ++ x.delivered)
      × Saved base x

  round-fetches :
      (on_error : Option (Error → Bool)) (q : Queryer F) (start ms next : ℕ) (l : List F)
      (s : State)
      → round on_error q start s ≡ fetches ms l next
      → (next_migrations q start s ≡ ok (ms, l)) × (next ≡ u32 (ms + 1))
  unfolding round
  round-fetches on_error q start ms next l s h = elim (Result-cases (next_migrations q start s)) [
    | inl ((m, k), e) ↦ ground arith
    | inr (x, e) ↦ ground arith
  ]

  abbrev After : List F → List (MigrationResult F) → System F → Receive F → Type 0
  After base bs x panic = Unit
  After base bs x (returns t r) = Holds base (received bs t r x)

  receive-After :
      (base : List F) (x : System F) (b : MigrationResult F) (bs : List (MigrationResult F))
      (o : Receive F)
      → Receives funds x.start_index bs x.service.state o
      → Holds base x
      → After base bs x o
  receive-After base x b bs panic h k = tt
  receive-After base x b bs (returns t r) (v, more) (w, cov, saved) = (
    v,
    more ∙ ap (λ l. l ++ receipt_entries r) cov ∙ append_assoc base x.delivered (receipt_entries r),
    saved,
  )

  nothing-After :
      (base : List F) (x : System F)
      → Holds base x
      → After base x.pending x (receipt none x.service.state)
  unfolding receipt
  nothing-After base x (v, cov, saved) =
      (v, cov ∙ ap (◌++◌ base) (sym (append-nil x.delivered)), saved)

  -- `PersistState` leaves the state but for the flag.
  flagged :
      (io : JsonIo State) (fault : Option Error) (sending : Bool) (x : System F) (s : Service)
      (o : Result (Unit {0})) (out : List F)
      → persist_state io fault sending x.service ≡ (o, s)
      → Inv funds x.start_index x.pending x.service.state
      → covered funds x.service.state ≡ out
      → Inv funds x.start_index x.pending s.state × (covered funds s.state ≡ out)
  flagged io fault sending x s o out e v cov =
      let same : s.state ≡ record x.service.state { sending_receipt = sending } =
        ap (λ r. r.1.state) (sym e) ∙ persist_state-flag io fault sending x.service in
      (
        subst (Inv funds x.start_index x.pending) (sym same)
            (Inv-flag funds x.start_index x.pending x.service.state sending v),
        ap (covered funds) same ∙ covered-flag funds x.service.state sending ∙ cov,
      )

  persist-Holds :
      (base : List F) (x : System F) (io : JsonIo State) (fault : Option Error) (sending : Bool)
      (s : Service)
      → persist_state io fault sending x.service ≡ (ok tt, s)
      → Holds base x
      → Holds base (record x { service = s; saved = x.delivered })
  persist-Holds base x io fault sending s e (v, cov, saved) =
      let (w, cov') = flagged io fault sending x s (ok tt) _ e v cov in
      (
        w,
        cov',
        (λ t g.
            let same : t ≡ record x.service.state { sending_receipt = sending } =
              some-injective _ _ (sym g ∙ persisted io fault sending x.service s e) in
            (
              ap (covered funds) same ∙ covered-flag funds x.service.state sending ∙ cov,
              omega (
                arith,
                ap (λ y. y.latest_migrated_at_index) same,
                Inv-small funds x.start_index x.pending x.service.state v,
              ),
            )),
      )

  kept :
      (base : List F) (x : System F) (s : Service)
      → (s.file ≡ x.service.file) ⊎ (s.file.current ≡ none)
      → Saved base x
      → Saved base (record x { service = s })
  kept base x s (inl e) saved t g = saved t (ap (λ f. f.current) (sym e) ∙ g)
  kept base x s (inr e) saved t g = cc

  restart-Holds :
      (base : List F) (x : System F) (io : JsonIo State) (fresh : State) (s : Service)
      → init_state io none (restarted fresh x.service.file) ≡ (ok tt, s)
      → Saved base x
      → Holds base (started s x.saved)
  restart-Holds base x io fresh s e saved =
      let (found, same) = init_state-restarted io fresh x.service.file s e in
      let (cov, small) = saved s.state found in
      (idle refl refl small, cov, (λ t g. saved t (ap (λ f. f.current) (sym same) ∙ g)))

  Step-Holds :
      (max : ℕ) (base : List F) (x y : System F) → Step max funds x y → Holds base x → Holds base y
  Step-Holds max base x y (fetch on_error q fuel ms next l bs f none_left asks sent e)
        (v, cov, saved) =
      let (answer, start) = round-fetches on_error q x.start_index ms next l x.service.state asks in
      subst (Holds base) (sym e) (
        subst (λ n. Inv funds n bs x.service.state) (sym start)
            (fetch_lem funds q x.start_index ms l x.pending bs x.service.state f none_left v
              (next_migrations-Answers q x.start_index x.service.state ms l answer)
              (subst (Sends ms l) sent (batches-Sends fuel max ms l))),
        cov,
        saved,
      )
  Step-Holds max base x y (retry on_error q none_left asks e) h = subst (Holds base) (sym e) h
  Step-Holds max base x y (receive b bs t r q e same) h = subst (Holds base) (sym same) (
      subst (After base bs x) e (
        receive-After base x b bs (receipt (some b) x.service.state)
          (receive_lem funds x.start_index b bs x.pending x.service.state ledger q h.0) h))
  Step-Holds max base x y (nothing t r e same) h =
      subst (Holds base) (sym same) (subst (After base x.pending x) e (nothing-After base x h))
  Step-Holds max base x y (persist io fault sending s e same) h =
      subst (Holds base) (sym same) (persist-Holds base x io fault sending s e h)
  Step-Holds max base x y (persist_failed io fault sending s d e left same) (v, cov, saved) =
      let (w, cov') = flagged io fault sending x s (err d) _ e v cov in
      subst (Holds base) (sym same) (w, cov', kept base x s left saved)
  Step-Holds max base x y (restart io fresh s e same) (v, cov, saved) =
      subst (Holds base) (sym same) (restart-Holds base x io fresh s e saved)

  Run-Holds :
      (max : ℕ) (base : List F) (x y : System F) → Run max funds x y → Holds base x → Holds base y
  Run-Holds max base x y here h = h
  Run-Holds max base x y (then {y = z} r s) h =
      Step-Holds max base z y s (Run-Holds max base x z r h)

  -- The service has initialised its state: from its file, or for a bootstrap without one.
  abbrev pub IsLoaded : Service → Type 0
  IsLoaded s =
      ((s.file.current ≡ none) ⊎ (s.file.current ≡ some s.state))
      × (s.state.latest_migrated_at_index + 1 < 2 ^ 32)

  first : (s : Service) → IsLoaded s → Holds (covered funds s.state) (started s [])
  first s (from, h) = (
    idle refl refl h,
    sym (append-nil (covered funds s.state)),
    elim from [
      | inl e ↦ (λ t g. cc)
      | inr e ↦ (λ t g.
          let same : t ≡ s.state = some-injective _ _ (sym g ∙ e) in
          (
            ap (covered funds) same ∙ sym (append-nil (covered funds s.state)),
            omega (arith, ap (λ y. y.latest_migrated_at_index) same, h),
          ))
    ],
  )

  -- Over any run of the service from a loaded state, with failing queries, answers without anything
  -- new, any number of receipts and of calls of `PersistState`, and restarts from the state file at
  -- any point: the entries that the state covers at the end are those that it covered at the start,
  -- followed by the entries of the receipts in the order in which they were handed out. No entry is
  -- left out, repeated or moved. After a restart the receipts since the file was written do not
  -- count, for they are in no milestone. The legacy network has fewer than 2^32 entries in a
  -- milestone, and the first index is below 2^32 - 1.
  pub Run-delivered :
      (max : ℕ) (s : Service) (x : System F)
      → IsLoaded s
      → Run max funds (started s []) x
      → covered funds x.service.state ≡ covered funds s.state ++ x.delivered
  Run-delivered max s x h r =
      (Run-Holds max (covered funds s.state) (started s []) x r (first s h)).1

  -- In such a run `Receipt` panics with "invalid stop index" exactly if the index behind the last
  -- answer of the legacy node is not above the state's, so never on an answer for the asked or a
  -- later milestone, and never on one with entries.
  pub Run-receipt_panics :
      (max : ℕ) (s : Service) (x : System F) (b : MigrationResult F) (bs : List (MigrationResult F))
      → IsLoaded s
      → Run max funds (started s []) x
      → x.pending ≡ b ∷ bs
      → ((receipt (some b) x.service.state ≡ panic)
          ↔ (x.start_index ≤ x.service.state.latest_migrated_at_index))
        × (receipt (some b) x.service.state ≡ panic → b.migrated_funds ≡ [])
  Run-receipt_panics max s x b bs h r e =
      let holds = Run-Holds max (covered funds s.state) (started s []) x r (first s h) in
      receipt_panics funds x.start_index b bs x.pending x.service.state ledger e holds.0
