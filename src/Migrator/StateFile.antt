-- ===== src/Migrator/StateFile.antt =====
-- pkg/migrator/service.go: what `PersistState` writes and `InitState` accepts.
use inx_coordinator.Base.{
  refl, ◌≡◌, ◌⊎◌, inl, inr, ◌≢◌, Bool, true, false, Option, none, some, arith, Error, ok, err, wrap,
  invalid_state, StateFile, JsonIo, move_to_old, Result-cases, Option-cases,
}
use inx_coordinator.Migrator.Service.{State, Service, persist_state, init_state}

-- The memory of a new process that finds the state file.
abbrev pub restarted : State → StateFile State → Service
restarted s f = record { state = s; file = f }

pub persisted :
    (io : JsonIo State) (fault : Option Error) (sending : Bool) (s g : Service)
    → persist_state io fault sending s ≡ (ok tt, g)
    → g.file.current ≡ some (record s.state { sending_receipt = sending })
unfolding persist_state
persisted io fault sending s g h = elim (Result-cases (move_to_old fault s.file)) [
  | inl (f, e) ↦ ground (arith, io.write_ok (record s.state { sending_receipt = sending }) f)
  | inr (x, e) ↦ ground arith
]

-- The flag is set in memory, whatever happens to the file.
pub persist_state-flag :
    (io : JsonIo State) (fault : Option Error) (sending : Bool) (s : Service)
    → (persist_state io fault sending s).1.state ≡ record s.state { sending_receipt = sending }
unfolding persist_state
persist_state-flag io fault sending s = elim (Result-cases (move_to_old fault s.file)) [
  | inl (f, e) ↦ rw (e, persist_state) refl
  | inr (x, e) ↦ rw (e, persist_state) refl
]

-- A new process that loads the file starts from the state in it.
pub init_state-restarted :
    (io : JsonIo State) (fresh : State) (f : StateFile State) (s : Service)
    → init_state io none (restarted fresh f) ≡ (ok tt, s)
    → (f.current ≡ some s.state) × (s.file ≡ f)
unfolding init_state
init_state-restarted io fresh f s h = elim (Option-cases f.current) [
  | inl e ↦ let (d, r) = io.read_none f e in absurd (ground arith)
  | inr (t, e) ↦ let r = io.read_ok t f e in ground arith
]

-- After a `PersistState` that succeeded, a new process that loads the file starts exactly when the
-- flag was cleared and the migrated index is not zero, and then from the very state that was
-- persisted; otherwise it is refused as invalid, and its own state stays as it was.
pub init-persist :
    (io : JsonIo State) (fault : Option Error) (sending : Bool) (s g : Service) (fresh : State)
    → persist_state io fault sending s ≡ (ok tt, g)
    → let r = init_state io none (restarted fresh g.file) in
      ((sending ≡ false)
        × (s.state.latest_migrated_at_index ≢ 0)
        × (r.0 ≡ ok tt)
        × (r.1.state ≡ record s.state { sending_receipt = false }))
      ⊎ (((sending ≡ true) ⊎ (s.state.latest_migrated_at_index ≡ 0))
          × (r.0 ≡ err (wrap invalid_state))
          × (r.1.state ≡ fresh))
unfolding init_state
init-persist io fault sending s g fresh h =
    let t = record s.state { sending_receipt = sending } in
    let e = io.read_ok t g.file (persisted io fault sending s g h) in ground (arith, e)
