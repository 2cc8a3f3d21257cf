-- ===== src/Migrator/Service.antt =====
-- pkg/migrator/service.go: the state of the service, its receipts, and its state file.
use inx_coordinator.Base.{
  ℕ, ◌+◌, Bool, false, Option, none, some, List, [], ◌∷◌, length, u32, ltb, ◌==◌, if◌then◌else◌,
  Error, Result, ok, err, wrap, state_file_already_exists, invalid_state, StateFile, JsonIo, exists,
  move_to_old, ◌>>=◌, wrapped,
}

-- `State`; both indices are uint32.
pub record State : Type 0 where
  pub latest_migrated_at_index : ℕ
  pub latest_included_index : ℕ
  pub sending_receipt : Bool

-- `migrationResult`
pub record MigrationResult (F : Type 0) : Type 0 where
  pub stop_index : ℕ
  pub last_batch : Bool
  pub migrated_funds : List F

-- The fields of `iotago.ReceiptMilestoneOpt` that the service sets.
pub record Receipt (F : Type 0) : Type 0 where
  pub migrated_at : ℕ
  pub final : Bool
  pub funds : List F

-- The part of `Service` that its methods change: the state and the state file.
pub record Service : Type 0 where
  pub state : State
  pub file : StateFile State

pub data Receive (F : Type 0) : Type 0 where
  -- the panic "invalid stop index" of `updateState`
  panic : Receive F
  returns : State → Option (Receipt F) → Receive F

-- `updateState` past its guard: the state is moved to the milestone of the result.
unfoldable pub moved_to : ℕ → State → State
moved_to stop s =
    if stop == s.latest_migrated_at_index
    then s
    else record s { latest_migrated_at_index = stop; latest_included_index = 0 }

module _ {F : Type 0} where
  -- `updateState`; `none` is its panic.
  unfoldable pub update_state : MigrationResult F → State → Option State
  unfolding moved_to
  update_state r s =
      let t = moved_to r.stop_index s in
      if ltb r.stop_index s.latest_migrated_at_index
      then none
      else some (record t {
        latest_included_index = u32 (t.latest_included_index + length r.migrated_funds);
      })

  -- `createReceipt`
  unfoldable pub create_receipt : ℕ → Bool → List F → Option (Receipt F)
  create_receipt at last [] = none
  create_receipt at last (f ∷ fs) = some (record { migrated_at = at; final = last; funds = f ∷ fs })

  -- `Receipt`: the argument is what the non-blocking receive yields.
  unfoldable pub receipt : Option (MigrationResult F) → State → Receive F
  receipt none s = returns s none
  receipt (some r) s = elim (update_state r s) [
    | none ↦ panic
    | some t ↦ returns t (create_receipt r.stop_index r.last_batch r.migrated_funds)
  ]

-- `PersistState`: the flag is set first, and stays set when the rename or the write fails.
-- `fault` is what the system answers to the rename of an existing file.
unfoldable pub persist_state :
    JsonIo State → Option Error → Bool → Service → Result (Unit {0}) × Service
persist_state io fault sending s =
    let marked = record s { state = record s.state { sending_receipt = sending } } in
    elim (move_to_old fault s.file) [
      | err e ↦ (err (wrap e), marked)
      | ok f ↦ let (r, g) = io.write marked.state f in (r, record marked { file = g })
    ]

-- The first half of `InitState`: the state from the file, or for a bootstrap from the index.
unfoldable pub initial_state : JsonIo State → Option ℕ → StateFile State → Result State
initial_state io none f = wrapped wrap (io.read f)
initial_state io (some ms) f =
    if exists f
    then err state_file_already_exists
    else ok (record {
      latest_migrated_at_index = ms;
      latest_included_index = 0;
      sending_receipt = false;
    })

-- The checks of `InitState`.
unfoldable pub validate : State → Result State
validate s =
    if s.sending_receipt
    then err (wrap invalid_state)
    else if s.latest_migrated_at_index == 0
    then err (wrap invalid_state)
    else ok s

-- `InitState`; `none` for the index is the nil pointer.
unfoldable pub init_state : JsonIo State → Option ℕ → Service → Result (Unit {0}) × Service
unfolding initial_state validate
init_state io ms s = elim (initial_state io ms s.file >>= validate) [
  | err e ↦ (err e, s)
  | ok t ↦ (ok tt, record s { state = t })
]
