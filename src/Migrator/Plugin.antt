-- ===== src/Migrator/Plugin.antt =====
-- plugins/migrator/component.go: the limit of the entries, the start of the service, and what happens on
-- its errors. hornet's validator and its error types, iota.go's greatest number of entries and hive.go's
-- `Sleep` are parameters.
use inx_coordinator.Base.{
  ℕ, zero, suc, Bool, false, Option, none, some, Error, Result, ok, err, panicked, ltb,
  if◌then◌else◌, StateFile, JsonIo, ◌>>=◌,
}
use inx_coordinator.Migrator.Service.{State, Service, init_state}

-- `negsuc n` is -(n + 1).
pub data ℤ : Type 0 where
  pos : ℕ → ℤ
  negsuc : ℕ → ℤ

-- The fields of the parameters, and the flags.
pub record Parameters : Type 0 where
  pub receipt_max_entries : ℤ
  pub bootstrap : Bool
  pub start_index : ℕ

-- The switch over `maxReceiptEntries`; `LogPanicf` panics.
unfoldable pub check_max_entries : ℕ → ℤ → Result ℕ
check_max_entries most (negsuc n) = err panicked
check_max_entries most (pos zero) = err panicked
check_max_entries most (pos (suc n)) = if ltb most (suc n) then err panicked else ok (suc n)

-- The service of `NewService`, with its limit; its state is a nil pointer until `InitState`.
pub record Limited : Type 0 where
  pub service : Service
  pub receipt_max_entries : ℕ

-- `&State{}`
abbrev pub zero_state : State
zero_state = record {
  latest_migrated_at_index = 0;
  latest_included_index = 0;
  sending_receipt = false;
}

-- `NewService`
abbrev pub new_service : StateFile State → ℕ → Limited
new_service file max = record {
  service = record { state = zero_state; file = file };
  receipt_max_entries = max;
}

-- `provide`
unfoldable pub provide : ℕ → Parameters → StateFile State → Result Limited
unfolding check_max_entries
provide most p file = do
  max ← check_max_entries most p.receipt_max_entries
  ok (new_service file max)

-- The pointer to the start index, which is nil if the migration is not bootstrapped.
abbrev pub ms_index : Parameters → Option ℕ
ms_index p = if p.bootstrap then some p.start_index else none

-- `configure`; an error ends the program.
unfoldable pub configure : JsonIo State → Parameters → Limited → Result Limited
configure io p l = elim (init_state io (ms_index p) l.service).0 [
  | err e ↦ err e
  | ok _ ↦ ok (record l { service = (init_state io (ms_index p) l.service).1 })
]

-- What the error handler of `run` does.
pub data Reaction : Type 0 where
  -- it shuts the node down, and returns false
  shuts_down : Reaction
  -- it triggers the event SoftError or not, logs, and returns whether the sleep was not interrupted
  sleeps : Bool → Bool → Reaction

-- The error handler of `run`, with `IsCriticalError`, `IsSoftError`, and what `timeutil.Sleep`
-- returns.
unfoldable pub react : (Error → Bool) → (Error → Bool) → Bool → Error → Reaction
react is_critical_error is_soft_error slept e =
    if is_critical_error e then shuts_down else sleeps (is_soft_error e) slept

-- What it returns to the service.
unfoldable pub on_error : (Error → Bool) → (Error → Bool) → Bool → Error → Bool
unfolding react
on_error is_critical_error is_soft_error slept e =
    elim (react is_critical_error is_soft_error slept e) [
      | shuts_down ↦ false
      | sleeps soft went_on ↦ went_on
    ]
