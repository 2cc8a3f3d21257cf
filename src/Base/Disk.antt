-- ===== src/Base/Disk.antt =====
-- State files. A component keeps one JSON file and, after a rename, its `_old` backup. The renames
-- are `os.Rename` as the code calls it; reading and writing JSON is hive.go's `ioutils`, a parameter.
use mathlib.Core.Path.{◌≡◌, ap}
use mathlib.Core.Bool.{Bool, true, false}
use mathlib.Core.Option.{Option, none, some}
use mathlib.Core.Logic.{inl, inr}
use native.Mathlib.Omega.{arith}
use inx_coordinator.Base.Tests.{Option-cases}
use inx_coordinator.Base.Errors.{Error, Result, ok, err}

pub record StateFile (S : Type 0) : Type 0 where
  pub current : Option S
  pub backup : Option S

-- `!os.IsNotExist(err)` for the `err` of `os.Stat`.
abbrev pub exists : {S : Type 0} → StateFile S → Bool
exists f = elim f.current [ none ↦ false | some s ↦ true ]

-- `os.Rename(path, path_old)`, where an `IsNotExist` error is passed over; `fault` is what the
-- system answers when the file is there and cannot be moved.
abbrev pub move_to_old : {S : Type 0} → Option Error → StateFile S → Result (StateFile S)
move_to_old fault f = elim f.current [
  | none ↦ ok f
  | some s ↦ elim fault [ none ↦ ok (record { current = none; backup = some s }) | some e ↦ err e ]
]

-- hive.go's `ioutils.WriteJSONToFile` and `ReadJSONFromFile` on such a file: a write that reports
-- no error leaves the value in the file, what the file holds is read back, and a missing file is an
-- error.
pub record JsonIo (S : Type 0) : Type 0 where
  pub write : S → StateFile S → Result (Unit {0}) × StateFile S
  pub read : StateFile S → Result S
  pub write_ok : (s : S) (f : StateFile S) → (write s f).0 ≡ ok tt → (write s f).1.current ≡ some s
  pub read_none : (f : StateFile S) → f.current ≡ none → (e : Error) × (read f ≡ err e)
  pub read_ok : (s : S) (f : StateFile S) → f.current ≡ some s → read f ≡ ok s

-- After the move there is no file.
pub move_to_old_lem :
    {S : Type 0} (fault : Option Error) (f g : StateFile S)
    → move_to_old fault f ≡ ok g
    → g.current ≡ none
move_to_old_lem fault f g e = elim (Option-cases f.current) [
  | inl m ↦ ground arith
  | inr (s, m) ↦ elim (Option-cases fault) [ inl n ↦ ground arith | inr (d, n) ↦ ground arith ]
]

pub exists_some : {S : Type 0} (f : StateFile S) {s : S} → f.current ≡ some s → exists f ≡ true
exists_some f g = ap (λ o. elim o [ none ↦ false | some s ↦ true ]) g

pub exists_none : {S : Type 0} (f : StateFile S) → f.current ≡ none → exists f ≡ false
exists_none f g = ap (λ o. elim o [ none ↦ false | some s ↦ true ]) g
