-- ===== src/Base/Errors.antt =====
-- The error values of the program. `critical` and `soft` stand for the calls of hornet's
-- `common.CriticalError` and `common.SoftError`, `wrap` for `fmt.Errorf` with `%w`; how hornet
-- recognises them is a parameter where the code asks.
use Prim.Native.Nat.{ℕ}
use mathlib.Core.Path.{◌≡◌, refl}
use mathlib.Core.Logic.{◌⊎◌, inl, inr}

pub data Error : Type 0 where
  -- common.CriticalError(err)
  critical : Error → Error
  -- common.SoftError(err)
  soft : Error → Error
  -- fmt.Errorf("…: %w", err)
  wrap : Error → Error
  -- an error of code outside the repository, by a number that identifies it
  external : ℕ → Error
  no_tips_given network_bootstrapped node_load_too_high node_not_synced : Error
  quorum_merkle_tree_hash_mismatch quorum_group_no_answer : Error
  no_tips_available : Error
  state_file_already_exists invalid_state : Error
  state_file_not_found previous_milestone_mismatch previous_milestone_genesis : Error
  treasury_function_missing no_treasury_output : Error
  environment_not_set invalid_private_key no_private_keys_given wrong_private_key_length : Error
  no_remote_address unknown_signing_provider database_tainted : Error
  -- a panic, which no code of the repository recovers from
  panicked : Error

pub data Result {ℓ} (A : Type ℓ) : Type ℓ where
  ok : A → Result A
  err : Error → Result A

infixl 5 ◌>>=◌ ◌>>◌
abbrev pub ◌>>=◌ {ℓ κ} : {A : Type ℓ} {B : Type κ} → Result A → (A → Result B) → Result B
ok x >>= next = next x
err e >>= next = err e

abbrev pub ◌>>◌ {ℓ} : {B : Type ℓ} → Result (Unit {0}) → Result B → Result B
first >> second = first >>= λ _. second

-- fmt.Errorf around the error of a call.
abbrev pub wrapped {ℓ} : {A : Type ℓ} → (Error → Error) → Result A → Result A
wrapped f (ok a) = ok a
wrapped f (err e) = err (f e)

pub Result-cases {ℓ} :
    {A : Type ℓ} (r : Result A) → ((a : A) × (r ≡ ok a)) ⊎ ((e : Error) × (r ≡ err e))
Result-cases (ok a) = inl (a, refl)
Result-cases (err e) = inr (e, refl)

-- The parts of a chain that has succeeded.
pub >>=-eq-ok {ℓ κ} :
    {A : Type ℓ} {B : Type κ} (r : Result A) (f : A → Result B) (b : B)
    → (r >>= f) ≡ ok b
    → (a : A) × (r ≡ ok a) × (f a ≡ ok b)
>>=-eq-ok (ok a) f b h = (a, refl, h)
>>=-eq-ok (err e) f b h = cc

pub wrapped-eq-ok {ℓ} :
    {A : Type ℓ} (g : Error → Error) (r : Result A) (a : A) → wrapped g r ≡ ok a → r ≡ ok a
wrapped-eq-ok g (ok x) a h = h
wrapped-eq-ok g (err e) a h = cc
