-- ===== src/Tests/Signing.antt =====
-- Keys and signatures: a key manager that knows one public key, and texts with three keys.
use inx_coordinator.Base.{
  ℕ, zero, suc, ◌+◌, ◌≤◌, ◌<◌, ◌≡◌, ◌↔◌, refl, ap, subst, inl, true, none, some, List, [], ◌∷◌,
  length, All, Among, map, arith, Error, Result, ok, err, external, ◌==◌, ==_self, leb,
  if◌then◌else◌, invalid_private_key, no_remote_address, unknown_signing_provider,
}
use inx_coordinator.Coordinator.Types.{Milestone}
use inx_coordinator.Coordinator.Build.{create_milestone}
use inx_coordinator.Signing.Keys.{Text, PrivateKey, load_private_keys}
use inx_coordinator.Signing.Loading.{Holds, load_private_keys-Holds}
use inx_coordinator.Signing.Provider.{
  Signature, Distinct, Mapping, key_of, KeyManager, Signers, MilestoneSignerProvider, local,
  new_in_memory,
}
use inx_coordinator.Signing.Choice.{
  Outside, init_signing_provider, Accepts, init_signing_provider-Accepts,
}
use inx_coordinator.Signing.Signed.{Sealing}
use inx_coordinator.Signing.Threshold.{found, signing_env, whole, create_milestone-threshold}
use inx_coordinator.Tests.Coordination.{env, roots}

-- A key manager for which every key belongs to the public key 1, which is valid at each index.
abbrev pub first_key : ℕ → List PrivateKey → ℕ → Mapping
first_key i [] n = []
first_key i (k ∷ ks) n = (1, k) ∷ []

pub first_key_valid :
    (i : ℕ) (ks : List PrivateKey) (n : ℕ) → All (λ p. Among (key_of p) (1 ∷ [])) (first_key i ks n)
first_key_valid i [] n = tt
first_key_valid i (k ∷ ks) n = (inl refl, tt)

pub first_key_owned :
    (i : ℕ) (ks : List PrivateKey) (n : ℕ) → All (λ p. ◌≡◌ {A = ℕ} 1 p.0) (first_key i ks n)
first_key_owned i [] n = tt
first_key_owned i (k ∷ ks) n = (refl, tt)

pub first_key-Distinct :
    (i : ℕ) (ks : List PrivateKey) (n : ℕ) → Distinct (map key_of (first_key i ks n))
first_key-Distinct i [] n = tt
first_key-Distinct i (k ∷ ks) n = ((λ a. absurd a), tt)

pub first_key_bounded :
    (i : ℕ) (ks : List PrivateKey) (n : ℕ) → 1 ≤ n → length (first_key i ks n) ≤ n
first_key_bounded i [] n h = omega arith
first_key_bounded i (k ∷ ks) n h = h

abbrev pub manager : KeyManager
manager = record {
  public_keys_set = λ i. 1 ∷ [];
  public_keys = λ i. 1 ∷ [];
  public_key_mapping = first_key;
  public_of = λ k. 1;
  mapping_valid = first_key_valid;
  mapping_owned = first_key_owned;
  mapping_distinct = first_key-Distinct;
  mapping_bounded = first_key_bounded;
}

-- A signature is the sum of the key and the essence.
abbrev signature_of : ℕ → ℕ → Signature
signature_of x k = record { public_key = k; signature = k + x }

signature_keys :
    (keys : List ℕ) (x : ℕ) → map (λ t. t.public_key) (map (signature_of x) keys) ≡ keys
signature_keys [] x = refl
signature_keys (k ∷ keys) x = ap (◌∷◌ k) (signature_keys keys x)

signature_signed :
    (keys : List ℕ) (x : ℕ)
    → All (λ t. (t.signature == t.public_key + x) ≡ true) (map (signature_of x) keys)
signature_signed [] x = tt
signature_signed (k ∷ keys) x = (==_self (k + x), signature_signed keys x)

from_keys :
    (keys : List ℕ) (x : ℕ) (s : List Signature)
    → ok (map (signature_of x) keys) ≡ ok s
    → map (signature_of x) keys ≡ s
from_keys keys x s h = cc

abbrev signers : Signers manager
signers = record {
  in_memory = λ m keys x. ok (map (signature_of x) keys);
  remote = λ address attempt keys x. ok (map (signature_of x) keys);
  is_signed = λ x t. t.signature == t.public_key + x;
  in_memory_total = λ m keys x h. (map (signature_of x) keys, refl);
  in_memory_keys = λ m keys x s h.
      subst (λ l. map (λ t. t.public_key) l ≡ keys) (from_keys keys x s h) (signature_keys keys x);
  in_memory_signed = λ m keys x s o h.
      subst (All (λ t. (t.signature == t.public_key + x) ≡ true)) (from_keys keys x s h)
        (signature_signed keys x);
}

-- The essence is the milestone's index, and the check only counts.
abbrev count_check : ℕ → List Signature → Result (Unit {0})
count_check threshold s = if leb threshold (length s) then ok tt else err (external 4)

count_check_few :
    (threshold : ℕ) (s : List Signature)
    → length s < threshold
    → (e : Error) × (count_check threshold s ≡ err e)
count_check_few threshold s h = (external 4, ground arith)

count_check_ok :
    (threshold : ℕ) (s : List Signature) → threshold ≤ length s → count_check threshold s ≡ ok tt
count_check_ok threshold s h = ground arith

signs_index :
    (m : Milestone ℕ) (keys : List ℕ) (f : List ℕ → ℕ → Result (List Signature)) (x : ℕ)
    (s : List Signature)
    → ok m.index ≡ ok x
    → f keys x ≡ ok s
    → f keys m.index ≡ ok s
signs_index m keys f x s e h = let same : x ≡ m.index = cc in subst (λ y. f keys y ≡ ok s) same h

abbrev sealing : Sealing ℕ signers.is_signed
sealing = record {
  essence = λ m. ok m.index;
  sort_signatures = λ s. s;
  sign = λ m keys f. f keys m.index;
  verify_signatures = λ threshold keys m s. count_check threshold s;
  sort_length = λ s. refl;
  sort_all = λ P s h. h;
  sort_distinct = λ s h. h;
  sign_ok = λ m keys f x s e h a b. signs_index m keys f x s e h;
  sign_inv = λ m keys f t h. (m.index, t, h, refl);
  verify_ok = λ threshold keys m x s a b d v e g. count_check_ok threshold s b;
  verify_few = λ threshold keys m s h. count_check_few threshold s h;
}

abbrev milestone : Milestone ℕ
milestone = record {
  index = 6;
  timestamp = 7;
  protocol_version = 2;
  previous_milestone_id = 55;
  parents = 60 ∷ [];
  roots = roots;
  opts = none;
}

create_milestone-threshold_example :
    (create_milestone (signing_env signers sealing 10 ((5 ∷ []) ∷ []) 1 milestone env) milestone
      ≡ ok (whole signers sealing 10 ((5 ∷ []) ∷ []) 1 milestone env))
    ↔ (1 ≤ length (found signers sealing 10 ((5 ∷ []) ∷ []) 1 milestone))
create_milestone-threshold_example =
    create_milestone-threshold signers sealing 10 ((5 ∷ []) ∷ []) 1 milestone env 6 refl
      (omega arith) (omega arith) refl refl

abbrev pub sevens : ℕ → List ℕ
sevens zero = []
sevens (suc n) = 7 ∷ sevens n

-- Every text but the empty one is a key of 64 bytes.
abbrev pub parse : Text → Result PrivateKey
parse [] = err (external 3)
parse (c ∷ t) = ok (sevens 64)

abbrev pub two_keys : Text
two_keys = b'a' ∷ b',' ∷ b'b' ∷ []

load_private_keys-Holds_example :
    (load_private_keys parse (some two_keys) ≡ ok (sevens 64 ∷ sevens 64 ∷ []))
    ↔ Holds parse (some two_keys) (sevens 64 ∷ sevens 64 ∷ [])
load_private_keys-Holds_example =
    load_private_keys-Holds parse (some two_keys) (sevens 64 ∷ sevens 64 ∷ [])

loads_two : load_private_keys parse (some two_keys) ≡ ok (sevens 64 ∷ sevens 64 ∷ [])
unfolding load_private_keys
loads_two = refl

-- An empty part is no key.
loads_none : load_private_keys parse (some (b'a' ∷ b',' ∷ [])) ≡ err invalid_private_key
unfolding load_private_keys
loads_none = refl

abbrev pub outside : Outside
outside = record {
  parse = parse;
  keys_variable = some two_keys;
  remote_signer = λ address attempt keys x. ok [];
}

abbrev pub two_signers : MilestoneSignerProvider
two_signers = local (new_in_memory (sevens 64 ∷ sevens 64 ∷ []) manager 2)

init_signing_provider-Accepts_example :
    (init_signing_provider outside "local" [] manager 2 ≡ ok two_signers)
    ↔ Accepts outside "local" [] manager 2 two_signers
init_signing_provider-Accepts_example =
    init_signing_provider-Accepts outside manager 2 "local" [] two_signers

inits_local : init_signing_provider outside "local" [] manager 2 ≡ ok two_signers
unfolding init_signing_provider
inits_local = refl

inits_errors :
    (init_signing_provider outside "remote" [] manager 2 ≡ err no_remote_address)
    × (init_signing_provider outside "both" [] manager 2 ≡ err unknown_signing_provider)
unfolding init_signing_provider
inits_errors = (refl, refl)
