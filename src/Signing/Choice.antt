-- ===== src/Signing/Choice.antt =====
-- core/coordinator/component.go: `initSigningProvider`.
use Prim.Native.String.{String}
use text.Mathlib.Text.{◌==◌ as str_eq}
use text.Mathlib.TextEquality.{eq_iff}
use inx_coordinator.Base.{
  ℕ, Option, Bool, true, false, List, [], ◌∷◌, ◌==◌, if◌then◌else◌, Result, ok, err, All, ◌≡◌, ◌≢◌,
  ◌↔◌, refl, sym, ap, ◌∙◌, inl, inr, Bool-cases, Result-cases, ==_iff, length,
  no_private_keys_given, wrong_private_key_length, no_remote_address, unknown_signing_provider,
  ◌>>=◌, ◌>>◌,
}
use inx_coordinator.Signing.Keys.{Text, PrivateKey, load_private_keys}
use inx_coordinator.Signing.Loading.{Holds, Holds-ne, load_private_keys-Holds}
use inx_coordinator.Signing.Provider.{
  SigningFunc, KeyManager, MilestoneSignerProvider, local, remote, new_in_memory, new_remote,
}

-- `ed25519.PrivateKeySize`
abbrev pub private_key_size : ℕ
private_key_size = 64

abbrev pub has_key_size : PrivateKey → Bool
has_key_size k = length k == private_key_size

-- `len(privateKeys) == 0`
unfoldable pub check_given : List PrivateKey → Result (Unit {0})
check_given [] = err no_private_keys_given
check_given (k ∷ ks) = ok tt

-- The loop over the private keys.
unfoldable pub check_lengths : List PrivateKey → Result (Unit {0})
check_lengths [] = ok tt
check_lengths (k ∷ ks) = if has_key_size k then check_lengths ks else err wrong_private_key_length

-- The case "local", with what the environment variable COO_PRV_KEYS holds.
unfoldable pub init_local :
    (Text → Result PrivateKey) → Option Text → KeyManager → ℕ → Result MilestoneSignerProvider
unfolding load_private_keys check_given check_lengths
init_local parse var manager count = do
  keys ← load_private_keys parse var
  check_given keys
  check_lengths keys
  ok (local (new_in_memory keys manager count))

-- The case "remote".
unfoldable pub init_remote :
    (Text → SigningFunc) → Text → KeyManager → ℕ → Result MilestoneSignerProvider
init_remote signer [] manager count = err no_remote_address
init_remote signer (c ∷ cs) manager count = ok (remote (new_remote signer (c ∷ cs) manager count))

-- What `initSigningProvider` takes from outside.
pub record Outside : Type 0 where
  -- hornet's `ParseEd25519PrivateKeyFromString`
  pub parse : Text → Result PrivateKey
  -- `os.LookupEnv("COO_PRV_KEYS")`
  pub keys_variable : Option Text
  -- iota.go's `InsecureRemoteEd25519MilestoneSigner`
  pub remote_signer : Text → SigningFunc

-- `initSigningProvider`
unfoldable pub init_signing_provider :
    Outside → String → Text → KeyManager → ℕ → Result MilestoneSignerProvider
unfolding init_local init_remote
init_signing_provider o kind endpoint manager count =
    if str_eq kind "local"
    then init_local o.parse o.keys_variable manager count
    else if str_eq kind "remote"
    then init_remote o.remote_signer endpoint manager count
    else err unknown_signing_provider

-- The providers that a configuration gives.
pub data Accepts (o : Outside) (kind : String) (endpoint : Text) (manager : KeyManager) (count : ℕ)
    (p : MilestoneSignerProvider) : Type 0 where
  local_keys :
      (keys : List PrivateKey)
      → kind ≡ "local"
      → Holds o.parse o.keys_variable keys
      → All (λ k. length k ≡ private_key_size) keys
      → p ≡ local (new_in_memory keys manager count)
      → Accepts o kind endpoint manager count p
  remote_address :
      kind ≡ "remote"
      → endpoint ≢ []
      → p ≡ remote (new_remote o.remote_signer endpoint manager count)
      → Accepts o kind endpoint manager count p

check_given_ok : (ks : List PrivateKey) → ks ≢ [] → check_given ks ≡ ok tt
unfolding check_given
check_given_ok [] n = absurd (n refl)
check_given_ok (k ∷ ks) n = refl

check_lengths_all :
    (ks : List PrivateKey) → check_lengths ks ≡ ok tt → All (λ k. length k ≡ private_key_size) ks
unfolding check_lengths
check_lengths_all [] h = tt
check_lengths_all (k ∷ ks) h = elim (Bool-cases (has_key_size k)) [
  | inl e ↦ ((==_iff _ _).0 e, check_lengths_all ks (rw (e) at h))
  | inr e ↦ let f : err wrong_private_key_length ≡ ok tt = (rw (e) at h) in cc
]

check_lengths_ok :
    (ks : List PrivateKey) → All (λ k. length k ≡ private_key_size) ks → check_lengths ks ≡ ok tt
unfolding check_lengths
check_lengths_ok [] h = refl
check_lengths_ok (k ∷ ks) h = rw ((==_iff (length k) 64).1 h.0) (check_lengths_ok ks h.1)

module _ (o : Outside) (manager : KeyManager) (count : ℕ) where
  abbrev FromKeys : MilestoneSignerProvider → Type 0
  FromKeys p =
      (keys : List PrivateKey) × Holds o.parse o.keys_variable keys
      × All (λ k. length k ≡ private_key_size) keys
      × (p ≡ local (new_in_memory keys manager count))

  init_local_ok :
      (keys : List PrivateKey)
      → load_private_keys o.parse o.keys_variable ≡ ok keys
      → keys ≢ []
      → check_lengths keys ≡ ok tt
      → init_local o.parse o.keys_variable manager count
        ≡ ok (local (new_in_memory keys manager count))
  unfolding init_local
  init_local_ok keys l n c = simp (l, check_given_ok keys n, c) refl

  -- A provider is made from the keys that were loaded.
  init_local-FromKeys :
      (p : MilestoneSignerProvider)
      → init_local o.parse o.keys_variable manager count ≡ ok p
      → FromKeys p
  unfolding init_local
  init_local-FromKeys p h = elim (Result-cases (load_private_keys o.parse o.keys_variable)) [
    | inr (e, l) ↦ let f : err e ≡ ok p = (rw (l) at h) in cc
    | inl (keys, l) ↦
        let held = (load_private_keys-Holds o.parse o.keys_variable keys).0 l in
        let given = Holds-ne o.parse o.keys_variable keys held in
        elim (Result-cases (check_lengths keys)) [
          | inr (e, c) ↦ let f : err e ≡ ok p = (rw (l, check_given_ok keys given, c) at h) in cc
          | inl (u, c) ↦
              let same : ok (local (new_in_memory keys manager count)) ≡ ok p =
                sym (init_local_ok keys l given c) ∙ h in
              (keys, held, check_lengths_all keys c, cc)
        ]
  ]

  FromKeys-init_local :
      (p : MilestoneSignerProvider)
      → FromKeys p
      → init_local o.parse o.keys_variable manager count ≡ ok p
  FromKeys-init_local p (keys, held, sizes, e) =
      init_local_ok keys ((load_private_keys-Holds o.parse o.keys_variable keys).1 held)
        (Holds-ne o.parse o.keys_variable keys held) (check_lengths_ok keys sizes)
      ∙ ap ok (sym e)

  init_remote_ok :
      (endpoint : Text) (p : MilestoneSignerProvider)
      → (init_remote o.remote_signer endpoint manager count ≡ ok p)
        ↔ ((endpoint ≢ []) × (p ≡ remote (new_remote o.remote_signer endpoint manager count)))
  unfolding init_remote
  init_remote_ok [] p = ((λ h. cc), (λ h. absurd (h.0 refl)))
  init_remote_ok (c ∷ cs) p = ((λ h. ((λ e. cc), cc)), (λ h. cc))

  not_both : (kind : String) → kind ≡ "local" → kind ≢ "remote"
  not_both kind a b =
      let f : ◌≡◌ {A = String} "local" "remote" = sym a ∙ b in
      let g : false ≡ true = (eq_iff "local" "remote").1 f in cc

  accepted_local :
      (kind : String) (endpoint : Text) (p : MilestoneSignerProvider)
      → kind ≡ "local"
      → Accepts o kind endpoint manager count p
      → init_local o.parse o.keys_variable manager count ≡ ok p
  accepted_local kind endpoint p a (local_keys keys k held sizes e) =
      FromKeys-init_local p (keys, held, sizes, e)
  accepted_local kind endpoint p a (remote_address k n e) = absurd (not_both kind a k)

  accepted_remote :
      (kind : String) (endpoint : Text) (p : MilestoneSignerProvider)
      → str_eq kind "local" ≡ false
      → Accepts o kind endpoint manager count p
      → init_remote o.remote_signer endpoint manager count ≡ ok p
  accepted_remote kind endpoint p a (local_keys keys k held sizes e) =
      let t : str_eq kind "local" ≡ true = (eq_iff kind "local").1 k in cc
  accepted_remote kind endpoint p a (remote_address k n e) = (init_remote_ok endpoint p).1 (n, e)

  refused_kind :
      (kind : String) (endpoint : Text) (p : MilestoneSignerProvider)
      → str_eq kind "local" ≡ false
      → str_eq kind "remote" ≡ false
      → ¬ Accepts o kind endpoint manager count p
  refused_kind kind endpoint p a b (local_keys keys k held sizes e) =
      let t : str_eq kind "local" ≡ true = (eq_iff kind "local").1 k in cc
  refused_kind kind endpoint p a b (remote_address k n e) =
      let t : str_eq kind "remote" ≡ true = (eq_iff kind "remote").1 k in cc

  -- A provider is initialised exactly if the kind is "local" and the environment variable lists at
  -- least one key, each of 64 bytes, or the kind is "remote" and there is an address; it then has
  -- these keys or this address, and the given key manager and count.
  pub init_signing_provider-Accepts :
      (kind : String) (endpoint : Text) (p : MilestoneSignerProvider)
      → (init_signing_provider o kind endpoint manager count ≡ ok p)
        ↔ Accepts o kind endpoint manager count p
  unfolding init_signing_provider
  init_signing_provider-Accepts kind endpoint p = elim (Bool-cases (str_eq kind "local")) [
    | inl a ↦ rw (a) (
      (λ h.
          let (keys, held, sizes, e) = init_local-FromKeys p h in
          local_keys keys ((eq_iff kind "local").0 a) held sizes e),
      (λ h. accepted_local kind endpoint p ((eq_iff kind "local").0 a) h),
    )
    | inr a ↦ rw (a) elim (Bool-cases (str_eq kind "remote")) [
      | inl b ↦ rw (b) (
        (λ h.
            let (n, e) = (init_remote_ok endpoint p).0 h in
            remote_address ((eq_iff kind "remote").0 b) n e),
        (λ h. accepted_remote kind endpoint p a h),
      )
      | inr b ↦ rw (b) ((λ h. cc), (λ h. absurd (refused_kind kind endpoint p a b h)))
    ]
  ]
