-- ===== src/Signing/Provider.antt =====
-- pkg/coordinator/signing_provider.go: which keys sign the milestone of an index. iota.go's key manager
-- and signing functions are parameters with their documented laws; public keys and the bytes that are
-- signed are their numbers. The order of a Go map's iteration is that of the list.
use inx_coordinator.Base.{
  ℕ, ◌≤◌, List, [], ◌∷◌, Result, ok, All, Among, length, ◌≡◌, true, Bool, map,
}
use inx_coordinator.Signing.Keys.{Text, PrivateKey}

-- `iotago.MilestoneSignature`
pub record Signature : Type 0 where
  pub public_key : ℕ
  pub signature : ℕ

-- `iotago.MilestoneSigningFunc`, from the number of the attempt, the keys and the essence.
abbrev pub SigningFunc : Type 0
SigningFunc = ℕ → List ℕ → ℕ → Result (List Signature)

abbrev pub Distinct : List ℕ → Type 0
Distinct [] = Unit
Distinct (k ∷ ks) = (¬ Among k ks) × Distinct ks

-- A `MilestonePublicKeyMapping`.
abbrev pub Mapping : Type 0
Mapping = List (ℕ × PrivateKey)

abbrev pub key_of : ℕ × PrivateKey → ℕ
key_of p = p.0

-- iota.go's `keymanager.KeyManager` and its Ed25519 keys. A mapping holds given private keys, each
-- under its public key, which is valid at the index, and no more than are asked for.
pub record KeyManager : Type 0 where
  pub public_keys_set : ℕ → List ℕ
  pub public_keys : ℕ → List ℕ
  pub public_key_mapping : ℕ → List PrivateKey → ℕ → Mapping
  pub public_of : PrivateKey → ℕ
  pub mapping_valid :
      (i : ℕ) (ks : List PrivateKey) (n : ℕ)
      → All (λ p. Among (key_of p) (public_keys_set i)) (public_key_mapping i ks n)
  pub mapping_owned :
      (i : ℕ) (ks : List PrivateKey) (n : ℕ)
      → All (λ p. public_of p.1 ≡ p.0) (public_key_mapping i ks n)
  pub mapping_distinct :
      (i : ℕ) (ks : List PrivateKey) (n : ℕ) → Distinct (map key_of (public_key_mapping i ks n))
  pub mapping_bounded :
      (i : ℕ) (ks : List PrivateKey) (n : ℕ) → 1 ≤ n → length (public_key_mapping i ks n) ≤ n

-- iota.go's `InMemoryEd25519MilestoneSigner` and `InsecureRemoteEd25519MilestoneSigner`. The first
-- signs with the private key of each public key that is asked for, once for each.
pub record Signers (manager : KeyManager) : Type 0 where
  pub in_memory : Mapping → List ℕ → ℕ → Result (List Signature)
  pub remote : Text → SigningFunc
  pub is_signed : ℕ → Signature → Bool
  pub in_memory_total :
      (m : Mapping) (keys : List ℕ) (x : ℕ)
      → All (λ k. Among k (map key_of m)) keys
      → (s : List Signature) × (in_memory m keys x ≡ ok s)
  pub in_memory_keys :
      (m : Mapping) (keys : List ℕ) (x : ℕ) (s : List Signature)
      → in_memory m keys x ≡ ok s
      → map (λ t. t.public_key) s ≡ keys
  pub in_memory_signed :
      (m : Mapping) (keys : List ℕ) (x : ℕ) (s : List Signature)
      → All (λ p. manager.public_of p.1 ≡ p.0) m
      → in_memory m keys x ≡ ok s
      → All (λ t. is_signed x t ≡ true) s

-- `MilestoneIndexSigner`
pub record MilestoneIndexSigner : Type 0 where
  pub public_keys : List ℕ
  pub public_keys_set : List ℕ
  pub signing_func : SigningFunc

-- `InMemoryEd25519MilestoneSignerProvider`
pub record InMemoryProvider : Type 0 where
  pub private_keys : List PrivateKey
  pub key_manager : KeyManager
  pub public_keys_count : ℕ

-- `InsecureRemoteEd25519MilestoneSignerProvider`
pub record RemoteProvider : Type 0 where
  pub signing_func : SigningFunc
  pub key_manager : KeyManager
  pub public_keys_count : ℕ

-- `MilestoneSignerProvider`, with its two implementations.
pub data MilestoneSignerProvider : Type 0 where
  local : InMemoryProvider → MilestoneSignerProvider
  remote : RemoteProvider → MilestoneSignerProvider

-- `NewInMemoryEd25519MilestoneSignerProvider`
abbrev pub new_in_memory : List PrivateKey → KeyManager → ℕ → InMemoryProvider
new_in_memory keys manager count = record {
  private_keys = keys;
  key_manager = manager;
  public_keys_count = count;
}

-- `NewInsecureRemoteEd25519MilestoneSignerProvider`, from iota.go's signer for the endpoint.
abbrev pub new_remote : (Text → SigningFunc) → Text → KeyManager → ℕ → RemoteProvider
new_remote signer endpoint manager count = record {
  signing_func = signer endpoint;
  key_manager = manager;
  public_keys_count = count;
}

-- `MilestoneIndexSigner` of the in-memory provider: the keys are those of the mapping.
unfoldable pub in_memory_index_signer :
    (Mapping → List ℕ → ℕ → Result (List Signature)) → InMemoryProvider → ℕ → MilestoneIndexSigner
in_memory_index_signer signer p index =
    let pairs = p.key_manager.public_key_mapping index p.private_keys p.public_keys_count in
    record {
      public_keys = map key_of pairs;
      public_keys_set = p.key_manager.public_keys_set index;
      signing_func = λ attempt. signer pairs;
    }

-- `MilestoneIndexSigner` of the remote provider.
unfoldable pub remote_index_signer : RemoteProvider → ℕ → MilestoneIndexSigner
remote_index_signer p index = record {
  public_keys = p.key_manager.public_keys index;
  public_keys_set = p.key_manager.public_keys_set index;
  signing_func = p.signing_func;
}

-- `MilestoneIndexSigner` and `PublicKeysCount` of the interface.
unfoldable pub milestone_index_signer :
    (Mapping → List ℕ → ℕ → Result (List Signature))
    → MilestoneSignerProvider
    → ℕ
    → MilestoneIndexSigner
unfolding in_memory_index_signer remote_index_signer
milestone_index_signer signer (local p) index = in_memory_index_signer signer p index
milestone_index_signer signer (remote p) index = remote_index_signer p index

abbrev pub public_keys_count : MilestoneSignerProvider → ℕ
public_keys_count (local p) = p.public_keys_count
public_keys_count (remote p) = p.public_keys_count
