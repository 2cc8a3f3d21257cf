-- ===== src/Node/WhiteFlag.antt =====
-- core/coordinator/whiteflag.go: `ComputeMerkleTreeHash`.
use inx_coordinator.Base.{
  ℕ, ◌^◌, ◌<◌, List, Result, ok, ◌>>=◌, ◌≡◌, sym, copied, >>=-eq-ok, number, bytes_of, hash_length,
  number-copied,
}
use inx_coordinator.Quorum.Group.{MilestoneMerkleRoots}

-- `inx.WhiteFlagRequest`
pub record WhiteFlagRequest : Type 0 where
  pub milestone_index : ℕ
  pub milestone_timestamp : ℕ
  pub parents : List ℕ
  pub previous_milestone_id : ℕ

-- `inx.WhiteFlagResponse`
pub record WhiteFlagResponse : Type 0 where
  pub milestone_inclusion_merkle_root : List ℕ
  pub milestone_applied_merkle_root : List ℕ

-- `ComputeMerkleTreeHash`, with the call `ComputeWhiteFlag` of the node.
unfoldable pub compute_merkle_tree_hash :
    (WhiteFlagRequest → Result WhiteFlagResponse) → ℕ → ℕ → List ℕ → ℕ → Result MilestoneMerkleRoots
unfolding copied number
compute_merkle_tree_hash node index timestamp parents previous = do
  res ← node (record {
    milestone_index = index;
    milestone_timestamp = timestamp;
    parents = parents;
    previous_milestone_id = previous;
  })
  ok (record {
    inclusion_merkle_root = number (copied hash_length res.milestone_inclusion_merkle_root);
    applied_merkle_root = number (copied hash_length res.milestone_applied_merkle_root);
  })

-- What the node is asked for.
abbrev pub request : ℕ → ℕ → List ℕ → ℕ → WhiteFlagRequest
request index timestamp parents previous = record {
  milestone_index = index;
  milestone_timestamp = timestamp;
  parents = parents;
  previous_milestone_id = previous;
}

-- The roots of a response.
abbrev pub roots_of : WhiteFlagResponse → MilestoneMerkleRoots
roots_of res = record {
  inclusion_merkle_root = number (copied hash_length res.milestone_inclusion_merkle_root);
  applied_merkle_root = number (copied hash_length res.milestone_applied_merkle_root);
}

-- The arrays of two hashes.
abbrev pub arrays_of : MilestoneMerkleRoots → WhiteFlagResponse
arrays_of r = record {
  milestone_inclusion_merkle_root = bytes_of hash_length r.inclusion_merkle_root;
  milestone_applied_merkle_root = bytes_of hash_length r.applied_merkle_root;
}

pub compute_merkle_tree_hash-eq-ok :
    (node : WhiteFlagRequest → Result WhiteFlagResponse) (index timestamp : ℕ) (parents : List ℕ)
    (previous : ℕ) (r : MilestoneMerkleRoots)
    → compute_merkle_tree_hash node index timestamp parents previous ≡ ok r
    → (res : WhiteFlagResponse) × (node (request index timestamp parents previous) ≡ ok res)
      × (r ≡ roots_of res)
unfolding compute_merkle_tree_hash
compute_merkle_tree_hash-eq-ok node index timestamp parents previous r h =
    let (res, answered, made) =
      >>=-eq-ok (node (request index timestamp parents previous)) (λ res. ok (roots_of res)) r h in
    let same : roots_of res ≡ r = cc in (res, answered, sym same)

-- The arrays of two hashes give these hashes.
pub roots_of-arrays_of :
    (r : MilestoneMerkleRoots)
    → r.inclusion_merkle_root < 256 ^ hash_length
    → r.applied_merkle_root < 256 ^ hash_length
    → roots_of (arrays_of r) ≡ r
roots_of-arrays_of r a b = λ i. record {
  inclusion_merkle_root = number-copied hash_length r.inclusion_merkle_root a i;
  applied_merkle_root = number-copied hash_length r.applied_merkle_root b i;
}
