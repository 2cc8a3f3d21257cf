-- ===== src/Node/Roots.antt =====
-- core/coordinator/whiteflag.go with pkg/coordinator: the roots in the milestones.
use inx_coordinator.Base.{ℕ, ◌^◌, ◌<◌, some, List, Result, ok, ◌≡◌, refl, sym, ap, ◌∙◌, hash_length}
use inx_coordinator.Quorum.Group.{MilestoneMerkleRoots}
use inx_coordinator.Coordinator.Types.{Milestone, Block, World, Env, unix_seconds}
use inx_coordinator.Coordinator.Hoare.{Ends-ok}
use inx_coordinator.Coordinator.Build.{new_milestone}
use inx_coordinator.Coordinator.Operations.{issue_milestone}
use inx_coordinator.Coordinator.Safety.{next_index, issue_milestone-Ends}
use inx_coordinator.Coordinator.Sent.{create_milestone-payload}
use inx_coordinator.Node.WhiteFlag.{
  WhiteFlagRequest, WhiteFlagResponse, compute_merkle_tree_hash, request, roots_of, arrays_of,
  compute_merkle_tree_hash-eq-ok, roots_of-arrays_of,
}

module _ {F : Type 0} (node : WhiteFlagRequest → Result WhiteFlagResponse) (env : Env F) where
  -- The environment in which the roots are computed by `ComputeMerkleTreeHash`.
  abbrev pub with_white_flag : Env F
  with_white_flag = record env { merkle_root = compute_merkle_tree_hash node }

  -- A block with a milestone was sent under the ID. The node has answered the request with this
  -- milestone's index, timestamp, parents and previous milestone, and if its answer is the arrays
  -- of two hashes, the milestone has these as its roots.
  pub record Rooted (parents : List ℕ) (w : World F) (id : ℕ) : Type 0 where
    pub block : Block F
    pub milestone : Milestone F
    pub sends : env.send_block block (some (next_index w)) ≡ ok id
    pub carries : block.payload ≡ some milestone
    pub index_eq : milestone.index ≡ next_index w
    pub parents_eq : milestone.parents ≡ env.remove_dups_and_sort parents
    pub previous_eq : milestone.previous_milestone_id ≡ w.state.latest_milestone_id
    pub response : WhiteFlagResponse
    pub answers :
        node (
          request milestone.index milestone.timestamp milestone.parents
            milestone.previous_milestone_id)
        ≡ ok response
    pub roots_eq :
        (r : MilestoneMerkleRoots)
        → r.inclusion_merkle_root < 256 ^ hash_length
        → r.applied_merkle_root < 256 ^ hash_length
        → response ≡ arrays_of r
        → milestone.roots ≡ r

  -- When `IssueMilestone` with `ComputeMerkleTreeHash` returns an ID, a block with a milestone of
  -- the next index was sent under this ID, for which the node has answered the request with the
  -- milestone's own index, timestamp, parents and previous milestone ID; if the answer is the 32
  -- byte arrays of two hashes, the milestone has these hashes as its roots.
  pub issue_milestone-Rooted :
      (parents : List ℕ) (w v : World F) (id : ℕ)
      → issue_milestone with_white_flag parents w ≡ (ok id, v)
      → Rooted parents w id
  issue_milestone-Rooted parents w v id q =
      let (i, e) = Ends-ok (issue_milestone-Ends with_white_flag parents w) q in
      let (res, answered, same) =
        compute_merkle_tree_hash-eq-ok node (next_index w) (unix_seconds env.now)
          (env.remove_dups_and_sort parents) w.state.latest_milestone_id i.roots i.computes in
      record {
        block = i.block;
        milestone =
            new_milestone with_white_flag (next_index w) (env.remove_dups_and_sort parents) i.opts
              w.state.latest_milestone_id i.roots;
        sends =
            i.sent.sends
            ∙ ap ok (sym (ap (λ s. s.latest_milestone_block_id) i.sent.state_eq) ∙ sym e);
        carries = create_milestone-payload with_white_flag _ i.block i.creates;
        index_eq = refl;
        parents_eq = refl;
        previous_eq = refl;
        response = res;
        answers = answered;
        roots_eq = λ r a b h. same ∙ ap roots_of h ∙ roots_of-arrays_of r a b;
      }
