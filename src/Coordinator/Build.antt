-- ===== src/Coordinator/Build.antt =====
-- pkg/coordinator/milestones.go: the blocks of milestones and checkpoints. The signer's keys belong to
-- iotago's `sign` and `verify_signatures`.
use inx_coordinator.Base.{ℕ, Option, none, some, List, Result, ok, ◌>>◌}
use inx_coordinator.Quorum.Group.{MilestoneMerkleRoots}
use inx_coordinator.Coordinator.Types.{ReceiptOpt, Milestone, Block, Env, unix_seconds}

module _ {F : Type 0} (env : Env F) where
  -- `NewMilestone` and the receipt, from the arguments of `createMilestone`.
  abbrev pub new_milestone :
      ℕ → List ℕ → Option (ReceiptOpt F) → ℕ → MilestoneMerkleRoots → Milestone F
  new_milestone index parents opts previous roots = record {
    index = index;
    timestamp = unix_seconds env.now;
    protocol_version = env.protocol_version;
    previous_milestone_id = previous;
    parents = parents;
    roots = roots;
    opts = opts;
  }

  abbrev pub block_of : List ℕ → Option (Milestone F) → Block F
  block_of parents payload = record {
    version = env.protocol_version;
    parents = parents;
    payload = payload;
  }

  -- `createMilestone`, from the payload on.
  unfoldable pub create_milestone : Milestone F → Result (Block F)
  create_milestone m = do
    env.build (block_of m.parents (some m))
    env.sign m
    env.verify_signatures m
    env.serialize (block_of m.parents (some m))
    ok (block_of m.parents (some m))

  -- `createCheckpoint`
  unfoldable pub create_checkpoint : List ℕ → Result (Block F)
  create_checkpoint parents = do
    env.build (block_of parents none)
    env.serialize (block_of parents none)
    ok (block_of parents none)
