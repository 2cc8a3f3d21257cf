-- ===== src/Quorum/Group.antt =====
-- pkg/coordinator/quorum.go: one group of the quorum, `checkMerkleTreeHashQuorumGroup`.
use inx_coordinator.Base.{
  ℕ, zero, suc, Bool, ◌||◌, not, none, some, List, [], ◌∷◌, ◌==◌, if◌then◌else◌, Error, Result, ok,
  err, critical, soft, quorum_merkle_tree_hash_mismatch, quorum_group_no_answer,
}
use inx_coordinator.Quorum.Config.{QuorumClientStatistic}

-- `MilestoneMerkleRoots`; a root is a 32 byte array, here its number.
pub record MilestoneMerkleRoots : Type 0 where
  pub inclusion_merkle_root : ℕ
  pub applied_merkle_root : ℕ

-- What the `select` of the group's loop receives.
pub data Event : Type 0 where
  -- `quorumDoneChan` is closed
  aborted : Event
  -- an error of a node
  failed : Event
  -- the answer of a node
  answered : MilestoneMerkleRoots → Event
  -- the context's timeout
  timed_out : Event

-- Where the goroutine of a group stands.
pub data Phase : Type 0 where
  -- in the loop, with the rounds left and `validResults`
  waiting : ℕ → ℕ → Phase
  -- it sends an error on the unbuffered `quorumErrChan`
  sending : Error → Phase
  -- it has returned, and `wg.Done` was called
  returned : Phase

-- The goroutine that asks one node: it sets the statistics, and its result is an event.
unfoldable pub ask_node :
    Result MilestoneMerkleRoots → ℕ → QuorumClientStatistic → QuorumClientStatistic × Event
ask_node (ok roots) elapsed s = (record s { response_time = elapsed; error = none }, answered roots)
ask_node (err e) elapsed s = (record s { response_time = elapsed; error = some e }, failed)

abbrev pub differs : MilestoneMerkleRoots → MilestoneMerkleRoots → Bool
differs a b =
    not (a.applied_merkle_root == b.applied_merkle_root)
    || not (a.inclusion_merkle_root == b.inclusion_merkle_root)

-- Behind the loop.
unfoldable pub end_of_loop : ℕ → Phase
end_of_loop valid = if valid == 0 then sending (soft quorum_group_no_answer) else returned

-- The head of the loop, with the rounds left.
unfoldable pub next_round : ℕ → ℕ → Phase
unfolding end_of_loop
next_round zero valid = end_of_loop valid
next_round (suc rounds) valid = waiting (suc rounds) valid

-- One round of the loop.
unfoldable pub receive : MilestoneMerkleRoots → ℕ → ℕ → Event → Phase
unfolding next_round
receive coo rounds valid aborted = returned
receive coo rounds valid failed = next_round rounds valid
receive coo rounds valid (answered roots) =
    if differs coo roots
    then sending (critical quorum_merkle_tree_hash_mismatch)
    else next_round rounds (suc valid)
receive coo rounds valid timed_out = end_of_loop valid

-- The phase after the events that the loop has received, for a group with some nodes.
unfoldable pub group_loop : MilestoneMerkleRoots → Phase → List Event → Phase
unfolding receive
group_loop coo p [] = p
group_loop coo (waiting (suc rounds) valid) (e ∷ es) =
    group_loop coo (receive coo rounds valid e) es
group_loop coo (waiting zero valid) (e ∷ es) = waiting zero valid
group_loop coo (sending x) (e ∷ es) = sending x
group_loop coo returned (e ∷ es) = returned
