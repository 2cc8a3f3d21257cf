-- ===== src/Tests/Node.antt =====
-- What the coordinator asks of its node: blocks that arrive or are lost, a stream of two treasury
-- updates, and the roots of a milestone.
use inx_coordinator.Base.{
  ℕ, ◌≡◌, ◌≢◌, refl, true, false, none, some, List, [], ◌∷◌, ◌++◌, Result, ok, err, external,
  bytes_of, hash_length,
}
use inx_coordinator.Coordinator.Types.{ReceiptOpt, Block, World, Env}
use inx_coordinator.Coordinator.Operations.{issue_milestone, check_node}
use inx_coordinator.Coordinator.Safety.{next_index}
use inx_coordinator.Coordinator.Milestone.{
  prepare_receipt, ask_quorum, send_milestone, create_and_send_milestone, move_state_file, send,
  store_state, persist_migrator,
}
use inx_coordinator.Coordinator.Build.{create_milestone}
use inx_coordinator.Migrator.Service.{
  receipt, update_state, moved_to, create_receipt, persist_state,
}
use inx_coordinator.Node.Send.{
  milestone_confirmed, block_solid, register, deregister, arrived, Answers, send_block,
}
use inx_coordinator.Node.Closes.{Settles, send_block-Settles}
use inx_coordinator.Node.Confirms.{with_node, Confirmed, issue_milestone-Confirmed}
use inx_coordinator.Node.Treasury.{
  TreasuryUpdate, failed, update, latest_treasury_output, listen_to_treasury_updates,
}
use inx_coordinator.Node.Updates.{with_listener, SpendsUpdate, delivered, prepare_receipt-latest}
use inx_coordinator.Node.WhiteFlag.{WhiteFlagRequest, WhiteFlagResponse, compute_merkle_tree_hash}
use inx_coordinator.Node.Roots.{with_white_flag, Rooted, issue_milestone-Rooted}
use inx_coordinator.Tests.Coordination.{env, world}

-- The node confirms no milestone.
abbrev lossy : {B : Type 0} → Answers B
lossy = record {
  submit_block = λ b. ok 99;
  wait_for = λ r. elim r [ milestone_confirmed i ↦ some (external 6) | block_solid i ↦ none ];
}

send_block-Settles_example :
    Settles {B = ℕ} lossy 3 (some 6) (send_block {B = ℕ} lossy 3 (some 6) [])
send_block-Settles_example = send_block-Settles lossy 3 (some 6)

-- The registration for the block is removed, though its event has arrived.
loses : send_block {B = ℕ} lossy 3 (some 6) [] ≡ (
  err (external 6),
  register (milestone_confirmed 6)
      ∷ register (block_solid 99)
      ∷ arrived (block_solid 99)
      ∷ deregister (block_solid 99)
      ∷ deregister (milestone_confirmed 6)
      ∷ [],
)
unfolding send_block
loses = refl

abbrev steady : Answers (Block ℕ)
steady = record { submit_block = λ b. ok 99; wait_for = λ r. none }

abbrev sent_world : World ℕ
sent_world = (issue_milestone (with_node steady env) (60 ∷ []) world).1

sends : issue_milestone (with_node steady env) (60 ∷ []) world ≡ (ok 99, sent_world)
unfolding issue_milestone create_and_send_milestone check_node ask_quorum prepare_receipt receipt
    update_state moved_to create_receipt persist_state create_milestone send_milestone
    move_state_file send store_state persist_migrator send_block
sends = refl

issue_milestone-Confirmed_example :
    Confirmed steady env (next_index world) 99 × (sent_world.state.latest_milestone_block_id ≡ 99)
issue_milestone-Confirmed_example =
    issue_milestone-Confirmed steady env (60 ∷ []) world sent_world 99 sends

-- A stream with two updates that then ends.
abbrev change : ℕ → ℕ → TreasuryUpdate
change i amount = record {
  milestone_index = i;
  created = record { milestone_id = i; amount = amount };
}

prepare_receipt-latest_example :
    ((us : List TreasuryUpdate) (u : TreasuryUpdate) (w v : World ℕ) (o : ReceiptOpt ℕ)
      → prepare_receipt
          (with_listener env (delivered (us ++ (u ∷ [])) ++ (failed (external 1) ∷ [])))
          w
        ≡ (ok (some o), v)
      → SpendsUpdate env u o)
    × ((w v : World ℕ) (o : ReceiptOpt ℕ)
        → prepare_receipt (with_listener env (failed (external 1) ∷ [])) w ≢ (ok (some o), v))
prepare_receipt-latest_example = prepare_receipt-latest env (failed (external 1) ∷ []) tt

abbrev after_two : Env ℕ
after_two =
    with_listener env
      (update (change 3 50) false ∷ update (change 4 70) false ∷ failed (external 1) ∷ [])

-- The second output is spent.
spends_second :
    (prepare_receipt after_two world).0
    ≡ ok (
        some (record {
          migrated_at = 4;
          final = true;
          funds = 10 ∷ 20 ∷ [];
          transaction = record { input = 4; output_amount = 68 };
        }))
unfolding prepare_receipt receipt update_state moved_to create_receipt persist_state
    persist_migrator latest_treasury_output listen_to_treasury_updates
spends_second = refl

-- A node that answers every request with the roots 1 and 2.
abbrev answers : WhiteFlagRequest → Result WhiteFlagResponse
answers q = ok (record {
  milestone_inclusion_merkle_root = bytes_of hash_length 1;
  milestone_applied_merkle_root = bytes_of hash_length 2;
})

abbrev rooted_world : World ℕ
rooted_world = (issue_milestone (with_white_flag answers env) (60 ∷ []) world).1

issues : issue_milestone (with_white_flag answers env) (60 ∷ []) world ≡ (ok 99, rooted_world)
unfolding issue_milestone create_and_send_milestone check_node ask_quorum prepare_receipt receipt
    update_state moved_to create_receipt persist_state create_milestone send_milestone
    move_state_file send store_state persist_migrator compute_merkle_tree_hash
issues = refl

issue_milestone-Rooted_example : Rooted answers env (60 ∷ []) world 99
issue_milestone-Rooted_example =
    issue_milestone-Rooted answers env (60 ∷ []) world rooted_world 99 issues
