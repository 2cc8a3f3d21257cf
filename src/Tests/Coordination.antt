-- ===== src/Tests/Coordination.antt =====
-- The coordinator: a milestone with a receipt, a quorum that refuses, a send that fails, a bootstrap,
-- and a checkpoint with eight tips.
use inx_coordinator.Base.{
  ℕ, ◌+◌, ◌≡◌, ◌≢◌, ◌↔◌, refl, ◌⊎◌, true, false, not, none, some, List, [], ◌∷◌, ◌++◌, length, All,
  arith, ok, err, external, soft, critical, quorum_group_no_answer, exists, wrap, no_tips_given,
  state_file_not_found, previous_milestone_mismatch,
}
use inx_coordinator.Migrator.Service.{
  MigrationResult, Service, receipt, update_state, moved_to, create_receipt, persist_state,
}
use inx_coordinator.Migrator.Service
use inx_coordinator.Quorum.Group.{MilestoneMerkleRoots}
use inx_coordinator.Coordinator.Types.{ReceiptOpt, State, LatestMilestoneInfo, World, Effect, Env}
use inx_coordinator.Coordinator.Hoare.{Ends}
use inx_coordinator.Coordinator.Build.{create_milestone, create_checkpoint}
use inx_coordinator.Coordinator.Milestone.{
  ask_quorum, persist_migrator, prepare_receipt, move_state_file, send, store_state, send_milestone,
  create_and_send_milestone,
}
use inx_coordinator.Coordinator.Operations.{
  init_bootstrap, init_resume, init_state, start_of, bootstrap, check_node, issue_milestone,
  issue_one, issue_rounds, issue_checkpoint, checkpoints_number,
}
use inx_coordinator.Coordinator.Stages.{IsFatal, IsFatal-soft}
use inx_coordinator.Coordinator.Safety.{next_index, Unchanged, issue_milestone-nonfatal}
use inx_coordinator.Coordinator.Restart.{
  WriteFailed, issue_milestone-restart, issue_milestone-resumes,
}
use inx_coordinator.Coordinator.Start.{
  init_bootstrap-accepts, StateFor, init_state-agrees, Bootstraps, FailsFirst, bootstrap-Ends,
}
use inx_coordinator.Coordinator.Emits.{IsSoft, Emits, HasFewParents, AddsBlocks}
use inx_coordinator.Coordinator.Checkpoints.{Chain, issue_checkpoint-Ends, issue_checkpoint-parents}
use inx_coordinator.Coordinator.Signing.{IsFirst, sign_with_retries, sign_with_retries-IsFirst}
use inx_coordinator.Base.{◌==◌, if◌then◌else◌, Result}
use inx_coordinator.Coordinator.Chain.{
  Calls, no_call, first_milestone, success, failure, checkpoint,
}
use inx_coordinator.Coordinator.Treasury.{Spends, prepare_receipt-Spends}
use inx_coordinator.Tests.Migration.{plain_io}

abbrev pub roots : MilestoneMerkleRoots
roots = record { inclusion_merkle_root = 1; applied_merkle_root = 2 }

-- The node is synchronised, the quorum agrees, and a result for a receipt is waiting.
abbrev pub env : Env ℕ
env = record {
  merkle_root = λ i t ps prev. ok roots;
  quorum = some (λ r i t ps prev. none);
  is_node_synced = true;
  backpressure = false ∷ [];
  now = 7000000000;
  received = some (record { stop_index = 4; last_batch = true; migrated_funds = 10 ∷ 20 ∷ [] });
  migrator_io = plain_io Service.State;
  migrator_rename_fault = λ b. none;
  treasury_output = ok (record { milestone_id = 3; amount = 100 });
  protocol_version = 2;
  build = λ b. ok tt;
  sign = λ m. ok tt;
  verify_signatures = λ m. ok tt;
  serialize = λ b. ok tt;
  milestone_id = λ m. ok 77;
  remove_dups_and_sort = λ ps. ps;
  receipt_sum = λ fs. length fs;
  sort_funds = λ fs. fs;
  rename_fault = none;
  send_block = λ b i. ok 99;
  state_io = plain_io State;
}

abbrev pub state_five : State
state_five = record {
  latest_milestone_index = 5;
  latest_milestone_block_id = 50;
  latest_milestone_id = 55;
  latest_milestone_time = 6000000000;
}

abbrev pub world : World ℕ
world = record {
  state = state_five;
  bootstrapped = true;
  file = record { current = some state_five; backup = none };
  migrator = some (record {
    state = record {
      latest_migrated_at_index = 2;
      latest_included_index = 0;
      sending_receipt = false;
    };
    file = record { current = none; backup = none };
  });
  effects = [];
}

abbrev refusing : Env ℕ
refusing = record env { quorum = some (λ r i t ps prev. some (soft quorum_group_no_answer)) }

abbrev mute : Env ℕ
mute = record env { send_block = λ b i. err (external 8) }

abbrev pub info : ℕ → LatestMilestoneInfo
info i = record { index = i; timestamp = 6; milestone_id = 55 }

soft_is_no_stop : ¬ IsFatal (soft quorum_group_no_answer)
soft_is_no_stop f = IsFatal-soft quorum_group_no_answer f refl

abbrev refused_world : World ℕ
refused_world = (issue_milestone refusing (60 ∷ []) world).1

refuses :
    issue_milestone refusing (60 ∷ []) world ≡ (err (soft quorum_group_no_answer), refused_world)
unfolding issue_milestone create_and_send_milestone check_node ask_quorum
refuses = refl

issue_milestone-nonfatal_example :
    (refused_world.migrator ≡ world.migrator) × Unchanged world refused_world
issue_milestone-nonfatal_example =
    issue_milestone-nonfatal refusing (60 ∷ []) world refused_world (soft quorum_group_no_answer)
      refuses soft_is_no_stop

abbrev torn_world : World ℕ
torn_world = (issue_milestone mute (60 ∷ []) world).1

tears : issue_milestone mute (60 ∷ []) world ≡ (err (critical (wrap (external 8))), torn_world)
unfolding issue_milestone create_and_send_milestone check_node ask_quorum prepare_receipt receipt
    update_state moved_to create_receipt persist_state create_milestone send_milestone
    move_state_file send
tears = refl

issue_milestone-restart_example :
    Unchanged world torn_world
    ⊎ (init_resume mute.state_io (info 5) torn_world ≡ (err state_file_not_found, torn_world))
    ⊎ WriteFailed mute world torn_world
issue_milestone-restart_example =
    issue_milestone-restart mute (60 ∷ []) world torn_world torn_world
      (critical (wrap (external 8))) (info 5) tears refl

abbrev pub issued_world : World ℕ
issued_world = (issue_milestone env (60 ∷ []) world).1

pub issues : issue_milestone env (60 ∷ []) world ≡ (ok 99, issued_world)
unfolding issue_milestone create_and_send_milestone check_node ask_quorum prepare_receipt receipt
    update_state moved_to create_receipt persist_state create_milestone send_milestone
    move_state_file send store_state persist_migrator
issues = refl

issue_milestone-resumes_example :
    (((info 6).index ≡ next_index world)
      → init_resume env.state_io (info 6) issued_world
        ≡ (ok tt, record issued_world { state = issued_world.state; bootstrapped = true }))
    × (((info 6).index ≢ next_index world)
        → (init_resume env.state_io (info 6) issued_world).0 ≡ err previous_milestone_mismatch)
issue_milestone-resumes_example =
    issue_milestone-resumes env (60 ∷ []) world issued_world issued_world 99 (info 6) issues refl

abbrev empty_world : World ℕ
empty_world = record world { file = record { current = none; backup = none }; bootstrapped = false }

init_bootstrap-accepts_example : ((init_bootstrap 7 6 (info 5) empty_world).0 ≡ ok tt) ↔ (
    (exists empty_world.file ≡ false)
    × ((info 5).index + 1 ≡ start_of 6)
    × ((start_of 6 ≡ 1) ⊎ ((info 5).milestone_id ≢ 0)))
init_bootstrap-accepts_example = init_bootstrap-accepts 7 6 (info 5) empty_world

abbrev initial_world : World ℕ
initial_world = (init_state (plain_io State) 7 true 6 (info 5) empty_world).1

initialises : init_state (plain_io State) 7 true 6 (info 5) empty_world ≡ (ok tt, initial_world)
unfolding init_state init_bootstrap
initialises = refl

init_state-agrees_example :
    (initial_world.state.latest_milestone_index ≡ (info 5).index)
    × StateFor (plain_io State) 7 true 6 (info 5) empty_world initial_world.state
    × (initial_world.bootstrapped ≡ not true)
    × (exists empty_world.file ≡ not true)
    × (initial_world.file ≡ empty_world.file)
    × (initial_world.migrator ≡ empty_world.migrator)
init_state-agrees_example =
    init_state-agrees (plain_io State) 7 true 6 (info 5) empty_world initial_world initialises

bootstrap-Ends_example :
    Ends (bootstrap env empty_world) (Bootstraps env empty_world) (FailsFirst env empty_world)
bootstrap-Ends_example = bootstrap-Ends env empty_world

abbrev pub eight_tips : List ℕ
eight_tips = 1 ∷ 2 ∷ 3 ∷ 4 ∷ 5 ∷ 6 ∷ 7 ∷ 8 ∷ []

issue_checkpoint-Ends_example :
    Ends
      (issue_checkpoint env 0 50 eight_tips world)
      (λ id v.
        (es : List (Effect ℕ)) × Chain env 0
          (checkpoints_number (length eight_tips))
          0
          (checkpoints_number (length eight_tips))
          50
          eight_tips
          es
          id
        × Emits world v es)
      (λ e v. (IsSoft e ⊎ (e ≡ no_tips_given)) × AddsBlocks world v)
issue_checkpoint-Ends_example = issue_checkpoint-Ends env 0 50 eight_tips world

abbrev checkpointed : World ℕ
checkpointed = (issue_checkpoint env 0 50 eight_tips world).1

checkpoints : issue_checkpoint env 0 50 eight_tips world ≡ (ok 99, checkpointed)
unfolding issue_checkpoint check_node issue_rounds issue_one create_checkpoint send
checkpoints = refl

issue_checkpoint-parents_example :
    (es : List (Effect ℕ)) × (checkpointed.effects ≡ world.effects ++ es) × All HasFewParents es
issue_checkpoint-parents_example =
    issue_checkpoint-parents env (λ ts. omega arith) 0 50 99 eight_tips world checkpointed
      checkpoints

-- Two attempts fail, and the third succeeds.
abbrev third_signs : ℕ → Result ℕ
third_signs k = if k == 2 then ok 7 else err (external k)

sign_with_retries-IsFirst_example :
    IsFirst third_signs 0
      (if 3 == 0 then 1 else 3)
      (sign_with_retries third_signs 3).0
      (sign_with_retries third_signs 3).1
sign_with_retries-IsFirst_example = sign_with_retries-IsFirst third_signs 3

abbrev last_world : World ℕ
last_world =
    (issue_checkpoint env 0 50 eight_tips (issue_milestone env (60 ∷ []) refused_world).1).1

-- The coordinator is bootstrapped already; then the quorum refuses a milestone, and a milestone and
-- two checkpoints follow.
called : Calls env.milestone_id world last_world
unfolding issue_milestone create_and_send_milestone check_node ask_quorum prepare_receipt receipt
    update_state moved_to create_receipt persist_state create_milestone send_milestone
    move_state_file send store_state persist_migrator bootstrap
called = first_milestone env 50 refl refl (
    failure refusing (60 ∷ []) (soft quorum_group_no_answer) refuses soft_is_no_stop
      (success env (60 ∷ []) 99 refl refl (checkpoint env 0 50 eight_tips no_call)))

abbrev prepared_world : World ℕ
prepared_world = (prepare_receipt env world).1

abbrev prepared_receipt : ReceiptOpt ℕ
prepared_receipt = record {
  migrated_at = 4;
  final = true;
  funds = 10 ∷ 20 ∷ [];
  transaction = record { input = 3; output_amount = 98 };
}

prepares : prepare_receipt env world ≡ (ok (some prepared_receipt), prepared_world)
unfolding prepare_receipt receipt update_state moved_to create_receipt persist_state
prepares = refl

prepare_receipt-Spends_example : Spends env prepared_receipt prepared_world
prepare_receipt-Spends_example =
    prepare_receipt-Spends env world prepared_world prepared_receipt prepares
