-- ===== src/Tests/Lives.antt =====
-- Three processes: the first issues a milestone and then dies as the node computes no roots; the second
-- resumes from the state file and is killed when it has issued the next one; the third resumes.
use inx_coordinator.Base.{
  ℕ, List, ◌++◌, length, take, drop, [], ◌∷◌, err, refl, none, false, critical, wrap, external,
}
use inx_coordinator.Coordinator.Types.{State, World, Env, Effect}
use inx_coordinator.Coordinator.Operations.{issue_milestone, check_node, init_resume, zero_state}
use inx_coordinator.Coordinator.Milestone.{
  prepare_receipt, ask_quorum, send_milestone, create_and_send_milestone, move_state_file, send,
  store_state, persist_migrator,
}
use inx_coordinator.Coordinator.Build.{create_milestone}
use inx_coordinator.Migrator.Service.{
  receipt, update_state, moved_to, create_receipt, persist_state,
}
use inx_coordinator.Coordinator.Chain.{IsLinked, no_call, success}
use inx_coordinator.Coordinator.Kills.{Kills}
use inx_coordinator.Coordinator.Resumes.{Restarts}
use inx_coordinator.Coordinator.Lives.{
  Crashes, Begins, resuming, Lives, last_life, crashed, killed, Lives-IsLinked,
}
use inx_coordinator.Tests.Migration.{plain_io}
use inx_coordinator.Tests.Coordination.{env, world, info, issued_world, issues}

-- The node computes no roots.
abbrev rootless : Env ℕ
rootless = record env { merkle_root = λ i t ps prev. err (external 4) }

abbrev dead_world : World ℕ
dead_world = (issue_milestone rootless (70 ∷ []) issued_world).1

dies : Crashes issued_world dead_world
unfolding issue_milestone create_and_send_milestone check_node
dies = record {
  env = rootless;
  parents = 70 ∷ [];
  error = critical (wrap (external 4));
  stops = refl;
  writes = λ s f. refl;
}

-- A new process, with the file and the history of the one before.
abbrev process : World ℕ
process = record {
  state = zero_state;
  bootstrapped = false;
  file = dead_world.file;
  migrator = none;
  effects = dead_world.effects;
}

abbrev resumed_world : World ℕ
resumed_world = (init_resume (plain_io State) (info 6) process).1

resumes : Restarts dead_world resumed_world
unfolding issue_milestone create_and_send_milestone check_node ask_quorum prepare_receipt receipt
    update_state moved_to create_receipt persist_state create_milestone send_milestone
    move_state_file send store_state persist_migrator init_resume
resumes = record {
  io = plain_io State;
  latest = info 6;
  process = process;
  same_file = refl;
  same_effects = refl;
  resumes = refl;
}

abbrev last_world : World ℕ
last_world = (issue_milestone env (80 ∷ []) resumed_world).1

-- The second process is killed when it has written the state file; a third one resumes.
abbrev last_effects : List (Effect ℕ)
last_effects = drop (length resumed_world.effects) last_world.effects

abbrev killed_world : World ℕ
killed_world = record last_world { effects = resumed_world.effects ++ take 4 last_effects }

kills : Kills env resumed_world killed_world
unfolding issue_milestone create_and_send_milestone check_node ask_quorum prepare_receipt receipt
    update_state moved_to create_receipt persist_state create_milestone send_milestone
    move_state_file send store_state persist_migrator init_resume
kills = record {
  parents = 80 ∷ [];
  id = 99;
  issued = last_world;
  issues = refl;
  done = take 4 last_effects;
  rest = drop 4 last_effects;
  all_effects = refl;
  killed_effects = refl;
  killed_file = refl;
}

abbrev third_world : World ℕ
third_world = (init_resume (plain_io State) (info 7) killed_world).1

resumes_again : Restarts killed_world third_world
unfolding issue_milestone create_and_send_milestone check_node ask_quorum prepare_receipt receipt
    update_state moved_to create_receipt persist_state create_milestone send_milestone
    move_state_file send store_state persist_migrator init_resume
resumes_again = record {
  io = plain_io State;
  latest = info 7;
  process = killed_world;
  same_file = refl;
  same_effects = refl;
  resumes = refl;
}

lived : Lives env.milestone_id world third_world
lived =
    crashed (success env (60 ∷ []) 99 refl issues no_call) dies resumes
      (killed env no_call refl kills resumes_again (last_life no_call))

begins : Begins world
unfolding init_resume
begins =
    resuming (plain_io State) (info 5) (record world { state = zero_state; bootstrapped = false })
      refl

Lives-IsLinked_example : IsLinked env.milestone_id world third_world
Lives-IsLinked_example = Lives-IsLinked env.milestone_id world third_world begins lived
