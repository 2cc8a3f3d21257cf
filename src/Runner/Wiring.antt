-- ===== src/Runner/Wiring.antt =====
-- core/coordinator/component.go: `provide` with `initCoordinator`, and `configure`; params.go has the
-- parameters, pkg/todo the stubs.
use Prim.Native.String.{String}
use inx_coordinator.Base.{
  ℕ, Bool, true, false, Option, none, some, List, [], ◌∷◌, Result, ok, err, wrap, panicked,
  StateFile, JsonIo, ◌>>=◌, ◌>>◌, wrapped, if◌then◌else◌,
}
use inx_coordinator.Migrator.Service.{Service}
use inx_coordinator.Quorum.Config.{QuorumClientConfig}
use inx_coordinator.Coordinator.Types.{State, LatestMilestoneInfo}
use inx_coordinator.Coordinator.Operations.{init_state}
use inx_coordinator.Coordinator.Options.{
  Setting, with_logger, with_state_file_path, with_milestone_interval, with_quorum,
  with_signing_retry_amount, with_signing_retry_timeout, Coordinator, new, add_back_pressure_func,
}
use inx_coordinator.Signing.Keys.{Text}
use inx_coordinator.Signing.Provider.{KeyManager, MilestoneSignerProvider}
use inx_coordinator.Signing.Choice.{Outside, init_signing_provider}

-- The fields of `ParamsCoordinator` that are used, and the two flags.
pub record Parameters : Type 0 where
  pub state_file_path : String
  pub interval : ℕ
  pub signing_provider : String
  pub remote_address : Text
  pub retry_timeout : ℕ
  pub retry_amount : ℕ
  pub quorum_enabled : Bool
  pub quorum_groups : List (String × List QuorumClientConfig)
  pub quorum_timeout : ℕ
  pub bootstrap : Bool
  pub start_index : ℕ

-- A key range of the node's configuration.
pub record KeyRange : Type 0 where
  pub public_key : List ℕ
  pub start_index : ℕ
  pub end_index : ℕ

-- What the node answers, and iota.go's key manager: an empty one, and `AddKeyRange`.
pub record NodeBridge : Type 0 where
  pub milestone_key_ranges : List KeyRange
  pub milestone_public_key_count : ℕ
  pub latest_milestone : Result (Option LatestMilestoneInfo)
  pub new_key_manager : KeyManager
  pub add_key_range : KeyRange → KeyManager → KeyManager

unfoldable pub add_key_ranges : NodeBridge → List KeyRange → KeyManager → KeyManager
add_key_ranges n [] m = m
add_key_ranges n (r ∷ rs) m = add_key_ranges n rs (n.add_key_range r m)

-- `todo.IsNodeTooLoaded` and `todo.AreDatabasesTainted`
abbrev pub is_node_too_loaded : Bool
is_node_too_loaded = false

abbrev pub are_databases_tainted : Result Bool
are_databases_tainted = ok false

-- The options that `initCoordinator` gives to `New`; the logger is the component's.
abbrev pub given_options : ℕ → Parameters → List Setting
given_options logger p =
    with_logger logger
    ∷ with_state_file_path p.state_file_path
    ∷ with_milestone_interval p.interval
    ∷ with_quorum p.quorum_enabled p.quorum_groups p.quorum_timeout
    ∷ with_signing_retry_amount p.retry_amount
    ∷ with_signing_retry_timeout p.retry_timeout
    ∷ []

-- The milestone before the first one.
abbrev pub no_milestone : LatestMilestoneInfo
no_milestone = record { index = 0; timestamp = 0; milestone_id = 0 }

abbrev pub latest_or_none : Option LatestMilestoneInfo → LatestMilestoneInfo
latest_or_none none = no_milestone
latest_or_none (some ms) = ms

-- The key manager of `initCoordinator`.
abbrev pub key_manager : NodeBridge → KeyManager
key_manager n = add_key_ranges n n.milestone_key_ranges n.new_key_manager

module _ {F : Type 0} (io : JsonIo State) (now : ℕ) (p : Parameters) where
  -- `coo.InitState`, on the coordinator's world.
  unfoldable pub init_world : LatestMilestoneInfo → Coordinator F → Result (Coordinator F)
  init_world latest c = elim (init_state io now p.bootstrap p.start_index latest c.world).0 [
    | err e ↦ err e
    | ok _ ↦
        ok (record c { world = (init_state io now p.bootstrap p.start_index latest c.world).1 })
  ]

module _ {F : Type 0} (outside : Outside) (io : JsonIo State) (now logger : ℕ) (p : Parameters)
    (n : NodeBridge) where
  -- `initCoordinator`, with the signing provider beside the coordinator. The treasury function is a
  -- method value and never nil, with no migrator either.
  unfoldable pub init_coordinator :
      StateFile State → Option Service → Result (MilestoneSignerProvider × Coordinator F)
  unfolding add_key_ranges init_world
  init_coordinator file migrator = do
    provider ← wrapped wrap (
        init_signing_provider outside p.signing_provider p.remote_address (key_manager n)
          n.milestone_public_key_count)
    coo ← new file migrator true (given_options logger p)
    ms ← n.latest_milestone
    started ← init_world io now p (latest_or_none ms) coo
    ok (provider, add_back_pressure_func is_node_too_loaded started)

-- `configure`, up to its channels: any error ends in a panic of the logger.
unfoldable pub configure : Result Bool → Result (Unit {0})
configure (err e) = err panicked
configure (ok tainted) = if tainted then err panicked else ok tt

module _ {F : Type 0} (outside : Outside) (io : JsonIo State) (now logger : ℕ) (p : Parameters)
    (n : NodeBridge) where
  -- `provide` and `configure`: an error of `initCoordinator` ends in a panic.
  unfoldable pub start_up :
      StateFile State → Option Service → Result (MilestoneSignerProvider × Coordinator F)
  unfolding init_coordinator configure
  start_up file migrator = do
    started ←
        wrapped (λ e. panicked) (init_coordinator {F = F} outside io now logger p n file migrator)
    configure are_databases_tainted
    ok started
