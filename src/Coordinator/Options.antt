-- ===== src/Coordinator/Options.antt =====
-- pkg/coordinator/coordinator.go: the options, and `New`. An option is a function that sets a field; here
-- it is the constructor of its name, and `set` is the function. Durations are nanoseconds, and a logger
-- is a number.
use Prim.Native.String.{String}
use inx_coordinator.Base.{
  ℕ, Bool, false, not, Option, none, some, List, [], ◌∷◌, ◌++◌, Result, ok, err, critical,
  treasury_function_missing, panicked, if◌then◌else◌, StateFile,
}
use inx_coordinator.Migrator.Service.{Service}
use inx_coordinator.Quorum.Config
use inx_coordinator.Quorum.Config.{
  QuorumClientConfig, QuorumClientStatistic, Quorum, quorum_stats_snapshot,
}
use inx_coordinator.Coordinator.Types.{State, World}
use inx_coordinator.Coordinator.Operations.{zero_state}

-- `Options`
pub record Options : Type 0 where
  pub logger : Option ℕ
  pub state_file_path : String
  pub milestone_interval : ℕ
  pub signing_retry_timeout : ℕ
  pub signing_retry_amount : ℕ
  pub quorum : Option Quorum

-- `Option`, by the functions that make one.
pub data Setting : Type 0 where
  with_logger : ℕ → Setting
  with_state_file_path : String → Setting
  with_milestone_interval : ℕ → Setting
  with_signing_retry_timeout : ℕ → Setting
  with_signing_retry_amount : ℕ → Setting
  with_quorum : Bool → List (String × List QuorumClientConfig) → ℕ → Setting

-- What an option sets; `none` is the panic of `newQuorum`.
unfoldable pub set : Setting → Options → Option Options
set (with_logger l) o = some (record o { logger = some l })
set (with_state_file_path p) o = some (record o { state_file_path = p })
set (with_milestone_interval i) o = some (record o { milestone_interval = i })
set (with_signing_retry_timeout t) o = some (record o { signing_retry_timeout = t })
set (with_signing_retry_amount n) o = some (record o { signing_retry_amount = n })
set (with_quorum enabled groups timeout) o = elim (Config.with_quorum enabled groups timeout) [
  | none ↦ none
  | some q ↦ some (record o { quorum = q })
]

abbrev pub and_then : (Options → Option Options) → Option Options → Option Options
and_then f none = none
and_then f (some o) = f o

-- `apply`
unfoldable pub apply : List Setting → Options → Option Options
unfolding set
apply [] o = some o
apply (s ∷ ss) o = and_then (apply ss) (set s o)

-- `defaultOptions`
abbrev pub default_options : List Setting
default_options =
    with_state_file_path "coordinator.state"
    ∷ with_milestone_interval 10000000000
    ∷ with_signing_retry_amount 10
    ∷ with_signing_retry_timeout 2000000000
    ∷ []

-- `&Options{}`
abbrev pub no_options : Options
no_options = record {
  logger = none;
  state_file_path = "";
  milestone_interval = 0;
  signing_retry_timeout = 0;
  signing_retry_amount = 0;
  quorum = none;
}

-- The coordinator that `New` returns: its options, what its operations change, and what its back
-- pressure functions return.
pub record Coordinator (F : Type 0) : Type 0 where
  pub opts : Options
  pub world : World F
  pub backpressure_funcs : List Bool

-- The options of `New`.
unfoldable pub all_options : List Setting → Option Options
unfolding apply
all_options opts = and_then (apply opts) (apply default_options no_options)

-- A migrator, and no treasury function.
abbrev pub lacks_treasury : Option Service → Bool → Bool
lacks_treasury none treasury = false
lacks_treasury (some s) treasury = not treasury

module _ {F : Type 0} where
  -- The new coordinator; the state is a nil pointer until `InitState`.
  abbrev pub new_world : StateFile State → Option Service → World F
  new_world file migrator = record {
    state = zero_state;
    bootstrapped = false;
    file = file;
    migrator = migrator;
    effects = [];
  }

  -- `New`, on what the disk holds; the test says whether there is a treasury function.
  unfoldable pub new :
      StateFile State → Option Service → Bool → List Setting → Result (Coordinator F)
  unfolding all_options
  new file migrator treasury opts = elim (all_options opts) [
    | none ↦ err panicked
    | some o ↦
        if lacks_treasury migrator treasury
        then err (critical treasury_function_missing)
        else ok (record { opts = o; world = new_world file migrator; backpressure_funcs = [] })
  ]

  -- `Interval`
  abbrev pub interval : Coordinator F → ℕ
  interval c = c.opts.milestone_interval

  -- `State`
  abbrev pub state : Coordinator F → State
  state c = c.world.state

  -- `AddBackPressureFunc`
  abbrev pub add_back_pressure_func : Bool → Coordinator F → Coordinator F
  add_back_pressure_func b c = record c { backpressure_funcs = c.backpressure_funcs ++ (b ∷ []) }

  -- `QuorumStats`; `none` is the nil slice.
  unfoldable pub quorum_stats : Coordinator F → Option (List QuorumClientStatistic)
  quorum_stats c = elim c.opts.quorum [
    | none ↦ none
    | some q ↦ some (quorum_stats_snapshot q.groups)
  ]
