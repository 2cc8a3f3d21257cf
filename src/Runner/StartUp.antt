-- ===== src/Runner/StartUp.antt =====
-- core/coordinator/component.go: what holds when the component has been provided and configured.
use inx_coordinator.Base.{
  ℕ, true, false, not, Option, Option-cases, none, some, List, [], ◌∷◌, ◌++◌, Error, wrap, panicked,
  Result, ok, err, StateFile, JsonIo, exists, ◌≡◌, refl, sym, ap, ◌∙◌, subst, inl, inr,
  Result-cases, wrapped, >>=-eq-ok, wrapped-eq-ok, ◌>>=◌,
}
use inx_coordinator.Migrator.Service.{Service}
use inx_coordinator.Quorum.Config
use inx_coordinator.Quorum.Config.{Quorum}
use inx_coordinator.Coordinator.Types.{State, LatestMilestoneInfo, World}
use inx_coordinator.Coordinator.Operations.{init_state}
use inx_coordinator.Coordinator.Start.{StateFor, init_state-agrees}
use inx_coordinator.Coordinator.Options.{Options, Coordinator, new, add_back_pressure_func}
use inx_coordinator.Coordinator.Defaults.{
  InForce, or_else, last_of, quorum_of, Creates, new-Creates,
}
use inx_coordinator.Signing.Provider.{KeyManager, MilestoneSignerProvider}
use inx_coordinator.Signing.Choice.{
  Outside, init_signing_provider, Accepts, init_signing_provider-Accepts,
}
use inx_coordinator.Runner.Wiring.{
  Parameters, NodeBridge, KeyRange, add_key_ranges, key_manager, given_options, latest_or_none,
  is_node_too_loaded, init_world, init_coordinator, start_up,
}

abbrev provided : Outside → Parameters → NodeBridge → Result MilestoneSignerProvider
provided outside p n =
    init_signing_provider outside p.signing_provider p.remote_address (key_manager n)
      n.milestone_public_key_count

-- The options are those of the parameters; the quorum is what its groups make, or none.
pub record HasParameters (p : Parameters) (o : Options) : Type 0 where
  pub path_eq : o.state_file_path ≡ p.state_file_path
  pub interval_eq : o.milestone_interval ≡ p.interval
  pub timeout_eq : o.signing_retry_timeout ≡ p.retry_timeout
  pub amount_eq : o.signing_retry_amount ≡ p.retry_amount
  pub quorum_eq :
      o.quorum ≡ or_else (Config.with_quorum p.quorum_enabled p.quorum_groups p.quorum_timeout) none

given_quorum :
    (logger : ℕ) (p : Parameters)
    → or_else (last_of quorum_of (given_options logger p)) none
      ≡ or_else (Config.with_quorum p.quorum_enabled p.quorum_groups p.quorum_timeout) none
given_quorum logger p =
    elim (Option-cases (Config.with_quorum p.quorum_enabled p.quorum_groups p.quorum_timeout)) [
      | inl e ↦ cc
      | inr (q, e) ↦ cc
    ]

InForce-HasParameters :
    (logger : ℕ) (p : Parameters) (o : Options)
    → InForce (given_options logger p) o
    → HasParameters p o
InForce-HasParameters logger p o f = record {
  path_eq = f.path_eq;
  interval_eq = f.interval_eq;
  timeout_eq = f.timeout_eq;
  amount_eq = f.amount_eq;
  quorum_eq = f.quorum_eq ∙ given_quorum logger p;
}

-- The node's latest milestone, or one with the index and the ID 0 if it has none.
pub data IsLatest (n : NodeBridge) (latest : LatestMilestoneInfo) : Type 0 where
  has_latest : n.latest_milestone ≡ ok (some latest) → IsLatest n latest
  has_none :
      n.latest_milestone ≡ ok none → latest.index ≡ 0 → latest.milestone_id ≡ 0 → IsLatest n latest

latest_or_none-IsLatest :
    (n : NodeBridge) (ms : Option LatestMilestoneInfo)
    → n.latest_milestone ≡ ok ms
    → IsLatest n (latest_or_none ms)
latest_or_none-IsLatest n none e = has_none e refl refl
latest_or_none-IsLatest n (some m) e = has_latest e

-- The key manager has been given the key ranges in their order.
pub data Adds (n : NodeBridge) : List KeyRange → KeyManager → KeyManager → Type 0 where
  no_range : {m : KeyManager} → Adds n [] m m
  one_range :
      {r : KeyRange} {rs : List KeyRange} {m k : KeyManager}
      → Adds n rs (n.add_key_range r m) k
      → Adds n (r ∷ rs) m k

add_key_ranges-Adds :
    (n : NodeBridge) (rs : List KeyRange) (m : KeyManager) → Adds n rs m (add_key_ranges n rs m)
unfolding add_key_ranges
add_key_ranges-Adds n [] m = no_range
add_key_ranges-Adds n (r ∷ rs) m = one_range (add_key_ranges-Adds n rs (n.add_key_range r m))

module _ {F : Type 0} (outside : Outside) (io : JsonIo State) (now logger : ℕ) (p : Parameters)
    (n : NodeBridge) (file : StateFile State) (migrator : Option Service) where
  -- The signing provider is the configured one, the options are those of the parameters, and the
  -- state is the initial one for the node's latest milestone, with index 0 if there is none.
  pub record IsStarted (provider : MilestoneSignerProvider) (c : Coordinator F) : Type 0 where
    pub latest : LatestMilestoneInfo
    pub known : IsLatest n latest
    pub keys : KeyManager
    pub keys_added : Adds n n.milestone_key_ranges n.new_key_manager keys
    pub signs :
        Accepts outside p.signing_provider p.remote_address keys n.milestone_public_key_count
          provider
    pub parameters : HasParameters p c.opts
    pub index_eq : c.world.state.latest_milestone_index ≡ latest.index
    pub initial :
        (w : World F) × (w.file ≡ file)
        × StateFor io now p.bootstrap p.start_index latest w c.world.state
    pub flag_eq : c.world.bootstrapped ≡ not p.bootstrap
    pub file_there : exists file ≡ not p.bootstrap
    pub file_eq : c.world.file ≡ file
    pub migrator_eq : c.world.migrator ≡ migrator
    pub backpressure_eq : c.backpressure_funcs ≡ false ∷ []

  abbrev initialised : Result (MilestoneSignerProvider × Coordinator F)
  initialised = init_coordinator outside io now logger p n file migrator

  abbrev initialised_world : LatestMilestoneInfo → Coordinator F → Result (Unit {0}) × World F
  initialised_world latest c = init_state io now p.bootstrap p.start_index latest c.world

  init_world_err :
      (latest : LatestMilestoneInfo) (c : Coordinator F) (e : Error)
      → (initialised_world latest c).0 ≡ err e
      → init_world io now p latest c ≡ err e
  unfolding init_world
  init_world_err latest c e q =
      ap
        (λ (r : Result (Unit {0})). elim r as (λ _. Result (Coordinator F)) [
          | err e ↦ err e
          | ok _ ↦ ok (record c { world = (initialised_world latest c).1 })
        ])
        q

  init_world_ok :
      (latest : LatestMilestoneInfo) (c : Coordinator F)
      → (initialised_world latest c).0 ≡ ok tt
      → init_world io now p latest c ≡ ok (record c { world = (initialised_world latest c).1 })
  unfolding init_world
  init_world_ok latest c q =
      ap
        (λ (r : Result (Unit {0})). elim r as (λ _. Result (Coordinator F)) [
          | err e ↦ err e
          | ok _ ↦ ok (record c { world = (initialised_world latest c).1 })
        ])
        q

  init_world-eq-ok :
      (latest : LatestMilestoneInfo) (c d : Coordinator F)
      → init_world io now p latest c ≡ ok d
      → (initialised_world latest c ≡ (ok tt, d.world))
        × (d.opts ≡ c.opts)
        × (d.backpressure_funcs ≡ c.backpressure_funcs)
  init_world-eq-ok latest c d h = elim (Result-cases (initialised_world latest c).0) [
    | inr (e, q) ↦ cc (init_world_err latest c e q)
    | inl (u, q) ↦
        let same : record c { world = (initialised_world latest c).1 } ≡ d =
          cc (init_world_ok latest c q) in
        (
          (λ i. (q i, (same i).world)),
          ap (λ y. y.opts) (sym same),
          ap (λ y. y.backpressure_funcs) (sym same),
        )
  ]

  -- `initCoordinator` behind `InitState`, behind `LatestMilestone`, and behind `New`.
  abbrev finished :
      MilestoneSignerProvider → Coordinator F → Result (MilestoneSignerProvider × Coordinator F)
  finished q c = ok (q, add_back_pressure_func is_node_too_loaded c)

  abbrev from_latest :
      MilestoneSignerProvider
      → Coordinator F
      → Option LatestMilestoneInfo
      → Result (MilestoneSignerProvider × Coordinator F)
  from_latest q c ms = init_world io now p (latest_or_none ms) c >>= finished q

  abbrev from_new :
      MilestoneSignerProvider → Coordinator F → Result (MilestoneSignerProvider × Coordinator F)
  from_new q c = n.latest_milestone >>= from_latest q c

  abbrev created : Result (Coordinator F)
  created = new file migrator true (given_options logger p)

  abbrev from_provider : MilestoneSignerProvider → Result (MilestoneSignerProvider × Coordinator F)
  from_provider q = created >>= from_new q

  initialised_eq : initialised ≡ (wrapped wrap (provided outside p n) >>= from_provider)
  unfolding init_coordinator
  initialised_eq = refl

  same_start :
      (q provider : MilestoneSignerProvider) (ms : Option LatestMilestoneInfo)
      (coo d c : Coordinator F)
      → provided outside p n ≡ ok q
      → Creates file migrator true (given_options logger p) coo
      → n.latest_milestone ≡ ok ms
      → init_world io now p (latest_or_none ms) coo ≡ ok d
      → finished q d ≡ ok (provider, c)
      → IsStarted provider c
  same_start q provider ms coo d c signing made asked begun h =
      let same : ◌≡◌ {A = MilestoneSignerProvider × Coordinator F}
          (q, add_back_pressure_func is_node_too_loaded d) (provider, c) =
        cc in
      let (runs, opts_eq, funcs_eq) = init_world-eq-ok (latest_or_none ms) coo d begun in
      let (index, state, flag, there, kept, mig) =
        init_state-agrees io now p.bootstrap p.start_index (latest_or_none ms) coo.world d.world
          runs in
      subst (λ y. IsStarted y.0 y.1) same
        (record {
          latest = latest_or_none ms;
          known = latest_or_none-IsLatest n ms asked;
          keys = key_manager n;
          keys_added = add_key_ranges-Adds n n.milestone_key_ranges n.new_key_manager;
          signs =
              (init_signing_provider-Accepts outside (key_manager n) n.milestone_public_key_count
                  p.signing_provider p.remote_address q).0
                signing;
          parameters =
              subst (HasParameters p) (sym opts_eq)
                (InForce-HasParameters logger p coo.opts made.in_force);
          index_eq = index;
          initial = (coo.world, ap (λ w. w.file) made.world_eq, state);
          flag_eq = flag;
          file_there = ap (λ w. exists w.file) (sym made.world_eq) ∙ there;
          file_eq = kept ∙ ap (λ w. w.file) made.world_eq;
          migrator_eq = mig ∙ ap (λ w. w.migrator) made.world_eq;
          backpressure_eq =
              ap (λ l. l ++ (is_node_too_loaded ∷ [])) (funcs_eq ∙ made.no_backpressure);
        })

  init_coordinator-IsStarted :
      (provider : MilestoneSignerProvider) (c : Coordinator F)
      → initialised ≡ ok (provider, c)
      → IsStarted provider c
  init_coordinator-IsStarted provider c h =
      let (q, signing, h1) =
        >>=-eq-ok (wrapped wrap (provided outside p n)) from_provider (provider, c)
          (sym initialised_eq ∙ h) in
      let (coo, made, h2) = >>=-eq-ok created (from_new q) (provider, c) h1 in
      let (ms, asked, h3) = >>=-eq-ok n.latest_milestone (from_latest q coo) (provider, c) h2 in
      let (d, begun, h4) =
        >>=-eq-ok (init_world io now p (latest_or_none ms) coo) (finished q) (provider, c) h3 in
      same_start q provider ms coo d c (wrapped-eq-ok wrap (provided outside p n) q signing)
        ((new-Creates file migrator true (given_options logger p)).1 coo made) asked begun h4

  -- When the component has started, the signing provider is the configured one, with a key manager
  -- that was given the node's key ranges in their order, the options are those of the parameters, the
  -- index of the coordinator's latest milestone is the node's, or 0 if it has none, its state is
  -- otherwise the one of the state file, or at a bootstrap has the node's milestone ID, or the ID 0 if
  -- the first milestone has the index 1, its flag fits the mode, there is a state file exactly if the
  -- run is no bootstrap, and the file and the migrator are as they were; the only back pressure
  -- function never signals load.
  pub start_up-IsStarted :
      (provider : MilestoneSignerProvider) (c : Coordinator F)
      → start_up outside io now logger p n file migrator ≡ ok (provider, c)
      → IsStarted provider c
  unfolding start_up
  start_up-IsStarted provider c h =
      let (s, w, h1) = >>=-eq-ok (wrapped (λ e. panicked) initialised) _ (provider, c) h in
      init_coordinator-IsStarted provider c (wrapped-eq-ok (λ e. panicked) initialised s w ∙ h1)
