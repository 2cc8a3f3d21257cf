-- ===== src/Coordinator/Defaults.antt =====
-- pkg/coordinator/coordinator.go: which options and which coordinator `New` makes.
use Prim.Native.String.{String}
use inx_coordinator.Base.{
  ℕ, Bool, true, false, Option, none, some, List, [], ◌∷◌, Result, ok, err, panicked, critical,
  treasury_function_missing, ◌≡◌, ◌≢◌, refl, sym, ap, ◌∙◌, subst, inl, inr, Option-cases,
  Bool-cases, All, arith, StateFile, some-injective,
}
use inx_coordinator.Migrator.Service.{Service}
use inx_coordinator.Quorum.Config
use inx_coordinator.Quorum.Config.{Quorum}
use inx_coordinator.Coordinator.Types.{State}
use inx_coordinator.Coordinator.Options.{
  Options, Setting, with_logger, with_state_file_path, with_milestone_interval,
  with_signing_retry_timeout, with_signing_retry_amount, with_quorum, set, apply, Coordinator,
  all_options, new_world, lacks_treasury, new,
}

-- The last option of a kind, and the value it sets.
module _ {A : Type 0} (kind : Setting → Option A) where
  abbrev pub last_of : List Setting → Option A
  last_of [] = none
  last_of (s ∷ ss) = elim (last_of ss) [ some a ↦ some a | none ↦ kind s ]

abbrev pub or_else : {A : Type 0} → Option A → A → A
or_else none d = d
or_else (some a) d = a

abbrev pub path_of : Setting → Option String
path_of (with_state_file_path p) = some p
path_of _ = none

abbrev pub interval_of : Setting → Option ℕ
interval_of (with_milestone_interval i) = some i
interval_of _ = none

abbrev pub timeout_of : Setting → Option ℕ
timeout_of (with_signing_retry_timeout t) = some t
timeout_of _ = none

abbrev pub amount_of : Setting → Option ℕ
amount_of (with_signing_retry_amount n) = some n
amount_of _ = none

abbrev pub quorum_of : Setting → Option (Option Quorum)
quorum_of (with_quorum enabled groups timeout) = Config.with_quorum enabled groups timeout
quorum_of _ = none

-- The option does not panic.
abbrev pub IsSound : Setting → Type 0
IsSound (with_quorum enabled groups timeout) = Config.with_quorum enabled groups timeout ≢ none
IsSound _ = Unit

module _ {A : Type 0} (field : Options → A) (kind : Setting → Option A) where
  -- An option sets the field by its kind, and keeps it otherwise.
  abbrev Sets : Type 0
  Sets = (s : Setting) (o p : Options) → set s o ≡ some p → field p ≡ or_else (kind s) (field o)

  or_else_last :
      (x y : Option A) (d : A)
      → or_else x (or_else y d) ≡ or_else (elim x [ some a ↦ some a | none ↦ y ]) d
  or_else_last none y d = refl
  or_else_last (some a) y d = refl

  apply_last :
      Sets
      → (ss : List Setting) (o p : Options) → apply ss o ≡ some p
      → field p ≡ or_else (last_of kind ss) (field o)
  unfolding apply
  apply_last sets [] o p h = ap field (sym (some-injective _ _ h))
  apply_last sets (s ∷ ss) o p h = elim (Option-cases (set s o)) [
    | inl e ↦ let f : ◌≡◌ {A = Option Options} none (some p) = (rw (e) at h) in cc
    | inr (q, e) ↦
        let rest : apply ss q ≡ some p = (rw (e) at h) in
        apply_last sets ss q p rest
        ∙ ap (or_else (last_of kind ss)) (sets s o q e)
        ∙ or_else_last (last_of kind ss) (kind s) (field o)
  ]

set_path : Sets (λ o. o.state_file_path) path_of
unfolding set
set_path s o p h = ground arith

set_interval : Sets (λ o. o.milestone_interval) interval_of
unfolding set
set_interval s o p h = ground arith

set_timeout : Sets (λ o. o.signing_retry_timeout) timeout_of
unfolding set
set_timeout s o p h = ground arith

set_amount : Sets (λ o. o.signing_retry_amount) amount_of
unfolding set
set_amount s o p h = ground arith

set_quorum : Sets (λ o. o.quorum) quorum_of
unfolding set
set_quorum s o p h = ground arith

set_sound : (s : Setting) (o : Options) → IsSound s → (p : Options) × (set s o ≡ some p)
unfolding set
set_sound (with_quorum enabled groups timeout) o h =
    elim (Option-cases (Config.with_quorum enabled groups timeout)) [
      | inl e ↦ absurd (h e)
      | inr (q, e) ↦ (record o { quorum = q }, simp (e, set) refl)
    ]
set_sound (with_logger l) o h = (_, refl)
set_sound (with_state_file_path p) o h = (_, refl)
set_sound (with_milestone_interval i) o h = (_, refl)
set_sound (with_signing_retry_timeout t) o h = (_, refl)
set_sound (with_signing_retry_amount n) o h = (_, refl)

apply_sound :
    (ss : List Setting) (o : Options) → All IsSound ss → (p : Options) × (apply ss o ≡ some p)
unfolding apply
apply_sound [] o h = (o, refl)
apply_sound (s ∷ ss) o h =
    let (q, e) = set_sound s o h.0 in let (p, g) = apply_sound ss q h.1 in (p, rw (e) g)

-- The options that are in force: each is that of the last option of its kind, or the default.
pub record InForce (opts : List Setting) (o : Options) : Type 0 where
  pub path_eq : o.state_file_path ≡ or_else (last_of path_of opts) "coordinator.state"
  pub interval_eq : o.milestone_interval ≡ or_else (last_of interval_of opts) 10000000000
  pub timeout_eq : o.signing_retry_timeout ≡ or_else (last_of timeout_of opts) 2000000000
  pub amount_eq : o.signing_retry_amount ≡ or_else (last_of amount_of opts) 10
  pub quorum_eq : o.quorum ≡ or_else (last_of quorum_of opts) none

abbrev defaults : Options
defaults = record {
  logger = none;
  state_file_path = "coordinator.state";
  milestone_interval = 10000000000;
  signing_retry_timeout = 2000000000;
  signing_retry_amount = 10;
  quorum = none;
}

all_options_eq : (opts : List Setting) → all_options opts ≡ apply opts defaults
unfolding all_options
all_options_eq opts = refl

all_options-InForce :
    (opts : List Setting) (o : Options) → all_options opts ≡ some o → InForce opts o
all_options-InForce opts o h =
    let e : apply opts defaults ≡ some o = sym (all_options_eq opts) ∙ h in
    record {
      path_eq = apply_last (λ o. o.state_file_path) path_of set_path opts defaults o e;
      interval_eq =
          apply_last (λ o. o.milestone_interval) interval_of set_interval opts defaults o e;
      timeout_eq =
          apply_last (λ o. o.signing_retry_timeout) timeout_of set_timeout opts defaults o e;
      amount_eq = apply_last (λ o. o.signing_retry_amount) amount_of set_amount opts defaults o e;
      quorum_eq = apply_last (λ o. o.quorum) quorum_of set_quorum opts defaults o e;
    }

module _ {F : Type 0} (file : StateFile State) (migrator : Option Service) (treasury : Bool) where
  abbrev create : List Setting → Result (Coordinator F)
  create opts = new file migrator treasury opts

  abbrev made : Options → Coordinator F
  made o = record { opts = o; world = new_world file migrator; backpressure_funcs = [] }

  -- The new coordinator has the options in force, and is as it was given.
  pub record Creates (opts : List Setting) (c : Coordinator F) : Type 0 where
    pub in_force : InForce opts c.opts
    pub world_eq : c.world ≡ new_world file migrator
    pub no_backpressure : c.backpressure_funcs ≡ []
    pub served : lacks_treasury migrator treasury ≡ false

  new_panics : (opts : List Setting) → all_options opts ≡ none → create opts ≡ err panicked
  unfolding new
  new_panics opts e = simp (e, new) refl

  new_refuses :
      (opts : List Setting) (o : Options)
      → all_options opts ≡ some o
      → lacks_treasury migrator treasury ≡ true
      → create opts ≡ err (critical treasury_function_missing)
  unfolding new
  new_refuses opts o e t = simp (e, t, new) refl

  new_ok :
      (opts : List Setting) (o : Options)
      → all_options opts ≡ some o
      → lacks_treasury migrator treasury ≡ false
      → create opts ≡ ok (made o)
  unfolding new
  new_ok opts o e t = simp (e, t, new) refl

  made-Creates : (opts : List Setting) (c : Coordinator F) → create opts ≡ ok c → Creates opts c
  made-Creates opts c h = elim (Option-cases (all_options opts)) [
    | inl e ↦ cc (new_panics opts e)
    | inr (o, e) ↦ elim (Bool-cases (lacks_treasury migrator treasury)) [
      | inl t ↦ cc (new_refuses opts o e t)
      | inr t ↦
          let same : made o ≡ c = cc (new_ok opts o e t) in
          subst (Creates opts) same (record {
            in_force = all_options-InForce opts o e;
            world_eq = refl;
            no_backpressure = refl;
            served = t;
          })
    ]
  ]

  made_sound :
      (opts : List Setting)
      → All IsSound opts
      → lacks_treasury migrator treasury ≡ false
      → (c : Coordinator F) × (create opts ≡ ok c)
  made_sound opts h t =
      let (o, e) = apply_sound opts defaults h in
      (made o, new_ok opts o (all_options_eq opts ∙ e) t)

  -- `New` succeeds if no quorum option panics and a migrator comes with a treasury function. A
  -- coordinator that it returns has for each option but the logger the value of the last one given,
  -- or the default; it has no back pressure functions, and a migrator only with a treasury
  -- function.
  pub new-Creates :
      (opts : List Setting)
      → (All IsSound opts
          → lacks_treasury migrator treasury ≡ false
          → (c : Coordinator F) × (create opts ≡ ok c))
        × ((c : Coordinator F) → create opts ≡ ok c → Creates opts c)
  new-Creates opts = (made_sound opts, made-Creates opts)
