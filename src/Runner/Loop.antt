-- ===== src/Runner/Loop.antt =====
-- core/coordinator/component.go: the worker of `run`, one turn for each signal, and the handlers of
-- the node's events, which run between the turns and in the course of a milestone turn. A checkpoint
-- turn holds the lock that keeps confirmations out. A turn that skips a signal by `continue` goes on with
-- what it had; logs are left out.
use inx_coordinator.Base.{
  ℕ, suc, ◌/◌, Bool, List, [], ◌∷◌, ◌++◌, length, take, drop, Error, Result, ok, err, panicked, ltb,
  ◌==◌, if◌then◌else◌, ◌≡◌,
}
use inx_coordinator.Selection.Bits.{Bitset}
use inx_coordinator.Selection.Selector.{Selector, tracked_blocks_count}
use inx_coordinator.Runner.Handlers.{Happening, Meanwhile, Runner, handle_one, handle}
use inx_coordinator.Selection.Picking.{Choices, select_tips}
use inx_coordinator.Coordinator.Types.{World, Env}
use inx_coordinator.Coordinator.Operations.{bootstrap, issue_milestone, issue_checkpoint}

-- `MilestoneMaxAdditionalTipsLimit`
abbrev pub milestone_max_additional_tips_limit : ℕ
milestone_max_additional_tips_limit = 6

-- What `handleError` does with an error: it shuts the node down, warns, or panics.
pub data Handled : Type 0 where
  shutdown warned unknown : Handled

-- `handleError`, with hornet's `IsCriticalError` and `IsSoftError`; a panic is no error and passes by.
unfoldable pub handle_error : (Error → Bool) → (Error → Bool) → Error → Handled
handle_error is_critical_error is_soft_error panicked = unknown
handle_error is_critical_error is_soft_error e =
    if is_critical_error e then shutdown else if is_soft_error e then warned else unknown

-- How a turn of the loop ends.
pub data Turn (R : Type 0) : Type 0 where
  goes_on : R → Turn R
  shuts_down : R → Turn R
  panics : R → Turn R

module _ (B : Bitset) {F : Type 0} where
  open B use {Bits}

  abbrev pub handled :
      (Error → Bool)
      → (Error → Bool)
      → Error
      → (Runner B F → Runner B F)
      → Runner B F
      → Turn (Runner B F)
  handled is_critical_error is_soft_error e warn r =
      elim (handle_error is_critical_error is_soft_error e) [
        | shutdown ↦ shuts_down r
        | warned ↦ goes_on (warn r)
        | unknown ↦ panics r
      ]

  -- A milestone block is the last one; the checkpoints start from it.
  abbrev pub from_milestone : ℕ → Runner B F → Runner B F
  from_milestone id r = record r {
    last_milestone_block_id = id;
    last_checkpoint_block_id = id;
    last_checkpoint_index = 0;
  }

  -- The start of the worker; with an error that is only warned of, the block ID is the empty one.
  unfoldable pub after_bootstrap :
      (Error → Bool) → (Error → Bool) → Result ℕ × World F → Runner B F → Turn (Runner B F)
  after_bootstrap is_critical_error is_soft_error (ok id, w) r =
      goes_on (from_milestone id (record r { world = w }))
  after_bootstrap is_critical_error is_soft_error (err e, w) r =
      handled is_critical_error is_soft_error e (from_milestone 0) (record r { world = w })

  unfoldable pub begin : (Error → Bool) → (Error → Bool) → Env F → Runner B F → Turn (Runner B F)
  begin is_critical_error is_soft_error env r =
      after_bootstrap is_critical_error is_soft_error (bootstrap env r.world) r

  -- The end of a checkpoint turn: errors are only logged.
  unfoldable pub after_checkpoint : Result ℕ × World F → Runner B F → Runner B F
  after_checkpoint (ok id, w) r = record r {
    world = w;
    last_checkpoint_block_id = id;
    last_checkpoint_index = suc r.last_checkpoint_index;
  }
  after_checkpoint (err e, w) r = record r { world = w }

  unfoldable pub checkpoint_tips : Env F → Result (List ℕ) × Selector Bits → Runner B F → Runner B F
  checkpoint_tips env (ok tips, s) r =
      after_checkpoint
        (issue_checkpoint env r.last_checkpoint_index r.last_checkpoint_block_id tips r.world)
        (record r { selector = s })
  checkpoint_tips env (err e, s) r = record r { selector = s }

  -- The turn for `nextCheckpointSignal`; `max` is `Checkpoints.MaxTrackedBlocks`, and the handlers
  -- still run between the test and the lock.
  unfoldable pub checkpoint_signal :
      ℕ → Choices Bits → List Happening → Env F → Runner B F → Runner B F
  unfolding handle
  checkpoint_signal max c hs env r =
      if ltb (tracked_blocks_count r.selector) max
      then r
      else (let t = handle B hs r in checkpoint_tips env (select_tips B c 0 t.selector) t)

  -- The checkpoint in front of a milestone: its index is not counted.
  unfoldable pub after_front : Result ℕ × World F → Runner B F → Runner B F
  after_front (ok id, w) r = record r { world = w; last_checkpoint_block_id = id }
  after_front (err e, w) r = record r { world = w }

  -- The checkpoint is sent without the lock of the checkpoint turn, so both handlers run meanwhile.
  unfoldable pub front_checkpoint : Meanwhile → Env F → List ℕ → Runner B F → Runner B F
  unfolding handle
  front_checkpoint m env tips r =
      if ltb milestone_max_additional_tips_limit (length tips)
      then after_front
          (issue_checkpoint env r.last_checkpoint_index r.last_checkpoint_block_id
            (drop milestone_max_additional_tips_limit tips) r.world)
          (handle B m.in_checkpoint r)
      else r

  -- The tips for the milestone, and the runner when its parents are collected.
  unfoldable pub milestone_tips :
      Meanwhile → Env F → Result (List ℕ) × Selector Bits → Runner B F → List ℕ × Runner B F
  milestone_tips m env (ok tips, s) r = (
    take milestone_max_additional_tips_limit tips,
    handle B m.before_parents
        (front_checkpoint m env tips (handle B m.after_selection (record r { selector = s }))),
  )
  milestone_tips m env (err e, s) r = ([], handle B m.before_parents (record r { selector = s }))

  abbrev pub milestone_parents : List ℕ → Runner B F → List ℕ
  milestone_parents tips r = tips ++ (r.last_milestone_block_id ∷ r.last_checkpoint_block_id ∷ [])

  -- After a non-critical error the checkpoints start from the last milestone again.
  unfoldable pub after_milestone :
      (Error → Bool) → (Error → Bool) → Result ℕ × World F → Runner B F → Turn (Runner B F)
  after_milestone is_critical_error is_soft_error (ok id, w) r =
      goes_on (from_milestone id (record r { world = w }))
  after_milestone is_critical_error is_soft_error (err e, w) r =
      handled is_critical_error is_soft_error e (λ x. from_milestone x.last_milestone_block_id x)
        (record r { world = w })

  -- The turn for `nextMilestoneSignal`. `now` is the clock at its start, `front` the environment of
  -- the checkpoint and `env` that of the milestone, whose confirmation is handled while it is
  -- awaited.
  unfoldable pub milestone_signal :
      (Error → Bool)
      → (Error → Bool)
      → ℕ
      → Choices Bits
      → Meanwhile
      → Env F
      → Env F
      → Runner B F
      → Turn (Runner B F)
  milestone_signal is_critical_error is_soft_error now c m front env r =
      if r.world.state.latest_milestone_time / 1000000000 == now / 1000000000
      then goes_on r
      else (let (tips, t) = milestone_tips m front (select_tips B c 1 r.selector) r in
          after_milestone is_critical_error is_soft_error
            (issue_milestone env (milestone_parents tips t) t.world) (handle B m.in_milestone t))

  -- The worker goes on, with any inputs.
  pub data Step (is_critical_error is_soft_error : Error → Bool) (x y : Runner B F) : Type 0 where
    checkpoint :
        (max : ℕ) (c : Choices Bits) (hs : List Happening) (env : Env F)
        → y ≡ checkpoint_signal max c hs env x
        → Step is_critical_error is_soft_error x y
    milestone :
        (now : ℕ) (c : Choices Bits) (m : Meanwhile) (front env : Env F)
        → milestone_signal is_critical_error is_soft_error now c m front env x ≡ goes_on y
        → Step is_critical_error is_soft_error x y
    handler : (h : Happening) → y ≡ handle_one B h x → Step is_critical_error is_soft_error x y

  -- The runs of the worker from its start.
  pub data Reached (is_critical_error is_soft_error : Error → Bool) (env : Env F) (x : Runner B F)
      : Runner B F → Type 0 where
    begun :
        {y : Runner B F}
        → begin is_critical_error is_soft_error env x ≡ goes_on y
        → Reached is_critical_error is_soft_error env x y
    next :
        {y z : Runner B F}
        → Reached is_critical_error is_soft_error env x y
        → Step is_critical_error is_soft_error y z
        → Reached is_critical_error is_soft_error env x z
