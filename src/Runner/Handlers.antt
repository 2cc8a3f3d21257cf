-- ===== src/Runner/Handlers.antt =====
-- core/coordinator/component.go: the variables of the worker, and the handlers of the node's events. A
-- handler is one step; both run while the worker waits.
use inx_coordinator.Base.{ℕ, Bool, false, List, [], ◌∷◌, leb, if◌then◌else◌}
use inx_coordinator.Selection.Bits.{Bitset}
use inx_coordinator.Selection.Selector.{Selector, reset, on_new_solid_block}
use inx_coordinator.Coordinator.Types.{World}

-- What the handlers react to: a solid block, with the limit of tracked blocks and `ShouldReattach`, or
-- the confirmation of a milestone.
pub data Happening : Type 0 where
  block_solid : ℕ → Bool → ℕ → List ℕ → Happening
  milestone_confirmed : Happening

-- What happens in the course of a milestone turn, which holds no lock: after the tips were selected,
-- while the checkpoint in front is sent, before the parents are collected, and while the milestone is
-- sent.
pub record Meanwhile : Type 0 where
  pub after_selection : List Happening
  pub in_checkpoint : List Happening
  pub before_parents : List Happening
  pub in_milestone : List Happening

module _ (B : Bitset) (F : Type 0) where
  open B use {Bits}

  -- The coordinator, the selector, and the variables of the package.
  pub record Runner : Type 0 where
    pub world : World F
    pub selector : Selector Bits
    pub last_milestone_block_id : ℕ
    pub last_checkpoint_block_id : ℕ
    pub last_checkpoint_index : ℕ

module _ (B : Bitset) {F : Type 0} where
  open B use {Bits}

  -- `onBlockSolid`; the flag is the block's `ShouldReattach`. The result says whether the checkpoint
  -- signal is given.
  unfoldable pub on_block_solid : ℕ → Bool → ℕ → List ℕ → Runner B F → Bool × Runner B F
  on_block_solid max should_reattach id parents r =
      if should_reattach
      then (false, r)
      else (let (s, n) = on_new_solid_block B r.selector id parents in
          (leb max n, record r { selector = s }))

  -- `onConfirmedMilestoneChanged`
  unfoldable pub on_confirmed_milestone_changed : Runner B F → Runner B F
  on_confirmed_milestone_changed r = record r {
    selector = reset r.selector;
    last_checkpoint_block_id = r.last_milestone_block_id;
    last_checkpoint_index = 0;
  }

  -- A handler that runs while the worker is in a turn.
  unfoldable pub handle_one : Happening → Runner B F → Runner B F
  unfolding on_block_solid on_confirmed_milestone_changed
  handle_one (block_solid max should_reattach id parents) r =
      (on_block_solid max should_reattach id parents r).1
  handle_one milestone_confirmed r = on_confirmed_milestone_changed r

  unfoldable pub handle : List Happening → Runner B F → Runner B F
  unfolding handle_one
  handle [] r = r
  handle (h ∷ hs) r = handle hs (handle_one h r)
