-- ===== src/Runner/Signals.antt =====
-- core/coordinator/component.go: the two channels that wake the worker. `nextMilestoneSignal` holds one
-- signal; `nextCheckpointSignal` holds none, so that a signal gets through only to a worker that waits at
-- its `select`. A turn's own steps are those of the worker's loop.
use inx_coordinator.Base.{
  ℕ, ◌+◌, ◌≤◌, Bool, true, false, List, [], ◌∷◌, ◌++◌, ◌≡◌, ◌≢◌, refl, arith, if◌then◌else◌, Option,
  none, some,
}

-- The worker is in `Bootstrap` or a turn, waits at its `select`, or has left its loop.
pub data Worker : Type 0 where
  working waiting gone : Worker

-- The signal in the buffer of `nextMilestoneSignal`, and the worker.
pub record Signals : Type 0 where
  pub milestone_pending : Bool
  pub worker : Worker

-- The turn that an event starts.
pub data Started : Type 0 where
  checkpoint_turn milestone_turn : Started

-- What happens to the channels: the ticker ticks, `onBlockSolid` finds the limit reached, the worker
-- comes to its `select`, or its context is done.
pub data Event : Type 0 where
  ticks over_limit selects is_done : Event

-- The ticker's function: a send that does not block.
unfoldable pub signal_milestone : Signals → Option Started × Signals
signal_milestone s = elim s.worker [
  | waiting ↦ (some milestone_turn, record s { worker = working })
  | working ↦
      if s.milestone_pending then (none, s) else (none, record s { milestone_pending = true })
  | gone ↦ if s.milestone_pending then (none, s) else (none, record s { milestone_pending = true })
]

-- The end of `onBlockSolid`: a send that does not block.
unfoldable pub signal_checkpoint : Signals → Option Started × Signals
signal_checkpoint s = elim s.worker [
  | waiting ↦ (some checkpoint_turn, record s { worker = working })
  | working ↦ (none, s)
  | gone ↦ (none, s)
]

-- The worker's `select` while its context is not done.
unfoldable pub select_signal : Signals → Option Started × Signals
select_signal s = elim s.worker [
  | working ↦
      if s.milestone_pending
      then (some milestone_turn, record s { milestone_pending = false })
      else (none, record s { worker = waiting })
  | waiting ↦ (none, s)
  | gone ↦ (none, s)
]

unfoldable pub react : Event → Signals → Option Started × Signals
unfolding signal_milestone signal_checkpoint select_signal
react ticks s = signal_milestone s
react over_limit s = signal_checkpoint s
react selects s = select_signal s
react is_done s = (none, record s { worker = gone })

-- The turn in front of the others, if there is one.
abbrev started_before : Option Started → List Started → List Started
started_before none ts = ts
started_before (some t) ts = t ∷ ts

-- The turns that a run of events starts, and the channels after it.
unfoldable pub turns : List Event → Signals → List Started
unfolding react
turns [] s = []
turns (e ∷ es) s = started_before (react e s).0 (turns es (react e s).1)

unfoldable pub signals_after : List Event → Signals → Signals
unfolding react
signals_after [] s = s
signals_after (e ∷ es) s = signals_after es (react e s).1

abbrev pub IsOpen : List Event → Type 0
IsOpen [] = Unit
IsOpen (ticks ∷ es) = IsOpen es
IsOpen (over_limit ∷ es) = IsOpen es
IsOpen (selects ∷ es) = IsOpen es
IsOpen (is_done ∷ es) = ⊥

abbrev pub ticks_of : List Event → ℕ
ticks_of [] = 0
ticks_of (ticks ∷ es) = 1 + ticks_of es
ticks_of (over_limit ∷ es) = ticks_of es
ticks_of (selects ∷ es) = ticks_of es
ticks_of (is_done ∷ es) = ticks_of es

abbrev pub milestone_turns : List Started → ℕ
milestone_turns [] = 0
milestone_turns (checkpoint_turn ∷ ts) = milestone_turns ts
milestone_turns (milestone_turn ∷ ts) = 1 + milestone_turns ts

abbrev pub waiting_signals : Signals → ℕ
waiting_signals s = if s.milestone_pending then 1 else 0

-- The first turn is one for a milestone.
abbrev pub StartsMilestone : List Started → Type 0
StartsMilestone ts = (rest : List Started) × (ts ≡ milestone_turn ∷ rest)

pending-StartsMilestone :
    (es : List Event)
    → IsOpen es
    → StartsMilestone
        (turns (es ++ (selects ∷ [])) (record { milestone_pending = true; worker = working }))
unfolding turns react signal_milestone signal_checkpoint select_signal
pending-StartsMilestone [] h = (_, refl)
pending-StartsMilestone (ticks ∷ es) h = pending-StartsMilestone es h
pending-StartsMilestone (over_limit ∷ es) h = pending-StartsMilestone es h
pending-StartsMilestone (selects ∷ es) h = (_, refl)
pending-StartsMilestone (is_done ∷ es) h = absurd h

tick_is_answered :
    (p : Bool) (w : Worker) (es : List Event)
    → IsOpen es
    → (w ≢ gone)
    → StartsMilestone
        (turns (ticks ∷ (es ++ (selects ∷ []))) (record { milestone_pending = p; worker = w }))
unfolding turns react signal_milestone
tick_is_answered p waiting es h n = (_, refl)
tick_is_answered true working es h n = pending-StartsMilestone es h
tick_is_answered false working es h n = pending-StartsMilestone es h
tick_is_answered p gone es h n = absurd (n refl)

react_balance :
    (e : Event) (p : Bool) (w : Worker)
    → let r = react e (record { milestone_pending = p; worker = w }) in
      milestone_turns (started_before r.0 []) + waiting_signals r.1
      ≤ ticks_of (e ∷ []) + waiting_signals (record { milestone_pending = p; worker = w })
unfolding react signal_milestone signal_checkpoint select_signal
react_balance ticks true waiting = omega arith
react_balance ticks false waiting = omega arith
react_balance ticks true working = omega arith
react_balance ticks false working = omega arith
react_balance ticks true gone = omega arith
react_balance ticks false gone = omega arith
react_balance over_limit p waiting = omega arith
react_balance over_limit p working = omega arith
react_balance over_limit p gone = omega arith
react_balance selects true working = omega arith
react_balance selects false working = omega arith
react_balance selects p waiting = omega arith
react_balance selects p gone = omega arith
react_balance is_done p w = omega arith

before-milestone_turns :
    (t : Option Started) (ts : List Started)
    → milestone_turns (started_before t ts)
      ≡ milestone_turns (started_before t []) + milestone_turns ts
before-milestone_turns none ts = omega arith
before-milestone_turns (some checkpoint_turn) ts = omega arith
before-milestone_turns (some milestone_turn) ts = omega arith

ticks_of_both : (e : Event) (es : List Event) → ticks_of (e ∷ es) ≡ ticks_of (e ∷ []) + ticks_of es
ticks_of_both ticks es = omega arith
ticks_of_both over_limit es = omega arith
ticks_of_both selects es = omega arith
ticks_of_both is_done es = omega arith

turns_balance :
    (es : List Event) (s : Signals)
    → milestone_turns (turns es s) + waiting_signals (signals_after es s)
      ≤ ticks_of es + waiting_signals s
unfolding turns signals_after
turns_balance [] s = omega arith
turns_balance (e ∷ es) s = omega (
  arith,
  before-milestone_turns (react e s).0 (turns es (react e s).1),
  ticks_of_both e es,
  react_balance e s.milestone_pending s.worker,
  turns_balance es (react e s).1,
)

-- A tick is answered by the next turn: whatever else is signalled meanwhile, if the worker has not
-- left its loop and comes to its `select`, the first turn that starts from the tick on is one for a
-- milestone. In any run no more milestone turns start than there are ticks and a signal that is
-- pending at its start.
pub turns-StartsMilestone :
    (p : Bool) (w : Worker) (es : List Event)
    → IsOpen es
    → w ≢ gone
    → StartsMilestone
        (turns (ticks ∷ (es ++ (selects ∷ []))) (record { milestone_pending = p; worker = w }))
      × ((fs : List Event) (s : Signals)
          → milestone_turns (turns fs s) ≤ ticks_of fs + waiting_signals s)
turns-StartsMilestone p w es h n =
    (tick_is_answered p w es h n, (λ fs s. omega (arith, turns_balance fs s)))
