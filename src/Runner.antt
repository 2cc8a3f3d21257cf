-- ===== src/Runner.antt =====
-- core/coordinator/component.go: the worker that issues checkpoints and milestones.
pub mod Handlers
pub mod Loop
pub mod Invariant
pub mod Front
pub mod Consistency
pub mod Coverage
pub mod Milestones
pub mod Signals
pub mod Wiring
pub mod StartUp
