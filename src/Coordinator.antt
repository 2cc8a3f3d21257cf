-- ===== src/Coordinator.antt =====
-- pkg/coordinator: milestones and checkpoints, and the state of the coordinator.
pub mod Types
pub mod Actions
pub mod Build
pub mod Milestone
pub mod Operations
pub mod Hoare
pub mod Stages
pub mod Receipts
pub mod Outcomes
pub mod Sending
pub mod Endings
pub mod Safety
pub mod Restart
pub mod Start
pub mod Emits
pub mod Checkpoints
pub mod Signing
pub mod Sent
pub mod Chain
pub mod Progress
pub mod Resumes
pub mod Kills
pub mod Lives
pub mod Treasury
pub mod Json
pub mod Options
pub mod Defaults
