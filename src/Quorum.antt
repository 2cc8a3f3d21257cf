-- ===== src/Quorum.antt =====
-- pkg/coordinator/quorum.go: other nodes are asked for their merkle roots, in groups.
pub mod Config
pub mod Group
pub mod Race
pub mod Verdict
pub mod Agreement
pub mod Answer
