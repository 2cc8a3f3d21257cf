-- ===== src/Signing.antt =====
-- The keys that sign milestones: core/coordinator/component.go (loading, `initSigningProvider`) and
-- pkg/coordinator/signing_provider.go.
pub mod Keys
pub mod Loading
pub mod Provider
pub mod Choice
pub mod Signed
pub mod Threshold
