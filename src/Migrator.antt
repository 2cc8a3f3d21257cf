-- ===== src/Migrator.antt =====
-- pkg/migrator/service.go: the service that hands out receipts of migrated funds.
-- The entries (`iotago.MigratedFundsEntry`) are values of a parameter `F`.
pub mod Service
pub mod Producer
pub mod Split
pub mod Ledger
pub mod Delivery
pub mod Position
pub mod Receiving
pub mod Answers
pub mod Fetching
pub mod Exact
pub mod StateFile
pub mod Plugin
pub mod Limits
pub mod Handler
