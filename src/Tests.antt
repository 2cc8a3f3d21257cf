-- ===== src/Tests.antt =====
-- Concrete inputs of the theorems about the program.
mod Bits
mod Migration
mod Selection
mod Quorum
mod Coordination
mod Lives
mod Running
mod Signing
mod Node
mod StartUp
mod Plugin
