-- ===== src/Selection.antt =====
-- pkg/mselection: the heaviest branch tip selection.
pub mod Bits
pub mod Selector
pub mod Picking
pub mod Heaviest
pub mod Draws
pub mod Greedy
pub mod Collect
pub mod RandomTips
pub mod Working
pub mod Outcome
pub mod Cone
pub mod Tips
pub mod Refs
pub mod Arrival
pub mod Describes
