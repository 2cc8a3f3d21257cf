-- ===== src/Node.antt =====
-- core/coordinator: what the coordinator asks of its node by INX. The node itself, with its client and
-- its listener of hornet's `nodebridge`, is a parameter.
pub mod Send
pub mod Closes
pub mod Confirms
pub mod Treasury
pub mod Updates
pub mod WhiteFlag
pub mod Roots
