-- ===== src/Signaling/Invariant.antt =====
-- Invariants of a signaling node. A predicate that the basic writes keep is kept by every handler:
-- that is proved once, for every such predicate. The node's own invariant is an instance.
pub mod Steps
pub mod Rooms
pub mod Writes
pub mod Handlers
pub mod Messages
pub mod Connection
pub mod Node
