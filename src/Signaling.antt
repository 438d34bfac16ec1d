-- ===== src/Signaling.antt =====
-- The signaling service, services/signaling/src.
pub mod Sessions
pub mod Peers
pub mod Redis
pub mod Node
pub mod Config
pub mod Sfu
pub mod State
pub mod Auth
pub mod Admin
pub mod Events
pub mod Invariant
pub mod Purge
pub mod Close
pub mod Admission
pub mod Known
pub mod Entry
pub mod Cleanup
pub mod Attach
pub mod Logout
pub mod Detach
pub mod Drain
pub mod Websocket
