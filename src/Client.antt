-- ===== src/Client.antt =====
-- The browser's part, client/src.
pub mod Nickname
pub mod Settings
pub mod Messages
pub mod Signaling
pub mod Participants
pub mod App
pub mod Relay
pub mod Room
