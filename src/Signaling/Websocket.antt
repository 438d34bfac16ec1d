-- ===== src/Signaling/Websocket.antt =====
-- services/signaling/src/websocket.rs: one WebSocket connection of the signaling service.
pub mod Context
pub mod Rooms
pub mod Handlers
pub mod Connection
