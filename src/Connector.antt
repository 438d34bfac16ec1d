-- ===== src/Connector.antt =====
-- The connector service, services/connector/src: it reserves a nickname for a session, and tells a
-- browser which signaling node to go to, with a token for it.
pub mod Message
pub mod Nicknames
pub mod Config
pub mod Redis
pub mod Token
pub mod Errors
pub mod Handlers
pub mod Nodes
pub mod Clock
pub mod Tokens
pub mod Lease
pub mod Freshness
pub mod Routes
