-- ===== src/Tests.antt =====
-- The theorems at concrete inputs, over an outside world that answers as documented.
pub mod World
pub mod Laws
mod Tokens
mod Connector
mod Store
mod Node
mod Admission
mod Nicknames
mod Client
