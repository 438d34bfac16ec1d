-- ===== src/Supervisor.antt =====
-- The supervisor, services/supervisor/src: it watches the signaling nodes, the SFU instances and
-- Redis, and clears Redis of what those that are gone have left.
pub mod Config
pub mod Probes
pub mod Janitor
pub mod Monitor
