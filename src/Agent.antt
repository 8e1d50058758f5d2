-- ===== src/Agent.antt =====
-- The agent (berth-agent): its containers, the commands of its session, and its files.
pub mod Containers
pub mod Handlers
pub mod Podman
pub mod Tests
