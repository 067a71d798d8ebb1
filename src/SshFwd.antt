-- ===== src/SshFwd.antt =====
-- internal/sshfwd: the managed forwards' configuration, registry and manager, and the pace of
-- reconnecting.
pub mod Backoff
pub mod Config
pub mod Manager
pub mod Registry
mod Tests
mod RegistryTests
