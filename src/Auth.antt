-- ===== src/Auth.antt =====
-- internal/auth: the tokens that Vault rejected (denylist.go), and the lifecycle of the token (lifecycle.go).
pub mod Denylist
pub mod Lifecycle
mod Tests
