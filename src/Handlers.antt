-- ===== src/Handlers.antt =====
-- internal/handlers: the JSON handler's deep merge (json.go).
pub mod JsonMerge
pub mod SshConfig
pub mod Toml
mod Tests
