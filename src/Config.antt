-- ===== src/Config.antt =====
-- internal/config: durations (config.go, docker.go).
pub mod Duration
mod Tests
