-- ===== src/Events.antt =====
-- internal/events/events.go: notices that a secret was written.
pub mod Seen
pub mod Hub
mod Tests
use dotvault.Prelude.{ℕ, Str, Option, ℤ}

-- time: none for the zero time
pub record Event : Type 0 where
  pub key : Str
  pub version : ℤ
  pub source : Str
  pub time : Option ℕ
