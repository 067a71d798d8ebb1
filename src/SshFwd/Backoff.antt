-- ===== src/SshFwd/Backoff.antt =====
-- internal/sshfwd/backoff.go: the delay before a connection is tried again.
pub mod Pace
use dotvault.Prelude.{ℕ, zero, suc, ◌+◌, ◌*◌, leb, if◌then◌else◌}

-- Base and Max in nanoseconds, and the number of tries. The jitter, a product of floats, is an
-- argument of next: what it makes of a delay.
pub record Backoff : Type 0 where
  pub base : ℕ
  pub max : ℕ
  pub n : ℕ

unfoldable pub new_backoff : Backoff
new_backoff = record { base = 500_000_000; max = 30_000_000_000; n = 0 }

-- The loop of Next
unfoldable pub doubled : ℕ → ℕ → ℕ → ℕ
doubled zero max d = d
doubled (suc n) max d = let rest = doubled n max (d * 2) in if leb max (d * 2) then max else rest

unfoldable pub next : (ℕ → ℕ) → Backoff → ℕ × Backoff
unfolding doubled
next jitter b = (jitter (doubled b.n b.max b.base), record b { n = b.n + 1 })

unfoldable pub reset : Backoff → Backoff
reset b = record b { n = 0 }

-- The schedule after a number of tries.
unfoldable pub tried : (ℕ → ℕ) → ℕ → Backoff → Backoff
tried jitter zero b = b
tried jitter (suc k) b = tried jitter k (next jitter b).1
