-- ===== src/SshFwd/Tests.antt =====
-- Instances for internal/sshfwd.
use dotvault.Prelude.{ℕ, ◌+◌, ◌/◌}
use dotvault.SshFwd.Backoff.{Backoff}

abbrev schedule : Backoff
schedule = record { base = 500_000_000; max = 30_000_000_000; n = 4 }

-- Every delay a fifth longer.
abbrev longer : ℕ → ℕ
longer d = d + d / 5
