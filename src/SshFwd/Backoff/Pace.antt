-- ===== src/SshFwd/Backoff/Pace.antt =====
-- The delays that internal/sshfwd/backoff.go gives.
use dotvault.Prelude.{ℕ, zero, suc, ◌+◌, ◌*◌, ◌/◌, ◌≤◌, ◌<◌, ◌≡◌, arith}
use dotvault.SshFwd.Backoff.{Backoff, doubled, next, reset, tried}

doubled_bounds : (n max d : ℕ) → d ≤ max → (d ≤ doubled n max d) × (doubled n max d ≤ max)
unfolding doubled
doubled_bounds zero max d h = ground (arith, h)
doubled_bounds (suc n) max d h = ground (arith, h, doubled_bounds n max (d * 2))

tried-fields : (jitter : ℕ → ℕ) (k : ℕ) (b : Backoff) → tried jitter k b ≡ record b { n = b.n + k }
unfolding tried next
tried-fields jitter zero b = ground arith
tried-fields jitter (suc k) b = ground (arith, tried-fields jitter k (record b { n = b.n + 1 }))

tried-reset :
    (jitter : ℕ → ℕ) (k : ℕ) (b : Backoff)
    → tried jitter k (record b { n = 0 }) ≡ record b { n = k }
tried-reset jitter k b = ground (arith, tried-fields jitter k (record b { n = 0 }))

doubled-reaches : (n max d : ℕ) → 0 < d → d ≤ max → max ≤ n + d → doubled n max d ≡ max
unfolding doubled
doubled-reaches zero max d p h enough = omega (arith, p, h, enough)
doubled-reaches (suc n) max d p h enough =
    ground (arith, doubled-reaches n max (d * 2), p, h, enough)

-- The delay of every try after a reset is between the base and the greatest delay, a fifth and a
-- nanosecond off at most, and after enough tries it is the greatest one within as much, where the
-- jitter moves a delay by no more than that.
pub next_bounds :
    (jitter : ℕ → ℕ) (k settled : ℕ) (b : Backoff)
    → 0 < b.base
    → b.base ≤ b.max
    → b.max ≤ settled + b.base
    → ((d : ℕ) → (d ≤ jitter d + d / 5 + 1) × (jitter d ≤ d + d / 5))
    → (b.base ≤ (next jitter (tried jitter k (reset b))).0 + b.base / 5 + 1)
      × ((next jitter (tried jitter k (reset b))).0 ≤ b.max + b.max / 5)
      × (b.max ≤ (next jitter (tried jitter (settled + k) (reset b))).0 + b.max / 5 + 1)
unfolding next reset
next_bounds jitter k settled b positive ordered enough law =
    let at_k = doubled_bounds k b.max b.base ordered in
    let at_end =
      doubled-reaches (settled + k) b.max b.base positive ordered (omega (arith, enough)) in
    let top = law b.max in
    let there = law (doubled k b.max b.base) in
    rw (tried-reset jitter k b, tried-reset jitter (settled + k) b, at_end)
      (omega (arith, at_k, top, there))
