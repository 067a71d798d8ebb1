-- ===== src/DockerVol/CertTimer/Expiry.antt =====
-- The certificate timer of internal/dockervol/refresh.go fires in time.
use dotvault.Prelude.{
  ℕ, zero, suc, ◌+◌, ◌-◌, ◌*◌, ◌≤◌, ◌<◌, leb, false, none, some, ◌≡◌, inl, inr, str_eq, arith,
  Bool-cases,
}
use dotvault.DockerVol.Spec.{Spec, client_cert_off}
use dotvault.DockerVol.CertTimer.{
  Pair, cert_timer_min, max, cert_jitter_bound, doubled, ttl_ns, overdue_refresh, next_cert_refresh,
}

doubled_ge : (n delay ceiling : ℕ) → delay ≤ doubled n delay ceiling
unfolding doubled
doubled_ge zero delay ceiling = omega arith
doubled_ge (suc n) delay ceiling = ground (arith, doubled_ge n (delay * 2) ceiling)

-- Enough doublings reach the ceiling.
doubled-reaches :
    (n delay ceiling : ℕ) → 0 < delay → ceiling ≤ n + delay → ceiling ≤ doubled n delay ceiling
unfolding doubled
doubled-reaches zero delay ceiling p h = omega arith
doubled-reaches (suc n) delay ceiling p h = ground (arith, doubled-reaches n (delay * 2) ceiling)

cert_jitter_bound_le :
    (p : Pair) → p.refresh_at ≤ p.not_after → p.refresh_at + cert_jitter_bound p ≤ p.not_after
unfolding cert_jitter_bound
cert_jitter_bound_le p h = ground arith

-- A certificate is looked at again before it expires, or within a second of that: after a refresh
-- that gave a pair which has not expired, the timer is armed for no later than a second after its
-- expiry, if the jitter stays within the bound that it is given.
pub next_cert_refresh-expiry :
    (cert_retry : ℕ) (jitter : ℕ → ℕ) (now : ℕ) (spec : Spec) (p : Pair) (overdue : ℕ)
    → str_eq spec.client_cert client_cert_off ≡ false
    → ((bound : ℕ) → jitter bound ≤ bound)
    → p.refresh_at ≤ p.not_after
    → now < p.not_after
    → (delay : ℕ) × ((next_cert_refresh cert_retry jitter now spec (some p) none overdue).0
        ≡ some delay)
      × (now + delay ≤ p.not_after + cert_timer_min)
unfolding next_cert_refresh overdue_refresh
next_cert_refresh-expiry cert_retry jitter now spec p overdue on bounded ordered alive =
    elim (Bool-cases (leb p.refresh_at now)) [
      | inl due ↦ (
        (overdue_refresh cert_retry now p (ttl_ns spec.ttl) overdue).0,
        ground (arith, on, due),
        ground (arith, alive),
      )
      | inr early ↦ (
        max (p.refresh_at - now + jitter (cert_jitter_bound p)) cert_timer_min,
        ground (arith, on, early),
        ground (arith, early, bounded (cert_jitter_bound p), cert_jitter_bound_le p, alive),
      )
    ]

-- While a pair is overdue and far from its expiry, the delay lies between the retry interval and the
-- longer of that and the volume's window; and the doubling ends: once as many refreshes have been
-- overdue as the one lacks nanoseconds of the other, the delay is the longest and the count stands.
pub overdue_refresh_bounds :
    (cert_retry now ttl : ℕ) (p : Pair) (overdue settled : ℕ)
    → 0 < cert_retry
    → now + max ttl cert_retry ≤ p.not_after
    → ttl ≤ settled + cert_retry
    → (cert_retry ≤ (overdue_refresh cert_retry now p ttl overdue).0)
      × ((overdue_refresh cert_retry now p ttl overdue).0 ≤ max ttl cert_retry)
      × (overdue_refresh cert_retry now p ttl settled ≡ (max ttl cert_retry, settled))
unfolding overdue_refresh
overdue_refresh_bounds cert_retry now ttl p overdue settled positive far enough = (
  ground (arith, doubled_ge overdue cert_retry (max ttl cert_retry), far, positive),
  ground (arith, doubled_ge overdue cert_retry (max ttl cert_retry), far, positive),
  ground (arith, doubled-reaches settled cert_retry (max ttl cert_retry), far, positive, enough),
)
