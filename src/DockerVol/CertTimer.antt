-- ===== src/DockerVol/CertTimer.antt =====
-- internal/dockervol/refresh.go: when a volume that carries the client certificate is rendered again.
-- Times are nanoseconds since some instant before all of them.
pub mod Expiry
use dotvault.Prelude.{
  ℕ, zero, suc, ◌+◌, ◌-◌, ◌*◌, ◌/◌, leb, ltb, Str, Bool, true, false, not, Option, none, some, ℤ,
  pos, negsuc, str_eq, if◌then◌else◌,
}
use dotvault.DockerVol.Spec.{Spec, client_cert_off}

pub data Source : Type 0 where
  held ephemeral : Source

-- clientcert.Pair, as far as the schedule reads it.
pub record Pair : Type 0 where
  pub source : Source
  pub not_before : ℕ
  pub refresh_at : ℕ
  pub not_after : ℕ

-- What a source's error is, as errors.Is tells: no token (the package's or the driver's), a sign
-- that is paced, a token being replaced, a sign in progress that wraps context.Canceled or not.
pub data CertError : Type 0 where
  no_token sign_paced reauth_in_progress : CertError
  sign_in_progress : Bool → CertError
  other : CertError

-- clientcert.Transient, or the driver's ErrNoToken
unfoldable pub transient : CertError → Bool
transient (sign_in_progress cancelled) = not cancelled
transient CertError.other = false
transient e = true

abbrev pub second : ℕ
second = 1000000000

abbrev pub default_cert_retry : ℕ
default_cert_retry = 10000000000

abbrev pub cert_timer_min : ℕ
cert_timer_min = 1000000000

abbrev pub min : ℕ → ℕ → ℕ
min a b = if leb a b then a else b

abbrev pub max : ℕ → ℕ → ℕ
max a b = if leb a b then b else a

unfoldable pub cert_jitter_bound : Pair → ℕ
cert_jitter_bound pair = elim pair.source [
  | Source.held ↦ 0
  | Source.ephemeral ↦
      if leb pair.not_after pair.not_before
      then 0
      else if leb pair.not_after pair.refresh_at
      then 0
      else min ((pair.not_after - pair.not_before) / 20) ((pair.not_after - pair.refresh_at) / 10)
]

-- The loop that doubles the delay, up to the ceiling.
unfoldable pub doubled : ℕ → ℕ → ℕ → ℕ
doubled zero delay ceiling = delay
doubled (suc n) delay ceiling =
    let rest = doubled n (delay * 2) ceiling in if leb ceiling delay then delay else rest

-- The refresh window of a volume; validation keeps it positive.
abbrev pub ttl_ns : ℤ → ℕ
ttl_ns (pos n) = n
ttl_ns (negsuc n) = 0

-- What overdue pairs have: the delay, and the count that the loop keeps.
unfoldable pub overdue_refresh : ℕ → ℕ → Pair → ℕ → ℕ → ℕ × ℕ
overdue_refresh cert_retry now pair ttl overdue =
    let ceiling = max ttl cert_retry in
    let delay = doubled overdue cert_retry ceiling in
    let capped = min delay ceiling in
    (
      if ltb now pair.not_after then min capped (pair.not_after - now + cert_timer_min) else capped,
      if ltb delay ceiling then overdue + 1 else overdue,
    )

-- With the driver's certRetry, jitter and clock. The answer is the delay, if the timer is armed, and
-- the count of consecutive overdue refreshes.
unfoldable pub next_cert_refresh :
    ℕ → (ℕ → ℕ) → ℕ → Spec → Option Pair → Option CertError → ℕ → Option ℕ × ℕ
next_cert_refresh cert_retry jitter now spec pair e overdue =
    if str_eq spec.client_cert client_cert_off then (none, overdue) else elim e [
      | some x ↦
          if transient x then (some cert_retry, overdue) else (some (ttl_ns spec.ttl), overdue)
      | none ↦ elim pair [
        | none ↦ (some (ttl_ns spec.ttl), overdue)
        | some p ↦
            if leb p.refresh_at now
            then (let (delay, count) = overdue_refresh cert_retry now p (ttl_ns spec.ttl) overdue in
                (some delay, count))
            else (some (max (p.refresh_at - now + jitter (cert_jitter_bound p)) cert_timer_min), 0)
      ]
    ]
