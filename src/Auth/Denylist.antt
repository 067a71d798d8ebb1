-- ===== src/Auth/Denylist.antt =====
-- internal/auth/denylist.go. Times are nanoseconds; the time source is an argument of each call,
-- SHA-256 a parameter. A nil receiver is `none`.
pub mod Entries
pub mod Window
pub mod Bound
use dotvault.Prelude.{
  ℕ, ◌+◌, ◌==◌, ltb, Str, Map, Bool, true, false, not, ◌&&◌, ◌||◌, List, [], ◌∷◌, Option, none,
  some, lookup, insert, delete, str_has_eq, is_empty, length, if◌then◌else◌,
}

-- DenyProbeInterval
abbrev pub deny_probe_interval : ℕ
deny_probe_interval = 900_000_000_000

abbrev pub max_denied_tokens : ℕ
max_denied_tokens = 16

-- An interval that is not positive is 0.
pub record TokenDenylist : Type 0 where
  pub denied : Map Str ℕ
  pub interval : ℕ

abbrev pub new_token_denylist : TokenDenylist
new_token_denylist = record { denied = []; interval = deny_probe_interval }

unfoldable pub window : TokenDenylist → ℕ
window d = if d.interval == 0 then deny_probe_interval else d.interval

-- The loop of evictOldestLocked: the oldest key so far and its deadline.
unfoldable pub oldest : Map Str ℕ → Str × ℕ → Str × ℕ
oldest [] best = best
oldest ((k, until) ∷ m) best =
    oldest m (if is_empty best.0 || ltb until best.1 then (k, until) else best)

unfoldable pub evict_oldest : Map Str ℕ → Map Str ℕ
evict_oldest m = let (k, until) = oldest m ([], 0) in if is_empty k then m else delete k m

-- The status of a Vault response in the error's chain, and whether it is the expired-token sentinel.
pub record AuthError : Type 0 where
  pub status : Option ℕ
  pub expired : Bool

unfoldable pub is_forbidden : AuthError → Bool
is_forbidden e = elim e.status [ none ↦ false | some code ↦ code == 403 ]

unfoldable pub is_token_rejected : AuthError → Bool
is_token_rejected e = is_forbidden e || e.expired

module _ (digest : Str → Str) where
  -- Denied
  unfoldable pub ask : Option TokenDenylist → ℕ → Str → Bool × Option TokenDenylist
  ask none now token = (false, none)
  ask (some d) now token =
      if is_empty token then (false, some d) else elim (lookup (digest token) d.denied) [
        | none ↦ (false, some d)
        | some until ↦
            if ltb now until
            then (true, some d)
            else (false, some (record d { denied = delete (digest token) d.denied }))
      ]

  unfoldable pub suppress : TokenDenylist → ℕ → Str → Bool × TokenDenylist
  suppress d now token = elim (lookup (digest token) d.denied) [
    | some until ↦
        (not (ltb now until), record d { denied = insert (digest token) (now + window d) d.denied })
    | none ↦
        let room =
          if ltb (length d.denied) max_denied_tokens then d.denied else evict_oldest d.denied in
        (true, record d { denied = insert (digest token) (now + window d) room })
  ]

  -- Deny
  unfoldable pub deny : Option TokenDenylist → ℕ → Str → Bool × Option TokenDenylist
  deny none now token = (false, none)
  deny (some d) now token =
      if is_empty token
      then (false, some d)
      else ((suppress d now token).0, some (suppress d now token).1)

  unfoldable pub note_rejection : Option TokenDenylist → ℕ → Str → AuthError → Option TokenDenylist
  note_rejection none now token e = none
  note_rejection (some d) now token e =
      if is_token_rejected e then (deny (some d) now token).1 else some d

unfoldable pub clear : Option TokenDenylist → ℕ × Option TokenDenylist
clear none = (0, none)
clear (some d) = (length d.denied, some (record d { denied = [] }))

unfoldable pub len : Option TokenDenylist → ℕ
len none = 0
len (some d) = length d.denied
