-- ===== src/Auth/Lifecycle.antt =====
-- internal/auth/lifecycle.go: LifecycleManager. Times are nanoseconds; a pass of the goroutine takes
-- one instant, now. What Vault, the token file, the environment, the peers and the recovery hook
-- answer in a pass is the argument World; SHA-256 is the parameter digest.
pub mod Cycle
pub mod Reload
pub mod Working
pub mod Schedule
pub mod Delay
mod Tests
use dotvault.Prelude.{
  ℕ, ◌+◌, ◌-◌, ◌*◌, ◌^◌, ◌==◌, ltb, leb, Str, Bool, true, false, not, ◌&&◌, ◌||◌, List, [], ◌∷◌,
  ◌++◌, Option, none, some, Result, ok, err, is_empty, if◌then◌else◌,
}
use dotvault.Auth.Denylist.{TokenDenylist, AuthError, is_token_rejected}

-- What LookupSelf tells of a token. A duration that is not positive is 0; ttl is none where it is
-- absent or of another type; expires: expire_time is not null.
pub record TokenInfo : Type 0 where
  pub ttl : Option ℕ
  pub expires : Bool
  pub renewable : Bool
  pub creation_ttl : ℕ

-- The errors of checkAndRenew: the sentinels, LookupSelf's error, and renewFailedError.
pub data CheckError : Type 0 where
  no_token token_denied token_expired : CheckError
  lookup_failed renew_failed : AuthError → CheckError

-- recover: whether the hook succeeds, and the client's token after it; on_reauth: the client's token
-- after the OnReauth callback.
pub record World : Type 0 where
  pub lookup_self : Str → Result AuthError TokenInfo
  pub renew_self : Str → Option AuthError
  pub file_token : Str
  pub env_token : Str
  pub borrowed : Str
  pub recover : Str → Bool × Str
  pub on_reauth : Str → Str

-- The fields that are set before Start.
pub record Config : Type 0 where
  pub check_interval : ℕ
  pub recovery_interval : ℕ
  pub max_delay : ℕ
  pub disable_renewal : Bool
  pub has_file : Bool
  pub has_borrower : Bool
  pub has_recover : Bool

-- token: the client's; the channels hold one element at most; due: when the timer fires; lookups:
-- the tokens that LookupSelf was asked about, the last first.
pub record Manager : Type 0 where
  pub token : Str
  pub needs_reauth : Bool
  pub reload_ch : Bool
  pub reject_ch : Bool
  pub last_notify : ℕ
  pub denied : Option TokenDenylist
  pub recover_failures : ℕ
  pub next_recover : Option ℕ
  pub current_delay : ℕ
  pub baseline_ttl : ℕ
  pub baseline_token : Str
  pub err_ch : Option CheckError
  pub due : ℕ
  pub lookups : List Str

abbrev pub default_recovery : ℕ
default_recovery = 10_000_000_000

abbrev pub default_max_delay : ℕ
default_max_delay = 300_000_000_000

-- NewLifecycleManager, of which the configuration and the state are told apart
unfoldable pub new_config : ℕ → Bool → Config
new_config check_interval disable_renewal = record {
  check_interval = check_interval;
  recovery_interval =
      if ltb check_interval default_recovery then check_interval else default_recovery;
  max_delay = default_max_delay;
  disable_renewal = disable_renewal;
  has_file = false;
  has_borrower = false;
  has_recover = false;
}

unfoldable pub new_manager : Config → Str → Option TokenDenylist → ℕ → Manager
new_manager cfg token denied now = record {
  token = token;
  needs_reauth = false;
  reload_ch = false;
  reject_ch = false;
  last_notify = 0;
  denied = denied;
  recover_failures = 0;
  next_recover = none;
  current_delay = cfg.check_interval;
  baseline_ttl = 0;
  baseline_token = [];
  err_ch = none;
  due = now + cfg.check_interval;
  lookups = [];
}

unfoldable pub reload : Manager → Manager
reload m = record m { reload_ch = true }

-- The rate limit of NotifyRejected, in the time since rejectClockBase.
abbrev pub notify_window : Config → ℕ
notify_window cfg = if cfg.recovery_interval == 0 then default_recovery else cfg.recovery_interval

unfoldable pub notify_rejected : Config → ℕ → AuthError → Manager → Manager
notify_rejected cfg since e m =
    let elapsed : ℕ = if since == 0 then 1 else since in
    if not (is_token_rejected e)
    then m
    else if not (m.last_notify == 0) && ltb (elapsed - m.last_notify) (notify_window cfg)
    then m
    else if m.reject_ch
    then m
    else record m { last_notify = elapsed; reject_ch = true }

-- recoverBackoff
unfoldable pub recover_backoff : Config → ℕ → ℕ
recover_backoff cfg failures =
    let shift : ℕ = if ltb 16 (failures - 1) then 16 else failures - 1 in
    let d : ℕ = cfg.recovery_interval * 2 ^ shift in
    if leb failures 1 then 0 else if d == 0 || ltb cfg.max_delay d then cfg.max_delay else d

unfoldable pub back_off_recovery : Config → ℕ → Manager → Manager
back_off_recovery cfg now m =
    let d = recover_backoff cfg (m.recover_failures + 1) in
    record m {
      recover_failures = m.recover_failures + 1;
      next_recover = if ltb 0 d then some (now + d) else none;
    }

unfoldable pub reset_recovery_backoff : Manager → Manager
reset_recovery_backoff m = record m { recover_failures = 0; next_recover = none }

-- tryRecover: whether the client holds a token that the hook got.
unfoldable pub try_recover : Config → World → ℕ → Manager → Bool × Manager
unfolding back_off_recovery reset_recovery_backoff
try_recover cfg w now m =
    let waiting : Bool = elim m.next_recover [ none ↦ false | some at ↦ ltb now at ] in
    let (good, token) = w.recover m.token in
    let m' = record m { token = token } in
    if not cfg.has_recover || waiting
    then (false, m)
    else if not good || is_empty token
    then (false, back_off_recovery cfg now m')
    else (true, reset_recovery_backoff m')

unfoldable pub clear_reauth : Manager → Manager
unfolding reset_recovery_backoff
clear_reauth m = reset_recovery_backoff (record m { needs_reauth = false })

unfoldable pub signal_reauth : World → CheckError → Manager → Manager
signal_reauth w e m = if m.needs_reauth then m else record m {
  needs_reauth = true;
  token = w.on_reauth m.token;
  err_ch = elim m.err_ch [ none ↦ some e | some old ↦ some old ];
}

unfoldable pub drain_reject : Manager → Manager
drain_reject m = record m { reject_ch = false }

unfoldable pub backoff_from : Config → ℕ → Bool → ℕ
backoff_from cfg current scheduled =
    if not scheduled
    then current
    else if ltb cfg.max_delay (current * 2)
    then cfg.max_delay
    else current * 2

-- armAfterCycle: the delay that the timer is armed for.
unfoldable pub arm_after_cycle : ℕ → Bool → Bool → ℕ → Manager → ℕ
arm_after_cycle now scheduled healthy deadline m =
    if not scheduled && not healthy && ltb (deadline - now) m.current_delay
    then deadline - now
    else m.current_delay

-- NeedsReauth between two passes, when no replacement is in flight, and ReauthSignalled.
abbrev pub reauth_signalled : Manager → Bool
reauth_signalled m = m.needs_reauth
