-- ===== src/Auth/Lifecycle/Tests.antt =====
-- internal/auth/lifecycle.go: runs of the model, and the theorems at concrete inputs.
use dotvault.Prelude.{
  Str, codes, true, false, List, [], ◌∷◌, none, some, ok, err, ◌≡◌, refl, is_empty, str_eq,
  any_equal, lookup, insert, delete, if◌then◌else◌,
}
use dotvault.Auth.Denylist.{
  AuthError, new_token_denylist, ask, note_rejection, is_token_rejected, is_forbidden, deny,
  suppress,
}
use dotvault.Auth.Lifecycle.{
  TokenInfo, World, Config, Manager, new_config, new_manager, clear_reauth, drain_reject,
  signal_reauth, try_recover, arm_after_cycle,
}
use dotvault.Auth.Lifecycle.Cycle.{recoverable, try_reload, on_reject}
use dotvault.Auth.Lifecycle.Delay.{
  IsTimely, Pass, reports, ticked, rejected, reloaded, perform_all, latest, new_config-IsTimed,
  perform_all-IsTimely,
}
use dotvault.Auth.Lifecycle.Reload.{IsFresh, Tried, try_reload-Tried}

abbrev digest : Str → Str
digest s = 100 ∷ s

abbrev forbidden : AuthError
forbidden = record { status = some 403; expired = false }

abbrev live : TokenInfo
live = record { ttl = some 3_600_000_000_000; expires = true; renewable = true; creation_ttl = 0 }

-- Vault accepts one token, which the token file holds.
abbrev fresh_file : World
fresh_file = record {
  lookup_self = λ t. if str_eq t (codes "new") then ok live else err forbidden;
  renew_self = λ t. none;
  file_token = codes "new";
  env_token = codes "old";
  borrowed = [];
  recover = λ t. (false, t);
  on_reauth = λ t. [];
}

-- Vault accepts none.
abbrev outage : World
outage = record fresh_file { file_token = codes "old" }

abbrev cfg : Config
cfg = record {
  check_interval = 300_000_000_000;
  recovery_interval = 10_000_000_000;
  max_delay = 300_000_000_000;
  disable_renewal = false;
  has_file = true;
  has_borrower = false;
  has_recover = false;
}

abbrev started : Manager
started = record {
  token = codes "old";
  needs_reauth = false;
  reload_ch = false;
  reject_ch = true;
  last_notify = 5;
  denied = some new_token_denylist;
  recover_failures = 0;
  next_recover = none;
  current_delay = 300_000_000_000;
  baseline_ttl = 0;
  baseline_token = [];
  err_ch = none;
  due = 300_000_000_000;
  lookups = [];
}

swapped : (on_reject digest cfg fresh_file 7_000_000_000 started).token ≡ codes "new"
unfolding on_reject recoverable is_token_rejected is_forbidden ask note_rejection deny suppress
    lookup insert delete is_empty str_eq any_equal clear_reauth drain_reject arm_after_cycle
swapped = refl

-- The signal is raised, the client's token cleared, and the next check comes in ten seconds.
signalled : Manager
unfolding on_reject recoverable is_token_rejected is_forbidden ask note_rejection deny suppress
    lookup insert delete is_empty str_eq any_equal clear_reauth drain_reject arm_after_cycle
    signal_reauth try_recover
signalled = on_reject digest cfg outage 7_000_000_000 started

raised : (signalled.needs_reauth ≡ true) × (signalled.token ≡ []) × (signalled.due ≡ 17_000_000_000)
unfolding signalled
raised = (refl, refl, refl)

abbrev passes : List (Pass digest)
passes =
    reports 9_000_000_000 forbidden
    ∷ rejected outage 9_000_000_000
    ∷ ticked fresh_file 19_000_000_000
    ∷ reloaded outage 20_000_000_000
    ∷ []

perform_all-IsTimely_example :
    IsTimely digest (new_config 300_000_000_000 false) (latest digest 0 passes) (
      perform_all digest
        (new_config 300_000_000_000 false)
        passes
        (new_manager (new_config 300_000_000_000 false) (codes "old") none 0))
perform_all-IsTimely_example =
    perform_all-IsTimely digest (new_config 300_000_000_000 false) (codes "old") none 0 passes
      (new_config-IsTimed 300_000_000_000 false)

try_reload-Tried_example :
    Tried digest
      (IsFresh digest (some new_token_denylist) 7_000_000_000 (codes "old"))
      fresh_file
      started
      (try_reload digest cfg fresh_file 7_000_000_000 started)
    × ((try_reload digest cfg fresh_file 7_000_000_000 started).0 ≡ false
        → (try_reload digest cfg fresh_file 7_000_000_000 started).1.token ≡ codes "old")
try_reload-Tried_example = try_reload-Tried digest cfg fresh_file 7_000_000_000 started
