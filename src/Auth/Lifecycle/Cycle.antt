-- ===== src/Auth/Lifecycle/Cycle.antt =====
-- internal/auth/lifecycle.go: what one pass of the goroutine does to the token.
use dotvault.Prelude.{
  ℕ, ◌+◌, ◌/◌, ◌==◌, ltb, leb, Str, Bool, true, false, not, ◌&&◌, ◌||◌, List, [], ◌∷◌, ◌++◌, Option,
  none, some, ok, err, str_eq, any_equal, is_empty, if◌then◌else◌,
}
use dotvault.Auth.Denylist.{
  TokenDenylist, AuthError, is_forbidden, is_token_rejected, ask, note_rejection, clear,
}
use dotvault.Auth.Lifecycle.{
  TokenInfo, CheckError, no_token, token_denied, token_expired, lookup_failed, renew_failed, World,
  Config, Manager, try_recover, clear_reauth, signal_reauth, drain_reject, backoff_from,
  arm_after_cycle,
}

unfoldable pub recoverable : CheckError → Bool
recoverable no_token = true
recoverable token_denied = true
recoverable token_expired = true
recoverable (lookup_failed e) = is_token_rejected e
recoverable (renew_failed e) = is_forbidden e

abbrev pub is_renew_failed : CheckError → Bool
is_renew_failed (renew_failed e) = true
is_renew_failed no_token = false
is_renew_failed token_denied = false
is_renew_failed token_expired = false
is_renew_failed (lookup_failed e) = false

abbrev pub expired_error : AuthError
expired_error = record { status = none; expired = true }

-- A request of LookupSelf for a token.
abbrev pub look_up : Str → Manager → Manager
look_up token m = record m { lookups = token ∷ m.lookups }

-- The baseline of the token that is held, which grows to the longest ttl seen.
unfoldable pub rebase : ℕ → Manager → Manager
rebase ttl m =
    let known : ℕ = if str_eq m.token m.baseline_token then m.baseline_ttl else 0 in
    record m { baseline_ttl = (if ltb known ttl then ttl else known); baseline_token = m.token }

-- The renewal of checkAndRenew, for a ttl that is positive.
unfoldable pub renew : Config → World → ℕ → TokenInfo → Manager → Option CheckError × Manager
unfolding rebase
renew cfg w ttl info m =
    let m' = rebase ttl m in
    let baseline : ℕ = if info.creation_ttl == 0 then m'.baseline_ttl else info.creation_ttl in
    if leb ttl (baseline / 4) && info.renewable && not cfg.disable_renewal
    then (elim (w.renew_self m.token) [ none ↦ none | some e ↦ some (renew_failed e) ], m')
    else (none, m')

-- The end of a cycle that found a working token, or another in place of the one that failed.
abbrev pub settled : Config → Manager → Manager
settled cfg m = drain_reject (record (clear_reauth m) { current_delay = cfg.check_interval })

module _ (digest : Str → Str) where
  abbrev pub note : ℕ → Str → AuthError → Manager → Manager
  note now token e m = record m { denied = note_rejection digest m.denied now token e }

  -- addCandidate
  unfoldable pub add_candidate :
      ℕ → Str → Str → List Str × Option TokenDenylist → List Str × Option TokenDenylist
  add_candidate now current tok (candidates, denied) =
      let (suppressed, denied') = ask digest denied now tok in
      if is_empty tok || str_eq tok current
      then (candidates, denied)
      else if suppressed || any_equal candidates tok
      then (candidates, denied')
      else (candidates ++ (tok ∷ []), denied')

  -- The candidates: the token file's, the environment's, and a peer's.
  unfoldable pub reload_candidates : Config → World → ℕ → Manager → List Str × Option TokenDenylist
  unfolding add_candidate
  reload_candidates cfg w now m =
      let file =
        if cfg.has_file
        then add_candidate now m.token w.file_token ([], m.denied)
        else ([], m.denied) in
      let env = add_candidate now m.token w.env_token file in
      if cfg.has_borrower then add_candidate now m.token w.borrowed env else env

  -- The loop of tryReload over the candidates
  unfoldable pub try_candidates : World → ℕ → List Str → Manager → Bool × Manager
  try_candidates w now [] m = (false, m)
  try_candidates w now (tok ∷ toks) m = elim (w.lookup_self tok) [
    | ok info ↦ (true, look_up tok (record m { token = tok }))
    | err e ↦ try_candidates w now toks (note now tok e (look_up tok (record m { token = tok })))
  ]

  unfoldable pub try_reload : Config → World → ℕ → Manager → Bool × Manager
  unfolding reload_candidates try_candidates
  try_reload cfg w now m =
      let (candidates, denied) = reload_candidates cfg w now m in
      let (good, m') = try_candidates w now candidates (record m { denied = denied }) in
      if not cfg.has_file && not cfg.has_borrower
      then (false, m)
      else if good
      then (true, m')
      else (false, record m' { token = m.token })

  unfoldable pub check_and_renew : Config → World → ℕ → Manager → Option CheckError × Manager
  unfolding renew
  check_and_renew cfg w now m =
      let (suppressed, denied) = ask digest m.denied now m.token in
      let m' = record m { denied = denied } in
      if is_empty m.token
      then (some no_token, m)
      else if suppressed
      then (some token_denied, m')
      else elim (w.lookup_self m.token) [
        | err e ↦ (some (lookup_failed e), note now m.token e (look_up m.token m'))
        | ok info ↦ elim info.ttl [
          | none ↦ (none, look_up m.token m')
          | some ttl ↦
              if not (ttl == 0)
              then renew cfg w ttl info (look_up m.token m')
              else if not info.expires
              then (none, look_up m.token m')
              else (some token_expired, note now m.token expired_error (look_up m.token m'))
        ]
      ]

  -- tryReload, and tryRecover if it fails.
  unfoldable pub replace_token : Config → World → ℕ → Manager → Bool × Manager
  unfolding try_reload
  replace_token cfg w now m =
      let (reloaded, m') = try_reload cfg w now m in
      if reloaded then (true, m') else try_recover cfg w now m'

  -- runCheckCycle: the delay that the timer is armed for.
  unfoldable pub run_check_cycle : Config → World → ℕ → Bool → ℕ → Manager → ℕ × Manager
  unfolding check_and_renew replace_token
  run_check_cycle cfg w now scheduled deadline m =
      let (failure, m1) = check_and_renew cfg w now m in
      elim failure [
        | none ↦ let m2 = settled cfg m1 in (arm_after_cycle now scheduled true deadline m2, m2)
        | some e ↦
            if recoverable e || m1.needs_reauth || is_empty m1.token
            then (let (good, m2) = replace_token cfg w now m1 in
                let m3 = record (signal_reauth w e m2) { current_delay = cfg.recovery_interval } in
                if good
                then (cfg.check_interval, settled cfg m2)
                else (arm_after_cycle now scheduled false deadline m3, m3))
            else (let (good, m2) =
                  if is_renew_failed e then try_reload cfg w now m1 else (false, m1) in
                let m3 = record m2 {
                  current_delay = backoff_from cfg m2.current_delay scheduled;
                } in
                if good
                then (cfg.check_interval, settled cfg m2)
                else (arm_after_cycle now scheduled false deadline m3, m3))
      ]

  -- The cases of Start's select: the reload channel, the timer, and the reject channel.
  unfoldable pub on_reload : Config → World → ℕ → Manager → Manager
  unfolding try_reload
  on_reload cfg w now m =
      let cleared = record m { reload_ch = false; denied = (clear m.denied).1 } in
      let (good, m') = try_reload cfg w now cleared in
      if good
      then record (clear_reauth m') {
        current_delay = cfg.check_interval;
        due = now + cfg.check_interval;
      }
      else m'

  unfoldable pub on_tick : Config → World → ℕ → Manager → Manager
  unfolding run_check_cycle
  on_tick cfg w now m =
      let (delay, m') = run_check_cycle cfg w now true 0 m in record m' { due = now + delay }

  unfoldable pub on_reject : Config → World → ℕ → Manager → Manager
  unfolding run_check_cycle
  on_reject cfg w now m =
      let (delay, m') = run_check_cycle cfg w now false m.due (record m { reject_ch = false }) in
      record m' { due = now + delay }
