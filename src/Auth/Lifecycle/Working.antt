-- ===== src/Auth/Lifecycle/Working.antt =====
-- internal/auth/lifecycle.go: which passes end with a token that works.
use dotvault.Prelude.{
  ℕ, Str, true, not, ◌&&◌, List, [], ◌∷◌, none, ok, ◌≡◌, ◌⊎◌, refl, ap, ◌∙◌, inl, inr, Bool-cases,
  Result-cases, arith,
}
use dotvault.Auth.Lifecycle.{
  TokenInfo, CheckError, World, Config, Manager, try_recover, reset_recovery_backoff, clear_reauth,
  signal_reauth, drain_reject,
}
use dotvault.Auth.Lifecycle.Cycle.{
  rebase, renew, look_up, note, try_candidates, reload_candidates, try_reload, check_and_renew,
  replace_token, settled,
}

-- Vault's LookupSelf accepts the token that is held, or the recovery hook just got it.
abbrev pub IsWorking : World → Str → Type 0
IsWorking w token =
    ((info : TokenInfo) × (w.lookup_self token ≡ ok info))
    ⊎ ((old : Str) × (w.recover old ≡ (true, token)))

pub token-settled : (cfg : Config) (m : Manager) → (settled cfg m).token ≡ m.token
unfolding drain_reject clear_reauth reset_recovery_backoff
token-settled cfg m = refl

pub signal_reauth-signals :
    (w : World) (e : CheckError) (m : Manager) → (signal_reauth w e m).needs_reauth ≡ true
unfolding signal_reauth
signal_reauth-signals w e m = ground arith

try_recover-IsWorking :
    (cfg : Config) (w : World) (now : ℕ) (m : Manager)
    → (try_recover cfg w now m).0 ≡ true
    → IsWorking w (try_recover cfg w now m).1.token
unfolding try_recover reset_recovery_backoff
try_recover-IsWorking cfg w now m good = inr (m.token, ground (arith, good))

module _ (digest : Str → Str) where
  try_candidates-IsWorking :
      (w : World) (now : ℕ) (toks : List Str) (m : Manager)
      → (try_candidates digest w now toks m).0 ≡ true
      → IsWorking w (try_candidates digest w now toks m).1.token
  unfolding try_candidates
  try_candidates-IsWorking w now [] m good = cc
  try_candidates-IsWorking w now (tok ∷ toks) m good = elim (Result-cases (w.lookup_self tok)) [
    | inl (e, bad) ↦
        rw (bad, try_candidates)
          (try_candidates-IsWorking w now toks
            (note digest now tok e (look_up tok (record m { token = tok })))
            (rw (bad, try_candidates) at good))
    | inr (info, fine) ↦ rw (fine, try_candidates) (inl (info, fine))
  ]

  pub try_reload-IsWorking :
      (cfg : Config) (w : World) (now : ℕ) (m : Manager)
      → (try_reload digest cfg w now m).0 ≡ true
      → IsWorking w (try_reload digest cfg w now m).1.token
  unfolding try_reload
  try_reload-IsWorking cfg w now m good =
      let (candidates, denied) = reload_candidates digest cfg w now m in
      elim (Bool-cases (not cfg.has_file && not cfg.has_borrower)) [
        | inl alone ↦ absurd (ground (arith, good, alone))
        | inr sources ↦
            elim (Bool-cases
              (try_candidates digest w now candidates (record m { denied = denied })).0) [
                | inl found ↦
                    rw (try_reload, sources, found)
                      (try_candidates-IsWorking w now candidates (record m { denied = denied })
                        found)
                | inr stale ↦ absurd (ground (arith, good, sources, stale))
              ]
      ]

  pub replace_token-IsWorking :
      (cfg : Config) (w : World) (now : ℕ) (m : Manager)
      → (replace_token digest cfg w now m).0 ≡ true
      → IsWorking w (replace_token digest cfg w now m).1.token
  unfolding replace_token
  replace_token-IsWorking cfg w now m good = elim (Bool-cases (try_reload digest cfg w now m).0) [
    | inl reloaded ↦ rw (replace_token, reloaded) (try_reload-IsWorking cfg w now m reloaded)
    | inr stale ↦
        rw (replace_token, stale)
          (try_recover-IsWorking cfg w now (try_reload digest cfg w now m).1
            (rw (replace_token, stale) at good))
  ]

  check_and_renew-token :
      (cfg : Config) (w : World) (now : ℕ) (m : Manager)
      → (check_and_renew digest cfg w now m).1.token ≡ m.token
  unfolding check_and_renew renew rebase
  check_and_renew-token cfg w now m = ground arith

  pub check_and_renew-IsWorking :
      (cfg : Config) (w : World) (now : ℕ) (m : Manager)
      → (check_and_renew digest cfg w now m).0 ≡ none
      → IsWorking w (check_and_renew digest cfg w now m).1.token
  unfolding check_and_renew renew rebase
  check_and_renew-IsWorking cfg w now m fine = elim (Result-cases (w.lookup_self m.token)) [
    | inl (e, bad) ↦ absurd (ground (arith, fine, bad))
    | inr (info, good) ↦ inl (info, ap w.lookup_self (check_and_renew-token cfg w now m) ∙ good)
  ]
