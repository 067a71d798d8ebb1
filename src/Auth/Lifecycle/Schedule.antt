-- ===== src/Auth/Lifecycle/Schedule.antt =====
-- internal/auth/lifecycle.go: when the next check comes.
use dotvault.Prelude.{
  ℕ, Str, Bool, true, false, ◌||◌, List, [], ◌∷◌, none, ◌≡◌, some, true, refl, inl, inr, is_empty,
  Bool-cases, Option-cases, Result-cases, ◌∙◌, arith,
}
use dotvault.Auth.Lifecycle.{
  CheckError, World, Config, Manager, signal_reauth, backoff_from, arm_after_cycle,
}
use dotvault.Auth.Lifecycle.Working.{
  IsWorking, try_reload-IsWorking, replace_token-IsWorking, check_and_renew-IsWorking,
}
use dotvault.Auth.Lifecycle.Cycle.{
  recoverable, is_renew_failed, rebase, renew, look_up, note, try_candidates, reload_candidates,
  try_reload, check_and_renew, replace_token, settled, run_check_cycle,
}

-- What a pass that ends with a working token leaves.
pub record IsRestored (cfg : Config) (m : Manager) : Type 0 where
  pub signal : m.needs_reauth ≡ false
  pub interval : m.current_delay ≡ cfg.check_interval
  pub drained : m.reject_ch ≡ false
  pub fresh : m.recover_failures ≡ 0
  pub at_once : m.next_recover ≡ none

module _ (digest : Str → Str) where
  try_candidates-timer :
      (w : World) (now : ℕ) (toks : List Str) (m : Manager)
      → ((try_candidates digest w now toks m).1.current_delay ≡ m.current_delay)
        × ((try_candidates digest w now toks m).1.due ≡ m.due)
  unfolding try_candidates
  try_candidates-timer w now [] m = (refl, refl)
  try_candidates-timer w now (tok ∷ toks) m = elim (Result-cases (w.lookup_self tok)) [
    | inl (e, bad) ↦
        rw (bad, try_candidates)
          (try_candidates-timer w now toks
            (note digest now tok e (look_up tok (record m { token = tok }))))
    | inr (info, good) ↦ rw (good, try_candidates) (refl, refl)
  ]

  pub try_reload-timer :
      (cfg : Config) (w : World) (now : ℕ) (m : Manager)
      → ((try_reload digest cfg w now m).1.current_delay ≡ m.current_delay)
        × ((try_reload digest cfg w now m).1.due ≡ m.due)
  unfolding try_reload
  try_reload-timer cfg w now m =
      let (candidates, denied) = reload_candidates digest cfg w now m in
      ground (arith, try_candidates-timer w now candidates (record m { denied = denied }))

  check_and_renew-delay :
      (cfg : Config) (w : World) (now : ℕ) (m : Manager)
      → (check_and_renew digest cfg w now m).1.current_delay ≡ m.current_delay
  unfolding check_and_renew renew rebase
  check_and_renew-delay cfg w now m = ground arith

  -- The four ends of a cycle.
  pub run_check_cycle-cases {ℓ} :
      (P : ℕ × Manager → Type ℓ) (cfg : Config) (w : World) (now : ℕ) (scheduled : Bool)
      (deadline : ℕ) (m : Manager)
      → ((m1 : Manager)
          → IsWorking w m1.token
          → P (arm_after_cycle now scheduled true deadline (settled cfg m1), settled cfg m1))
      → ((m2 : Manager) → IsWorking w m2.token → P (cfg.check_interval, settled cfg m2))
      → ((e : CheckError) (m2 : Manager)
          → (check_and_renew digest cfg w now m).0 ≡ some e
          → (let m3 = record (signal_reauth w e m2) { current_delay = cfg.recovery_interval } in
              P (arm_after_cycle now scheduled false deadline m3, m3)))
      → ((e : CheckError) (m2 : Manager)
          → (check_and_renew digest cfg w now m).0 ≡ some e
          → recoverable e ≡ false
          → m2.current_delay ≡ m.current_delay
          → (let m3 = record m2 { current_delay = backoff_from cfg m2.current_delay scheduled } in
              P (arm_after_cycle now scheduled false deadline m3, m3)))
      → P (run_check_cycle digest cfg w now scheduled deadline m)
  unfolding run_check_cycle
  run_check_cycle-cases P cfg w now scheduled deadline m healthy swapped signalled backed =
      let m1 = (check_and_renew digest cfg w now m).1 in
      let same = check_and_renew-delay cfg w now m in
      elim (Option-cases (check_and_renew digest cfg w now m).0) [
        | inl fine ↦
            rw (fine, run_check_cycle)
              (healthy m1 (check_and_renew-IsWorking digest cfg w now m fine))
        | inr (e, failed) ↦
            elim (Bool-cases (recoverable e || m1.needs_reauth || is_empty m1.token)) [
              | inl dead ↦ elim (Bool-cases (replace_token digest cfg w now m1).0) [
                | inl good ↦
                    rw (failed, run_check_cycle)
                      (rw dead (
                        rw good (
                          swapped (replace_token digest cfg w now m1).1
                            (replace_token-IsWorking digest cfg w now m1 good))))
                | inr bad ↦
                    rw (failed, run_check_cycle)
                      (rw dead (rw bad (signalled e (replace_token digest cfg w now m1).1 failed)))
              ]
              | inr alive ↦ elim (Bool-cases (is_renew_failed e)) [
                | inl unrenewed ↦ elim (Bool-cases (try_reload digest cfg w now m1).0) [
                  | inl good ↦
                      rw (failed, run_check_cycle)
                        (rw alive (
                          rw unrenewed (
                            rw good (
                              swapped (try_reload digest cfg w now m1).1
                                (try_reload-IsWorking digest cfg w now m1 good)))))
                  | inr bad ↦
                      rw (failed, run_check_cycle)
                        (rw alive (
                          rw unrenewed (
                            rw bad (
                              backed e (try_reload digest cfg w now m1).1 failed
                                (ground (arith, alive))
                                ((try_reload-timer cfg w now m1).0 ∙ same)))))
                ]
                | inr transient ↦
                    rw (failed, run_check_cycle)
                      (rw alive (rw transient (backed e m1 failed (ground (arith, alive)) same)))
              ]
            ]
      ]
