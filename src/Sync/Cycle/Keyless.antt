-- ===== src/Sync/Cycle/Keyless.antt =====
-- RunKeyless of internal/sync/engine.go needs no Vault.
use dotvault.Prelude.{
  ℕ, Str, Bool, true, List, [], ◌∷◌, Option, ◌≡◌, refl, Option-cases, inl, inr, arith,
}
use dotvault.Sync.{Rule, World, Secret, Env, keyless}
use dotvault.Sync.SyncRule.{
  file_checksum, rule_render_hash, fetch, unchanged, enforce_perm, incoming, existing, plan,
  record_sync, commit, sync_at, sync_rule,
}
use dotvault.Sync.Cycle.{Tally, start, tally, run_rules, run_keyless}

module _ {Data Doc : Type 0} (env : Env Data Doc)
    (read : Str → Str → Option (Option (Secret Data Doc))) where
  -- The same daemon before a Vault that answers otherwise.
  abbrev pub other_vault : Env Data Doc
  other_vault = record env { read_secret = read }

  sync_at-other :
      (rule : Rule) (secret : Secret Data Doc) (path : Str) (w : World)
      → sync_at other_vault rule secret path w ≡ sync_at env rule secret path w
  unfolding file_checksum rule_render_hash unchanged enforce_perm incoming existing plan record_sync
      commit sync_at
  sync_at-other rule secret path w = refl

  sync_rule-other :
      (rule : Rule) (w : World)
      → keyless rule ≡ true
      → sync_rule other_vault rule w ≡ sync_rule env rule w
  unfolding sync_rule fetch
  sync_rule-other rule w k = elim (Option-cases (env.expand_home rule.target.path)) [
    | inl home ↦ ground (arith, k, home)
    | inr (path, home) ↦ ground (
      arith,
      k,
      home,
      sync_at-other rule (record { secret_data = env.empty_data; version = 0 }) path w,
    )
  ]

  run_rules-other :
      (cancelled : ℕ → Bool) (rules : List Rule) (t : Tally) (w : World)
      → run_rules other_vault cancelled keyless rules t w
        ≡ run_rules env cancelled keyless rules t w
  run_rules-other cancelled [] t w = unfold run_rules in refl
  run_rules-other cancelled (rule ∷ rules) t w =
      step (run_rules-other cancelled rules t w) (
        run_rules-other cancelled rules (tally (sync_rule env rule w).0 t) (sync_rule env rule w).1)
    where
      step :
          run_rules other_vault cancelled keyless rules t w
            ≡ run_rules env cancelled keyless rules t w
          → run_rules other_vault cancelled keyless rules
              (tally (sync_rule env rule w).0 t)
              (sync_rule env rule w).1
            ≡ run_rules env cancelled keyless rules
                (tally (sync_rule env rule w).0 t)
                (sync_rule env rule w).1
          → run_rules other_vault cancelled keyless (rule ∷ rules) t w
            ≡ run_rules env cancelled keyless (rule ∷ rules) t w
      step skip next = unfold run_rules in ground (arith, skip, next, sync_rule-other rule w)

  -- A pass over the keyless rules has the same counts and leaves the same world whatever Vault
  -- would answer.
  pub run_keyless-other :
      (cancelled : ℕ → Bool) (rules : List Rule) (w : World)
      → run_keyless other_vault cancelled rules w ≡ run_keyless env cancelled rules w
  unfolding run_keyless
  run_keyless-other cancelled rules w = rw (run_rules-other cancelled rules start w)
