-- ===== src/Sync/Cycle.antt =====
-- The cycles of internal/sync/engine.go: runRulesLocked, RunOnce, RunKeyless, syncRuleByPath.
pub mod Isolation
pub mod Keyless
pub mod Labels
pub mod Loop
use dotvault.Prelude.{
  ℕ, zero, suc, ◌+◌, ltb, ◌==◌, Str, slash, Bool, true, false, not, List, [], ◌∷◌, ◌++◌, Option,
  none, some, Result, ok, err, str_eq, cut_prefix, length, if◌then◌else◌,
}
use dotvault.Sync.{Rule, World, Env, SyncError, keyless}
use dotvault.Sync.SyncRule.{sync_rule}

-- What a cycle reports as its last error: a rule's, or that it stopped after so many rules.
pub data RunError : Type 0 where
  rule_failed : SyncError → RunError
  interrupted : ℕ → RunError

pub record Tally : Type 0 where
  pub synced : ℕ
  pub failed : ℕ
  pub last_error : Option RunError

abbrev pub start : Tally
start = record { synced = 0; failed = 0; last_error = none }

unfoldable pub tally : Result SyncError (Unit {0}) → Tally → Tally
tally (ok u) t = record t { synced = t.synced + 1 }
tally (err e) t = record t { failed = t.failed + 1; last_error = some (rule_failed e) }

-- A rule's error seen before is kept.
unfoldable pub interrupt : Tally → Tally
interrupt t = elim t.last_error [
  | some e ↦ t
  | none ↦ record t { last_error = some (interrupted (t.synced + t.failed)) }
]

module _ {Data Doc : Type 0} (env : Env Data Doc) where
  -- `cancelled n` is the context's answer when it is asked after n rules have run.
  module _ (cancelled : ℕ → Bool) (include : Rule → Bool) where
    unfoldable pub run_rules : List Rule → Tally → World → Tally × World
    unfolding tally interrupt
    run_rules [] t w = (t, w)
    run_rules (rule ∷ rules) t w = elim (include rule) [
      | false ↦ run_rules rules t w
      | true ↦ elim (cancelled (t.synced + t.failed)) [
        | true ↦ (interrupt t, w)
        | false ↦ run_rules rules (tally (sync_rule env rule w).0 t) (sync_rule env rule w).1
      ]
    ]

  -- syncRuleByPath: the first rule of the event's key.
  unfoldable pub sync_first : List Rule → Str → World → World
  sync_first [] key w = w
  sync_first (rule ∷ rules) key w =
      if str_eq rule.vault_key key then (sync_rule env rule w).1 else sync_first rules key w

  unfoldable pub trim_prefix : Str → Str → Str
  trim_prefix s prefix = elim (cut_prefix s prefix) [ none ↦ s | some rest ↦ rest ]

  unfoldable pub sync_rule_by_path : List Rule → Str → World → World
  unfolding sync_first trim_prefix
  sync_rule_by_path rules path w =
      sync_first rules (trim_prefix path (env.user_prefix ++ (env.username ++ (slash ∷ [])))) w

pub data Outcome : Type 0 where
  all_ok failed_rule cut_short : Outcome

-- The label of a finished cycle.
unfoldable pub sync_outcome : Option RunError → ℕ → Outcome
sync_outcome e failed = if ltb 0 failed then failed_rule else elim e [
  | none ↦ all_ok
  | some (interrupted n) ↦ cut_short
  | some (rule_failed x) ↦ failed_rule
]

abbrev pub every : Rule → Bool
every rule = true

unfoldable pub count_keyless : List Rule → ℕ
count_keyless [] = 0
count_keyless (rule ∷ rules) =
    if keyless rule then suc (count_keyless rules) else count_keyless rules

module _ {Data Doc : Type 0} (env : Env Data Doc) where
  -- RunOnce: the label that is recorded, the error returned, the world left.
  unfoldable pub run_once : (ℕ → Bool) → List Rule → World → Outcome × Option RunError × World
  run_once cancelled rules w =
      let (t, w') = run_rules env cancelled every rules start w in
      (sync_outcome t.last_error t.failed, t.last_error, w')

  -- RunKeyless: the counts returned, the world left.
  unfoldable pub run_keyless : (ℕ → Bool) → List Rule → World → ℕ × ℕ × World
  run_keyless cancelled rules w =
      if count_keyless rules == 0
      then (0, 0, w)
      else (let (t, w') = run_rules env cancelled keyless rules start w in (t.synced, t.failed, w'))
