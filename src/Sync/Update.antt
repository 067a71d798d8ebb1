-- ===== src/Sync/Update.antt =====
-- UpdateConfig and TriggerSync of internal/sync/engine.go: the rules and the poll interval change
-- while the daemon runs. Two channels of capacity one are the flags `triggered` and `cfg_changed`.
use dotvault.Prelude.{
  ℕ, ◌==◌, ltb, Str, Map, Bool, true, false, not, ◌&&◌, List, [], ◌∷◌, none, ◌≡◌, arith, inl, inr,
  lookup, str_eq, str_has_eq, Bool-cases, if◌then◌else◌,
}
use dotvault.Sync.{Rule, RuleState}
use dotvault.Sync.Store.{prune, lookup-prune}

pub record Engine : Type 0 where
  pub rules : List Rule
  pub interval : ℕ
  pub state : Map Str RuleState
  pub saved : Map Str RuleState
  pub triggered : Bool
  pub cfg_changed : Bool

unfoldable pub trigger_sync : Engine → Engine
trigger_sync e = record e { triggered = true }

-- keep[name]
unfoldable pub keeps : List Rule → Str → Bool
keeps [] name = false
keeps (r ∷ rules) name = let rest = keeps rules name in if str_eq r.name name then true else rest

-- The prune of the state, which is saved if anything was removed.
unfoldable pub prune_state : Bool → List Rule → Engine → Engine
prune_state can_save rules e =
    let (kept, removed) = prune (keeps rules) e.state in
    record e { state = kept; saved = if ltb 0 removed && can_save then kept else e.saved }

-- `deep_equal` is reflect.DeepEqual; an interval that is not positive is 0.
module _ (deep_equal : List Rule → List Rule → Bool) (can_save : Bool) where
  unfoldable pub update_rules : List Rule → Engine → Engine
  update_rules rules e =
      if deep_equal e.rules rules
      then e
      else trigger_sync (prune_state can_save rules (record e { rules = rules }))

  unfoldable pub update_interval : ℕ → Engine → Engine
  update_interval interval e =
      if ltb 0 interval && not (interval == e.interval)
      then record e { interval = interval; cfg_changed = true }
      else e

  unfoldable pub update_config : List Rule → ℕ → Engine → Engine
  update_config rules interval e = update_interval interval (update_rules rules e)

  -- Where the rules change, the state of each rule that is still there is kept and every other state
  -- is dropped, and a sync is triggered.
  pub update_config-lookup :
      (rules : List Rule) (interval : ℕ) (e : Engine) (name : Str)
      → deep_equal e.rules rules ≡ false
      → (lookup name (update_config rules interval e).state
          ≡ (if keeps rules name then lookup name e.state else none))
        × ((update_config rules interval e).triggered ≡ true)
        × ((update_config rules interval e).rules ≡ rules)
  unfolding update_config update_interval update_rules trigger_sync prune_state
  update_config-lookup rules interval e name changed =
      ground (arith, changed, lookup-prune (keeps rules) name e.state)

  -- The same configuration given again, once the flags have been read, changes nothing, if
  -- DeepEqual finds the rules equal to themselves.
  pub update_config_idem :
      (rules : List Rule) (interval : ℕ) (e : Engine)
      → deep_equal rules rules ≡ true
      → update_config rules interval
          (record (update_config rules interval e) { triggered = false; cfg_changed = false })
        ≡ record (update_config rules interval e) { triggered = false; cfg_changed = false }
  unfolding update_config update_interval update_rules trigger_sync prune_state
  update_config_idem rules interval e same = elim (Bool-cases (deep_equal e.rules rules)) [
    | inl old ↦ ground (arith, same, old)
    | inr new ↦ ground (arith, same, new)
  ]
