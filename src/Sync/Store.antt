-- ===== src/Sync/Store.antt =====
-- internal/sync/state.go: the store of rule states in memory.
use dotvault.Prelude.{
  ℕ, suc, ◌+◌, Str, Map, Bool, [], ◌∷◌, none, some, lookup, insert, lookup-insert, str_has_eq,
  str_eq, str_eq_iff, if◌then◌else◌, ◌≡◌, arith, length,
}
use dotvault.Sync.{RuleState}

abbrev pub zero_state : RuleState
zero_state = record { vault_version = 0; last_synced = 0; file_checksum = []; rule_hash = [] }

-- Get: the zero value for a rule that the store does not know.
unfoldable pub get_state : Str → Map Str RuleState → RuleState
get_state name m = elim (lookup name m) [ none ↦ zero_state | some rs ↦ rs ]

-- Set
unfoldable pub set_state : Str → RuleState → Map Str RuleState → Map Str RuleState
set_state name rs m = insert name rs m

-- Prune, with the number removed.
unfoldable pub prune : (Str → Bool) → Map Str RuleState → Map Str RuleState × ℕ
prune keep [] = ([], 0)
prune keep ((name, rs) ∷ m) =
    let (kept, removed) = prune keep m in
    if keep name then ((name, rs) ∷ kept, removed) else (kept, suc removed)

-- Prune keeps the state of each rule that is kept and removes the state of every other.
pub lookup-prune :
    (keep : Str → Bool) (name : Str) (m : Map Str RuleState)
    → lookup name (prune keep m).0 ≡ (if keep name then lookup name m else none)
unfolding lookup prune
lookup-prune keep name [] = ground arith
lookup-prune keep name ((j, rs) ∷ m) = ground (arith, lookup-prune keep name m, str_eq_iff j name)

-- Nothing is lost but what is counted.
pub prune_count :
    (keep : Str → Bool) (m : Map Str RuleState)
    → length (prune keep m).0 + (prune keep m).1 ≡ length m
unfolding prune
prune_count keep [] = omega arith
prune_count keep ((j, rs) ∷ m) = ground (arith, prune_count keep m)

-- A read after a write: the new state for that rule, and what was there for the others.
pub get-set_state :
    (name j : Str) (rs : RuleState) (m : Map Str RuleState)
    → get_state j (set_state name rs m) ≡ (if str_eq name j then rs else get_state j m)
unfolding get_state set_state
get-set_state name j rs m = ground (arith, lookup-insert name j rs m)
