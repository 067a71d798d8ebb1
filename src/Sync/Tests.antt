-- ===== src/Sync/Tests.antt =====
-- Runs and instances for internal/sync: a daemon with one secret and a handler that replaces.
use dotvault.Prelude.{
  length, Bool, ltb, is_empty, Str, codes, str_eq, str_has_eq, lookup, insert, true, false, List,
  [], ◌∷◌, none, some, ok, err, ◌≡◌, ◌≢◌, refl, inr, ◌⊎◌, arith, if◌then◌else◌,
}
use dotvault.Sync.{Rule, World, Secret, Handler, Env, keyless, read_secret_failed}
use dotvault.Sync.Store.{zero_state, get_state, set_state, prune}
use dotvault.Sync.RenderHash.{digits, decimal, prefixed, format_bool, rule_text, rule_fields}
use dotvault.Sync.SyncRule.{
  file_checksum, rule_render_hash, fetch, unchanged, enforce_perm, incoming, existing, plan,
  record_sync, commit, sync_at, sync_rule,
}
use dotvault.Sync.SyncRule.Effects.{SameFiles, sync_rule_error}
use dotvault.Sync.SyncRule.Converges.{sync_rule_idem}
use dotvault.Sync.SyncRule.Written.{IsGuarded, IsWritten, sync_rule_writes}
use dotvault.Sync.Cycle.{run_rules, start, every}
use dotvault.Sync.Cycle.Isolation.{select, reached}
use dotvault.Sync.Cycle.Loop.{IsRunOf, run_rules-IsRunOf}
use dotvault.Sync.Update.{
  Engine, trigger_sync, keeps, prune_state, update_rules, update_interval, update_config,
}

abbrev secret : Secret Str Str
secret = record { secret_data = codes "s3cret"; version = 1 }

abbrev handler : Handler Str Str
handler = record {
  read_file = λ c. elim c [ none ↦ some [] | some s ↦ some s ];
  merge_docs = λ old new. some new;
  encode = λ doc. some doc;
  parse = some (λ s. some s);
}

-- Vault has the secret under the key "gh" and fails for the key "bad".
abbrev env : Env Str Str
env = record {
  kv_mount = codes "kv";
  user_prefix = codes "users/";
  username = codes "gary";
  dry_run = false;
  now = 7;
  read_secret = λ mount path.
      if str_eq path (codes "users/gary/gh")
      then some (some secret)
      else if str_eq path (codes "users/gary/bad")
      then none
      else some none;
  expand_home = λ p. some p;
  handler_for = λ f d. some handler;
  render = λ name template secret username. some username;
  empty_data = [];
  from_netrc = λ d. d;
  from_text = λ d. some d;
  from_data = λ d. d;
  file_digest = λ c. c;
  rule_digest = λ t. t;
  can_read = λ p. true;
  can_mkdir = λ p. true;
  can_write = λ p. true;
  can_chmod = λ p. true;
  can_save = true;
}

abbrev rule_for : Str → Rule
rule_for key = record {
  name = codes "r";
  vault_key = key;
  target = record {
    path = codes "/t";
    format = codes "text";
    template = [];
    merge = [];
    delete_nulls = false;
  };
}

abbrev gh : Rule
gh = rule_for (codes "gh")

abbrev bad : Rule
bad = rule_for (codes "bad")

abbrev empty_world : World
empty_world = record { files = []; state = []; saved = []; parents = [] }

abbrev dry : Env Str Str
dry = record env { dry_run = true }

abbrev other_rule : Rule
other_rule = record gh { target = record gh.target { format = codes "json" } }

store_pruned :
    prune (λ name. str_eq name (codes "r")) ((codes "q", zero_state) ∷ (codes "r", zero_state) ∷ [])
    ≡ ((codes "r", zero_state) ∷ [], 1)
unfolding prune str_eq
store_pruned = refl

-- The hashed text of a rule, spelled out.
gh_text : rule_text gh ≡ codes "2:gh2:/t4:text0:0:5:false"
unfolding rule_text rule_fields prefixed decimal digits format_bool
gh_text = refl

gh_synced : (sync_rule env gh empty_world).0 ≡ ok tt
unfolding sync_rule fetch sync_at unchanged file_checksum rule_render_hash rule_text rule_fields
    prefixed decimal digits format_bool plan incoming existing commit enforce_perm record_sync
    get_state set_state lookup insert keyless is_empty str_eq
gh_synced = refl

bad_fails : (sync_rule env bad empty_world).0 ≡ err read_secret_failed
unfolding sync_rule fetch keyless is_empty str_eq
bad_fails = refl

gh_fetched : fetch env gh ≡ ok (some secret)
unfolding fetch keyless is_empty str_eq
gh_fetched = refl

gh_open : unchanged env gh secret (codes "/t") empty_world ≡ false
unfolding unchanged get_state lookup keyless is_empty
gh_open = refl

sync_rule_error_example : SameFiles empty_world (sync_rule env bad empty_world).1
sync_rule_error_example = sync_rule_error env bad empty_world read_secret_failed bad_fails

sync_rule_idem_example :
    sync_rule env gh (sync_rule env gh empty_world).1 ≡ (ok tt, (sync_rule env gh empty_world).1)
unfolding fetch
sync_rule_idem_example =
    sync_rule_idem env gh empty_world refl (λ s e. inr (ground (arith, e, gh_fetched))) gh_synced

sync_rule_writes_example :
    ((fetch env gh ≡ ok none) × ((sync_rule env gh empty_world).1 ≡ empty_world))
    ⊎ ((s : Secret Str Str) × (path : Str) × (fetch env gh ≡ ok (some s))
        × (env.expand_home gh.target.path ≡ some path)
        × (((unchanged env gh s path empty_world ≡ true)
              × IsGuarded env path empty_world (sync_rule env gh empty_world).1)
            ⊎ ((unchanged env gh s path empty_world ≡ false)
                × IsWritten env gh s path empty_world (sync_rule env gh empty_world).1)))
sync_rule_writes_example = sync_rule_writes env gh empty_world refl gh_synced

-- The rule has been edited to another format after it was synced.
edited_hash :
    (get_state other_rule.name (sync_rule env gh empty_world).1.state).rule_hash
    ≡ rule_render_hash env gh
unfolding sync_rule fetch sync_at unchanged file_checksum rule_render_hash rule_text rule_fields
    prefixed decimal digits format_bool plan incoming existing commit enforce_perm record_sync
    get_state set_state lookup insert keyless is_empty str_eq
edited_hash = refl

edited_target : gh.target ≢ other_rule.target
edited_target e = ground (arith, e)

abbrev three : List Rule
three = gh ∷ bad ∷ gh ∷ []

-- The context is cancelled after two rules.
run_rules-IsRunOf_example :
    IsRunOf env
      (select every three)
      (reached (λ n. ltb 1 n) 0 (length (select every three)))
      start
      empty_world
      (run_rules env (λ n. ltb 1 n) every three start empty_world).0
      (run_rules env (λ n. ltb 1 n) every three start empty_world).1
run_rules-IsRunOf_example = run_rules-IsRunOf env (λ n. ltb 1 n) every three start empty_world

-- DeepEqual on the lists of rules used here: as many rules.
as_many : List Rule → List Rule → Bool
as_many [] [] = true
as_many [] (s ∷ ss) = false
as_many (r ∷ rs) [] = false
as_many (r ∷ rs) (s ∷ ss) = as_many rs ss

abbrev engine : Engine
engine = record {
  rules = three;
  interval = 5;
  state = (codes "gone", zero_state) ∷ (codes "r", zero_state) ∷ [];
  saved = [];
  triggered = false;
  cfg_changed = false;
}

update_config_run :
    ((update_config as_many true (gh ∷ []) 9 engine).state ≡ (codes "r", zero_state) ∷ [])
    × ((update_config as_many true (gh ∷ []) 9 engine).saved ≡ (codes "r", zero_state) ∷ [])
    × ((update_config as_many true (gh ∷ []) 9 engine).cfg_changed ≡ true)
unfolding update_config update_rules update_interval prune_state trigger_sync keeps prune str_eq
    as_many
update_config_run = (refl, refl, refl)

fewer : as_many engine.rules (gh ∷ []) ≡ false
unfolding as_many
fewer = refl
