-- ===== src/SshFwd/RegistryTests.antt =====
-- internal/sshfwd: tests of the configuration, the manager and the registry, and runs of the theorems.
use dotvault.Prelude.{
  is_ascii, to_lower, ℕ, Map, arith, Str, codes, Bool, true, false, List, [], ◌∷◌, ◌++◌, Option,
  none, some, Result, ok, err, ℤ, pos, negsuc, ◌≡◌, ◌≢◌, ◌⊎◌, refl, inl, inr, All, Any, lookup,
  str_has_eq, str_eq, is_empty, any_equal, insert, delete, contains_byte, cut_prefix, has_prefix,
  split, parts, map, ap, ◌∙◌, sym,
}
use dotvault.SshFwd.Config.{
  Remote, stray_brace, parent_segment, relative_socket, leading_dash, default_remote_socket,
  validate_remote_socket, validate_host, validate_remote, enabled_or_default,
}
use dotvault.SshFwd.Manager.{Manager, ManagedRemote, new_manager, duplicate_host, reconcile, close}
use dotvault.SshFwd.Manager.Desired.{key_of}
use dotvault.SshFwd.Manager.Settled.{IsSettled, IsHealthy}
use dotvault.SshFwd.Manager.Applied.{
  IsApplied, reconcile-IsHealthy, reconcile-IsApplied, reconcile-keeps,
}
use dotvault.SshFwd.Manager.Closing.{starting, retiring, closing, perform_all, perform_all-close}
use mathlib.Core.Path.{subst}
use dotvault.SshFwd.Manager.{after_close}
use dotvault.SshFwd.Manager.Desired.{AreAscii}
use dotvault.SshFwd.Registry.{
  Env, World, AddOptions, confirm_host_key, not_applied, add_begin, add_commit,
}
use dotvault.SshFwd.Registry.System.{System, IsCareful, begin, commit, Reach, start, next}
use dotvault.SshFwd.Registry.Trust.{ArePinned, IsTrusted, Reach-IsTrusted}
use dotvault.SshFwd.Registry.Sound.{
  IsListed, adding, changing, dropping, reading, transact, transact-IsApplied, transact-applies,
  is_valid,
}
use dotvault.SshFwd.Registry.Invariant.{IsOrderly, Reach-IsOrderly}

braces : validate_remote_socket (codes "~/.ssh/{HOSTNAME}.sock") ≡ some stray_brace
unfolding validate_remote_socket contains_byte has_prefix
braces = refl

token : validate_remote_socket default_remote_socket ≡ none
unfolding validate_remote_socket contains_byte has_prefix is_empty any_equal split str_eq
token = refl

climbing : validate_remote_socket (codes "/tmp/../etc/x") ≡ some parent_segment
unfolding validate_remote_socket contains_byte has_prefix is_empty any_equal split str_eq
climbing = refl

dashed : validate_host (codes "-oProxyCommand=x") ≡ some leading_dash
unfolding validate_host is_empty has_prefix
dashed = refl

abbrev same_text : Str → Str
same_text s = s

abbrev remote : Str → Str → Option Bool → Remote
remote host key enabled = record {
  host = host;
  port = pos 0;
  remote_socket = codes "~/d.sock";
  host_key = key;
  enabled = enabled;
}

abbrev first : List Remote
first = remote (codes "a") (codes "k1") none ∷ remote (codes "b") (codes "k2") none ∷ []

-- The entry of b is turned off.
abbrev second : List Remote
second =
    remote (codes "a") (codes "k1") (some true) ∷ remote (codes "b") (codes "k2") (some false) ∷ []

abbrev running : Manager
running = (reconcile same_text same_text first new_manager).1

abbrev settled : Manager
settled = (reconcile same_text same_text second running).1

twice :
    (reconcile same_text same_text (first ++ (remote (codes "A") [] none ∷ [])) new_manager).0
    ≡ some (duplicate_host (codes "a") (codes "A"))
unfolding reconcile validate_remote is_empty has_prefix contains_byte any_equal split str_eq lookup
    insert dotvault.Prelude.to_lower
twice = refl

first-runs : reconcile same_text same_text first new_manager ≡ (none, running)
unfolding reconcile validate_remote is_empty has_prefix contains_byte any_equal split str_eq lookup
    insert dotvault.Prelude.to_lower
first-runs = refl

second-runs : reconcile same_text same_text second running ≡ (none, settled)
unfolding reconcile validate_remote is_empty has_prefix contains_byte any_equal split str_eq lookup
    insert dotvault.Prelude.to_lower
second-runs = refl

new_manager-IsHealthy : IsHealthy new_manager
unfolding lookup
new_manager-IsHealthy = record { runs = λ k mr e. cc e }

running-IsHealthy : IsHealthy running
running-IsHealthy =
    reconcile-IsHealthy same_text same_text first new_manager running new_manager-IsHealthy
      first-runs

-- A runs on, and b is off.
reconcile-IsApplied_example : IsApplied same_text same_text second settled
reconcile-IsApplied_example =
    reconcile-IsApplied same_text same_text second running settled running-IsHealthy second-runs

reconcile-keeps_example :
    All
      (λ r.
        (mr : ManagedRemote)
        → lookup (key_of same_text same_text r) running.remotes ≡ some mr
        → IsSettled same_text same_text r mr
        → lookup (key_of same_text same_text r) settled.remotes ≡ some mr)
      second
reconcile-keeps_example = reconcile-keeps same_text same_text second running settled second-runs

abbrev wanted : Map Str Remote
wanted = (codes "a", remote (codes "a") (codes "k1") none) ∷ []

-- Close comes between the two sections of a Reconcile.
perform_all-close_example :
    perform_all same_text same_text (retiring wanted ∷ closing ∷ starting wanted ∷ []) running
    ≡ close (perform_all same_text same_text (retiring wanted ∷ []) running)
perform_all-close_example =
    perform_all-close same_text same_text (retiring wanted ∷ []) (starting wanted ∷ []) running

-- The verifier reports the key k1, which is its own fingerprint here.
abbrev env : Env
env = record {
  unicode = same_text;
  fold = to_lower same_text;
  key_fingerprint = λ k. some k;
  verify =
      λ skip r. ok (record { host_key = codes "k1"; fingerprint = codes "k1"; verified = true });
  connected = λ host. false;
  save = λ rs. none;
}

abbrev IsKnown : Str → Type 0
IsKnown k = k ≡ codes "k1"

abbrev fresh_system : System
fresh_system = record { world = record { file = ok []; manager = new_manager }; pending = [] }

abbrev request : Remote
request = record (remote (codes "a") [] none) { remote_socket = [] }

abbrev entry : Remote
entry = record (remote (codes "a") (codes "k1") none) { remote_socket = default_remote_socket }

abbrev confirming : AddOptions
confirming = record { force = false; accept_fingerprint = codes "k1" }

careful : IsCareful env IsKnown request confirming
careful = (λ k e. ground (arith, e), λ e. cc e)

unconfirmed :
    add_begin env request (record { force = false; accept_fingerprint = [] }) fresh_system.world
    ≡ err (confirm_host_key (codes "k1"))
unfolding add_begin validate_remote is_empty has_prefix contains_byte any_equal split str_eq
unconfirmed = refl

begun : add_begin env request confirming fresh_system.world ≡ ok ([], entry)
unfolding add_begin validate_remote is_empty has_prefix contains_byte any_equal split str_eq
    dotvault.SshFwd.Config.find
begun = refl

-- A host key that the caller gives is handed to the verifier, and if that finds it is the host's and
-- so has nothing to report, the pin that was stored before is written, here none.
abbrev matching : Env
matching = record env {
  verify = λ skip r. ok (record { host_key = []; fingerprint = []; verified = true });
}

given_key_dropped :
    add_begin matching (remote (codes "a") (codes "k1") none) confirming fresh_system.world
    ≡ ok ([], remote (codes "a") [] none)
unfolding add_begin validate_remote is_empty has_prefix contains_byte any_equal split str_eq
    dotvault.SshFwd.Config.find
given_key_dropped = refl

abbrev waiting_system : System
waiting_system = record fresh_system { pending = ([], entry) ∷ [] }

abbrev added_system : System
added_system = record waiting_system { world = (add_commit env [] entry fresh_system.world).1 }

added : Reach env IsKnown fresh_system added_system
unfolding add_commit
added =
    next
      (next start env.verify env.connected env.save
        (begin request confirming [] entry careful begun))
      matching.verify env.connected env.save (commit [] entry (inl refl))

nothing-ArePinned : (rs : List Remote) → fresh_system.world.file ≡ ok rs → ArePinned IsKnown rs
nothing-ArePinned [] e = tt
nothing-ArePinned (r ∷ rs) e = cc e

nothing-IsListed : (rs : List Remote) → fresh_system.world.file ≡ ok rs → IsListed env.fold rs
nothing-IsListed [] e = record { unique = tt; valid = tt }
nothing-IsListed (r ∷ rs) e = cc e

fresh_system-IsTrusted : IsTrusted IsKnown fresh_system
fresh_system-IsTrusted = record { stored = nothing-ArePinned; waiting = tt }

-- A key that the caller confirmed is pinned.
Reach-IsTrusted_example : IsTrusted IsKnown added_system
Reach-IsTrusted_example = Reach-IsTrusted env IsKnown added fresh_system-IsTrusted

fresh_system-IsOrderly : IsOrderly env.fold fresh_system
fresh_system-IsOrderly = record {
  sound = record { listed = nothing-IsListed; healthy = new_manager-IsHealthy };
  waiting = tt;
}

Reach-IsOrderly_example : IsOrderly env.fold added_system
Reach-IsOrderly_example = Reach-IsOrderly env IsKnown added fresh_system-IsOrderly

transact-applies_example :
    (transact env (adding [] entry) fresh_system.world).0 ≢ some (not_applied after_close)
unfolding is_valid validate_remote is_empty has_prefix contains_byte any_equal split str_eq transact
    add_commit dotvault.SshFwd.Config.find reconcile dotvault.SshFwd.Config.upsert lookup is_ascii
transact-applies_example =
    transact-applies env (λ a b plain other e. e) (adding [] entry) fresh_system.world refl
      fresh_system-IsOrderly.sound (λ rs saved. subst AreAscii (listed rs saved) (refl, tt)) refl
      after_close
  where
    saved_file : Result Str (List Remote)
    saved_file = ok (entry ∷ [])

    listed : (rs : List Remote) → saved_file ≡ ok rs → entry ∷ [] ≡ rs
    listed rs e = cc e

-- An entry that is added is managed at once.
transact-IsApplied_example :
    (rs : List Remote) × ((transact env (adding [] entry) fresh_system.world).1.file ≡ ok rs)
    × IsListed env.fold rs
    × IsApplied env.unicode env.fold rs
        (transact env (adding [] entry) fresh_system.world).1.manager
unfolding is_valid validate_remote is_empty has_prefix contains_byte any_equal split str_eq
    dotvault.SshFwd.Registry.Sound.is_inline dotvault.SshFwd.Registry.Sound.is_absent transact
    add_commit dotvault.SshFwd.Config.find reconcile dotvault.SshFwd.Config.upsert lookup
transact-IsApplied_example =
    transact-IsApplied env (adding [] entry) fresh_system.world refl fresh_system-IsOrderly.sound
      refl refl refl
