-- ===== src/SshFwd/Manager.antt =====
-- internal/sshfwd/manager.go: the set of managed remotes and its reconciliation. A loop over a map
-- goes over its keys and looks each up. Stopping a remote, between the two critical sections of
-- Reconcile, changes nothing here: the remote has left the map.
pub mod Desired
pub mod Settled
pub mod Applied
pub mod Closing
use dotvault.Prelude.{
  ℕ, suc, Map, Str, Bool, true, false, not, ◌&&◌, ◌||◌, List, [], ◌∷◌, Option, none, some, Result,
  ok, err, lookup, insert, delete, str_has_eq, to_lower, map, if◌then◌else◌,
}
use dotvault.SshFwd.Config.{Remote, RemoteError, validate_remote, enabled_or_default, same_as}

-- A ManagedRemote: its entry, whether its runner is started, and which one it is.
pub record ManagedRemote : Type 0 where
  pub cfg : Remote
  pub running : Bool
  pub id : ℕ

-- `made` counts the managed remotes that were made.
pub record Manager : Type 0 where
  pub remotes : Map Str ManagedRemote
  pub closed : Bool
  pub made : ℕ

pub data ManagerError : Type 0 where
  invalid_remote : Str → RemoteError → ManagerError
  duplicate_host : Str → Str → ManagerError
  after_close : ManagerError

abbrev pub new_manager : Manager
new_manager = record { remotes = []; closed = false; made = 0 }

abbrev pub keys {ℓ} : {V : Type ℓ} → Map Str V → List Str
keys m = map (λ e. e.0) m

-- The first loop of Reconcile
unfoldable pub invalid : List Remote → Option ManagerError
invalid [] = none
invalid (r ∷ rs) =
    let rest = invalid rs in
    elim (validate_remote r) [ some e ↦ some (invalid_remote r.host e) | none ↦ rest ]

-- newManagedRemote, and start if the entry is enabled.
abbrev pub managed : Remote → ℕ → ManagedRemote
managed r id = record { cfg = r; running = enabled_or_default r; id = id }

module _ (unicode fold : Str → Str) where
  -- normalizeHost
  abbrev pub normalize_host : Str → Str
  normalize_host = to_lower unicode

  -- The second loop: what is wanted, by key.
  unfoldable pub desired_from : List Remote → Map Str Remote → Result ManagerError (Map Str Remote)
  desired_from [] desired = ok desired
  desired_from (r ∷ rs) desired = elim (lookup (normalize_host r.host) desired) [
    | some dup ↦ err (duplicate_host dup.host r.host)
    | none ↦ desired_from rs (insert (normalize_host r.host) r desired)
  ]

  unfoldable pub desired : List Remote → Result ManagerError (Map Str Remote)
  unfolding invalid desired_from
  desired rs = elim (invalid rs) [ some e ↦ err e | none ↦ desired_from rs [] ]

  -- Whether the managed remote is removed, disabled or changed.
  unfoldable pub is_victim : Map Str Remote → Str → ManagedRemote → Bool
  is_victim wanted key mr = elim (lookup key wanted) [
    | none ↦ true
    | some want ↦
        if not (enabled_or_default want)
        then mr.running || not (same_as fold mr.cfg want)
        else not (same_as fold mr.cfg want)
  ]

  unfoldable pub retire_one : Map Str Remote → Str → Map Str ManagedRemote → Map Str ManagedRemote
  unfolding is_victim
  retire_one wanted key remotes = elim (lookup key remotes) [
    | none ↦ remotes
    | some mr ↦ if is_victim wanted key mr then delete key remotes else remotes
  ]

  unfoldable pub retire_each :
      Map Str Remote → List Str → Map Str ManagedRemote → Map Str ManagedRemote
  unfolding retire_one
  retire_each wanted [] remotes = remotes
  retire_each wanted (key ∷ ks) remotes = retire_each wanted ks (retire_one wanted key remotes)

  -- The first critical section of Reconcile
  unfoldable pub retire : Map Str Remote → Manager → Option ManagerError × Manager
  unfolding retire_each
  retire wanted m =
      if m.closed
      then (some after_close, m)
      else (none, record m { remotes = retire_each wanted (keys m.remotes) m.remotes })

  unfoldable pub start_one : Map Str Remote → Str → Manager → Manager
  start_one wanted key m = elim (lookup key wanted) [
    | none ↦ m
    | some r ↦ elim (lookup key m.remotes) [
      | some mr ↦ m
      | none ↦ record m { remotes = insert key (managed r m.made) m.remotes; made = suc m.made }
    ]
  ]

  unfoldable pub start_each : Map Str Remote → List Str → Manager → Manager
  unfolding start_one
  start_each wanted [] m = m
  start_each wanted (key ∷ ks) m = start_each wanted ks (start_one wanted key m)

  -- The second critical section
  unfoldable pub start_missing : Map Str Remote → Manager → Option ManagerError × Manager
  unfolding start_each
  start_missing wanted m =
      if m.closed then (some after_close, m) else (none, start_each wanted (keys wanted) m)

  unfoldable pub reconcile : List Remote → Manager → Option ManagerError × Manager
  unfolding desired retire start_missing
  reconcile rs m = elim (desired rs) [
    | err e ↦ (some e, m)
    | ok wanted ↦
        (let (failure, m1) = retire wanted m in
          elim failure [ some e ↦ (some e, m1) | none ↦ start_missing wanted m1 ])
  ]

-- Close, without waiting for the runners to end.
unfoldable pub close : Manager → Manager
close m = record m { closed = true; remotes = [] }
