-- ===== src/SshFwd/Registry.antt =====
-- internal/sshfwd/registry.go: the mutations of ssh.yaml. An Add reads the stored pin and verifies
-- the host before it takes the transaction lock: `add_begin` is that part and `add_commit` the part
-- under the lock, as are `patch`, `remove` and `resync`.
pub mod Cases
pub mod System
pub mod Trust
pub mod Sound
pub mod Invariant
use dotvault.Prelude.{
  ℕ, ◌*◌, ◌^◌, ltb, leb, Str, Bool, true, false, not, ◌&&◌, ◌||◌, List, [], ◌∷◌, Option, none, some,
  Result, ok, err, ◌>>=◌, ℤ, pos, negsuc, str_eq, is_empty, if◌then◌else◌,
}
use dotvault.SshFwd.Config.{
  Remote, RemoteError, default_remote_socket, validate_remote, find, upsert, replace,
}
use dotvault.SshFwd.Config as Config
use dotvault.SshFwd.Manager.{Manager, ManagerError, reconcile}

pub record VerifyResult : Type 0 where
  pub host_key : Str
  pub fingerprint : Str
  pub verified : Bool

pub record AddOptions : Type 0 where
  pub force : Bool
  pub accept_fingerprint : Str

pub record Patch : Type 0 where
  pub enabled : Option Bool
  pub remote_socket : Option Str
  pub port : Option ℤ
  pub reconcile_delay : ℤ

pub data RegistryError : Type 0 where
  invalid : RemoteError → RegistryError
  unreadable refused not_saved : Str → RegistryError
  no_fingerprint unparseable_key fingerprint_differs confirmation_differs : RegistryError
  confirm_host_key : Str → RegistryError
  changed_concurrently host_not_found delay_out_of_range : RegistryError
  not_applied : ManagerError → RegistryError

-- What Load answers, a missing file being an empty one, and the manager.
pub record World : Type 0 where
  pub file : Result Str (List Remote)
  pub manager : Manager

abbrev pub load : World → Result RegistryError (List Remote)
load w = elim w.file [ err e ↦ err (unreadable e) | ok rs ↦ ok rs ]

-- MaxReconcileDelay, in nanoseconds
abbrev pub max_reconcile_delay : ℕ
max_reconcile_delay = 60 * 10 ^ 9

-- Add's checks of a key that the verifier reports; `key_fingerprint` is
-- ssh.FingerprintSHA256 of what ssh.ParseAuthorizedKey reads, if it reads anything.
unfoldable pub check_reported : (Str → Option Str) → VerifyResult → Option RegistryError
check_reported key_fingerprint v =
    if is_empty v.host_key
    then none
    else if is_empty v.fingerprint
    then some no_fingerprint
    else elim (key_fingerprint v.host_key) [
      | none ↦ some unparseable_key
      | some got ↦ if str_eq got v.fingerprint then none else some fingerprint_differs
    ]

-- The switch of Add: the pin that is written.
unfoldable pub choose_pin : Str → AddOptions → VerifyResult → Result RegistryError Str
choose_pin existing opts v =
    if not v.verified
    then ok existing
    else if is_empty v.fingerprint
    then ok (if is_empty v.host_key then existing else v.host_key)
    else if is_empty opts.accept_fingerprint
    then err (confirm_host_key v.fingerprint)
    else if str_eq opts.accept_fingerprint v.fingerprint
    then ok v.host_key
    else err confirmation_differs

abbrev pub with_default_socket : Remote → Remote
with_default_socket r =
    if is_empty r.remote_socket then record r { remote_socket = default_remote_socket } else r

abbrev pub or_else : Str → Str → Str
or_else s t = if is_empty s then t else s

abbrev pub patched : Patch → Remote → Remote
patched p r = record r {
  enabled = elim p.enabled [ none ↦ r.enabled | some b ↦ some b ];
  remote_socket = elim p.remote_socket [ none ↦ r.remote_socket | some s ↦ s ];
  port = elim p.port [ none ↦ r.port | some n ↦ n ];
}

abbrev pub delay_in_range : ℤ → Bool
delay_in_range (pos n) = leb n max_reconcile_delay
delay_in_range (negsuc n) = false

abbrev pub is_deferred : Patch → Bool
is_deferred p = elim p.reconcile_delay [ pos n ↦ ltb 0 n | negsuc n ↦ false ]

-- What stands for the standard library, the verifier, the runners and the disk: strings.ToLower of
-- text that is not ASCII, the form that strings.EqualFold compares, the fingerprint of an
-- authorized key, Verify, whether Status calls a host connected, and what Save answers.
pub record Env : Type 0 where
  pub unicode : Str → Str
  pub fold : Str → Str
  pub key_fingerprint : Str → Option Str
  pub verify : Bool → Remote → Result Str VerifyResult
  pub connected : Str → Bool
  pub save : List Remote → Option Str

module _ (env : Env) where
  unfoldable pub stored_host_key : Str → World → Result RegistryError Str
  stored_host_key host w =
      load w >>= λ rs. ok (elim (find env.fold host rs) [ none ↦ [] | some r ↦ r.host_key ])

  -- What Add makes of the entry before it takes the lock, given the stored pin.
  unfoldable pub decide : Str → Remote → AddOptions → Result RegistryError Remote
  unfolding check_reported choose_pin
  decide existing r opts =
      let input = record r { host_key = or_else r.host_key existing } in
      if opts.force then ok input else elim (env.verify (env.connected r.host) input) [
        | err e ↦ err (refused e)
        | ok v ↦ elim (check_reported env.key_fingerprint v) [
          | some e ↦ err e
          | none ↦ choose_pin existing opts v >>= λ pin. ok (record r { host_key = pin })
        ]
      ]

  -- Add, up to the lock: the stored pin and the entry.
  unfoldable pub add_begin : Remote → AddOptions → World → Result RegistryError (Str × Remote)
  unfolding stored_host_key decide
  add_begin request opts w =
      let r = with_default_socket request in
      elim (validate_remote r) [
        | some e ↦ err (invalid e)
        | none ↦ do
          existing ← stored_host_key r.host w
          entry ← decide existing r opts
          ok (existing, entry)
      ]

  -- Reconcile, with the file as it was saved or read.
  unfoldable pub apply : List Remote → World → Option RegistryError × World
  apply rs w =
      let (failure, m) = reconcile env.unicode env.fold rs w.manager in
      (
        elim failure [ none ↦ none | some e ↦ some (not_applied e) ],
        record w { file = ok rs; manager = m },
      )

  -- saveFile and Reconcile
  unfoldable pub store : List Remote → World → Option RegistryError × World
  unfolding apply
  store rs w = elim (env.save rs) [ some e ↦ (some (not_saved e), w) | none ↦ apply rs w ]

  -- Whether the host is pinned to another key than the one that was read.
  unfoldable pub pin_changed : Str → Str → List Remote → Bool
  pin_changed host existing rs = elim (find env.fold host rs) [
    | none ↦ false
    | some r ↦ not (str_eq r.host_key existing)
  ]

  -- Add, under the lock
  unfoldable pub add_commit : Str → Remote → World → Option RegistryError × World
  unfolding store pin_changed
  add_commit existing r w = elim (load w) [
    | err e ↦ (some e, w)
    | ok rs ↦
        if pin_changed r.host existing rs
        then (some changed_concurrently, w)
        else store (upsert env.fold r rs) w
  ]

  -- saveFile without Reconcile, which comes later as a resync.
  unfoldable pub store_only : List Remote → World → Option RegistryError × World
  store_only rs w = elim (env.save rs) [
    | some e ↦ (some (not_saved e), w)
    | none ↦ (none, record w { file = ok rs })
  ]

  unfoldable pub patch : Str → Patch → World → Option RegistryError × World
  unfolding store store_only
  patch host p w =
      if delay_in_range p.reconcile_delay
      then elim (load w) [
        | err e ↦ (some e, w)
        | ok rs ↦ elim (find env.fold host rs) [
          | none ↦ (some host_not_found, w)
          | some r ↦ elim (validate_remote (patched p r)) [
            | some e ↦ (some (invalid e), w)
            | none ↦
                let rs' = replace env.fold host (patched p r) rs in
                if is_deferred p then store_only rs' w else store rs' w
          ]
        ]
      ]
      else (some delay_out_of_range, w)

  -- Whether there was an entry, and the error.
  unfoldable pub remove : Str → World → (Bool × Option RegistryError) × World
  unfolding apply
  remove host w = elim (load w) [
    | err e ↦ ((false, some e), w)
    | ok rs ↦ elim (Config.remove env.fold host rs) [
      | none ↦ ((false, none), w)
      | some others ↦ elim (env.save others) [
        | some e ↦ ((false, some (not_saved e)), w)
        | none ↦ (let (failure, w') = apply others w in ((true, failure), w'))
      ]
    ]
  ]

  -- Resync, and what deferReconcile does when its delay has passed.
  unfoldable pub resync : World → Option RegistryError × World
  unfolding apply
  resync w = elim (load w) [ err e ↦ (some e, w) | ok rs ↦ apply rs w ]
