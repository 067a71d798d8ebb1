-- ===== src/DockerVol/Driver/Directory.antt =====
-- What the requests of internal/dockervol/driver.go do to a volume's directory.
use dotvault.Prelude.{
  ℕ, ◌==◌, ==_iff, Str, Bool, true, false, not, ◌||◌, List, Option, none, some, ◌≡◌, inl, inr,
  lookup, insert, delete, lookup-insert, lookup-delete, str_has_eq, str_eq_refl, if◌then◌else◌,
  arith, Bool-cases, Option-cases,
}
use dotvault.DockerVol.Driver.{
  Driver, PersistedVolume, wrote, has_loop, has_entry, save, unmount_begin, wipe, mount_begin,
  record_refresh, mount_render, mount_finish, mount_leave, mount, unmount,
}

module _ (write : List PersistedVolume → Option Str) (d : Driver) where
  save-objects : ((save write d).0).objects ≡ d.objects
  unfolding save
  save-objects = ground arith

  save-disk : ((save write d).0).disk ≡ d.disk
  unfolding save
  save-disk = ground arith

  save-volumes : ((save write d).0).volumes ≡ d.volumes
  unfolding save
  save-volumes = ground arith

module _ (write : List PersistedVolume → Option Str) (name id : Str) (r c : ℕ) (populated : Bool)
    (d : Driver) (found : lookup name d.volumes ≡ some c) where
  pub mount_finish-object :
      ((mount_finish write name id r populated d).0).objects r ≡ record (d.objects r) {
        mounts = insert id tt (d.objects r).mounts;
        pending_event = false;
        loop = some (elim (d.objects r).loop [
          | some l ↦ l
          | none ↦ record { initial = not populated || (d.objects r).pending_event; nudged = false }
        ]);
      }
  unfolding mount_finish save
  mount_finish-object = elim (Option-cases (d.objects r).loop) [
    | inl idle ↦ rw (found, mount_finish, idle, save) (ground (arith, ==_iff r r))
    | inr (l, runs) ↦ rw (found, mount_finish, runs, save) (ground (arith, ==_iff r r, runs))
  ]

  mount_finish-disk : ((mount_finish write name id r populated d).0).disk ≡ d.disk
  unfolding mount_finish save
  mount_finish-disk = ground (arith, found)

-- The driver once the first mount of a volume has filled its directory.
filled : ℕ → ℕ → ℕ → Driver → Driver
filled r n now d = record_refresh r n none now (record (mount_begin r d) {
  disk = insert ((mount_begin r d).objects r).name tt (mount_begin r d).disk;
})

mount_render-filled :
    (r n now : ℕ) (d : Driver)
    → mount_render r true (wrote n) now (mount_begin r d) ≡ (filled r n now d, none)
unfolding filled mount_render
mount_render-filled r n now d = ground arith

module _ (write : List PersistedVolume → Option Str) (id : Str) (r : ℕ) (d : Driver) where
  unmount_begin-object : ((unmount_begin write id r d).0).objects r ≡ record (d.objects r) {
    mounts = delete id (d.objects r).mounts;
    loop = if has_entry (delete id (d.objects r).mounts) then (d.objects r).loop else none;
  }
  unfolding unmount_begin save
  unmount_begin-object = elim (Bool-cases (has_entry (delete id (d.objects r).mounts))) [
    | inl more ↦ ground (arith, ==_iff r r, more)
    | inr last ↦ ground (arith, ==_iff r r, last)
  ]

  unmount_begin-disk : ((unmount_begin write id r d).0).disk ≡ d.disk
  unfolding unmount_begin save
  unmount_begin-disk = ground arith

  unmount_begin-volumes : ((unmount_begin write id r d).0).volumes ≡ d.volumes
  unfolding unmount_begin save
  unmount_begin-volumes = ground arith

module _ (write : List PersistedVolume → Option Str) where
  -- A mount that succeeds at a volume that is not yet active leaves it with its directory, a running
  -- loop and the caller among its mounts, and counts no render any more.
  pub mount-fills :
      (name id : Str) (n now r : ℕ) (d : Driver)
      → lookup name d.volumes ≡ some r
      → (d.objects r).name ≡ name
      → (d.objects r).loop ≡ none
      → let v = ((mount write name id true (wrote n) now d).0).objects r in
        (lookup name ((mount write name id true (wrote n) now d).0).disk ≡ some tt)
        × (has_loop v.loop ≡ true)
        × (lookup id v.mounts ≡ some tt)
        × (v.populating ≡ (d.objects r).populating)
  unfolding mount mount_leave filled record_refresh mount_begin
  mount-fills name id n now r d found named idle = ground (
    arith,
    mount_render-filled r n now d,
    mount_finish-object write name id r r true (filled r n now d) found,
    mount_finish-disk write name id r r true (filled r n now d) found,
    lookup-insert name name tt d.disk,
    lookup-insert id id tt (d.objects r).mounts,
    str_eq_refl name,
    str_eq_refl id,
    ==_iff r r,
  )

  -- When its last mount goes, a volume has no directory and no loop.
  pub unmount-wipes :
      (name id : Str) (r : ℕ) (d : Driver)
      → lookup name d.volumes ≡ some r
      → (d.objects r).name ≡ name
      → let after = (unmount write name id d).0 in
        (lookup name after.disk
          ≡ (if has_entry (delete id (d.objects r).mounts) then lookup name d.disk else none))
        × (has_loop (after.objects r).loop ≡ (
            if has_entry (delete id (d.objects r).mounts)
            then has_loop (d.objects r).loop
            else false))
  unfolding unmount wipe
  unmount-wipes name id r d found named =
      elim (Bool-cases (has_entry (delete id (d.objects r).mounts))) [
        | inl more ↦ ground (
          arith,
          found,
          more,
          named,
          unmount_begin-object write id r d,
          unmount_begin-disk write id r d,
          unmount_begin-volumes write id r d,
          lookup-delete name name d.disk,
          str_eq_refl name,
        )
        | inr last ↦ ground (
          arith,
          found,
          last,
          named,
          unmount_begin-object write id r d,
          unmount_begin-disk write id r d,
          unmount_begin-volumes write id r d,
          lookup-delete name name d.disk,
          str_eq_refl name,
        )
      ]

  -- The wipe that a request still owes deletes the directory of another volume, registered under the
  -- same name in the meantime, even while that one is mounted.
  pub wipe-of_recreated :
      (r c : ℕ) (d : Driver)
      → lookup (d.objects r).name d.volumes ≡ some c
      → (c == r) ≡ false
      → lookup (d.objects r).name (wipe r d).disk ≡ none
  unfolding wipe
  wipe-of_recreated r c d found other = ground (
    arith,
    lookup-delete (d.objects r).name (d.objects r).name d.disk,
    str_eq_refl (d.objects r).name,
  )

  -- The wipe leaves the directory of a volume that is mounted again.
  pub wipe-keeps :
      (r : ℕ) (d : Driver)
      → lookup (d.objects r).name d.volumes ≡ some r
      → has_entry (d.objects r).mounts ≡ true
      → wipe r d ≡ d
  unfolding wipe
  wipe-keeps r d found mounted = ground (arith, ==_iff r r)
