-- ===== src/DockerVol/Driver/Registry.antt =====
-- The registry of internal/dockervol/driver.go: which sections keep it well formed.
use dotvault.Prelude.{
  ℕ, ◌<◌, ==_iff, Str, Map, Bool, true, false, not, ◌&&◌, ◌||◌, List, [], ◌∷◌, Option, none, some,
  ok, ℤ, ◌≡◌, refl, inl, inr, lookup, insert, delete, lookup-insert, lookup-delete, str_has_eq,
  str_eq, str_eq_iff, if◌then◌else◌, arith, Bool-cases, Option-cases, Result-cases, first_value,
}
use dotvault.DockerVol.Spec.{
  Spec, validate_name, validate, client_cert_off, equal, initial, apply_options, parse_options,
  check_options,
}
use dotvault.DockerVol.Driver.{
  Volume, Driver, DriverError, PersistedVolume, Outcome, wrote, failed, has_loop, has_entry, update,
  start_loop, stop_loop, remove_dir, save, add_volume, create, remove_begin, unmount_begin, wipe,
  mount_begin, record_refresh, mount_render, mount_finish, mount_leave,
}

-- What holds of a registered volume: it carries the name that it is registered under, the name and
-- the definition are ones that validation accepts, and its loop runs exactly if it is mounted.
pub record IsRegistered (d : Driver) (name : Str) (r : ℕ) : Type 0 where
  pub bounded : r < d.next
  pub named : (d.objects r).name ≡ name
  pub name_valid : validate_name name ≡ none
  pub spec_valid : validate (d.objects r).spec ≡ none
  pub looping : has_loop (d.objects r).loop ≡ has_entry (d.objects r).mounts

pub record IsWf (d : Driver) : Type 0 where
  pub each : (name : Str) (r : ℕ) → lookup name d.volumes ≡ some r → IsRegistered d name r

-- A change of one object that keeps what is registered of it.
pub update-IsWf :
    (d : Driver) (r : ℕ) (v : Volume)
    → IsWf d
    → v.name ≡ (d.objects r).name
    → v.spec ≡ (d.objects r).spec
    → (has_loop (d.objects r).loop ≡ has_entry (d.objects r).mounts
        → has_loop v.loop ≡ has_entry v.mounts)
    → IsWf (update r v d)
update-IsWf d r v w n s l = record {
  each = λ name c e. ground (arith, w.each name c e, ==_iff r c, n, s, l);
}

if-IsWf :
    (b : Bool) (x y : Driver × Option DriverError)
    → IsWf x.0
    → IsWf y.0
    → IsWf (if b then x else y).0
if-IsWf true x y w v = w
if-IsWf false x y w v = v

pub remove_dir-IsWf : (d : Driver) (name : Str) → IsWf d → IsWf (remove_dir name d)
remove_dir-IsWf d name w = record { each = λ n c e. ground (arith, w.each n c e) }

pub wipe-IsWf : (r : ℕ) (d : Driver) → IsWf d → IsWf (wipe r d)
unfolding wipe
wipe-IsWf r d w = record { each = λ n c e. ground (arith, w.each n c) }

pub mount_begin-IsWf : (r : ℕ) (d : Driver) → IsWf d → IsWf (mount_begin r d)
mount_begin-IsWf r d w = unfold mount_begin in update-IsWf d r _ w refl refl (λ l. l)

pub mount_leave-IsWf : (r : ℕ) (d : Driver) → IsWf d → IsWf (mount_leave r d)
mount_leave-IsWf r d w = unfold mount_leave in update-IsWf d r _ w refl refl (λ l. l)

pub record_refresh-IsWf :
    (r n : ℕ) (e : Option Str) (now : ℕ) (d : Driver) → IsWf d → IsWf (record_refresh r n e now d)
record_refresh-IsWf r n none now d w =
    unfold record_refresh in update-IsWf d r _ w refl refl (λ l. l)
record_refresh-IsWf r n (some msg) now d w =
    unfold record_refresh in update-IsWf d r _ w refl refl (λ l. l)

pub mount_render-IsWf :
    (r : ℕ) (has_token : Bool) (outcome : Outcome) (now : ℕ) (d : Driver)
    → IsWf d
    → IsWf (mount_render r has_token outcome now d).0
unfolding mount_render record_refresh
mount_render-IsWf r has_token (wrote n) now d w = record {
  each = λ name c e. ground (arith, w.each name c, ==_iff r c);
}
mount_render-IsWf r has_token (failed msg left) now d w = record {
  each = λ name c e. ground (arith, w.each name c, ==_iff r c);
}

parse_options-validate :
    (std : Str → Option ℤ) (opts : Map Str Str) (default_ttl : ℤ) {s : Spec}
    → parse_options std opts default_ttl ≡ ok s
    → validate s ≡ none
unfolding parse_options check_options
parse_options-validate std opts default_ttl {s} e =
    let (t, checked, built) =
      first_value (check_options std) (apply_options std opts (initial default_ttl)) s e in
    ground (arith, checked)

delete-has_entry :
    (id : Str) (m : Map Str (Unit {0})) → has_entry (delete id m) ≡ true → has_entry m ≡ true
unfolding delete
delete-has_entry id [] h = cc
delete-has_entry id (kv ∷ m) h = refl

insert-has_entry : (id : Str) (m : Map Str (Unit {0})) → has_entry (insert id tt m) ≡ true
unfolding insert
insert-has_entry id [] = refl
insert-has_entry id ((j, u) ∷ m) = ground arith

module _ (write : List PersistedVolume → Option Str) where
  save-IsWf : (d : Driver) → IsWf d → IsWf (save write d).0
  unfolding save
  save-IsWf d w = record { each = λ n c e. ground (arith, w.each n c) }

  add_volume-IsWf :
      (name : Str) (opts : Map Str Str) (spec : Spec) (d : Driver)
      → validate_name name ≡ none
      → validate spec ≡ none
      → IsWf d
      → IsWf (add_volume name opts spec d)
  unfolding add_volume
  add_volume-IsWf name opts spec d nv sv w = record {
    each = λ n c e. ground (
      arith,
      w.each n c,
      e,
      lookup-insert name n d.next d.volumes,
      str_eq_iff name n,
      ==_iff d.next c,
    );
  }

  pub remove_begin-IsWf :
      (name : Str) (r : ℕ) (d : Driver)
      → lookup name d.volumes ≡ some r
      → IsWf d
      → IsWf (remove_begin write name r d).0
  remove_begin-IsWf name r d found w =
      unfold remove_begin in
      save-IsWf (record (stop_loop r d) { volumes = delete name d.volumes })
        (record {
          each = λ n c e. ground (
            arith,
            w.each n c,
            w.each name r found,
            lookup-delete name n d.volumes,
            str_eq_iff name n,
            ==_iff r c,
            e,
          );
        })

  pub unmount_begin-IsWf :
      (id : Str) (r : ℕ) (d : Driver) → IsWf d → IsWf (unmount_begin write id r d).0
  unmount_begin-IsWf id r d w =
      let left = delete id (d.objects r).mounts in
      unfold unmount_begin in
      elim (Bool-cases (has_entry left)) [
        | inl more ↦ rw more (
            save-IsWf (update r (record (d.objects r) { mounts = left }) d) (
              update-IsWf d r (record (d.objects r) { mounts = left }) w refl refl
                (λ l. ground (arith, l, more, delete-has_entry id (d.objects r).mounts))))
        | inr last ↦ rw last (
            save-IsWf (stop_loop r (update r (record (d.objects r) { mounts = left }) d)) (record {
              each = λ n c e. ground (arith, w.each n c, ==_iff r c, ==_iff r r, last, e);
            }))
      ]

  pub mount_finish-IsWf :
      (name id : Str) (r : ℕ) (populated : Bool) (d : Driver)
      → IsWf d
      → IsWf (mount_finish write name id r populated d).0
  unfolding mount_finish
  mount_finish-IsWf name id r populated d w = elim (Option-cases (lookup name d.volumes)) [
    | inl gone ↦
        rw (gone, mount_finish)
          (elim (Bool-cases populated) [
            | inl full ↦ rw full (remove_dir-IsWf d (d.objects r).name w)
            | inr bare ↦ rw bare w
          ])
    | inr (still, found) ↦
        let v = d.objects r in
        let mounted : Volume = record v { mounts = insert id tt v.mounts; pending_event = false } in
        let some_mount = insert-has_entry id v.mounts in
        elim (Option-cases v.loop) [
          | inl idle ↦
              rw (found, mount_finish, idle)
                (save-IsWf (start_loop r (not populated || v.pending_event) (update r mounted d))
                  (record {
                    each =
                        λ n c e. ground (arith, w.each n c, ==_iff r c, ==_iff r r, some_mount, e);
                  }))
          | inr (l, runs) ↦
              rw (found, mount_finish, runs)
                (save-IsWf (update r mounted d)
                  (update-IsWf d r mounted w refl refl (λ x. ground (arith, runs, some_mount))))
        ]
  ]

  pub create-IsWf :
      (std : Str → Option ℤ) (default_ttl : ℤ) (has_cert : Bool) (name : Str) (opts : Map Str Str)
      (d : Driver)
      → IsWf d
      → IsWf (create write std default_ttl has_cert name opts d).0
  unfolding create
  create-IsWf std default_ttl has_cert name opts d w = elim (Option-cases (validate_name name)) [
    | inr (x, bad) ↦ rw (bad, create) w
    | inl fine ↦ elim (Result-cases (parse_options std opts default_ttl)) [
      | inl (x, bad) ↦ rw (fine, create, bad) w
      | inr (spec, good) ↦
          let added = save-IsWf (add_volume name opts spec d) (
            add_volume-IsWf name opts spec d fine (parse_options-validate std opts default_ttl good)
              w) in
          rw (fine, create, good)
            (if-IsWf (not (str_eq spec.client_cert client_cert_off) && not has_cert) _ _ w
              (elim (Option-cases (lookup name d.volumes)) [
                | inl free ↦ rw free added
                | inr (r, taken) ↦ rw taken (if-IsWf (equal (d.objects r).spec spec) _ _ w w)
              ]))
    ]
  ]
