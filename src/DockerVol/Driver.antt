-- ===== src/DockerVol/Driver.antt =====
-- internal/dockervol/driver.go and refresh.go: the registry of volumes and the requests on it.
--
-- Volumes are Go objects, so the model has a heap of them, and the registry maps a name to a
-- reference. Each function is one critical section under the driver's mutex, and a request is a
-- sequence of sections, between which those of other requests may come.
pub mod Registry
pub mod Directory
use dotvault.Prelude.{
  ℕ, ◌+◌, ◌-◌, ◌==◌, Str, Map, Bool, true, false, not, ◌&&◌, ◌||◌, List, [], ◌∷◌, Option, none,
  some, Result, ok, err, ℤ, lookup, insert, delete, str_has_eq, str_eq, str_lt, sort_strings,
  if◌then◌else◌,
}
use dotvault.DockerVol.Spec.{
  SpecError, Spec, client_cert_off, client_cert_only, validate_name, parse_options, equal,
}

-- A loop that runs: whether it was told to render at once, and its channel of capacity one.
pub record Loop : Type 0 where
  pub initial : Bool
  pub nudged : Bool

-- The type volume. A loop is there while `cancel` is not nil.
pub record Volume : Type 0 where
  pub name : Str
  pub opts : Map Str Str
  pub spec : Spec
  pub mounts : Map Str (Unit {0})
  pub loop : Option Loop
  pub populating : ℕ
  pub pending_event : Bool
  pub last_refresh : ℕ
  pub last_err : Str
  pub secrets : ℕ

pub data Edition : Type 0 where
  unknown community enterprise : Edition

-- One entry of the state file
pub record PersistedVolume : Type 0 where
  pub name : Str
  pub opts : Map Str Str
  pub spec : Spec
  pub mounts : List Str

-- The driver with the disk that it works on: the volumes whose directory exists, and the state file.
pub record Driver : Type 0 where
  pub objects : ℕ → Volume
  pub next : ℕ
  pub volumes : Map Str ℕ
  pub disk : Map Str (Unit {0})
  pub edition : Edition
  pub events_live : Bool
  pub state_file : List PersistedVolume

pub data DriverError : Type 0 where
  bad_volume : SpecError → DriverError
  client_cert_disabled different_options not_found no_token : DriverError
  populate save_failed : Str → DriverError

abbrev pub has_loop : Option Loop → Bool
has_loop none = false
has_loop (some l) = true

-- len(m) > 0
abbrev pub has_entry : Map Str (Unit {0}) → Bool
has_entry [] = false
has_entry (kv ∷ m) = true

abbrev pub update : ℕ → Volume → Driver → Driver
update r v d = record d { objects = λ j. if r == j then v else d.objects j }

abbrev pub start_loop : ℕ → Bool → Driver → Driver
start_loop r initial d =
    update r (record (d.objects r) { loop = some (record { initial = initial; nudged = false }) }) d

abbrev pub stop_loop : ℕ → Driver → Driver
stop_loop r d = update r (record (d.objects r) { loop = none }) d

-- removeDir
abbrev pub remove_dir : Str → Driver → Driver
remove_dir name d = record d { disk = delete name d.disk }

unfoldable pub keys : Map Str (Unit {0}) → List Str
keys [] = []
keys ((k, u) ∷ m) = k ∷ keys m

unfoldable pub insert_persisted : PersistedVolume → List PersistedVolume → List PersistedVolume
insert_persisted p [] = p ∷ []
insert_persisted p (q ∷ ps) =
    let rest = insert_persisted p ps in if str_lt q.name p.name then q ∷ rest else p ∷ q ∷ ps

-- What saveLocked writes, sorted by name.
unfoldable pub snapshot : (ℕ → Volume) → Map Str ℕ → List PersistedVolume
snapshot objects [] = []
snapshot objects ((name, r) ∷ volumes) =
    let v = objects r in
    insert_persisted
      (record {
        name = v.name;
        opts = v.opts;
        spec = v.spec;
        mounts = sort_strings (keys v.mounts);
      })
      (snapshot objects volumes)

-- The outcome of materialise: the secrets written, or an error, which may leave a directory.
pub data Outcome : Type 0 where
  wrote : ℕ → Outcome
  failed : Str → Bool → Outcome

unfoldable pub add_volume : Str → Map Str Str → Spec → Driver → Driver
add_volume name opts spec d =
    let v : Volume = record {
      name = name;
      opts = opts;
      spec = spec;
      mounts = [];
      loop = none;
      populating = 0;
      pending_event = false;
      last_refresh = 0;
      last_err = [];
      secrets = 0;
    } in
    record (update d.next v d) { next = d.next + 1; volumes = insert name d.next d.volumes }

-- The wait for the stopped loop's end is left out: its last rendering counts as before the stop.
unfoldable pub wipe : ℕ → Driver → Driver
wipe r d =
    let v = d.objects r in
    let current : Bool = elim (lookup v.name d.volumes) [ none ↦ false | some c ↦ c == r ] in
    if current && has_entry v.mounts then d else remove_dir v.name d

-- The first section of Mount, at a volume whose loop does not run.
unfoldable pub mount_begin : ℕ → Driver → Driver
mount_begin r d = update r (record (d.objects r) { populating = (d.objects r).populating + 1 }) d

-- recordRefresh
unfoldable pub record_refresh : ℕ → ℕ → Option Str → ℕ → Driver → Driver
record_refresh r secrets e now d = elim e [
  | some msg ↦ update r (record (d.objects r) { last_err = msg }) d
  | none ↦
      update r (record (d.objects r) { last_err = []; last_refresh = now; secrets = secrets }) d
]

-- The part of Mount that fills the directory.
unfoldable pub mount_render : ℕ → Bool → Outcome → ℕ → Driver → Driver × Option DriverError
mount_render r has_token outcome now d =
    let v = d.objects r in
    if not (str_eq v.spec.client_cert client_cert_only) && not has_token
    then (d, some no_token)
    else elim outcome [
      | wrote n ↦ (record_refresh r n none now (record d { disk = insert v.name tt d.disk }), none)
      | failed msg left ↦ (
        record_refresh r 0 (some msg) now
            (if left then record d { disk = insert v.name tt d.disk } else d),
        some (populate msg),
      )
    ]

-- The deferred part of Mount.
unfoldable pub mount_leave : ℕ → Driver → Driver
mount_leave r d = update r (record (d.objects r) { populating = (d.objects r).populating - 1 }) d

-- What writing the state file answers.
module _ (write : List PersistedVolume → Option Str) where
  unfoldable pub save : Driver → Driver × Option DriverError
  save d =
      let st = snapshot d.objects d.volumes in
      elim (write st) [
        | some e ↦ (d, some (save_failed e))
        | none ↦ (record d { state_file = st }, none)
      ]

  -- Remove, up to its call of wipe.
  unfoldable pub remove_begin : Str → ℕ → Driver → Driver × Option DriverError
  remove_begin name r d = save (record (stop_loop r d) { volumes = delete name d.volumes })

  -- Unmount, up to its call of wipe, which comes only if no mount is left.
  unfoldable pub unmount_begin : Str → ℕ → Driver → Driver × Option DriverError
  unmount_begin id r d =
      let left = delete id (d.objects r).mounts in
      let dropped = update r (record (d.objects r) { mounts = left }) d in
      if has_entry left then save dropped else save (stop_loop r dropped)

  -- The last section of Mount.
  unfoldable pub mount_finish : Str → Str → ℕ → Bool → Driver → Driver × Option DriverError
  mount_finish name id r populated d = elim (lookup name d.volumes) [
    | none ↦ (if populated then remove_dir (d.objects r).name d else d, some not_found)
    | some still ↦
        let v = d.objects r in
        let mounted = record v { mounts = insert id tt v.mounts; pending_event = false } in
        save (elim v.loop [
          | some l ↦ update r mounted d
          | none ↦ start_loop r (not populated || v.pending_event) (update r mounted d)
        ])
  ]

  unfoldable pub remove : Str → Driver → Driver × Option DriverError
  remove name d = elim (lookup name d.volumes) [
    | none ↦ (d, some not_found)
    | some r ↦ let (begun, e) = remove_begin name r d in (wipe r begun, e)
  ]

  unfoldable pub unmount : Str → Str → Driver → Driver × Option DriverError
  unmount name id d = elim (lookup name d.volumes) [
    | none ↦ (d, none)
    | some r ↦
        let (begun, e) = unmount_begin id r d in
        if has_entry (begun.objects r).mounts then (begun, e) else (wipe r begun, e)
  ]

  unfoldable pub mount : Str → Str → Bool → Outcome → ℕ → Driver → Driver × Option DriverError
  mount name id has_token outcome now d = elim (lookup name d.volumes) [
    | none ↦ (d, some not_found)
    | some r ↦ elim (d.objects r).loop [
      | some l ↦ mount_finish name id r false d
      | none ↦
          let (rendered, e) = mount_render r has_token outcome now (mount_begin r d) in
          elim e [
            | some x ↦ (mount_leave r rendered, some x)
            | none ↦
                let (finished, e') = mount_finish name id r true rendered in
                (mount_leave r finished, e')
          ]
    ]
  ]

  -- With time.ParseDuration, the default window, and whether there is a source of certificates.
  unfoldable pub create :
      (Str → Option ℤ) → ℤ → Bool → Str → Map Str Str → Driver → Driver × Option DriverError
  create std default_ttl has_cert name opts d = elim (validate_name name) [
    | some e ↦ (d, some (bad_volume e))
    | none ↦ elim (parse_options std opts default_ttl) [
      | err e ↦ (d, some (bad_volume e))
      | ok spec ↦
          if not (str_eq spec.client_cert client_cert_off) && not has_cert
          then (d, some client_cert_disabled)
          else elim (lookup name d.volumes) [
            | some r ↦
                if equal (d.objects r).spec spec then (d, none) else (d, some different_options)
            | none ↦ save (add_volume name opts spec d)
          ]
    ]
  ]
