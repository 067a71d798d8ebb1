-- ===== src/DockerVol/State.antt =====
-- internal/dockervol/state.go: the registry from its file. The file's text is JSON, which
-- encoding/json reads; the model begins at the entries that it holds.
use dotvault.Prelude.{
  ◌+◌, ◌==◌, Str, Map, Bool, true, false, List, [], ◌∷◌, none, some, Result, ok, err, ℤ, pos,
  negsuc, insert, str_has_eq, is_empty, if◌then◌else◌,
}
use dotvault.DockerVol.Spec.{SpecError, Spec, layout_json, default_mode, validate_name, validate}
use dotvault.DockerVol.Driver.{Volume, PersistedVolume, Driver}

abbrev pub not_positive : ℤ → Bool
not_positive (pos n) = n == 0
not_positive (negsuc n) = true

-- The defaults for what the entry leaves out.
unfoldable pub fill_spec : ℤ → Spec → Spec
fill_spec default_ttl s = record s {
  ttl = if not_positive s.ttl then default_ttl else s.ttl;
  layout = if is_empty s.layout then layout_json else s.layout;
  mode = if s.mode == 0 then default_mode else s.mode;
}

unfoldable pub mount_set : List Str → Map Str (Unit {0})
mount_set [] = []
mount_set (id ∷ ids) = insert id tt (mount_set ids)

unfoldable pub load_one : Str → Map Str Str → Spec → List Str → Driver → Driver
load_one name opts spec ids d =
    let v : Volume = record {
      name = name;
      opts = opts;
      spec = spec;
      mounts = mount_set ids;
      loop = none;
      populating = 0;
      pending_event = false;
      last_refresh = 0;
      last_err = [];
      secrets = 0;
    } in
    record d {
      objects = λ j. if d.next == j then v else d.objects j;
      next = d.next + 1;
      volumes = insert name d.next d.volumes;
    }

unfoldable pub load : ℤ → List PersistedVolume → Driver → Result SpecError Driver
load default_ttl [] d = ok d
load default_ttl (pv ∷ pvs) d = elim (validate_name pv.name) [
  | some e ↦ err e
  | none ↦ elim (validate (fill_spec default_ttl pv.spec)) [
    | some e ↦ err e
    | none ↦
        load default_ttl pvs (load_one pv.name pv.opts (fill_spec default_ttl pv.spec) pv.mounts d)
  ]
]
