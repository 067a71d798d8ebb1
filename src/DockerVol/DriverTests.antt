-- ===== src/DockerVol/DriverTests.antt =====
-- Runs and instances for the driver and the certificate timer of internal/dockervol.
use dotvault.Prelude.{
  ℕ, ◌+◌, ◌≤◌, Str, codes, false, List, [], ◌∷◌, Option, none, some, ok, ℤ, pos, ◌≡◌, refl, lookup,
  insert, delete, str_has_eq, str_eq, is_empty, if◌then◌else◌, arith,
}
use dotvault.KvPath as KvPath
use dotvault.Config.Duration.{validate_docker_ttl}
use dotvault.DockerVol.Spec.{
  Spec, client_cert_off, client_cert_with, initial, validate_name, matches_name, all_name_bytes,
  is_alphanumeric, mode_ok, layout_ok, client_cert_ok, only_conflicts, all_selections_ok, validate,
  parse_options, check_options, apply_options,
}
use dotvault.DockerVol.Driver.{
  Volume, Edition, Driver, PersistedVolume, update, add_volume, save, create,
}
use dotvault.DockerVol.Driver.Registry.{IsRegistered}
use dotvault.DockerVol.Refresh.{resume_loops, sweep, resume}
use dotvault.DockerVol.Refresh.Recorded.{mounted_from, calls_mounted}
use dotvault.DockerVol.Refresh.Restart.{resume-disk}
use dotvault.DockerVol.State.{mount_set, fill_spec, load_one, load}
use dotvault.DockerVol.Reach.{Step, Reach, Reach-IsRegistered}
use dotvault.DockerVol.CertTimer.{Source, Pair, cert_timer_min, next_cert_refresh}
use dotvault.DockerVol.CertTimer.Expiry.{next_cert_refresh-expiry}

abbrev std : Str → Option ℤ
std s = none

abbrev window : ℤ
window = pos 60_000_000_000

-- Writing the state file succeeds.
abbrev write : List PersistedVolume → Option Str
write st = none

abbrev blank : Volume
blank = record {
  name = codes "v";
  opts = [];
  spec = initial window;
  mounts = [];
  loop = none;
  populating = 0;
  pending_event = false;
  last_refresh = 0;
  last_err = [];
  secrets = 0;
}

abbrev empty : Driver
empty = record {
  objects = λ r. blank;
  next = 0;
  volumes = [];
  disk = (codes "old", tt) ∷ (codes "v", tt) ∷ [];
  edition = Edition.unknown;
  events_live = false;
  state_file = [];
}

-- One volume, not mounted.
abbrev one : Driver
one = record empty { next = 1; volumes = (codes "v", 0) ∷ [] }

-- The volume while a mount fills it.
abbrev filling : Driver
filling = update 0 (record blank { populating = 1 }) one

abbrev persisted : List PersistedVolume
persisted =
    record { name = codes "v"; opts = []; spec = initial window; mounts = codes "m" ∷ [] } ∷ []

abbrev loaded : Driver
loaded = load_one (codes "v") [] (fill_spec window (initial window)) (codes "m" ∷ []) empty

loads : load window persisted empty ≡ ok loaded
unfolding load validate_name matches_name all_name_bytes is_alphanumeric fill_spec validate
    client_cert_ok only_conflicts all_selections_ok layout_ok mode_ok validate_docker_ttl is_empty
    str_eq
loads = refl

-- The directory of a volume that is mounted stays.
resume-disk_example : lookup (codes "v") (resume loaded).disk ≡ elim (validate_name (codes "v")) [
  | some e ↦ lookup (codes "v") empty.disk
  | none ↦ if calls_mounted persisted (codes "v") then lookup (codes "v") empty.disk else none
]
resume-disk_example = resume-disk window persisted empty loaded (codes "v") refl loads

mounted_stays : lookup (codes "v") (resume loaded).disk ≡ some tt
unfolding resume mounted_from lookup sweep resume_loops load_one insert mount_set str_eq
    validate_name is_empty matches_name is_alphanumeric all_name_bytes delete
mounted_stays = refl

unmounted_goes : lookup (codes "old") (resume loaded).disk ≡ none
unfolding resume mounted_from lookup sweep resume_loops load_one insert mount_set str_eq
    validate_name is_empty matches_name is_alphanumeric all_name_bytes delete
unmounted_goes = refl

abbrev created : Driver
created = (create write std window false (codes "w") [] (resume loaded)).0

found_created : lookup (codes "w") created.volumes ≡ some 1
unfolding create save add_volume resume resume_loops sweep load_one mount_set parse_options
    check_options apply_options validate_name matches_name all_name_bytes is_alphanumeric fill_spec
    validate client_cert_ok only_conflicts all_selections_ok layout_ok mode_ok validate_docker_ttl
    is_empty lookup insert delete str_eq
found_created = refl

Reach-IsRegistered_example : IsRegistered created (codes "w") 1
Reach-IsRegistered_example =
    Reach-IsRegistered write std window false (codes "users/gary/") persisted empty loaded created
      (codes "w") 1 refl loads (Reach.next Reach.here (Step.creates (codes "w") [] (resume loaded)))
      found_created

abbrev pair : Pair
pair = record {
  source = Source.ephemeral;
  not_before = 0;
  refresh_at = 1_800_000_000_000;
  not_after = 3_600_000_000_000;
}

abbrev cert_spec : Spec
cert_spec = record (initial window) { client_cert = client_cert_with }

carries : str_eq cert_spec.client_cert client_cert_off ≡ false
unfolding str_eq
carries = refl

next_cert_refresh-expiry_example :
    (delay : ℕ) × ((next_cert_refresh 10_000_000_000
        (λ b. b)
        1_700_000_000_000
        cert_spec
        (some pair)
        none
        2).0
      ≡ some delay)
    × (1_700_000_000_000 + delay ≤ 3_600_000_000_000 + cert_timer_min)
next_cert_refresh-expiry_example =
    next_cert_refresh-expiry 10_000_000_000 (λ b. b) 1_700_000_000_000 cert_spec pair 2 carries
      (λ b. omega arith) (omega arith) (omega arith)
