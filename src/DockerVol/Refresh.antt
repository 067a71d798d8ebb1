-- ===== src/DockerVol/Refresh.antt =====
-- internal/dockervol/refresh.go: the loops, the events and the restart.
pub mod Events
pub mod Recorded
pub mod Restart
use dotvault.Prelude.{
  ℕ, zero, suc, Str, codes, Map, Bool, true, false, not, ◌&&◌, ◌||◌, List, [], ◌∷◌, Option, none,
  some, Result, ok, err, lookup, insert, str_has_eq, str_eq, cut_prefix, is_empty, if◌then◌else◌,
}
use dotvault.KvPath.{KvError, clean}
use dotvault.DockerVol.Spec.{Spec, client_cert_only, validate_name, covers}
use dotvault.DockerVol.Driver.{
  Loop, Volume, Edition, Driver, Outcome, wrote, failed, has_loop, has_entry, update, start_loop,
  stop_loop, remove_dir, record_refresh,
}

-- The modes that a volume's status reports
pub data RefreshMode : Type 0 where
  events poll probing : RefreshMode

unfoldable pub refresh_mode : Driver → RefreshMode
refresh_mode d = elim d.edition [
  | Edition.unknown ↦ RefreshMode.probing
  | Edition.enterprise ↦ if d.events_live then RefreshMode.events else RefreshMode.poll
  | Edition.community ↦ RefreshMode.poll
]

unfoldable pub events_driving : Driver → Bool
events_driving d = elim d.edition [ Edition.enterprise ↦ d.events_live | _ ↦ false ]

abbrev pub nudge : Loop → Loop
nudge l = record l { nudged = true }

unfoldable pub nudge_one : Volume → Volume
nudge_one v = elim v.loop [ none ↦ v | some l ↦ record v { loop = some (nudge l) } ]

unfoldable pub nudge_each : Map Str ℕ → Driver → Driver
nudge_each [] d = d
nudge_each ((name, r) ∷ volumes) d = nudge_each volumes (update r (nudge_one (d.objects r)) d)

unfoldable pub nudge_all : Driver → Driver
nudge_all d = nudge_each d.volumes d

-- What an event at a path does to a volume.
unfoldable pub dispatch_one : Str → Volume → Volume
dispatch_one rel v = if not (covers v.spec rel) then v else elim v.loop [
  | some l ↦ record v { loop = some (nudge l) }
  | none ↦ elim v.populating [ zero ↦ v | suc n ↦ record v { pending_event = true } ]
]

unfoldable pub dispatch_each : Str → Map Str ℕ → Driver → Driver
dispatch_each rel [] d = d
dispatch_each rel ((name, r) ∷ volumes) d =
    dispatch_each rel volumes (update r (dispatch_one rel (d.objects r)) d)

abbrev pub kv_operation_segments : List Str
kv_operation_segments =
    codes "data/" ∷ codes "metadata/" ∷ codes "delete/" ∷ codes "undelete/" ∷ codes "destroy/" ∷ []

-- The first of the segments that the path has is cut.
unfoldable pub cut_segment : List Str → Str → Str
cut_segment [] p = p
cut_segment (seg ∷ segs) p = elim (cut_prefix p seg) [
  | some rest ↦ rest
  | none ↦ cut_segment segs p
]

unfoldable pub rel_path : Str → Str → Option Str
rel_path user_prefix p = elim (cut_prefix (cut_segment kv_operation_segments p) user_prefix) [
  | none ↦ none
  | some rest ↦ elim (clean rest) [
    | err e ↦ none
    | ok path ↦ if is_empty path then none else some path
  ]
]

unfoldable pub dispatch : Str → Str → Driver → Driver
dispatch user_prefix p d = elim (rel_path user_prefix p) [
  | none ↦ d
  | some rel ↦ dispatch_each rel d.volumes d
]

-- refresh: one rendering by a loop; one that was cancelled leaves no record.
unfoldable pub refresh : ℕ → Bool → Outcome → Bool → ℕ → Driver → Driver
refresh r has_token outcome cancelled now d =
    let v = d.objects r in
    if not (str_eq v.spec.client_cert client_cert_only) && not has_token
    then record_refresh r 0
        (some (
          codes "dotvault has not authenticated with vault yet, so the volume cannot be populated"))
        now d
    else elim outcome [
      | wrote n ↦ record_refresh r n none now (record d { disk = insert v.name tt d.disk })
      | failed msg left ↦
          let written : Driver = if left then record d { disk = insert v.name tt d.disk } else d in
          if cancelled then written else record_refresh r 0 (some msg) now written
    ]

-- resume: the loops of the volumes that are mounted start, rendering at once.
unfoldable pub resume_loops : Map Str ℕ → Driver → Driver
resume_loops [] d = d
resume_loops ((name, r) ∷ volumes) d =
    resume_loops volumes (if has_entry (d.objects r).mounts then start_loop r true d else d)

-- resume: the entries of the volume directory whose volume's loop does not run are removed, if their
-- name is one that the driver could have made.
unfoldable pub sweep : Map Str (Unit {0}) → Driver → Driver
sweep [] d = d
sweep ((name, u) ∷ entries) d =
    let kept : Bool = elim (lookup name d.volumes) [
      | none ↦ false
      | some r ↦ has_loop (d.objects r).loop
    ] in
    sweep entries
      (if kept then d else elim (validate_name name) [ some e ↦ d | none ↦ remove_dir name d ])

-- Reading the volume directory succeeds.
unfoldable pub resume : Driver → Driver
resume d = let resumed = resume_loops d.volumes d in sweep resumed.disk resumed

unfoldable pub stop_all : Map Str ℕ → Driver → Driver
stop_all [] d = d
stop_all ((name, r) ∷ volumes) d = stop_all volumes (stop_loop r d)
