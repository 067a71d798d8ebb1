-- ===== src/DockerVol/Refresh/Restart.antt =====
-- A restart: load of internal/dockervol/state.go, then resume of refresh.go.
use dotvault.Prelude.{
  ℕ, ◌<◌, ◌==◌, ==_iff, Str, Map, Bool, true, false, not, List, [], ◌∷◌, none, some, ok, ℤ, ◌≡◌,
  refl, ap, ◌∙◌, inl, inr, lookup, lookup-insert, lookup-delete, str_has_eq, str_eq_iff,
  if◌then◌else◌, arith, Bool-cases, Option-cases,
}
use dotvault.DockerVol.Spec.{validate_name, validate}
use dotvault.DockerVol.Driver.{
  Volume, PersistedVolume, Driver, has_loop, has_entry, start_loop, remove_dir,
}
use dotvault.DockerVol.Driver.Registry.{IsWf}
use dotvault.DockerVol.Refresh.{resume_loops, sweep, resume}
use dotvault.DockerVol.Refresh.Events.{any_ref, any_ref-lookup}
use dotvault.DockerVol.Refresh.Recorded.{calls_mounted, is_mounted, is_mounted-load, disk-load}
use dotvault.DockerVol.State.{fill_spec, load_one, load}

-- What holds of a registered volume before resume: its loop does not run yet.
pub record IsLoadedAt (d : Driver) (name : Str) (r : ℕ) : Type 0 where
  pub bounded : r < d.next
  pub named : (d.objects r).name ≡ name
  pub name_valid : validate_name name ≡ none
  pub spec_valid : validate (d.objects r).spec ≡ none
  pub idle : (d.objects r).loop ≡ none

pub record IsLoaded (d : Driver) : Type 0 where
  pub each : (name : Str) (r : ℕ) → lookup name d.volumes ≡ some r → IsLoadedAt d name r

load_one-IsLoaded :
    (pv : PersistedVolume) (default_ttl : ℤ) (d : Driver)
    → validate_name pv.name ≡ none
    → validate (fill_spec default_ttl pv.spec) ≡ none
    → IsLoaded d
    → IsLoaded (load_one pv.name pv.opts (fill_spec default_ttl pv.spec) pv.mounts d)
unfolding load_one
load_one-IsLoaded pv default_ttl d nv sv w = record {
  each = λ n c e. ground (
    arith,
    w.each n c,
    lookup-insert pv.name n d.next d.volumes,
    str_eq_iff pv.name n,
    ==_iff d.next c,
    nv,
    sv,
  );
}

pub load-IsLoaded :
    (default_ttl : ℤ) (pvs : List PersistedVolume) (d : Driver) {d' : Driver}
    → load default_ttl pvs d ≡ ok d'
    → IsLoaded d
    → IsLoaded d'
unfolding load
load-IsLoaded default_ttl [] d {d'} e w = let same : d ≡ d' = cc e in rw (← same) w
load-IsLoaded default_ttl (pv ∷ pvs) d e w = elim (Option-cases (validate_name pv.name)) [
  | inr (x, bad) ↦ absurd (ground (arith, bad, e))
  | inl nv ↦ elim (Option-cases (validate (fill_spec default_ttl pv.spec))) [
    | inr (x, bad) ↦ absurd (ground (arith, nv, bad, e))
    | inl sv ↦
        load-IsLoaded default_ttl pvs
          (load_one pv.name pv.opts (fill_spec default_ttl pv.spec) pv.mounts d)
          (rw (nv, load, sv) at e) (load_one-IsLoaded pv default_ttl d nv sv w)
  ]
]

-- What resume makes of one volume.
resumed : Volume → Volume
resumed v =
    if has_entry v.mounts
    then record v { loop = some (record { initial = true; nudged = false }) }
    else v

resumed_idem : (v : Volume) → resumed (resumed v) ≡ resumed v
unfolding resumed
resumed_idem v = ground arith

start-resumed :
    (c r : ℕ) (d : Driver)
    → (if has_entry (d.objects c).mounts then start_loop c true d else d).objects r
      ≡ (if c == r then resumed (d.objects r) else d.objects r)
unfolding resumed
start-resumed c r d = elim (Bool-cases (has_entry (d.objects c).mounts)) [
  | inl mounted ↦ ground (arith, mounted, ==_iff c r)
  | inr free ↦ ground (arith, free, ==_iff c r)
]

resume_loops-object :
    (volumes : Map Str ℕ) (r : ℕ) (d : Driver)
    → (resume_loops volumes d).objects r
      ≡ (if any_ref volumes r then resumed (d.objects r) else d.objects r)
unfolding resume_loops any_ref
resume_loops-object [] r d = refl
resume_loops-object ((name, c) ∷ volumes) r d =
    resume_loops-object volumes r
      (if has_entry (d.objects c).mounts then start_loop c true d else d)
    ∙ rw (start-resumed c r d) (ground (arith, resumed_idem (d.objects r)))

resume_loops-volumes :
    (volumes : Map Str ℕ) (d : Driver) → (resume_loops volumes d).volumes ≡ d.volumes
unfolding resume_loops
resume_loops-volumes [] d = refl
resume_loops-volumes ((name, c) ∷ volumes) d =
    resume_loops-volumes volumes (if has_entry (d.objects c).mounts then start_loop c true d else d)
    ∙ ground arith

resume_loops-next : (volumes : Map Str ℕ) (d : Driver) → (resume_loops volumes d).next ≡ d.next
unfolding resume_loops
resume_loops-next [] d = refl
resume_loops-next ((name, c) ∷ volumes) d =
    resume_loops-next volumes (if has_entry (d.objects c).mounts then start_loop c true d else d)
    ∙ ground arith

-- A directory stays if its volume is mounted, or if the driver could not have made its name.
swept : Driver → Str → Bool
swept d name = elim (validate_name name) [
  | some e ↦ false
  | none ↦ elim (lookup name d.volumes) [ none ↦ true | some r ↦ not (has_loop (d.objects r).loop) ]
]

sweep-cons :
    (n : Str) (u : Unit {0}) (entries : Map Str (Unit {0})) (d : Driver)
    → sweep ((n, u) ∷ entries) d ≡ sweep entries (if swept d n then remove_dir n d else d)
unfolding sweep swept
sweep-cons n u entries d = elim (Option-cases (validate_name n)) [
  | inr (e, bad) ↦ ground (arith, bad)
  | inl fine ↦ elim (Option-cases (lookup n d.volumes)) [
    | inl unknown ↦ ground (arith, fine, unknown)
    | inr (r, found) ↦ elim (Bool-cases (has_loop (d.objects r).loop)) [
      | inl runs ↦ ground (arith, fine, found, runs)
      | inr idle ↦ ground (arith, fine, found, idle)
    ]
  ]
]

swept-remove_dir : (n name : Str) (d : Driver) → swept (remove_dir n d) name ≡ swept d name
unfolding swept
swept-remove_dir n name d = refl

sweep-disk :
    (entries : Map Str (Unit {0})) (name : Str) (d : Driver)
    → lookup name (sweep entries d).disk ≡ elim (lookup name entries) [
      | none ↦ lookup name d.disk
      | some u ↦ if swept d name then none else lookup name d.disk
    ]
unfolding lookup
sweep-disk [] name d = unfold sweep in refl
sweep-disk ((n, u) ∷ entries) name d = elim (Bool-cases (swept d n)) [
  | inl gone ↦
      rw (sweep-cons n u entries d, gone)
        (sweep-disk entries name (remove_dir n d)
          ∙ ground (
            arith,
            swept-remove_dir n name d,
            gone,
            lookup-delete n name d.disk,
            str_eq_iff n name,
          ))
  | inr stays ↦
      rw (sweep-cons n u entries d, stays)
        (sweep-disk entries name d ∙ ground (arith, stays, str_eq_iff n name))
]

-- sweep only deletes directories.
sweep-registry :
    (entries : Map Str (Unit {0})) (d : Driver)
    → (sweep entries d).objects ≡ d.objects
      × ((sweep entries d).volumes ≡ d.volumes)
      × ((sweep entries d).next ≡ d.next)
sweep-registry [] d = unfold sweep in (refl, refl, refl)
sweep-registry ((n, u) ∷ entries) d = elim (Bool-cases (swept d n)) [
  | inl gone ↦ rw (sweep-cons n u entries d, gone) (sweep-registry entries (remove_dir n d))
  | inr stays ↦ rw (sweep-cons n u entries d, stays) (sweep-registry entries d)
]

pub resume-IsWf : (d : Driver) → IsLoaded d → IsWf (resume d)
resume-IsWf d w =
    let loops = resume_loops d.volumes d in
    let (objects, volumes, next) = sweep-registry loops.disk loops in
    unfold resume in
    record {
      each = λ name r e.
          let found : lookup name d.volumes ≡ some r =
            rw (volumes, resume_loops-volumes d.volumes d) at e in
          let v : (sweep loops.disk loops).objects r ≡ resumed (d.objects r) =
            ap (λ (o : ℕ → Volume). o r) objects
            ∙ resume_loops-object d.volumes r d
            ∙ rw (any_ref-lookup d.volumes name r found) refl in
          let h = w.each name r found in
          unfold resumed in ground (arith, v, next, resume_loops-next d.volumes d, h);
    }

resume_loops-disk : (volumes : Map Str ℕ) (d : Driver) → (resume_loops volumes d).disk ≡ d.disk
unfolding resume_loops
resume_loops-disk [] d = refl
resume_loops-disk ((name, c) ∷ volumes) d =
    resume_loops-disk volumes (if has_entry (d.objects c).mounts then start_loop c true d else d)
    ∙ ground arith

swept-resumed :
    (d : Driver) (name : Str)
    → IsLoaded d
    → swept (resume_loops d.volumes d) name
      ≡ elim (validate_name name) [ some e ↦ false | none ↦ not (is_mounted d name) ]
unfolding swept is_mounted
swept-resumed d name w = elim (Option-cases (lookup name d.volumes)) [
  | inl unknown ↦ ground (arith, unknown, resume_loops-volumes d.volumes d)
  | inr (r, found) ↦
      unfold resumed in
      ground (
        arith,
        found,
        resume_loops-volumes d.volumes d,
        resume_loops-object d.volumes r d,
        any_ref-lookup d.volumes name r found,
        w.each name r found,
      )
]

pub none-IsLoaded : (d : Driver) → d.volumes ≡ [] → IsLoaded d
none-IsLoaded d blank = record { each = λ n c f. unfold lookup in ground (arith, blank, f) }

-- Of the directories that stand on disk when the driver starts, those stay whose volume the last
-- entry of its name in the state file calls mounted, and those whose name the driver could not have
-- made; the others are gone.
pub resume-disk :
    (default_ttl : ℤ) (pvs : List PersistedVolume) (d d' : Driver) (name : Str)
    → d.volumes ≡ []
    → load default_ttl pvs d ≡ ok d'
    → lookup name (resume d').disk ≡ elim (validate_name name) [
      | some e ↦ lookup name d.disk
      | none ↦ if calls_mounted pvs name then lookup name d.disk else none
    ]
unfolding resume
resume-disk default_ttl pvs d d' name blank e =
    let w : IsLoaded d' = load-IsLoaded default_ttl pvs d e (none-IsLoaded d blank) in
    let loops = resume_loops d'.volumes d' in
    sweep-disk loops.disk name loops
    ∙ ground (
      arith,
      swept-resumed d' name w,
      resume_loops-disk d'.volumes d',
      disk-load default_ttl pvs d d' e,
      is_mounted-load default_ttl pvs d d' name (λ n c f. unfold lookup in ground (arith, blank, f))
          e,
      unmounted,
    )
  where
    unmounted : is_mounted d name ≡ false
    unmounted = unfold is_mounted lookup in rw blank refl
