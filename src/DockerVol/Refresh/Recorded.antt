-- ===== src/DockerVol/Refresh/Recorded.antt =====
-- internal/dockervol/state.go: which volumes the state file calls mounted, and what load makes of it.
use dotvault.Prelude.{
  ℕ, ◌<◌, ==_iff, Str, Map, Bool, true, false, List, [], ◌∷◌, none, some, ok, ℤ, ◌≡◌, refl, sym, ap,
  ◌∙◌, inl, inr, lookup, insert, lookup-insert, str_has_eq, str_eq, if◌then◌else◌, arith,
  Option-cases,
}
use dotvault.DockerVol.Driver.{PersistedVolume, Driver, has_entry}
use dotvault.DockerVol.State.{fill_spec, mount_set, load_one, load}

-- Whether a list has an element.
abbrev pub any_id : List Str → Bool
any_id [] = false
any_id (id ∷ ids) = true

-- Whether the last entry of this name lists a mount; `before` where there is no entry.
unfoldable pub mounted_from : Bool → List PersistedVolume → Str → Bool
mounted_from before [] name = before
mounted_from before (pv ∷ pvs) name =
    mounted_from (if str_eq pv.name name then any_id pv.mounts else before) pvs name

abbrev pub calls_mounted : List PersistedVolume → Str → Bool
calls_mounted = mounted_from false

-- Some mount of the volume of this name is recorded.
unfoldable pub is_mounted : Driver → Str → Bool
is_mounted d name = elim (lookup name d.volumes) [
  | none ↦ false
  | some r ↦ has_entry (d.objects r).mounts
]

abbrev IsBounded : Driver → Type 0
IsBounded d = (n : Str) (c : ℕ) → lookup n d.volumes ≡ some c → c < d.next

has_entry-insert : (id : Str) (m : Map Str (Unit {0})) → has_entry (insert id tt m) ≡ true
unfolding insert
has_entry-insert id [] = refl
has_entry-insert id ((j, u) ∷ m) = ground arith

has_entry-mount_set : (ids : List Str) → has_entry (mount_set ids) ≡ any_id ids
unfolding mount_set
has_entry-mount_set [] = refl
has_entry-mount_set (id ∷ ids) = has_entry-insert id (mount_set ids)

module _ (default_ttl : ℤ) where
  abbrev loaded : PersistedVolume → Driver → Driver
  loaded pv d = load_one pv.name pv.opts (fill_spec default_ttl pv.spec) pv.mounts d

  loaded-IsBounded : (pv : PersistedVolume) (d : Driver) → IsBounded d → IsBounded (loaded pv d)
  unfolding load_one
  loaded-IsBounded pv d w n c e = ground (arith, e, w n c, lookup-insert pv.name n d.next d.volumes)

  is_mounted-loaded :
      (pv : PersistedVolume) (d : Driver) (name : Str)
      → IsBounded d
      → is_mounted (loaded pv d) name
        ≡ (if str_eq pv.name name then any_id pv.mounts else is_mounted d name)
  unfolding load_one is_mounted
  is_mounted-loaded pv d name w = elim (Option-cases (lookup name d.volumes)) [
    | inl unknown ↦ ground (
      arith,
      unknown,
      lookup-insert pv.name name d.next d.volumes,
      ==_iff d.next d.next,
      has_entry-mount_set pv.mounts,
    )
    | inr (r, found) ↦ ground (
      arith,
      found,
      w name r found,
      lookup-insert pv.name name d.next d.volumes,
      ==_iff d.next d.next,
      ==_iff d.next r,
      has_entry-mount_set pv.mounts,
    )
  ]

  load-step :
      (pv : PersistedVolume) (pvs : List PersistedVolume) (d d' : Driver)
      → load default_ttl (pv ∷ pvs) d ≡ ok d'
      → load default_ttl pvs (loaded pv d) ≡ ok d'
  unfolding load
  load-step pv pvs d d' e = ground (arith, e)

  -- After load, a volume has a mount exactly if the last entry of its name lists one.
  pub is_mounted-load :
      (pvs : List PersistedVolume) (d d' : Driver) (name : Str)
      → IsBounded d
      → load default_ttl pvs d ≡ ok d'
      → is_mounted d' name ≡ mounted_from (is_mounted d name) pvs name
  unfolding mounted_from
  is_mounted-load [] d d' name w e =
      let same : d ≡ d' = unfold load in cc e in ap (λ x. is_mounted x name) (sym same)
  is_mounted-load (pv ∷ pvs) d d' name w e =
      is_mounted-load pvs (loaded pv d) d' name (loaded-IsBounded pv d w) (load-step pv pvs d d' e)
      ∙ ap (λ b. mounted_from b pvs name) (is_mounted-loaded pv d name w)

  pub disk-load :
      (pvs : List PersistedVolume) (d d' : Driver)
      → load default_ttl pvs d ≡ ok d'
      → d'.disk ≡ d.disk
  disk-load [] d d' e = let same : d ≡ d' = unfold load in cc e in ap (λ x. x.disk) (sym same)
  disk-load (pv ∷ pvs) d d' e =
      disk-load pvs (loaded pv d) d' (load-step pv pvs d d' e) ∙ (unfold load_one in refl)
