-- ===== src/DockerVol/Reach.antt =====
-- Every order in which the critical sections of internal/dockervol can come, from a restart on.
use dotvault.Prelude.{
  ℕ, ==_iff, Str, Map, Bool, List, [], ◌∷◌, Option, none, some, ok, ℤ, ◌≡◌, lookup, str_has_eq,
  arith,
}
use dotvault.DockerVol.Driver.{
  PersistedVolume, Driver, Outcome, wrote, failed, update, create, remove_begin, unmount_begin,
  wipe, mount_begin, record_refresh, mount_render, mount_finish, mount_leave,
}
use dotvault.DockerVol.Driver.Registry.{
  IsRegistered, IsWf, update-IsWf, wipe-IsWf, mount_begin-IsWf, mount_leave-IsWf, mount_render-IsWf,
  remove_begin-IsWf, unmount_begin-IsWf, mount_finish-IsWf, create-IsWf,
}
use dotvault.DockerVol.Refresh.{
  nudge_one, nudge_each, nudge_all, dispatch_one, dispatch_each, dispatch, refresh, rel_path,
  resume,
}
use dotvault.DockerVol.State.{load}
use dotvault.DockerVol.Refresh.Restart.{resume-IsWf, load-IsLoaded, none-IsLoaded}

nudge_each-IsWf : (volumes : Map Str ℕ) (d : Driver) → IsWf d → IsWf (nudge_each volumes d)
unfolding nudge_each nudge_one
nudge_each-IsWf [] d w = w
nudge_each-IsWf ((name, r) ∷ volumes) d w =
    nudge_each-IsWf volumes (update r (nudge_one (d.objects r)) d) (
      update-IsWf d r (nudge_one (d.objects r)) w (ground arith) (ground arith)
        (λ l. ground (arith, l)))

dispatch_each-IsWf :
    (rel : Str) (volumes : Map Str ℕ) (d : Driver) → IsWf d → IsWf (dispatch_each rel volumes d)
unfolding dispatch_each dispatch_one
dispatch_each-IsWf rel [] d w = w
dispatch_each-IsWf rel ((name, r) ∷ volumes) d w =
    dispatch_each-IsWf rel volumes (update r (dispatch_one rel (d.objects r)) d) (
      update-IsWf d r (dispatch_one rel (d.objects r)) w (ground arith) (ground arith)
        (λ l. ground (arith, l)))

refresh-IsWf :
    (r : ℕ) (has_token : Bool) (outcome : Outcome) (cancelled : Bool) (now : ℕ) (d : Driver)
    → IsWf d
    → IsWf (refresh r has_token outcome cancelled now d)
unfolding refresh record_refresh
refresh-IsWf r has_token (wrote n) cancelled now d w = record {
  each = λ name c e. ground (arith, w.each name c, ==_iff r c);
}
refresh-IsWf r has_token (failed msg left) cancelled now d w = record {
  each = λ name c e. ground (arith, w.each name c, ==_iff r c);
}

event-IsWf :
    (o : Option Str) (d : Driver)
    → IsWf d
    → IsWf (elim o [ none ↦ d | some rel ↦ dispatch_each rel d.volumes d ])
event-IsWf none d w = w
event-IsWf (some rel) d w = dispatch_each-IsWf rel d.volumes d w

module _ (write : List PersistedVolume → Option Str) (std : Str → Option ℤ) (default_ttl : ℤ)
    (has_cert : Bool) (user_prefix : Str) where
  -- One section of some request, loop or watcher. A request holds the reference that it looked up
  -- when it began, so any reference may come, also one to a volume that was removed.
  pub data Step : Driver → Driver → Type 0 where
    creates :
        (name : Str) (opts : Map Str Str) (d : Driver)
        → Step d (create write std default_ttl has_cert name opts d).0
    removes :
        (name : Str) (r : ℕ) (d : Driver)
        → lookup name d.volumes ≡ some r
        → Step d (remove_begin write name r d).0
    unmounts : (id : Str) (r : ℕ) (d : Driver) → Step d (unmount_begin write id r d).0
    wipes : (r : ℕ) (d : Driver) → Step d (wipe r d)
    begins : (r : ℕ) (d : Driver) → Step d (mount_begin r d)
    fills :
        (r : ℕ) (has_token : Bool) (outcome : Outcome) (now : ℕ) (d : Driver)
        → Step d (mount_render r has_token outcome now d).0
    finishes :
        (name id : Str) (r : ℕ) (populated : Bool) (d : Driver)
        → Step d (mount_finish write name id r populated d).0
    leaves : (r : ℕ) (d : Driver) → Step d (mount_leave r d)
    renders :
        (r : ℕ) (has_token : Bool) (outcome : Outcome) (cancelled : Bool) (now : ℕ) (d : Driver)
        → Step d (refresh r has_token outcome cancelled now d)
    event : (p : Str) (d : Driver) → Step d (dispatch user_prefix p d)
    reconnects : (d : Driver) → Step d (nudge_all d)

  pub data Reach (s : Driver) : Driver → Type 0 where
    here : Reach s s
    next : {d d' : Driver} → Reach s d → Step d d' → Reach s d'

  Step-IsWf : {d d' : Driver} → Step d d' → IsWf d → IsWf d'
  Step-IsWf (Step.creates name opts d) w = create-IsWf write std default_ttl has_cert name opts d w
  Step-IsWf (Step.removes name r d found) w = remove_begin-IsWf write name r d found w
  Step-IsWf (Step.unmounts id r d) w = unmount_begin-IsWf write id r d w
  Step-IsWf (Step.wipes r d) w = wipe-IsWf r d w
  Step-IsWf (Step.begins r d) w = mount_begin-IsWf r d w
  Step-IsWf (Step.fills r has_token outcome now d) w = mount_render-IsWf r has_token outcome now d w
  Step-IsWf (Step.finishes name id r populated d) w =
      mount_finish-IsWf write name id r populated d w
  Step-IsWf (Step.leaves r d) w = mount_leave-IsWf r d w
  Step-IsWf (Step.renders r has_token outcome cancelled now d) w =
      refresh-IsWf r has_token outcome cancelled now d w
  Step-IsWf (Step.event p d) w = unfold dispatch in event-IsWf (rel_path user_prefix p) d w
  Step-IsWf (Step.reconnects d) w = unfold nudge_all in nudge_each-IsWf d.volumes d w

  Reach-IsWf : {s d : Driver} → IsWf s → Reach s d → IsWf d
  Reach-IsWf w here = w
  Reach-IsWf w (next r st) = Step-IsWf st (Reach-IsWf w r)

  -- In whatever order the sections of requests, loops and watcher come after a restart from a state
  -- file, what is registered is well formed: a registered volume carries its name, its name and its
  -- definition are ones that validation accepts, and its loop runs exactly while it is mounted.
  pub Reach-IsRegistered :
      (pvs : List PersistedVolume) (start loaded d : Driver) (name : Str) (r : ℕ)
      → start.volumes ≡ []
      → load default_ttl pvs start ≡ ok loaded
      → Reach (resume loaded) d
      → lookup name d.volumes ≡ some r
      → IsRegistered d name r
  Reach-IsRegistered pvs start loaded d name r blank e steps found =
      (Reach-IsWf
          (resume-IsWf loaded (load-IsLoaded default_ttl pvs start e (none-IsLoaded start blank)))
          steps).each
        name r found
