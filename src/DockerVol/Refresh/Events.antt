-- ===== src/DockerVol/Refresh/Events.antt =====
-- Which volumes an event of Vault reaches: dispatch of internal/dockervol/refresh.go.
use dotvault.Prelude.{
  ℕ, suc, zero, ◌==◌, ==_iff, Str, Map, Bool, true, false, [], ◌∷◌, none, some, ◌≡◌, refl, ◌∙◌, inl,
  inr, lookup, str_has_eq, if◌then◌else◌, arith, Bool-cases,
}
use dotvault.DockerVol.Spec.{covers}
use dotvault.DockerVol.Driver.{Volume, Driver, update}
use dotvault.DockerVol.Refresh.{nudge, dispatch_one, dispatch_each, rel_path, dispatch}

dispatch_one_idem :
    (rel : Str) (v : Volume) → dispatch_one rel (dispatch_one rel v) ≡ dispatch_one rel v
unfolding dispatch_one
dispatch_one_idem rel v = ground arith

-- Some name is registered for the reference.
unfoldable pub any_ref : Map Str ℕ → ℕ → Bool
any_ref [] r = false
any_ref ((name, c) ∷ volumes) r = let rest = any_ref volumes r in if c == r then true else rest

dispatch_each-object :
    (rel : Str) (volumes : Map Str ℕ) (r : ℕ) (d : Driver)
    → (dispatch_each rel volumes d).objects r
      ≡ (if any_ref volumes r then dispatch_one rel (d.objects r) else d.objects r)
unfolding dispatch_each any_ref
dispatch_each-object rel [] r d = refl
dispatch_each-object rel ((name, c) ∷ volumes) r d = elim (Bool-cases (c == r)) [
  | inl same ↦
      dispatch_each-object rel volumes r (update c (dispatch_one rel (d.objects c)) d)
      ∙ ground (arith, same, ==_iff c r, dispatch_one_idem rel (d.objects r))
  | inr other ↦
      dispatch_each-object rel volumes r (update c (dispatch_one rel (d.objects c)) d)
      ∙ ground (arith, other)
]

pub any_ref-lookup :
    (volumes : Map Str ℕ) (name : Str) (r : ℕ)
    → lookup name volumes ≡ some r
    → any_ref volumes r ≡ true
unfolding lookup any_ref
any_ref-lookup [] name r found = cc
any_ref-lookup ((n, c) ∷ volumes) name r found =
    ground (arith, found, any_ref-lookup volumes name r, ==_iff c r)

dispatch_inside :
    (user_prefix p rel : Str) (d : Driver)
    → rel_path user_prefix p ≡ some rel
    → dispatch user_prefix p d ≡ dispatch_each rel d.volumes d
unfolding dispatch
dispatch_inside user_prefix p rel d inside = rw (inside, dispatch)

dispatch_one_lem :
    (rel : Str) (v : Volume)
    → dispatch_one rel v ≡ (
        if covers v.spec rel
        then record v {
          loop = elim v.loop [ none ↦ none | some l ↦ some (nudge l) ];
          pending_event = elim v.loop [
            | some l ↦ v.pending_event
            | none ↦ elim v.populating [ zero ↦ v.pending_event | suc k ↦ true ]
          ];
        }
        else v)
unfolding dispatch_one
dispatch_one_lem rel v = ground arith

-- An event at a path of the user reaches every registered volume: one that covers the path is told
-- to render again if its loop runs, and else remembers the event if a mount is filling it; nothing
-- else of it changes, and one that does not cover the path is left as it is.
pub dispatch-object :
    (user_prefix p rel name : Str) (r : ℕ) (d : Driver)
    → rel_path user_prefix p ≡ some rel
    → lookup name d.volumes ≡ some r
    → (dispatch user_prefix p d).objects r ≡ (
        if covers (d.objects r).spec rel
        then record (d.objects r) {
          loop = elim (d.objects r).loop [ none ↦ none | some l ↦ some (nudge l) ];
          pending_event = elim (d.objects r).loop [
            | some l ↦ (d.objects r).pending_event
            | none ↦ elim (d.objects r).populating [
              | zero ↦ (d.objects r).pending_event
              | suc k ↦ true
            ]
          ];
        }
        else d.objects r)
dispatch-object user_prefix p rel name r d inside found =
    rw
      (
        dispatch_inside user_prefix p rel d inside,
        dispatch_each-object rel d.volumes r d,
        any_ref-lookup d.volumes name r found,
      )
      (dispatch_one_lem rel (d.objects r))
