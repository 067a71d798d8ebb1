-- ===== src/Events/Tests.antt =====
-- internal/events/events.go: runs of the model, and the theorems at concrete inputs.
use dotvault.Prelude.{
  ℕ, Str, codes, Bool, true, false, List, [], ◌∷◌, none, some, ◌≡◌, refl, lookup, insert, str_eq, ℤ,
  pos, negsuc, length, All, arith, ◌+◌, ◌≤◌,
}
use dotvault.Events.{Event}
use dotvault.Events.Seen.{
  new_seen, scan, extend, last_seen, drop, make_room, version_of, admit, admit_all,
}
use dotvault.Events.Seen.Bound.{IsBounded, admit_all-IsBounded}
use dotvault.Events.Seen.Window.{restarts, count_key, admit-again}
use dotvault.Events.Hub.{
  Call, publishes, subscribes, cancels, receives, channel_has_eq, offer, perform_all, Hub,
}
use dotvault.Events.Hub.Subscriber.{queue_all, is_cancel, lookup-perform_all}

abbrev event : Str → ℤ → Event
event key version = record { key = key; version = version; source = []; time = none }

abbrev gh : ℕ → Event
gh n = event (codes "gh") (pos n)

admitted : Bool
unfolding new_seen admit_all admit lookup insert str_eq scan extend last_seen drop make_room
    version_of
admitted = (admit (gh 2) (admit_all (gh 2 ∷ gh 5 ∷ []) new_seen)).0

refused_twice : admitted ≡ false
unfolding admitted
refused_twice = refl

-- The first version of a secret that was deleted and written again.
again_first : (admit (gh 1) (admit_all (gh 2 ∷ gh 5 ∷ []) new_seen)).0 ≡ true
unfolding new_seen admit_all admit lookup insert str_eq scan extend last_seen drop make_room
    version_of
again_first = refl

versionless : (admit (event (codes "gh") (negsuc 0)) new_seen).0 ≡ false
unfolding admit version_of new_seen
versionless = refl

admit-again_example :
    (admit (gh 3) (
      admit_all
        (gh 4 ∷ event (codes "x") (pos 1) ∷ [])
        (admit (gh 3) (admit_all (gh 2 ∷ []) new_seen)).1)).0
    ≡ false
admit-again_example =
    admit-again (gh 2 ∷ []) (gh 4 ∷ event (codes "x") (pos 1) ∷ []) (gh 3) 3 version new
      (on, (other, tt)) few room
  where
    version : version_of (gh 3) ≡ some 3
    version = unfold version_of in refl

    new : (admit (gh 3) (admit_all (gh 2 ∷ []) new_seen)).0 ≡ true
    new =
        unfold new_seen admit_all admit lookup insert str_eq scan extend last_seen drop make_room
          version_of in
        refl

    on : restarts (codes "gh") 3 (gh 4) ≡ false
    on = unfold restarts version_of str_eq in refl

    other : restarts (codes "gh") 3 (event (codes "x") (pos 1)) ≡ false
    other = unfold restarts version_of str_eq in refl

    few : count_key (codes "gh") (gh 4 ∷ event (codes "x") (pos 1) ∷ []) ≤ 7
    few = unfold count_key str_eq in omega arith

    room :
        length (admit (gh 3) (admit_all (gh 2 ∷ []) new_seen)).1
          + length (gh 4 ∷ event (codes "x") (pos 1) ∷ [])
        ≤ 1024
    room =
        unfold new_seen admit_all admit lookup insert str_eq scan extend last_seen drop make_room
          version_of in
        omega arith

abbrev calls : List Call
calls = subscribes ∷ publishes 7 (gh 1) ∷ receives 0 ∷ cancels 1 ∷ publishes 8 (gh 2) ∷ []

abbrev one : Hub
one = record { next = 1; subs = (0, []) ∷ [] }

heard : queue_all 0 calls [] ≡ record (gh 2) { time = some 8 } ∷ []
unfolding queue_all offer
heard = refl

lookup-perform_all_example : lookup 0 (perform_all calls one).subs ≡ some (queue_all 0 calls [])
lookup-perform_all_example = lookup-perform_all 0 calls one [] (omega arith) kept there
  where
    kept : All (λ c. is_cancel 0 c ≡ false) calls
    kept = unfold is_cancel in (refl, (refl, (refl, (refl, (refl, tt)))))

    there : lookup 0 one.subs ≡ some []
    there = unfold lookup in refl

admit_all-IsBounded_example : IsBounded (admit_all (gh 2 ∷ gh 5 ∷ gh 2 ∷ []) new_seen)
admit_all-IsBounded_example = admit_all-IsBounded (gh 2 ∷ gh 5 ∷ gh 2 ∷ [])
