-- ===== src/Events/Seen/Bound.antt =====
-- internal/events/events.go: the sizes of what Seen remembers.
use dotvault.Prelude.{
  ℕ, zero, suc, ◌-◌, ◌≤◌, ◌<◌, ltb, leb, Str, str_has_eq, str_eq, true, false, List, [], ◌∷◌, ◌++◌,
  none, some, ◌≡◌, refl, inl, inr, lookup, insert, lookup-insert, length-insert, length, All,
  All-append, Option-cases, Bool-cases, arith,
}
use mathlib.Core.Logic.{◌⊎◌}
use mathlib.Core.Path.{subst, sym}
use dotvault.Events.{Event}
use dotvault.Events.Seen.{
  Seen, new_seen, scan, drop, last_seen, extend, make_room, recent_of, admit_version, version_of,
  admit, admit_all,
}

abbrev pub IsWindow : List ℕ → Type 0
IsWindow recent = (length recent ≤ 8) × All (λ v. 0 < v) recent

-- At most 1024 keys, and at most eight versions, all positive, for each.
pub record IsBounded (s : Seen) : Type 0 where
  pub keys : length s ≤ 1024
  pub windows : (key : Str) (recent : List ℕ) → lookup key s ≡ some recent → IsWindow recent

length-drop : (n : ℕ) (xs : List ℕ) → length (drop n xs) ≡ length xs - n
unfolding drop
length-drop zero xs = omega arith
length-drop (suc n) [] = omega arith
length-drop (suc n) (x ∷ xs) = omega (arith, length-drop n xs)

All-drop : (n : ℕ) (xs : List ℕ) → All (λ v. 0 < v) xs → All (λ v. 0 < v) (drop n xs)
unfolding drop
All-drop zero xs h = h
All-drop (suc n) [] h = h
All-drop (suc n) (x ∷ xs) h = All-drop n xs h.1

last_seen-IsWindow : (xs : List ℕ) → All (λ v. 0 < v) xs → IsWindow (last_seen xs)
unfolding last_seen
last_seen-IsWindow xs h = elim (Bool-cases (ltb 8 (length xs))) [
  | inl long ↦
      rw long ((omega (arith, length-drop (length xs - 8) xs)), All-drop (length xs - 8) xs h)
  | inr short ↦ rw short ((ground (arith, short)), h)
]

pub extend-IsWindow :
    (version lowest : ℕ) (recent : List ℕ)
    → 0 < version
    → All (λ v. 0 < v) recent
    → IsWindow (extend version lowest recent)
unfolding extend
extend-IsWindow version lowest recent positive h = elim (Bool-cases (ltb version lowest)) [
  | inl again ↦ rw again (last_seen-IsWindow (version ∷ []) (positive, tt))
  | inr on ↦ rw on (
      last_seen-IsWindow (recent ++ (version ∷ []))
        (All-append (λ v. 0 < v) recent (version ∷ []) h (positive, tt)))
]

pub make_room-cases :
    (key : Str) (s : Seen)
    → (make_room key s ≡ s) ⊎ ((make_room key s ≡ []) × (1024 ≤ length s) × (lookup key s ≡ none))
unfolding make_room
make_room-cases key s = elim (Option-cases (lookup key s)) [
  | inr (recent, known) ↦ inl (ground (arith, known))
  | inl new ↦ elim (Bool-cases (leb 1024 (length s))) [
    | inl full ↦ inr (ground (arith, new, full), ground (arith, full), new)
    | inr room ↦ inl (ground (arith, new, room))
  ]
]

make_room-keys :
    (key : Str) (s : Seen)
    → length s ≤ 1024
    → (length (make_room key s) ≤ 1024)
      × (lookup key (make_room key s) ≡ none → length (make_room key s) < 1024)
unfolding make_room lookup
make_room-keys key s h = ground (arith, h)

pub recent_of-cases :
    (key : Str) (s : Seen)
    → ((lookup key s ≡ none) × (recent_of key s ≡ [])) ⊎ (lookup key s ≡ some (recent_of key s))
recent_of-cases key s = elim (Option-cases (lookup key s)) [
  | inl unknown ↦ inl (unknown, ground (arith, unknown))
  | inr (recent, known) ↦ inr (ground (arith, known))
]

pub recent_of-positive : (key : Str) (s : Seen) → IsBounded s → All (λ v. 0 < v) (recent_of key s)
recent_of-positive key s b = elim (recent_of-cases key s) [
  | inl (unknown, e) ↦ subst (All (λ v. 0 < v)) (sym e) tt
  | inr known ↦ (b.windows key (recent_of key s) known).1
]

new_seen-IsBounded : IsBounded new_seen
unfolding new_seen lookup
new_seen-IsBounded = record { keys = omega arith; windows = λ key recent e. cc e }

make_room-IsBounded : (key : Str) (s : Seen) → IsBounded s → IsBounded (make_room key s)
make_room-IsBounded key s b = elim (make_room-cases key s) [
  | inl same ↦ subst IsBounded (sym same) b
  | inr (reset, _, _) ↦ subst IsBounded (sym reset) (unfold new_seen in new_seen-IsBounded)
]

record_version-IsBounded :
    (key : Str) (recent : List ℕ) (s : Seen)
    → IsBounded s
    → IsWindow recent
    → IsBounded (insert key recent (make_room key s))
record_version-IsBounded key recent s b w =
    let room = make_room-IsBounded key s b in
    record {
      keys =
          ground (arith, length-insert key recent (make_room key s), make_room-keys key s b.keys);
      windows = λ k r found. elim (Bool-cases (str_eq key k)) [
        | inl mine ↦
            let same : recent ≡ r =
              ground (arith, found, mine, lookup-insert key k recent (make_room key s)) in
            subst IsWindow same w
        | inr other ↦
            room.windows k r
              (ground (arith, found, other, lookup-insert key k recent (make_room key s)))
      ];
    }

pub version_of-positive : (e : Event) (n : ℕ) → version_of e ≡ some n → 0 < n
unfolding version_of
version_of-positive e n h = ground (arith, h)

-- The three ways of Admit.
pub admit-versionless : (e : Event) (s : Seen) → version_of e ≡ none → admit e s ≡ (false, s)
unfolding admit
admit-versionless e s bad = rw (bad, admit) refl

pub admit-repeated :
    (e : Event) (s : Seen) (n : ℕ)
    → version_of e ≡ some n
    → scan n 0 (recent_of e.key s) ≡ none
    → admit e s ≡ (false, make_room e.key s)
unfolding admit admit_version
admit-repeated e s n good seen = rw (good, admit) (rw (seen, admit_version) refl)

pub admit-new :
    (e : Event) (s : Seen) (n lowest : ℕ)
    → version_of e ≡ some n
    → scan n 0 (recent_of e.key s) ≡ some lowest
    → admit e s ≡ (true, insert e.key (extend n lowest (recent_of e.key s)) (make_room e.key s))
unfolding admit admit_version
admit-new e s n lowest good new = rw (good, admit) (rw (new, admit_version) refl)

pub admit-IsBounded : (e : Event) (s : Seen) → IsBounded s → IsBounded (admit e s).1
admit-IsBounded e s b = elim (Option-cases (version_of e)) [
  | inl bad ↦ rw (admit-versionless e s bad) b
  | inr (n, good) ↦ elim (Option-cases (scan n 0 (recent_of e.key s))) [
    | inl seen ↦ rw (admit-repeated e s n good seen) (make_room-IsBounded e.key s b)
    | inr (lowest, new) ↦ rw (admit-new e s n lowest good new) (
        record_version-IsBounded e.key (extend n lowest (recent_of e.key s)) s b (
          extend-IsWindow n lowest (recent_of e.key s) (version_of-positive e n good)
            (recent_of-positive e.key s b)))
  ]
]

pub admit_all-keeps : (es : List Event) (s : Seen) → IsBounded s → IsBounded (admit_all es s)
unfolding admit_all
admit_all-keeps [] s b = b
admit_all-keeps (e ∷ es) s b = admit_all-keeps es (admit e s).1 (admit-IsBounded e s b)

-- Whatever events come, Seen never tracks more than 1024 keys, nor more than eight versions of one,
-- and the versions are positive.
pub admit_all-IsBounded : (es : List Event) → IsBounded (admit_all es new_seen)
admit_all-IsBounded es = admit_all-keeps es new_seen new_seen-IsBounded
