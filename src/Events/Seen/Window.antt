-- ===== src/Events/Seen/Window.antt =====
-- internal/events/events.go: how long Seen remembers a version.
use dotvault.Prelude.{
  ℕ, suc, ◌+◌, ◌≤◌, ◌<◌, ltb, Str, str_has_eq, str_eq, str_eq_iff, Bool, true, false, ◌&&◌, List,
  [], ◌∷◌, none, some, ◌≡◌, refl, sym, inl, inr, lookup, lookup-insert, length-insert, length, All,
  Option-cases, Bool-cases, arith, if◌then◌else◌,
}
use mathlib.Core.Path.{subst}
use dotvault.Events.{Event}
use dotvault.Events.Seen.{
  Seen, new_seen, scan, extend, make_room, recent_of, version_of, admit, admit_all,
}
use dotvault.Events.Seen.Bound.{
  IsBounded, make_room-cases, recent_of-positive, admit-versionless, admit-repeated, admit-new,
  admit-IsBounded, admit_all-IsBounded,
}
use dotvault.Events.Seen.Recent.{Recent, scan-Recent, scan-low, Recent-extend, Recent-recorded}

-- An event of the key with a lower version: the secret was deleted and written again.
unfoldable pub restarts : Str → ℕ → Event → Bool
restarts key v e = elim (version_of e) [ none ↦ false | some n ↦ str_eq e.key key && ltb n v ]

unfoldable pub count_key : Str → List Event → ℕ
count_key key [] = 0
count_key key (e ∷ es) = let rest = count_key key es in if str_eq e.key key then suc rest else rest

-- The key is tracked, and the version in its window.
record Remembers (key : Str) (v c : ℕ) (s : Seen) : Type 0 where
  window : List ℕ
  known : lookup key s ≡ some window
  recent : Recent v c window

Recent-weaken : (v c d : ℕ) (xs : List ℕ) → c ≤ d → Recent v c xs → Recent v d xs
Recent-weaken v c d [] h r = r
Recent-weaken v c d (x ∷ xs) h (inl (e, short)) = inl (e, omega arith)
Recent-weaken v c d (x ∷ xs) h (inr later) = inr (Recent-weaken v c d xs h later)

weaken : {key : Str} {v c d : ℕ} {s : Seen} → c ≤ d → Remembers key v c s → Remembers key v d s
weaken {v} {c} {d} h r = record {
  window = r.window;
  known = r.known;
  recent = Recent-weaken v c d r.window h r.recent;
}

make_room-room : (key : Str) (s : Seen) → length s < 1024 → make_room key s ≡ s
make_room-room key s h = elim (make_room-cases key s) [
  | inl same ↦ same
  | inr (_, full, _) ↦ absurd (omega arith)
]

make_room-known :
    (key : Str) (s : Seen) (recent : List ℕ) → lookup key s ≡ some recent → make_room key s ≡ s
make_room-known key s recent known = elim (make_room-cases key s) [
  | inl same ↦ same
  | inr (_, _, unknown) ↦ cc
]

length-admit_le : (e : Event) (s : Seen) → length s < 1024 → length (admit e s).1 ≤ suc (length s)
length-admit_le e s h = elim (Option-cases (version_of e)) [
  | inl bad ↦ rw (admit-versionless e s bad) (omega arith)
  | inr (n, good) ↦ elim (Option-cases (scan n 0 (recent_of e.key s))) [
    | inl seen ↦ rw (admit-repeated e s n good seen) (rw (make_room-room e.key s h) (omega arith))
    | inr (low, new) ↦ rw (admit-new e s n low good new) (
        rw (make_room-room e.key s h)
          (ground (arith, length-insert e.key (extend n low (recent_of e.key s)) s)))
  ]
]

not_lower :
    (key : Str) (v : ℕ) (e : Event) (n : ℕ)
    → version_of e ≡ some n
    → str_eq e.key key ≡ true
    → restarts key v e ≡ false
    → v ≤ n
unfolding restarts
not_lower key v e n good mine on = ground (arith, good, mine, on)

-- An event of another key, where there is room, changes nothing of the window.
admit-Remembers-other :
    (key : Str) (v c : ℕ) (e : Event) (s : Seen)
    → str_eq e.key key ≡ false
    → length s < 1024
    → Remembers key v c s
    → Remembers key v c (admit e s).1
admit-Remembers-other key v c e s other h r = elim (Option-cases (version_of e)) [
  | inl bad ↦ rw (admit-versionless e s bad) r
  | inr (n, good) ↦ elim (Option-cases (scan n 0 (recent_of e.key s))) [
    | inl seen ↦ rw (admit-repeated e s n good seen) (rw (make_room-room e.key s h) r)
    | inr (low, new) ↦
        let w = extend n low (recent_of e.key s) in
        rw (admit-new e s n low good new) (
          rw (make_room-room e.key s h) (record {
            window = r.window;
            known = ground (arith, other, r.known, lookup-insert e.key key w s);
            recent = r.recent;
          }))
  ]
]

-- One of the same key, if its version is not lower, pushes the version one place on at most.
admit-Remembers-same :
    (key : Str) (v c : ℕ) (e : Event) (s : Seen)
    → IsBounded s
    → str_eq e.key key ≡ true
    → restarts key v e ≡ false
    → c < 7
    → Remembers key v c s
    → Remembers key v (suc c) (admit e s).1
admit-Remembers-same key v c e s b mine on h r =
    let same : e.key ≡ key = (str_eq_iff e.key key).0 mine in
    let known : lookup e.key s ≡ some r.window = rw same r.known in
    let window : recent_of e.key s ≡ r.window = ground (arith, known) in
    elim (Option-cases (version_of e)) [
      | inl bad ↦ rw (admit-versionless e s bad) (weaken (omega arith) r)
      | inr (n, good) ↦ elim (Option-cases (scan n 0 (recent_of e.key s))) [
        | inl seen ↦
            rw (admit-repeated e s n good seen)
              (rw (make_room-known e.key s r.window known) (weaken (omega arith) r))
        | inr (low, new) ↦
            let w = extend n low (recent_of e.key s) in
            rw (admit-new e s n low good new) (
              rw (make_room-known e.key s r.window known) (record {
                window = w;
                known = ground (arith, mine, lookup-insert e.key key w s);
                recent =
                    let there : Recent v c (recent_of e.key s) =
                      subst (Recent v c) (sym window) r.recent in
                    let low_le =
                      scan-low n v c 0 (recent_of e.key s) low (recent_of-positive e.key s b) there
                        new in
                    Recent-extend v c n low (recent_of e.key s) there h low_le
                      (not_lower key v e n good mine on);
              }))
      ]
    ]

admit_all-Remembers :
    (key : Str) (v c : ℕ) (es : List Event) (s : Seen)
    → IsBounded s
    → All (λ e. restarts key v e ≡ false) es
    → c + count_key key es ≤ 7
    → length s + length es ≤ 1024
    → Remembers key v c s
    → Remembers key v 7 (admit_all es s)
unfolding admit_all count_key
admit_all-Remembers key v c [] s b on few room r = weaken (omega arith) r
admit_all-Remembers key v c (e ∷ es) s b on few room r =
    let s' = (admit e s).1 in
    let b' = admit-IsBounded e s b in
    let grows = length-admit_le e s (omega arith) in
    elim (Bool-cases (str_eq e.key key)) [
      | inl mine ↦
          admit_all-Remembers key v (suc c) es s' b' on.1 (ground (arith, mine, few)) (omega arith)
            (admit-Remembers-same key v c e s b mine on.0 (ground (arith, mine, few)) r)
      | inr other ↦
          admit_all-Remembers key v c es s' b' on.1 (ground (arith, other, few)) (omega arith)
            (admit-Remembers-other key v c e s other (omega arith) r)
    ]

admit-Remembers :
    (e : Event) (s : Seen) (n : ℕ)
    → version_of e ≡ some n
    → (admit e s).0 ≡ true
    → Remembers e.key n 0 (admit e s).1
admit-Remembers e s n good admitted = elim (Option-cases (scan n 0 (recent_of e.key s))) [
  | inl seen ↦ absurd (cc (rw (admit-repeated e s n good seen) at admitted))
  | inr (low, new) ↦
      let w = extend n low (recent_of e.key s) in
      rw (admit-new e s n low good new) (record {
        window = w;
        known =
            ground (arith, lookup-insert e.key e.key w (make_room e.key s), str_eq_iff e.key e.key);
        recent = Recent-recorded n low (recent_of e.key s);
      })
]

Remembers-admit :
    (e : Event) (s : Seen) (n c : ℕ)
    → version_of e ≡ some n
    → Remembers e.key n c s
    → (admit e s).0 ≡ false
Remembers-admit e s n c good r =
    let window : recent_of e.key s ≡ r.window = ground (arith, r.known) in
    let seen : scan n 0 (recent_of e.key s) ≡ none =
      scan-Recent n c 0 (recent_of e.key s) (subst (Recent n c) (sym window) r.recent) in
    rw (admit-repeated e s n good seen) refl

-- An event that Seen admits, after any events, it does not admit again, if in between come at most
-- seven events of the key, none of them of a lower version, and not so many events that the keys
-- could pass 1024.
pub admit-again :
    (before between : List Event) (e : Event) (n : ℕ)
    → version_of e ≡ some n
    → (admit e (admit_all before new_seen)).0 ≡ true
    → All (λ x. restarts e.key n x ≡ false) between
    → count_key e.key between ≤ 7
    → length (admit e (admit_all before new_seen)).1 + length between ≤ 1024
    → (admit e (admit_all between (admit e (admit_all before new_seen)).1)).0 ≡ false
admit-again before between e n good admitted on few room =
    let s = admit_all before new_seen in
    Remembers-admit e _ n 7 good (
      admit_all-Remembers e.key n 0 between (admit e s).1
        (admit-IsBounded e s (admit_all-IsBounded before)) on (omega arith) room
        (admit-Remembers e s n good admitted))
