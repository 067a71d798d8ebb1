-- ===== src/Events/Seen.antt =====
-- internal/events/events.go: Seen, which drops notices that were acted on already.
mod Recent
pub mod Window
pub mod Bound
use dotvault.Prelude.{
  ℕ, zero, suc, ◌-◌, ◌==◌, ltb, leb, Str, Map, Bool, true, false, not, ◌&&◌, ◌||◌, List, [], ◌∷◌,
  ◌++◌, Option, none, some, lookup, insert, length, ℤ, pos, negsuc, str_has_eq, if◌then◌else◌,
}
use dotvault.Events.{Event}

abbrev pub seen_per_key : ℕ
seen_per_key = 8

abbrev pub max_seen_keys : ℕ
max_seen_keys = 1024

-- The versions of each key, the oldest first.
abbrev pub Seen : Type 0
Seen = Map Str (List ℕ)

unfoldable pub new_seen : Seen
new_seen = []

-- The loop of Admit: the lowest version, 0 if there is none; none where the version is among them.
unfoldable pub scan : ℕ → ℕ → List ℕ → Option ℕ
scan version lowest [] = some lowest
scan version lowest (v ∷ recent) =
    let rest = scan version (if lowest == 0 || ltb v lowest then v else lowest) recent in
    if v == version then none else rest

-- recent[n:]
unfoldable pub drop : ℕ → List ℕ → List ℕ
drop zero xs = xs
drop (suc n) [] = []
drop (suc n) (x ∷ xs) = drop n xs

unfoldable pub last_seen : List ℕ → List ℕ
unfolding drop
last_seen recent =
    if ltb seen_per_key (length recent) then drop (length recent - seen_per_key) recent else recent

-- The window with one version more.
unfoldable pub extend : ℕ → ℕ → List ℕ → List ℕ
unfolding last_seen
extend version lowest recent =
    last_seen ((if ltb version lowest then [] else recent) ++ (version ∷ []))

-- The table before the version is recorded.
unfoldable pub make_room : Str → Seen → Seen
make_room key s = elim (lookup key s) [
  | some recent ↦ s
  | none ↦ if leb max_seen_keys (length s) then [] else s
]

abbrev pub recent_of : Str → Seen → List ℕ
recent_of key s = elim (lookup key s) [ none ↦ [] | some recent ↦ recent ]

-- Admit, of a positive version.
unfoldable pub admit_version : Str → ℕ → Seen → Bool × Seen
unfolding scan extend make_room
admit_version key version s = elim (scan version 0 (recent_of key s)) [
  | none ↦ (false, make_room key s)
  | some lowest ↦ (true, insert key (extend version lowest (recent_of key s)) (make_room key s))
]

-- The version of an event, none where it is not positive.
unfoldable pub version_of : Event → Option ℕ
version_of e = elim e.version [ negsuc n ↦ none | pos n ↦ if n == 0 then none else some n ]

unfoldable pub admit : Event → Seen → Bool × Seen
unfolding admit_version version_of
admit e s = elim (version_of e) [ none ↦ (false, s) | some n ↦ admit_version e.key n s ]

-- The events of a list, one after the other.
unfoldable pub admit_all : List Event → Seen → Seen
unfolding admit
admit_all [] s = s
admit_all (e ∷ es) s = admit_all es (admit e s).1
