-- ===== src/Handlers/JsonMerge/Entries.antt =====
-- Laws of map[string]any as internal/handlers/json.go uses it.
use dotvault.Prelude.{Str, Option, none, some, ◌≡◌, refl, str_eq, str_eq_iff, arith, if◌then◌else◌}
use dotvault.Handlers.JsonMerge.{
  Json, null, leaf, object, Members, empty, member, find, put, remove, assign,
}

find-put :
    (key j : Str) (v : Json) (ms : Members)
    → find j (put key v ms) ≡ (if str_eq key j then some v else find j ms)
unfolding find put
find-put key j v empty = refl
find-put key j v (member k w ms) =
    ground (arith, str_eq_iff k key, str_eq_iff k j, str_eq_iff key j, find-put key j v ms)

find-remove :
    (key j : Str) (ms : Members)
    → find j (remove key ms) ≡ (if str_eq key j then none else find j ms)
unfolding find remove
find-remove key j empty = ground arith
find-remove key j (member k w ms) =
    ground (arith, str_eq_iff k key, str_eq_iff k j, str_eq_iff key j, find-remove key j ms)

pub find-assign :
    (key j : Str) (o : Option Json) (ms : Members)
    → find j (assign key o ms) ≡ (if str_eq key j then o else find j ms)
unfolding assign
find-assign key j none ms = find-remove key j ms
find-assign key j (some v) ms = find-put key j v ms

-- Assigning what is there changes nothing.
pub assign-find : (key : Str) (ms : Members) → assign key (find key ms) ms ≡ ms
unfolding assign find remove put
assign-find key empty = refl
assign-find key (member k w ms) = ground (arith, assign-find key ms, str_eq_iff k key)

-- A Go map holds a key once; so do the maps in it.
unfoldable mutual
  pub IsUnique : Json → Type 0
  IsUnique null = Unit
  IsUnique (leaf s) = Unit
  IsUnique (object ms) = UniqueMembers ms

  pub UniqueMembers : Members → Type 0
  UniqueMembers empty = Unit
  UniqueMembers (member k v ms) = (find k ms ≡ none) × IsUnique v × UniqueMembers ms
