-- ===== src/Handlers/JsonMerge/Pointwise.antt =====
-- What deepMergeJSON and pruneNullsJSON of internal/handlers/json.go do, key by key.
use dotvault.Prelude.{
  Str, Bool, true, false, Option, none, some, ◌≡◌, refl, str_eq, str_eq_iff, arith, ap, ◌∙◌, inl,
  inr, Bool-cases, if◌then◌else◌,
}
use dotvault.Handlers.JsonMerge.{
  Json, null, leaf, object, Members, empty, member, find, assign, strip, strip_members, prune_nulls,
  deep_merge, merge_value,
}
use dotvault.Handlers.JsonMerge.Entries.{find-assign, UniqueMembers}

-- The merge of one key does not depend on the others: each key of src is merged with what dst has
-- there, and a key that src lacks is left alone. Keys of src are distinct, as in every Go map.
pub find-deep_merge :
    (d : Bool) (dst src : Members) (key : Str)
    → UniqueMembers src
    → find key (deep_merge d dst src)
      ≡ elim (find key src) [ none ↦ find key dst | some v ↦ merge_value d (find key dst) v ]
unfolding find deep_merge UniqueMembers
find-deep_merge d dst empty key u = refl
find-deep_merge d dst (member k v src) key (new, _, u) = ground (
  arith,
  new,
  str_eq_iff k key,
  find-assign k key (merge_value d (find k dst) v) dst,
  find-deep_merge d (assign k (merge_value d (find k dst) v) dst) src key u,
)

-- pruneNullsJSON of an object, as its members.
abbrev pub prune_members : Bool → Members → Members
prune_members d ms = if d then strip_members ms else ms

-- What a merge makes of a key that the target does not have.
unfoldable pub onto_nothing : Bool → Option Json → Option Json
onto_nothing d none = none
onto_nothing d (some v) = merge_value d none v

onto_nothing-strip :
    (onto_nothing true (some null) ≡ none)
    × ((s : Str) → onto_nothing true (some (leaf s)) ≡ some (leaf s))
    × ((ms : Members) → onto_nothing true (some (object ms)) ≡ some (object (strip_members ms)))
onto_nothing-strip =
    unfold onto_nothing merge_value prune_nulls strip in (refl, λ s. refl, λ ms. refl)

find-strip_members :
    (ms : Members) (key : Str)
    → UniqueMembers ms
    → find key (strip_members ms) ≡ onto_nothing true (find key ms)
unfolding find strip_members UniqueMembers
find-strip_members empty key u = unfold onto_nothing in refl
find-strip_members (member k null ms) key (new, _, u) = elim (Bool-cases (str_eq k key)) [
  | inr other ↦ rw other (find-strip_members ms key u)
  | inl same ↦
      rw (same, onto_nothing-strip.0)
        (find-strip_members ms key u
          ∙ ap (onto_nothing true) (absent same)
          ∙ unfold onto_nothing in refl)
]
  where
    absent : str_eq k key ≡ true → find key ms ≡ none
    absent same = rw ((str_eq_iff k key).0 same) at new
find-strip_members (member k (leaf s) ms) key (new, _, u) =
    ground (arith, new, str_eq_iff k key, find-strip_members ms key u, onto_nothing-strip.1 s)
find-strip_members (member k (object s) ms) key (new, _, u) =
    ground (arith, new, str_eq_iff k key, find-strip_members ms key u, onto_nothing-strip.2 s)

onto_nothing_id : (o : Option Json) → o ≡ onto_nothing false o
unfolding onto_nothing merge_value prune_nulls
onto_nothing_id none = refl
onto_nothing_id (some null) = refl
onto_nothing_id (some (leaf s)) = refl
onto_nothing_id (some (object s)) = refl

-- Pruning an object does to each key what a merge into the empty object does.
pub find-prune_members :
    (d : Bool) (ms : Members) (key : Str)
    → UniqueMembers ms
    → find key (prune_members d ms) ≡ onto_nothing d (find key ms)
find-prune_members true ms key u = find-strip_members ms key u
find-prune_members false ms key u = onto_nothing_id (find key ms)

pub prune_nulls-object :
    (d : Bool) (ms : Members) → prune_nulls d (object ms) ≡ object (prune_members d ms)
unfolding prune_nulls strip
prune_nulls-object true ms = refl
prune_nulls-object false ms = refl
