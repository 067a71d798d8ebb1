-- ===== src/Handlers/Tests.antt =====
-- Runs and instances for the JSON handler of internal/handlers.
use dotvault.Prelude.{codes, true, false, [], ◌∷◌, none, some, err, ◌≡◌, refl, str_eq}
use dotvault.Handlers.JsonMerge.{
  null, leaf, object, Members, empty, member, find, put, remove, assign, strip, prune_nulls,
  deep_merge, merge, only_deletes, nil_map_panic,
}
use dotvault.Handlers.JsonMerge.Entries.{UniqueMembers}
use dotvault.Handlers.JsonMerge.Idempotent.{deep_merge_idem}
use dotvault.Handlers.JsonMerge.Paths.{
  at, touches, left, is_object, at-deep_merge, at-deep_merge-left,
}

-- {"a": {"b": null, "c": 1}, "d": null}
abbrev template : Members
template =
    member (codes "a")
      (object (member (codes "b") null (member (codes "c") (leaf (codes "1")) empty)))
      (member (codes "d") null empty)

-- {"a": {"b": 0, "e": 2}, "d": 3}
abbrev target : Members
target =
    member (codes "a")
      (object (member (codes "b") (leaf (codes "0")) (member (codes "e") (leaf (codes "2")) empty)))
      (member (codes "d") (leaf (codes "3")) empty)

template_merged :
    deep_merge true target template
    ≡ member
        (codes "a")
        (object
          (member (codes "e") (leaf (codes "2")) (member (codes "c") (leaf (codes "1")) empty)))
        empty
unfolding deep_merge find put remove assign str_eq
template_merged = refl

template_kept_nulls : at (codes "a") (codes "b" ∷ []) (deep_merge false target template) ≡ some null
unfolding deep_merge find put remove assign str_eq at
template_kept_nulls = refl

template_pruned :
    deep_merge true empty template
    ≡ member (codes "a") (object (member (codes "c") (leaf (codes "1")) empty)) empty
unfolding deep_merge find put remove assign str_eq prune_nulls strip
template_pruned = refl

-- A target that holds the text `null`.
null_file : merge true none (some template) ≡ err nil_map_panic
unfolding merge only_deletes
null_file = refl

template_unique : UniqueMembers template
unfolding UniqueMembers find str_eq
template_unique = (refl, (refl, tt, (refl, tt, tt)), (refl, tt, tt))

deep_merge_idem_example :
    deep_merge true (deep_merge true target template) template ≡ deep_merge true target template
deep_merge_idem_example = deep_merge_idem true target template template_unique

untouched : touches (codes "a") (codes "e" ∷ []) template ≡ false
unfolding touches find str_eq
untouched = refl

at-deep_merge_example :
    at (codes "a") (codes "e" ∷ []) (deep_merge true target template)
    ≡ at (codes "a") (codes "e" ∷ []) target
at-deep_merge_example =
    at-deep_merge true (codes "a") (codes "e" ∷ []) target template template_unique untouched

tombstone : at (codes "a") (codes "b" ∷ []) template ≡ some null
unfolding at find str_eq
tombstone = refl

at-deep_merge-left_example :
    at (codes "a") (codes "b" ∷ []) (deep_merge true target template) ≡ none
unfolding left
at-deep_merge-left_example =
    at-deep_merge-left true (codes "a") (codes "b" ∷ []) target template null template_unique
      (unfold is_object in refl) tombstone
