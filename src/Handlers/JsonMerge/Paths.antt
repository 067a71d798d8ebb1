-- ===== src/Handlers/JsonMerge/Paths.antt =====
-- What a merge by internal/handlers/json.go does below the top: tombstones, and what they leave.
use dotvault.Prelude.{
  Str, Bool, true, false, List, [], ◌∷◌, Option, none, some, ◌≡◌, refl, arith, inl, inr, str_eq,
  sym, Bool-cases, if◌then◌else◌,
}
use dotvault.Handlers.JsonMerge.{
  Json, null, leaf, object, Members, empty, member, find, prune_nulls, deep_merge, merge_value,
}
use dotvault.Handlers.JsonMerge.Entries.{IsUnique, UniqueMembers}
use dotvault.Handlers.JsonMerge.Pointwise.{
  find-deep_merge, find-prune_members, prune_members, prune_nulls-object, onto_nothing,
}

-- The value at a path of keys, the first of which is `key`.
unfoldable pub at : Str → List Str → Members → Option Json
at key [] ms = find key ms
at key (k ∷ path) ms = elim (find key ms) [
  | none ↦ none
  | some null ↦ none
  | some (leaf s) ↦ none
  | some (object inner) ↦ at k path inner
]

-- The document says something about the path: a value stands at it, or one that is not an object
-- above it.
unfoldable pub touches : Str → List Str → Members → Bool
touches key [] ms = elim (find key ms) [ none ↦ false | some v ↦ true ]
touches key (k ∷ path) ms = elim (find key ms) [
  | none ↦ false
  | some null ↦ true
  | some (leaf s) ↦ true
  | some (object inner) ↦ touches k path inner
]

find-UniqueMembers :
    (ms : Members) (key : Str) (v : Json) → UniqueMembers ms → find key ms ≡ some v → IsUnique v
unfolding find UniqueMembers
find-UniqueMembers empty key v u e = absurd (ground (arith, e))
find-UniqueMembers (member k w ms) key v (new, o, u) e = elim (Bool-cases (str_eq k key)) [
  | inl same ↦ rw (sym (some_inj (rw same at e))) o
  | inr other ↦ find-UniqueMembers ms key v u (rw other at e)
]
  where
    some_inj : some w ≡ some v → w ≡ v
    some_inj h = ground (arith, h)

module _ (d : Bool) where
  -- What pruning leaves at a path that src does not touch.
  at-prune_members :
      (key : Str) (path : List Str) (src : Members)
      → UniqueMembers src
      → touches key path src ≡ false
      → at key path (prune_members d src) ≡ none
  unfolding at touches onto_nothing UniqueMembers IsUnique
  at-prune_members key [] src u t = ground (arith, t, find-prune_members d src key u)
  at-prune_members key (k ∷ path) src u t = step (at-prune_members k path) (find key src) refl
    where
      untouched :
          {inner : Members} → find key src ≡ some (object inner) → touches k path inner ≡ false
      untouched e = ground (arith, e, t)

      step :
          ((inner : Members)
            → UniqueMembers inner
            → touches k path inner ≡ false
            → at k path (prune_members d inner) ≡ none)
          → (o : Option Json) → find key src ≡ o
          → at key (k ∷ path) (prune_members d src) ≡ none
      step ih none e = rw (find-prune_members d src key u, e, at) refl
      step ih (some null) e = absurd (ground (arith, e, t))
      step ih (some (leaf s)) e = absurd (ground (arith, e, t))
      step ih (some (object inner)) e =
          rw (find-prune_members d src key u, e, at)
            (unfold merge_value in
              rw (prune_nulls-object d inner)
                (ih inner (find-UniqueMembers src key (object inner) u e) (untouched e)))

  -- What src does not speak about stays as it was. Keys of src are distinct, at every depth.
  pub at-deep_merge :
      (key : Str) (path : List Str) (dst src : Members)
      → UniqueMembers src
      → touches key path src ≡ false
      → at key path (deep_merge d dst src) ≡ at key path dst
  unfolding at touches UniqueMembers IsUnique
  at-deep_merge key [] dst src u t = ground (arith, t, find-deep_merge d dst src key u)
  at-deep_merge key (k ∷ path) dst src u t =
      step (at-deep_merge k path) (find key src) (find key dst) refl refl
    where
      untouched :
          {inner : Members} → find key src ≡ some (object inner) → touches k path inner ≡ false
      untouched e = ground (arith, e, t)

      pruned :
          (inner : Members) (p : Option Json)
          → find key src ≡ some (object inner)
          → find key dst ≡ p
          → merge_value d p (object inner) ≡ some (prune_nulls d (object inner))
          → elim p [
            | none ↦ none
            | some null ↦ none
            | some (leaf s) ↦ none
            | some (object old) ↦ at k path old
          ]
            ≡ none
          → at key (k ∷ path) (deep_merge d dst src) ≡ at key (k ∷ path) dst
      pruned inner p e f m n =
          rw (find-deep_merge d dst src key u, at, e, f, m, prune_nulls-object d inner, n)
            (at-prune_members k path inner (find-UniqueMembers src key (object inner) u e)
              (untouched e))

      step :
          ((old inner : Members)
            → UniqueMembers inner
            → touches k path inner ≡ false
            → at k path (deep_merge d old inner) ≡ at k path old)
          → (o p : Option Json) → find key src ≡ o
          → find key dst ≡ p
          → at key (k ∷ path) (deep_merge d dst src) ≡ at key (k ∷ path) dst
      step ih none p e f = rw (find-deep_merge d dst src key u, at, e) refl
      step ih (some null) p e f = absurd (ground (arith, e, t))
      step ih (some (leaf s)) p e f = absurd (ground (arith, e, t))
      step ih (some (object inner)) none e f =
          pruned inner none e f (unfold merge_value in refl) refl
      step ih (some (object inner)) (some null) e f =
          pruned inner (some null) e f (unfold merge_value in refl) refl
      step ih (some (object inner)) (some (leaf s)) e f =
          pruned inner (some (leaf s)) e f (unfold merge_value in refl) refl
      step ih (some (object inner)) (some (object old)) e f =
          rw (find-deep_merge d dst src key u, at, e, f)
            (unfold merge_value in
              ih old inner (find-UniqueMembers src key (object inner) u e) (untouched e))

  -- What a merge leaves of a value that it does not look into: none for a tombstone.
  unfoldable pub left : Json → Option Json
  left null = if d then none else some null
  left (leaf s) = some (leaf s)
  left (object ms) = some (object ms)

  unfoldable pub is_object : Json → Bool
  is_object null = false
  is_object (leaf s) = false
  is_object (object ms) = true

  merge_value-left :
      (old : Option Json) (v : Json) → is_object v ≡ false → merge_value d old v ≡ left v
  unfolding is_object left merge_value
  merge_value-left old null n = refl
  merge_value-left old (leaf s) n = refl
  merge_value-left old (object ms) n = absurd (ground (arith, n))

  at-pruned :
      (key : Str) (path : List Str) (src : Members) (v : Json)
      → UniqueMembers src
      → is_object v ≡ false
      → at key path src ≡ some v
      → at key path (prune_members d src) ≡ left v
  unfolding at onto_nothing UniqueMembers IsUnique
  at-pruned key [] src v u n h =
      ground (arith, h, find-prune_members d src key u, merge_value-left none v n)
  at-pruned key (k ∷ path) src v u n h = step (at-pruned k path) (find key src) refl
    where
      step :
          ((inner : Members) (v : Json)
            → UniqueMembers inner
            → is_object v ≡ false
            → at k path inner ≡ some v
            → at k path (prune_members d inner) ≡ left v)
          → (o : Option Json) → find key src ≡ o
          → at key (k ∷ path) (prune_members d src) ≡ left v
      step ih none e = absurd (ground (arith, e, h))
      step ih (some null) e = absurd (ground (arith, e, h))
      step ih (some (leaf s)) e = absurd (ground (arith, e, h))
      step ih (some (object inner)) e =
          rw (find-prune_members d src key u, e, at)
            (unfold merge_value in
              rw (prune_nulls-object d inner) (
                ih inner v (find-UniqueMembers src key (object inner) u e) n
                  (ground (arith, e, h))))

  -- Where src has a value that is not an object at a path, the merge leaves that value there,
  -- whatever the target held, and nothing at all for a null with deleteNulls. Keys of src are
  -- distinct, at every depth.
  pub at-deep_merge-left :
      (key : Str) (path : List Str) (dst src : Members) (v : Json)
      → UniqueMembers src
      → is_object v ≡ false
      → at key path src ≡ some v
      → at key path (deep_merge d dst src) ≡ left v
  unfolding at UniqueMembers IsUnique
  at-deep_merge-left key [] dst src v u n h =
      ground (arith, h, find-deep_merge d dst src key u, merge_value-left (find key dst) v n)
  at-deep_merge-left key (k ∷ path) dst src v u n h =
      step (at-deep_merge-left k path) (find key src) (find key dst) refl refl
    where
      below : {inner : Members} → find key src ≡ some (object inner) → at k path inner ≡ some v
      below e = ground (arith, e, h)

      pruned :
          (inner : Members) (p : Option Json)
          → find key src ≡ some (object inner)
          → find key dst ≡ p
          → merge_value d p (object inner) ≡ some (prune_nulls d (object inner))
          → at key (k ∷ path) (deep_merge d dst src) ≡ left v
      pruned inner p e f m =
          rw (find-deep_merge d dst src key u, at, e, f, m, prune_nulls-object d inner)
            (at-pruned k path inner v (find-UniqueMembers src key (object inner) u e) n (below e))

      step :
          ((old inner : Members) (v : Json)
            → UniqueMembers inner
            → is_object v ≡ false
            → at k path inner ≡ some v
            → at k path (deep_merge d old inner) ≡ left v)
          → (o p : Option Json) → find key src ≡ o
          → find key dst ≡ p
          → at key (k ∷ path) (deep_merge d dst src) ≡ left v
      step ih none p e f = absurd (ground (arith, e, h))
      step ih (some null) p e f = absurd (ground (arith, e, h))
      step ih (some (leaf s)) p e f = absurd (ground (arith, e, h))
      step ih (some (object inner)) none e f = pruned inner none e f (unfold merge_value in refl)
      step ih (some (object inner)) (some null) e f =
          pruned inner (some null) e f (unfold merge_value in refl)
      step ih (some (object inner)) (some (leaf s)) e f =
          pruned inner (some (leaf s)) e f (unfold merge_value in refl)
      step ih (some (object inner)) (some (object old)) e f =
          rw (find-deep_merge d dst src key u, at, e, f)
            (unfold merge_value in
              ih old inner v (find-UniqueMembers src key (object inner) u e) n (below e))
