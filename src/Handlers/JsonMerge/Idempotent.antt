-- ===== src/Handlers/JsonMerge/Idempotent.antt =====
-- A merge by internal/handlers/json.go that is repeated changes nothing.
use dotvault.Prelude.{
  Str, Bool, Option, none, some, ◌≡◌, refl, ap, str_eq, str_eq_iff, str_eq_refl, arith, Bool-cases,
  inl, inr,
}
use dotvault.Handlers.JsonMerge.{
  Json, null, leaf, object, Members, empty, member, find, prune_nulls, deep_merge, merge_value,
}
use dotvault.Handlers.JsonMerge.Entries.{assign-find, IsUnique, UniqueMembers}
use dotvault.Handlers.JsonMerge.Pointwise.{
  find-deep_merge, find-prune_members, prune_members, onto_nothing, prune_nulls-object,
}

module _ (d : Bool) where
  -- Merging this value a second time has no effect.
  IsStable : Json → Type 0
  IsStable v = (old : Option Json) → merge_value d (merge_value d old v) v ≡ merge_value d old v

  AllStable : Members → Type 0
  AllStable empty = Unit {0}
  AllStable (member k v ms) = IsStable v × AllStable ms

  find-AllStable :
      (ms : Members) (key : Str) (v : Json) → AllStable ms → find key ms ≡ some v → IsStable v
  unfolding find AllStable
  find-AllStable empty key v a e = ground (arith, e)
  find-AllStable (member k w ms) key v (s, a) e = elim (Bool-cases (str_eq k key)) [
    | inl same ↦ ground (arith, same, e, s)
    | inr other ↦ find-AllStable ms key v a (ground (arith, other, e))
  ]

  -- m has, under each key of src, what merging with src leaves as it is.
  Settled : Members → Members → Type 0
  Settled m src =
      (key : Str) (v : Json) → find key src ≡ some v → merge_value d (find key m) v ≡ find key m

  deep_merge-Settled :
      (m src : Members) → UniqueMembers src → Settled m src → deep_merge d m src ≡ m
  unfolding deep_merge UniqueMembers find Settled
  deep_merge-Settled m empty u s = refl
  deep_merge-Settled m (member k v src) (new, _, u) s =
      rw (s k v (rw str_eq_refl refl), assign-find)
        (deep_merge-Settled m src u (λ key w e. s key w (ground (arith, e, new, str_eq_iff k key))))

  module _ (src : Members) (u : UniqueMembers src) (stable : AllStable src) where
    again : (dst : Members) → deep_merge d (deep_merge d dst src) src ≡ deep_merge d dst src
    unfolding Settled IsStable
    again dst = deep_merge-Settled (deep_merge d dst src) src u (λ key v e. ground (
      arith,
      e,
      find-deep_merge d dst src key u,
      find-AllStable src key v stable e (find key dst),
    ))

    pruned : deep_merge d (prune_members d src) src ≡ prune_members d src
    unfolding Settled IsStable onto_nothing
    pruned = deep_merge-Settled (prune_members d src) src u (λ key v e.
        ground (arith, e, find-prune_members d src key u, find-AllStable src key v stable e none))

    replaced :
        merge_value d (some (prune_nulls d (object src))) (object src)
        ≡ some (prune_nulls d (object src))
    replaced =
        rw (prune_nulls-object d src) (unfold merge_value in ap (λ ms. some (object ms)) pruned)

    object-IsStable : IsStable (object src)
    unfolding IsStable merge_value
    object-IsStable none = replaced
    object-IsStable (some null) = replaced
    object-IsStable (some (leaf s)) = replaced
    object-IsStable (some (object dst)) = ap (λ ms. some (object ms)) (again dst)

  null-IsStable : IsStable null
  unfolding IsStable merge_value
  null-IsStable old = ground arith

  leaf-IsStable : (s : Str) → IsStable (leaf s)
  unfolding IsStable merge_value
  leaf-IsStable s old = refl

  mutual
    unfolding IsUnique UniqueMembers AllStable

    value-IsStable : (v : Json) → IsUnique v → IsStable v
    value-IsStable null u = null-IsStable
    value-IsStable (leaf s) u = leaf-IsStable s
    value-IsStable (object src) u = object-IsStable src u (members-AllStable src u)

    members-AllStable : (ms : Members) → UniqueMembers ms → AllStable ms
    members-AllStable empty u = tt
    members-AllStable (member k v ms) (new, w, u) = (value-IsStable v w, members-AllStable ms u)

  -- A document merged a second time changes nothing more, whatever the target held: what makes it
  -- safe to leave a tombstone in a template. Keys of src are distinct, at every depth.
  pub deep_merge_idem :
      (dst src : Members)
      → UniqueMembers src
      → deep_merge d (deep_merge d dst src) src ≡ deep_merge d dst src
  deep_merge_idem dst src u = again src u (members-AllStable src u) dst
