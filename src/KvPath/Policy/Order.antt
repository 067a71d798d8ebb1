-- ===== src/KvPath/Policy/Order.antt =====
-- The order that sort.Strings leaves the roots of internal/kvpath/editable.go in.
use dotvault.Prelude.{
  any_equal, IsAscending, IsNodup, sort-IsAscending, IsNodup-snoc, Str, Map, lookup, insert, Result,
  ok, err, none, Option-cases, ◌∙◌, sym, ap, ◌≡◌, ◌⊎◌, inl, inr, refl, List, [], ◌∷◌, ◌++◌,
  str_has_eq,
}
use dotvault.KvPath.{KvError}
use dotvault.KvPath.Policy.{collect_roots, clean_editable_root, new_edit_policy}
use dotvault.KvPath.Policy.Roots.{is_some, SeenFound, SeenFound-insert}

-- One round of the loop adds no root, or one that it had not seen.
collect_round :
    (raw : Str) (raws : List Str) (seen : Map Str (Unit {0})) (found : List Str)
    → (collect_roots (raw ∷ raws) seen found ≡ collect_roots raws seen found)
      ⊎ ((root : Str) × (lookup root seen ≡ none)
          × (collect_roots (raw ∷ raws) seen found
              ≡ collect_roots raws (insert root tt seen) (found ++ (root ∷ []))))
unfolding collect_roots
collect_round raw raws seen found = go (clean_editable_root raw) refl
  where
    go :
        (c : Result KvError Str)
        → clean_editable_root raw ≡ c
        → (collect_roots (raw ∷ raws) seen found ≡ collect_roots raws seen found)
          ⊎ ((root : Str) × (lookup root seen ≡ none)
              × (collect_roots (raw ∷ raws) seen found
                  ≡ collect_roots raws (insert root tt seen) (found ++ (root ∷ []))))
    go (err e) eq = inl (rw (eq, collect_roots))
    go (ok r) eq = elim (Option-cases (lookup r seen)) [
      | inl new ↦ inr (r, new, rw (eq, collect_roots, new))
      | inr (u, old) ↦ inl (rw (eq, collect_roots, old))
    ]

collect-IsNodup :
    (raws : List Str) (seen : Map Str (Unit {0})) (found : List Str)
    → SeenFound seen found
    → IsNodup found
    → IsNodup (collect_roots raws seen found)
collect-IsNodup [] seen found h n = unfold collect_roots in n
collect-IsNodup (raw ∷ raws) seen found h n = elim (collect_round raw raws seen found) [
  | inl e ↦ rw e (collect-IsNodup raws seen found h n)
  | inr (root, new, e) ↦ rw e (
      collect-IsNodup raws (insert root tt seen) (found ++ (root ∷ []))
        (SeenFound-insert root seen found h)
        (IsNodup-snoc found root (sym (h root) ∙ ap is_some new) n))
]

-- The roots of a new policy are in strictly ascending order: sorted, and none twice.
pub roots-IsAscending :
    (roots managed : List Str) → IsAscending (new_edit_policy roots managed).roots
roots-IsAscending roots managed =
    unfold new_edit_policy in
    sort-IsAscending (collect_roots roots [] [])
      (collect-IsNodup roots [] [] (λ r. unfold any_equal lookup in refl) tt)
