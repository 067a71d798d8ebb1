-- ===== src/KvPath/Policy/Roots.antt =====
-- The roots and the managed paths that NewEditPolicy of internal/kvpath/editable.go keeps.
use dotvault.Prelude.{
  any_equal, any_equal-snoc, any_equal-sort, Str, slash, str_eq, str_eq_iff, Option-cases, ◌∙◌,
  str_has_eq, is_empty, contains_byte, Map, lookup, insert, lookup-insert, Result, ok, err, Bool,
  true, false, ◌||◌, ◌≡◌, ◌≢◌, ◌↔◌, inl, inr, refl, List, [], ◌∷◌, ◌++◌, Option, none, some,
  if◌then◌else◌, arith,
}
use dotvault.KvPath.{KvError, clean}
use dotvault.KvPath.Policy.{
  backslash, clean_editable_root, collect_roots, collect_managed, add_managed, new_edit_policy,
}

-- Some configured entry cleans to this root.
unfoldable pub configured : List Str → Str → Bool
configured [] root = false
configured (raw ∷ raws) root =
    let rest = configured raws root in
    elim (clean_editable_root raw) [ err e ↦ rest | ok r ↦ if str_eq r root then true else rest ]

abbrev pub is_some : Option (Unit {0}) → Bool
is_some none = false
is_some (some u) = true

-- The loop's set holds the roots found so far.
abbrev pub SeenFound : Map Str (Unit {0}) → List Str → Type 0
SeenFound seen found = (r : Str) → is_some (lookup r seen) ≡ any_equal found r

pub SeenFound-insert :
    (root : Str) (seen : Map Str (Unit {0})) (found : List Str)
    → SeenFound seen found
    → SeenFound (insert root tt seen) (found ++ (root ∷ []))
SeenFound-insert root seen found h r = ground (
  arith,
  lookup-insert root r tt seen,
  any_equal-snoc found root r,
  h r,
  str_eq_iff r root,
  str_eq_iff root r,
)

any_equal-collect :
    (raws : List Str) (seen : Map Str (Unit {0})) (found : List Str) (root : Str)
    → SeenFound seen found
    → any_equal (collect_roots raws seen found) root ≡ any_equal found root || configured raws root
unfolding collect_roots configured
any_equal-collect [] seen found root h = ground arith
any_equal-collect (raw ∷ raws) seen found root h =
    go (clean_editable_root raw) refl (any_equal-collect raws)
  where
    go :
        (c : Result KvError Str)
        → clean_editable_root raw ≡ c
        → ((seen : Map Str (Unit {0})) (found : List Str) (root : Str)
            → SeenFound seen found
            → any_equal (collect_roots raws seen found) root
              ≡ any_equal found root || configured raws root)
        → any_equal (collect_roots (raw ∷ raws) seen found) root
          ≡ any_equal found root || configured (raw ∷ raws) root
    go (err e) eq ih = rw (eq, collect_roots, configured) (ih seen found root h)
    go (ok r) eq ih = elim (Option-cases (lookup r seen)) [
      | inl new ↦
          rw (eq, collect_roots, configured, new)
            (ih (insert r tt seen) (found ++ (r ∷ [])) root (SeenFound-insert r seen found h)
              ∙ ground (arith, any_equal-snoc found r root, str_eq_iff r root, str_eq_iff root r))
      | inr (u, old) ↦
          rw (eq, collect_roots, configured, old)
            (ih seen found root h ∙ ground (arith, h r, str_eq_iff r root))
    ]

-- The policy's roots are the roots that some configured entry cleans to, each once.
pub any_equal-roots :
    (roots managed : List Str) (root : Str)
    → any_equal (new_edit_policy roots managed).roots root ≡ configured roots root
any_equal-roots roots managed root =
    unfold new_edit_policy in
    any_equal-sort (collect_roots roots [] []) root
    ∙ any_equal-collect roots [] [] root (λ r. unfold any_equal lookup in refl)
    ∙ unfold any_equal in refl

-- What a root can be.
pub clean_editable_root_iff :
    (raw root : Str)
    → (clean_editable_root raw ≡ ok root) ↔ (
        (clean raw ≡ ok root)
        × (root ≢ [])
        × (contains_byte slash root ≡ false)
        × (contains_byte backslash root ≡ false))
unfolding clean_editable_root is_empty
clean_editable_root_iff raw root = (λ h. ground arith, λ h. ground arith)

-- Some managed entry cleans to this path.
unfoldable pub written : List Str → Str → Bool
written [] path = false
written (raw ∷ raws) path =
    let rest = written raws path in
    elim (clean raw) [ err e ↦ rest | ok p ↦ if str_eq p path then true else rest ]

lookup-collect :
    (raws : List Str) (acc : Map Str (Unit {0})) (path : Str)
    → path ≢ []
    → is_some (lookup path (collect_managed raws acc))
      ≡ is_some (lookup path acc) || written raws path
unfolding collect_managed written is_empty
lookup-collect [] acc path n = ground arith
lookup-collect (raw ∷ raws) acc path n =
    lookup-collect raws (add_managed (clean raw) acc) path n ∙ one (clean raw) refl
  where
    one :
        (c : Result KvError Str)
        → clean raw ≡ c
        → is_some (lookup path (add_managed c acc)) || written raws path
          ≡ is_some (lookup path acc) || written (raw ∷ raws) path
    one (err e) eq = rw (eq, written)
    one (ok []) eq = rw (eq, written) (ground (arith, str_eq_iff [] path))
    one (ok (x ∷ q)) eq =
        rw (eq, written, add_managed, lookup-insert (x ∷ q) path tt acc) (ground arith)

-- The policy's managed paths are those that some managed entry cleans to.
pub lookup-managed :
    (roots managed : List Str) (path : Str)
    → path ≢ []
    → is_some (lookup path (new_edit_policy roots managed).managed) ≡ written managed path
lookup-managed roots managed path n =
    unfold new_edit_policy in lookup-collect managed [] path n ∙ unfold lookup in refl
