-- ===== src/KvPath/Policy/Grants.antt =====
-- What Allow, Allows and AllowsWithin of internal/kvpath/editable.go permit.
use dotvault.Prelude.{
  any_equal, Str, slash, str_eq, str_eq_iff, str_has_eq, is_empty, contains_byte, lookup, Result,
  ok, err, Bool-cases, ◌∙◌, sym, ap, true, false, ◌≡◌, ◌≢◌, ◌↔◌, ◌⊎◌, inl, inr, refl, List, [], ◌∷◌,
  ◌++◌, arith,
}
use mathlib.Core.Bool.{false≢true}
use dotvault.KvPath.{
  KvError, invalid_name, not_editable, managed_path, root_depth, root_separator, secret_depth,
  clean,
}
use dotvault.KvPath.Grammar.{
  IsName, clean-IsCanonical, clean_idem, clean_error, clean_id, IsCanonical-IsName,
  IsCanonical-child,
}
use dotvault.KvPath.Policy.{
  EditPolicy, new_edit_policy, in_root, under_root, allow, is_managed, allows_within,
  clean_editable_root,
}
use dotvault.KvPath.Policy.Roots.{
  is_some, configured, written, any_equal-roots, lookup-managed, clean_editable_root_iff,
}
use dotvault.KvPath.Policy.Containment.{Below, Child, in_root_iff, under_root_iff, in_root-child}

child-ne-nil : (root name : Str) → root ++ (slash ∷ name) ≢ []
child-ne-nil [] name e = cc e
child-ne-nil (x ∷ root) name e = cc e

-- The policy's verdict on a cleaned path.
allow_iff :
    (p : EditPolicy) (rel path : Str)
    → (allow p rel ≡ ok path) ↔ (
        (clean rel ≡ ok path)
        × (path ≢ [])
        × (in_root p.roots path ≡ true)
        × (is_some (lookup path p.managed) ≡ false))
unfolding allow is_empty
allow_iff p rel path = (λ h. ground arith, λ h. ground arith)

-- Why a path is refused.
abbrev pub Refused : EditPolicy → Str → KvError → Type 0
Refused p rel invalid_name = clean rel ≡ err invalid_name
Refused p rel not_editable =
    (path : Str) × (clean rel ≡ ok path) × ((path ≡ []) ⊎ ¬ Below p.roots path)
Refused p rel secret_depth =
    (path : Str) × (clean rel ≡ ok path) × Below p.roots path × (¬ Child p.roots path)
Refused p rel managed_path =
    (path : Str) × (clean rel ≡ ok path)
    × Child p.roots path
    × (is_some (lookup path p.managed) ≡ true)
Refused p rel root_depth = ⊥
Refused p rel root_separator = ⊥

-- Where the grammar accepts a path, its verdict is a chain of tests on the cleaned path.
allow_tests :
    (p : EditPolicy) (rel : Str) (e : KvError)
    → allow p rel ≡ err e
    → e ≢ invalid_name
    → (path : Str) × (clean rel ≡ ok path)
      × (((e ≡ not_editable) × ((path ≡ []) ⊎ (under_root p.roots path ≡ false)))
          ⊎ (((e ≡ secret_depth)
                × (in_root p.roots path ≡ false)
                × (under_root p.roots path ≡ true))
              ⊎ ((e ≡ managed_path)
                  × (in_root p.roots path ≡ true)
                  × (is_some (lookup path p.managed) ≡ true))))
unfolding allow is_empty
allow_tests p rel e h n = ground (arith, clean_error rel e)

-- Each error that Allow can return has its own condition on the request, which then holds.
pub allow-Refused :
    (p : EditPolicy) (rel : Str) (e : KvError) → allow p rel ≡ err e → Refused p rel e
allow-Refused p rel invalid_name h = unfold allow in ground arith
allow-Refused p rel not_editable h =
    let (path, c, t) = allow_tests p rel not_editable h (λ e. cc e) in
    (path, c, ground (arith, t, not_under path))
  where
    not_under : (path : Str) → under_root p.roots path ≡ false → ¬ Below p.roots path
    not_under path f b = false≢true (sym f ∙ (under_root_iff p.roots path).1 b)
allow-Refused p rel secret_depth h =
    let (path, c, t) = allow_tests p rel secret_depth h (λ e. cc e) in
    (path, c, (under_root_iff p.roots path).0 (ground (arith, t)), not_in path (ground (arith, t)))
  where
    not_in : (path : Str) → in_root p.roots path ≡ false → ¬ Child p.roots path
    not_in path f b = false≢true (sym f ∙ (in_root_iff p.roots path).1 b)
allow-Refused p rel managed_path h =
    let (path, c, t) = allow_tests p rel managed_path h (λ e. cc e) in
    (path, c, (in_root_iff p.roots path).0 (ground (arith, t)), ground (arith, t))
allow-Refused p rel root_depth h =
    let (path, c, t) = allow_tests p rel root_depth h (λ e. cc e) in ground (arith, t)
allow-Refused p rel root_separator h =
    let (path, c, t) = allow_tests p rel root_separator h (λ e. cc e) in ground (arith, t)

-- The paths that a policy built from these settings lets the web UI write: a configured root, a
-- slash and one segment, unless dotvault writes the path itself.
abbrev pub Writable : List Str → List Str → Str → Type 0
Writable roots managed path =
    (root : Str) × (name : Str) × (configured roots root ≡ true)
    × (path ≡ root ++ (slash ∷ name))
    × (contains_byte slash name ≡ false)
    × (written managed path ≡ false)

-- Allow returns a path exactly when the request cleans to it and it is a configured root, a slash
-- and one segment, and no managed entry cleans to it.
pub allow_grants :
    (roots managed : List Str) (rel path : Str)
    → (allow (new_edit_policy roots managed) rel ≡ ok path)
      ↔ ((clean rel ≡ ok path) × Writable roots managed path)
allow_grants roots managed rel path = (granted, grant)
  where
    granted :
        allow (new_edit_policy roots managed) rel ≡ ok path
        → (clean rel ≡ ok path) × Writable roots managed path
    granted h =
        let (c, n, i, m) = (allow_iff (new_edit_policy roots managed) rel path).0 h in
        let (root, name, r, e, f) = (in_root_iff (new_edit_policy roots managed).roots path).0 i in
        (
          c,
          (
            root,
            name,
            sym (any_equal-roots roots managed root) ∙ r,
            e,
            f,
            sym (lookup-managed roots managed path n) ∙ m,
          ),
        )

    grant :
        (clean rel ≡ ok path) × Writable roots managed path
        → allow (new_edit_policy roots managed) rel ≡ ok path
    grant (c, (root, name, r, e, f, m)) =
        let n : path ≢ [] = λ q. child-ne-nil root name (sym e ∙ q) in
        (allow_iff (new_edit_policy roots managed) rel path).1 (
          c,
          n,
          (in_root_iff (new_edit_policy roots managed).roots path).1
              (root, name, any_equal-roots roots managed root ∙ r, e, f),
          lookup-managed roots managed path n ∙ m,
        )

-- The path that Allow returns is allowed, and Allow returns it as it is.
pub allow_idem : (p : EditPolicy) (rel path : Str) → allow p rel ≡ ok path → allow p path ≡ ok path
allow_idem p rel path h =
    let (c, n, i, m) = (allow_iff p rel path).0 h in
    (allow_iff p path path).1 (clean_idem rel path c, n, i, m)

pub configured-IsName : (roots : List Str) (root : Str) → configured roots root ≡ true → IsName root
unfolding configured
configured-IsName [] root h = cc
configured-IsName (raw ∷ roots) root h =
    go (clean_editable_root raw) refl (configured-IsName roots root)
  where
    go :
        (c : Result KvError Str)
        → clean_editable_root raw ≡ c
        → (configured roots root ≡ true → IsName root)
        → IsName root
    go (err e) eq ih = ih (ground (arith, eq, h))
    go (ok r) eq ih = elim (Bool-cases (str_eq r root)) [
      | inl same ↦
          let (c, n, f, b) =
            (clean_editable_root_iff raw root).0 (eq ∙ ap ok ((str_eq_iff r root).0 same)) in
          IsCanonical-IsName root (clean-IsCanonical raw root c).0 n f
      | inr other ↦ ih (ground (arith, eq, h, other))
    ]

module _ (p : EditPolicy) where
  allows_within_lem : (dir d : Str) → clean dir ≡ ok d → allows_within p dir ≡ any_equal p.roots d
  unfolding allows_within
  allows_within_lem dir d c = ground arith

  is_managed_lem : (q : Str) → clean q ≡ ok q → is_managed p q ≡ is_some (lookup q p.managed)
  unfolding is_managed
  is_managed_lem q c = ground arith

-- AllowsWithin and Allow agree: in a directory whose path cleans, Allow admits a new name exactly
-- when AllowsWithin admits the directory and the secret of that name is not a managed one.
pub allow_within :
    (roots managed : List Str) (dir d name : Str)
    → clean dir ≡ ok d
    → IsName name
    → (allow (new_edit_policy roots managed) (d ++ (slash ∷ name)) ≡ ok (d ++ (slash ∷ name))) ↔ (
        (allows_within (new_edit_policy roots managed) dir ≡ true)
        × (is_managed (new_edit_policy roots managed) (d ++ (slash ∷ name)) ≡ false))
allow_within roots managed dir d name c n = (there, back)
  where
    p : EditPolicy
    p = new_edit_policy roots managed

    q : Str
    q = d ++ (slash ∷ name)

    there : allow p q ≡ ok q → (allows_within p dir ≡ true) × (is_managed p q ≡ false)
    there h =
        let (k, _, i, m) = (allow_iff p q q).0 h in
        (
          allows_within_lem p dir d c ∙ sym (in_root-child p.roots d name n.no_slash) ∙ i,
          is_managed_lem p q k ∙ m,
        )

    back : (allows_within p dir ≡ true) × (is_managed p q ≡ false) → allow p q ≡ ok q
    back (w, m) =
        let r : any_equal p.roots d ≡ true = sym (allows_within_lem p dir d c) ∙ w in
        let k : clean q ≡ ok q = clean_id q (
          IsCanonical-child d name
            (configured-IsName roots d (sym (any_equal-roots roots managed d) ∙ r)) n) in
        (allow_iff p q q).1 (
          k,
          child-ne-nil d name,
          in_root-child p.roots d name n.no_slash ∙ r,
          sym (is_managed_lem p q k) ∙ m,
        )
