-- ===== src/KvPath/Policy.antt =====
-- internal/kvpath/editable.go: the policy that says which secrets the web UI may write.
pub mod Roots
pub mod Order
pub mod Containment
pub mod Grants
use dotvault.Prelude.{
  sort_strings, any_equal, ℕ, Str, slash, str_eq, str_has_eq, str_lt, is_empty, contains_byte,
  cut_prefix, has_prefix, Map, lookup, insert, Result, ok, err, is_ok, Bool, true, false, not, ◌&&◌,
  List, [], ◌∷◌, ◌++◌, Option, none, some, ◌>>=◌, if◌then◌else◌,
}
use dotvault.KvPath.{
  KvError, invalid_name, not_editable, managed_path, root_depth, root_separator, secret_depth,
  clean,
}

-- `roots` is sorted; the keys of `managed` are the paths that dotvault writes itself.
pub record EditPolicy : Type 0 where
  pub roots : List Str
  pub managed : Map Str (Unit {0})

abbrev pub backslash : ℕ
backslash = 92

unfoldable pub clean_editable_root : Str → Result KvError Str
clean_editable_root rel = do
  root ← clean rel
  if is_empty root
      then err not_editable
      else if contains_byte slash root
      then err root_depth
      else if contains_byte backslash root
      then err root_separator
      else ok root

-- The loop over the configured roots, with its set of the roots seen.
unfoldable pub collect_roots : List Str → Map Str (Unit {0}) → List Str → List Str
collect_roots [] seen found = found
collect_roots (raw ∷ raws) seen found = elim (clean_editable_root raw) [
  | err e ↦ collect_roots raws seen found
  | ok root ↦ elim (lookup root seen) [
    | some dup ↦ collect_roots raws seen found
    | none ↦ collect_roots raws (insert root tt seen) (found ++ (root ∷ []))
  ]
]

-- One round of the loop over the managed paths.
add_managed : Result KvError Str → Map Str (Unit {0}) → Map Str (Unit {0})
add_managed (err e) acc = acc
add_managed (ok path) acc = if is_empty path then acc else insert path tt acc

unfoldable pub collect_managed : List Str → Map Str (Unit {0}) → Map Str (Unit {0})
unfolding add_managed
collect_managed [] acc = acc
collect_managed (raw ∷ raws) acc = collect_managed raws (add_managed (clean raw) acc)

unfoldable pub new_edit_policy : List Str → List Str → EditPolicy
new_edit_policy roots managed = record {
  roots = sort_strings (collect_roots roots [] []);
  managed = collect_managed managed [];
}

unfoldable pub is_managed : EditPolicy → Str → Bool
is_managed p rel = elim (clean rel) [
  | err e ↦ false
  | ok path ↦ elim (lookup path p.managed) [ none ↦ false | some u ↦ true ]
]

-- Containment at the one legal depth.
unfoldable pub in_root : List Str → Str → Bool
in_root [] path = false
in_root (root ∷ roots) path = elim (cut_prefix path (root ++ (slash ∷ []))) [
  | none ↦ in_root roots path
  | some rest ↦ if contains_byte slash rest then in_root roots path else true
]

-- Containment at any depth.
unfoldable pub under_root : List Str → Str → Bool
unfolding has_prefix
under_root [] path = false
under_root (root ∷ roots) path =
    let rest = under_root roots path in
    if has_prefix path (root ++ (slash ∷ [])) then true else rest

unfoldable pub allow : EditPolicy → Str → Result KvError Str
allow p rel = do
  path ← clean rel
  if is_empty path
      then err not_editable
      else if not (in_root p.roots path)
      then (if under_root p.roots path then err secret_depth else err not_editable)
      else elim (lookup path p.managed) [ some u ↦ err managed_path | none ↦ ok path ]

unfoldable pub allows : EditPolicy → Str → Bool
unfolding allow
allows p rel = is_ok (allow p rel)

unfoldable pub allows_within : EditPolicy → Str → Bool
allows_within p dir = elim (clean dir) [ err e ↦ false | ok path ↦ any_equal p.roots path ]

-- len(p.roots) > 0
unfoldable pub enabled : EditPolicy → Bool
enabled p = elim p.roots [ [] ↦ false | _ ↦ true ]
