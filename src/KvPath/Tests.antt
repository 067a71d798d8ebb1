-- ===== src/KvPath/Tests.antt =====
-- Runs and instances for internal/kvpath.
use dotvault.Prelude.{
  sort_strings, any_equal, Str, codes, slash, str_lt, str_has_eq, contains_byte, cut_prefix, split,
  trim, lookup, insert, ok, err, ◌≡◌, refl, List, [], ◌∷◌, ◌++◌, true, false, replicate, arith, ℕ,
}
use dotvault.KvPath.{invalid_name, secret_depth, validate_name, validate_names, clean}
use dotvault.KvPath.Grammar.{IsName, IsCanonical, clean-IsCanonical}
use dotvault.KvPath.Policy.{
  EditPolicy, clean_editable_root, collect_roots, collect_managed, new_edit_policy, in_root,
  under_root, allow, allows_within, is_managed,
}
use dotvault.KvPath.Policy.Roots.{configured, written}
use dotvault.KvPath.Policy.Grants.{Refused, allow-Refused, allow_grants}

abbrev roots : List Str
roots = codes "personal" ∷ codes "/scratch/" ∷ codes "scratch" ∷ codes "a/b" ∷ []

abbrev managed : List Str
managed = codes "personal/gh" ∷ []

abbrev policy : EditPolicy
policy = new_edit_policy roots managed

clean_slashes : clean (codes "/a/b//") ≡ ok (codes "a/b")
unfolding clean validate_name validate_names split trim
clean_slashes = refl

clean_dotdot : clean (codes "a/../b") ≡ err invalid_name
unfolding clean validate_name validate_names split trim
clean_dotdot = refl

allow_token : allow policy (codes "personal/token/") ≡ ok (codes "personal/token")
unfolding allow new_edit_policy clean_editable_root collect_roots collect_managed sort_strings
    in_root under_root cut_prefix clean validate_name validate_names split trim lookup insert str_lt
allow_token = refl

allow_deep : allow policy (codes "personal/aws/dev") ≡ err secret_depth
unfolding allow new_edit_policy clean_editable_root collect_roots collect_managed sort_strings
    in_root under_root cut_prefix clean validate_name validate_names split trim lookup insert str_lt
allow_deep = refl

IsName-token : IsName (codes "token")
unfolding contains_byte
IsName-token = ground arith

within :
    (allows_within policy (codes "personal/") ≡ true)
    × (is_managed policy (codes "personal/token") ≡ false)
unfolding allows_within is_managed new_edit_policy clean_editable_root collect_roots collect_managed
    sort_strings any_equal clean validate_name validate_names split trim lookup insert str_lt
within = (refl, refl)

clean-IsCanonical_example :
    IsCanonical (codes "a/b")
    × (a : ℕ) × (b : ℕ) × (codes "/a/b//" ≡ replicate a slash ++ (codes "a/b" ++ replicate b slash))
clean-IsCanonical_example = clean-IsCanonical (codes "/a/b//") (codes "a/b") clean_slashes

IsName-a : IsName (codes "a")
unfolding contains_byte
IsName-a = ground arith

allow_grants_example : allow policy (codes "personal/token/") ≡ ok (codes "personal/token")
unfolding configured written clean_editable_root clean validate_name validate_names split trim
    contains_byte
allow_grants_example =
    (allow_grants roots managed (codes "personal/token/") (codes "personal/token")).1
      (refl, (codes "personal", codes "token", refl, refl, refl, refl))

allow-Refused_example : Refused policy (codes "personal/aws/dev") secret_depth
allow-Refused_example = allow-Refused policy (codes "personal/aws/dev") secret_depth allow_deep
