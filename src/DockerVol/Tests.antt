-- ===== src/DockerVol/Tests.antt =====
-- Runs and instances for the volume driver of internal/dockervol.
use dotvault.Prelude.{
  Str, codes, Map, true, List, [], ◌∷◌, Option, none, some, ok, ℤ, pos, ◌≡◌, refl, lookup, insert,
  str_has_eq, str_eq, str_lt, is_empty, contains_byte, cut_prefix, has_suffix, trim, trim_space,
  split, any_equal, IsAscending, sort_strings, parse_uint, parse_digits, if◌then◌else◌, arith,
}
use dotvault.KvPath.{clean, validate_names}
use dotvault.KvPath as KvPath
use dotvault.Config.Duration.{validate_docker_ttl}
use dotvault.DockerVol.Spec.{
  Spec, initial, select_one, collect_selection, parse_selection, mode_ok, parse_mode,
  only_conflicts, validate, apply_option, apply_options, SpecError,
}
use dotvault.DockerVol.Spec.Selection.{parse_selection_order}
use dotvault.DockerVol.Spec.Valid.{apply_options-validate}

abbrev std : Str → Option ℤ
std s = none

abbrev window : ℤ
window = pos 60_000_000_000

abbrev selection : List Str
selection = codes "a/" ∷ codes "b" ∷ []

selection_parses : parse_selection (codes "b, /a/") ≡ ok selection
unfolding parse_selection collect_selection select_one split trim_space clean KvPath.validate_name
    validate_names trim is_empty has_suffix lookup insert sort_strings str_lt str_eq contains_byte
selection_parses = refl

same_entries :
    (raw : Str)
    → any_equal (split b',' (codes " /a/,b,b")) raw ≡ any_equal (split b',' (codes "b, /a/")) raw
unfolding any_equal split
same_entries raw = ground arith

parse_selection_order_example :
    IsAscending selection × (parse_selection (codes " /a/,b,b") ≡ ok selection)
parse_selection_order_example =
    parse_selection_order (codes "b, /a/") (codes " /a/,b,b") selection selection_parses
      same_entries

abbrev group_spec : Spec
group_spec = record (initial window) { mode = 0o440 }

group_mode : mode_ok 0o440 ≡ true
unfolding mode_ok
group_mode = refl

abbrev options : Map Str Str
options = (codes "secrets", codes "b, /a/") ∷ (codes "mode", codes "0440") ∷ []

abbrev chosen_spec : Spec
chosen_spec = record (initial window) { secrets = selection; mode = 0o440 }

window_fine : validate_docker_ttl window ≡ none
unfolding validate_docker_ttl
window_fine = refl

options_apply : apply_options std options (initial window) ≡ ok chosen_spec
unfolding apply_options apply_option parse_mode parse_uint parse_digits mode_ok cut_prefix
    parse_selection collect_selection select_one split trim_space clean KvPath.validate_name
    validate_names trim is_empty has_suffix lookup insert sort_strings str_lt str_eq contains_byte
options_apply = refl

apply_options-validate_example :
    validate chosen_spec
    ≡ (if only_conflicts chosen_spec then some SpecError.only_conflict else none)
apply_options-validate_example =
    apply_options-validate std options window chosen_spec window_fine options_apply
