-- ===== src/KvPath.antt =====
-- internal/kvpath/kvpath.go: the grammar of a path relative to a user's KV root.
pub mod Grammar
pub mod Policy
mod Tests
use dotvault.Prelude.{
  Str, codes, slash, str_eq, is_empty, contains_byte, split, trim, Result, ok, err, ◌||◌, List, [],
  ◌∷◌, Option, none, some, if◌then◌else◌,
}

-- The sentinel errors of the package. The text that a caller's `%w` wraps round one is not kept:
-- what callers read is errors.Is.
pub data KvError : Type 0 where
  invalid_name not_editable managed_path root_depth root_separator secret_depth : KvError

unfoldable pub validate_name : Str → Option KvError
unfolding is_empty str_eq contains_byte
validate_name name =
    if is_empty name || (str_eq name (codes ".") || str_eq name (codes ".."))
    then some invalid_name
    else if contains_byte slash name || contains_byte 0 name
    then some invalid_name
    else none

-- The loop of `Clean`: the first error ends it.
unfoldable pub validate_names : List Str → Option KvError
validate_names [] = none
validate_names (seg ∷ segs) = elim (validate_name seg) [
  | some e ↦ some e
  | none ↦ validate_names segs
]

unfoldable pub clean : Str → Result KvError Str
clean path =
    let p = trim slash path in
    if is_empty p
    then ok []
    else elim (validate_names (split slash p)) [ some e ↦ err e | none ↦ ok p ]
