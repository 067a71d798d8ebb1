-- ===== src/Handlers/Toml/Entry.antt =====
-- internal/handlers/toml.go: a line of a key and a value, written and read again.
pub mod Cut
pub mod Line
pub mod Written
use dotvault.Prelude.{
  map, split, ℕ, ◌==◌, Str, codes, Bool, true, false, not, ◌&&◌, ◌||◌, leb, List, [], ◌∷◌, ◌++◌,
  Option, none, some, Result, ok, err, ◌≡◌, refl, sym, ap, ◌∙◌, inl, inr, ◌⊎◌, is_empty, is_space,
  has_space, trim_space, trim_space_left, trim_space_right, trim_space_id, contains_byte,
  Bool-cases, arith, if◌then◌else◌,
}
use mathlib.Core.List.{append_assoc, append-nil}
use dotvault.Handlers.Toml.{
  TomlError, no_equals, backslash, quote, replace_byte, escaped, escape, encode_string, is_rest,
  parse_basic, is_bare_byte, is_bare, encode_key, split_key,
}
use dotvault.Handlers.Toml.Strings.{replace_byte-append, parse_basic-encode_string}
use dotvault.Handlers.Toml.Keys.{split_key-encode_key}

abbrev pub before : Str → Option (Str × Str) → Option (Str × Str)
before s rest = elim rest [ none ↦ none | some (text, remainder) ↦ some (s ++ text, remainder) ]

-- The loop of findUnquotedEquals, with the quote that is open: the text before the sign and after.
unfoldable pub equals_from : Option ℕ → Str → Option (Str × Str)
equals_from quoted [] = none
equals_from (some q) (c ∷ []) = none
equals_from (some q) (c ∷ d ∷ s) =
    let skipped = equals_from (some q) s in
    let closed = equals_from none (d ∷ s) in
    let inside = equals_from (some q) (d ∷ s) in
    if c == backslash && q == quote
    then before (c ∷ d ∷ []) skipped
    else if c == q
    then before (c ∷ []) closed
    else before (c ∷ []) inside
equals_from none (c ∷ s) =
    let opened = equals_from (some c) s in
    let next = equals_from none s in
    if c == quote || c == b'\''
    then before (c ∷ []) opened
    else if c == b'='
    then some ([], s)
    else before (c ∷ []) next

unfoldable pub cut_equals : Str → Option (Str × Str)
unfolding equals_from
cut_equals line = equals_from none line

-- The lines that parseTOML goes through, each without the spaces around it.
unfoldable pub lines_of : Str → List Str
unfolding split
lines_of input = map trim_space (split 10 input)

-- Whether a line is neither skipped nor a header.
unfoldable pub is_entry : Str → Bool
is_entry [] = false
is_entry (c ∷ line) = not (c == b'#') && not (c == b'[')

-- What parseTOML makes of one of its lines, with a key and a string: the parts of the key and the
-- string.
unfoldable pub read_entry : Str → Result TomlError (List Str × Str)
unfolding cut_equals split_key parse_basic
read_entry line = elim (cut_equals line) [
  | none ↦ err no_equals
  | some (key, value) ↦ elim (parse_basic (trim_space value)) [
    | err e ↦ err e
    | ok text ↦ ok (split_key (trim_space key), text)
  ]
]

-- What encodeTOML writes for a key and a string.
unfoldable pub write_entry : Str → Str → Str
unfolding encode_key encode_string
write_entry key s = encode_key key ++ (codes " = " ++ encode_string s)
