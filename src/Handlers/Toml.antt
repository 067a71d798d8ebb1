-- ===== src/Handlers/Toml.antt =====
-- internal/handlers/toml.go: how strings and keys are written and read back.
pub mod Strings
pub mod Keys
pub mod Entry
mod Tests
use dotvault.Prelude.{
  ℕ, ◌+◌, ◌%◌, ◌==◌, leb, Str, codes, Bool, true, false, not, ◌&&◌, ◌||◌, List, [], ◌∷◌, ◌++◌,
  Option, none, some, Result, ok, err, cut_prefix, has_prefix, is_empty, trim_space, if◌then◌else◌,
}

abbrev pub backslash : ℕ
backslash = 92

abbrev pub quote : ℕ
quote = 34

-- strings.ReplaceAll of one byte
unfoldable pub replace_byte : ℕ → Str → Str → Str
replace_byte c new [] = []
replace_byte c new (x ∷ s) = (if x == c then new else x ∷ []) ++ replace_byte c new s

-- A backslash and a byte.
abbrev pub escaped : ℕ → Str
escaped c = backslash ∷ c ∷ []

unfoldable pub escape : Str → Str
escape s = replace_byte 13 (escaped b'r') (
    replace_byte 9 (escaped b't') (
      replace_byte 10 (escaped b'n')
        (replace_byte quote (escaped quote) (replace_byte backslash (escaped backslash) s))))

-- encodeTOMLScalar, of a string
unfoldable pub encode_string : Str → Str
encode_string s = quote ∷ (escape s ++ (quote ∷ []))

-- What a backslash and the byte after it stand for.
abbrev pub unescaped : ℕ → Str
unescaped next =
    if next == backslash
    then backslash ∷ []
    else if next == quote
    then quote ∷ []
    else if next == b'n'
    then 10 ∷ []
    else if next == b't'
    then 9 ∷ []
    else if next == b'r'
    then 13 ∷ []
    else backslash ∷ next ∷ []

-- unescapeTOMLString
unfoldable pub unescape : Str → Str
unescape [] = []
unescape (c ∷ []) = c ∷ []
unescape (c ∷ next ∷ s) =
    let after = unescape s in
    let rest = unescape (next ∷ s) in if c == backslash then unescaped next ++ after else c ∷ rest

-- The loop of parseTOMLValue for the closing quote: the text before it, and what follows. The first
-- argument is the number of backslashes just before.
unfoldable pub close_quote : ℕ → Str → Option (Str × Str)
close_quote run [] = none
close_quote run (c ∷ s) =
    let rest = close_quote (if c == backslash then run + 1 else 0) s in
    if c == quote && run % 2 == 0
    then some ([], s)
    else elim rest [ none ↦ none | some (text, remainder) ↦ some (c ∷ text, remainder) ]

-- The errors of parseTOMLValue for a basic string, and that of a line without an equals sign.
-- `not_basic` stands for every other value, a multi-line string among them: those are not modelled.
pub data TomlError : Type 0 where
  not_basic unterminated unexpected_content no_equals : TomlError

-- After a string there may be spaces and a comment.
unfoldable pub is_rest : Str → Bool
is_rest s = let remainder = trim_space s in is_empty remainder || has_prefix remainder (codes "#")

-- parseTOMLValue, of a text that begins with one quote and not with three
unfoldable pub parse_basic : Str → Result TomlError Str
unfolding close_quote is_rest unescape
parse_basic s = elim (cut_prefix s (quote ∷ [])) [
  | none ↦ err not_basic
  | some body ↦ if has_prefix s (codes "\"\"\"") then err not_basic else elim (close_quote 0 body) [
    | none ↦ err unterminated
    | some (text, remainder) ↦
        if is_rest remainder then ok (unescape text) else err unexpected_content
  ]
]

abbrev pub is_bare_byte : ℕ → Bool
is_bare_byte c =
    (leb b'a' c && leb c b'z')
    || (leb b'A' c && leb c b'Z')
    || (leb b'0' c && leb c b'9')
    || c == b'-'
    || c == b'_'

-- The loop of encodeTOMLKey
unfoldable pub is_bare : Str → Bool
is_bare [] = true
is_bare (c ∷ s) = let rest = is_bare s in is_bare_byte c && rest

unfoldable pub encode_key : Str → Str
unfolding is_bare
encode_key key =
    if is_bare key && not (is_empty key)
    then key
    else quote
      ∷ (replace_byte quote (escaped quote) (replace_byte backslash (escaped backslash) key)
          ++ (quote ∷ []))

-- encodeTOMLHeaderKey
unfoldable pub encode_header_key : Str → Str → Str
unfolding encode_key
encode_header_key prefix key =
    if is_empty prefix then encode_key key else prefix ++ (b'.' ∷ encode_key key)

-- The loop of splitTOMLKey, with the quote that is open and the part so far.
unfoldable pub split_from : Option ℕ → Str → Str → List Str
split_from quoted current [] = trim_space current ∷ []
split_from (some q) current (c ∷ s) =
    let closed = split_from none current s in
    let inside = split_from (some q) (current ++ (c ∷ [])) s in if c == q then closed else inside
split_from none current (c ∷ s) =
    let opened = split_from (some c) current s in
    let next = split_from none [] s in
    let more = split_from none (current ++ (c ∷ [])) s in
    if c == quote || c == b'\''
    then opened
    else if c == b'.'
    then trim_space current ∷ next
    else more

unfoldable pub split_key : Str → List Str
unfolding split_from
split_key key = split_from none [] key
