-- ===== src/Handlers/Toml/Keys.antt =====
-- internal/handlers/toml.go: what becomes of a key that is written and read again.
use dotvault.Prelude.{
  ℕ, ◌==◌, Str, true, false, not, ◌&&◌, ◌||◌, List, [], ◌∷◌, ◌++◌, none, some, ◌≡◌, refl, sym, ap,
  ◌∙◌, inl, inr, is_empty, trim_space, contains_byte, Bool-cases, arith,
}
use mathlib.Core.List.{append_assoc, append-nil}
use dotvault.Handlers.Toml.{
  backslash, quote, replace_byte, escaped, is_bare, encode_key, split_from, split_key,
}

abbrev doubled : Str → Str
doubled = replace_byte backslash (escaped backslash)

quoteless : (s : Str) → contains_byte quote s ≡ false → contains_byte quote (doubled s) ≡ false
unfolding contains_byte replace_byte
quoteless [] h = refl
quoteless (c ∷ s) h = elim (Bool-cases (c == backslash)) [
  | inl y ↦ rw y (quoteless s others)
  | inr n ↦ rw (n, other, contains_byte) (quoteless s others)
]
  where
    other : (c == quote) ≡ false
    other = ground arith

    others : contains_byte quote s ≡ false
    others = ground arith

unquoted : (s : Str) → contains_byte quote s ≡ false → replace_byte quote (escaped quote) s ≡ s
unfolding contains_byte replace_byte
unquoted [] h = refl
unquoted (c ∷ s) h = ground (arith, unquoted s)

shifted :
    (current : Str) (c : ℕ) (s : Str)
    → Path
        (List Str)
        (trim_space ((current ++ (c ∷ [])) ++ s) ∷ [])
        (trim_space (current ++ (c ∷ s)) ∷ [])
shifted current c s = ap (λ t. trim_space t ∷ []) (append_assoc current (c ∷ []) s)

-- Inside quotes the text up to the closing quote is taken as it stands.
split_quoted :
    (s current : Str)
    → contains_byte quote s ≡ false
    → split_from (some quote) current (s ++ (quote ∷ [])) ≡ trim_space (current ++ s) ∷ []
unfolding split_from contains_byte
split_quoted [] current h = ap (λ t. trim_space t ∷ []) (sym (append-nil current))
split_quoted (c ∷ s) current h =
    rw other (split_quoted s (current ++ (c ∷ [])) others ∙ shifted current c s)
  where
    other : (c == quote) ≡ false
    other = ground arith

    others : contains_byte quote s ≡ false
    others = ground arith

bare_doubled : (s : Str) → is_bare s ≡ true → doubled s ≡ s
unfolding is_bare replace_byte
bare_doubled [] h = refl
bare_doubled (c ∷ s) h = ground (arith, bare_doubled s)

split_bare :
    (s current : Str)
    → is_bare s ≡ true
    → split_from none current s ≡ trim_space (current ++ s) ∷ []
unfolding split_from is_bare
split_bare [] current h = ap (λ t. trim_space t ∷ []) (sym (append-nil current))
split_bare (c ∷ s) current h =
    rw (no_quote, no_dot) (split_bare s (current ++ (c ∷ [])) others ∙ shifted current c s)
  where
    no_quote : ((c == quote) || (c == b'\'')) ≡ false
    no_quote = ground arith

    no_dot : (c == b'.') ≡ false
    no_dot = ground arith

    others : is_bare s ≡ true
    others = ground arith

-- A key without a quote that is written and read again is one part: its text with each backslash
-- twice, and without the spaces around it.
pub split_key-encode_key :
    (key : Str)
    → contains_byte quote key ≡ false
    → split_key (encode_key key) ≡ trim_space (doubled key) ∷ []
unfolding split_key encode_key split_from
split_key-encode_key key h = elim (Bool-cases (is_bare key && not (is_empty key))) [
  | inl y ↦
      rw y
        (split_bare key [] (bare y) ∙ ap (λ t. trim_space t ∷ []) (sym (bare_doubled key (bare y))))
  | inr n ↦
      rw (n, unquoted (doubled key) (quoteless key h))
        (split_quoted (doubled key) [] (quoteless key h))
]
  where
    bare : (is_bare key && not (is_empty key)) ≡ true → is_bare key ≡ true
    bare y = ground arith
