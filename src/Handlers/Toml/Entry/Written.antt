-- ===== src/Handlers/Toml/Entry/Written.antt =====
-- internal/handlers/toml.go: a line that is written is read back.
use dotvault.Prelude.{
  Str, codes, true, false, not, ◌&&◌, [], ◌∷◌, ◌++◌, some, ok, ◌≡◌, refl, sym, ap, ◌∙◌, inl, inr,
  is_empty, is_space, has_space, trim_space, trim_space_left, trim_space_right, trim_space_id,
  contains_byte, Bool-cases, arith,
}
use mathlib.Core.List.{append-nil}
use dotvault.Handlers.Toml.{
  backslash, quote, replace_byte, escaped, escape, encode_string, is_rest, parse_basic, is_bare,
  encode_key, split_key,
}
use dotvault.Handlers.Toml.Strings.{parse_basic-encode_string}
use dotvault.Handlers.Toml.Keys.{split_key-encode_key}
use dotvault.Handlers.Toml.Entry.{lines_of, is_entry, cut_equals, read_entry, write_entry}
use dotvault.Handlers.Toml.Entry.Line.{trim_right_snoc, lines_of-write_entry}
use dotvault.Handlers.Toml.Entry.Cut.{escaped_key, cut_equals-encode_key}

trim_right_blank : (s : Str) → trim_space_right (s ++ codes " ") ≡ trim_space_right s
unfolding trim_space_right is_empty
trim_right_blank [] = refl
trim_right_blank (c ∷ s) = rw (trim_right_blank s)

bare_no_space : (k : Str) → is_bare k ≡ true → has_space k ≡ false
unfolding is_bare has_space
bare_no_space [] h = refl
bare_no_space (c ∷ k) h = ground (arith, bare_no_space k)

trim_key_bare : (k : Str) → (is_bare k && not (is_empty k)) ≡ true → trim_space (k ++ codes " ") ≡ k
unfolding is_bare is_empty trim_space trim_space_left
trim_key_bare [] h = cc
trim_key_bare (c ∷ k) h = rw solid (trim_right_blank (c ∷ k) ∙ unblank)
  where
    all_bare : is_bare (c ∷ k) ≡ true
    all_bare = ground arith

    solid : is_space c ≡ false
    solid = ground arith

    kept : trim_space_left (c ∷ k) ≡ c ∷ k
    kept = rw (trim_space_left, solid)

    opened : trim_space (c ∷ k) ≡ trim_space_right (c ∷ k)
    opened = ap trim_space_right kept

    unblank : trim_space_right (c ∷ k) ≡ c ∷ k
    unblank = sym opened ∙ trim_space_id (c ∷ k) (bare_no_space (c ∷ k) all_bare)

-- The blank that is written after a key does not belong to it.
trim_space-encode_key : (key : Str) → trim_space (encode_key key ++ codes " ") ≡ encode_key key
unfolding encode_key trim_space trim_space_left
trim_space-encode_key key = elim (Bool-cases (is_bare key && not (is_empty key))) [
  | inl y ↦ rw y (trim_key_bare key y)
  | inr n ↦ rw n (
      trim_right_blank (quote ∷ (escaped_key key ++ (quote ∷ [])))
      ∙ trim_right_snoc (quote ∷ escaped_key key) quote refl)
]

trim_space-encode_string : (s : Str) → trim_space (b' ' ∷ encode_string s) ≡ encode_string s
unfolding encode_string trim_space trim_space_left
trim_space-encode_string s = trim_right_snoc (quote ∷ escape s) quote refl

parse_basic-written : (s : Str) → parse_basic (encode_string s) ≡ ok s
unfolding is_rest is_empty trim_space
parse_basic-written s =
    ap parse_basic (sym (append-nil (encode_string s))) ∙ parse_basic-encode_string s [] refl

read_entry-cut :
    (line key value text : Str)
    → cut_equals line ≡ some (key, value)
    → parse_basic (trim_space value) ≡ ok text
    → read_entry line ≡ ok (split_key (trim_space key), text)
unfolding read_entry
read_entry-cut line key value text cut read = rw (read_entry, cut, read)

read_back :
    (key s : Str)
    → contains_byte quote key ≡ false
    → read_entry (write_entry key s)
      ≡ ok (trim_space (replace_byte backslash (escaped backslash) key) ∷ [], s)
unfolding write_entry
read_back key s h =
    read_entry-cut (write_entry key s) (encode_key key ++ codes " ") (b' ' ∷ encode_string s) s
      (cut_equals-encode_key key (b' ' ∷ encode_string s))
      (ap parse_basic (trim_space-encode_string s) ∙ parse_basic-written s)
    ∙ ap (λ k. ok (split_key k, s)) (trim_space-encode_key key)
    ∙ ap (λ parts. ok (parts, s)) (split_key-encode_key key h)

-- An entry of a key and a string that encodeTOML writes, ended by a line feed, is one line of the
-- file for parseTOML, not a comment or header, and is read, the key without a quote and a line
-- feed: the string comes back whatever its bytes, and the key in one part, with each backslash twice
-- and without the spaces around it.
pub read_entry-write_entry :
    (key s rest : Str)
    → contains_byte quote key ≡ false
    → contains_byte 10 key ≡ false
    → (lines_of (write_entry key s ++ (10 ∷ rest)) ≡ write_entry key s ∷ lines_of rest)
      × (is_entry (write_entry key s) ≡ true)
      × (read_entry (write_entry key s)
          ≡ ok (trim_space (replace_byte backslash (escaped backslash) key) ∷ [], s))
read_entry-write_entry key s rest h k =
    let (line, fits) = lines_of-write_entry key s rest k in (line, fits, read_back key s h)
