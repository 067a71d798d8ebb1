-- ===== src/Handlers/Toml/Tests.antt =====
-- internal/handlers/toml.go: tests, and runs of the theorems.
use dotvault.Prelude.{
  split, true, ◌++◌, Str, codes, [], ◌∷◌, ok, err, ◌≡◌, refl, trim_space, cut_prefix, has_prefix,
  is_empty, contains_byte,
}
use dotvault.Handlers.Toml.{
  no_equals, unterminated, unexpected_content, replace_byte, is_rest, escape, encode_string,
  parse_basic, split_key, encode_header_key,
}
use dotvault.Handlers.Toml.Entry.{lines_of, is_entry, read_entry, write_entry}
use dotvault.Handlers.Toml.Entry.Written.{read_entry-write_entry}

-- A quote, a backslash, a line break and a letter.
abbrev awkward : Str
awkward = 34 ∷ 92 ∷ 10 ∷ b'n' ∷ []

written_awkward : encode_string awkward ≡ codes "\"\\\"\\\\\\nn\""
unfolding encode_string escape replace_byte
written_awkward = refl

unclosed : parse_basic (codes "\"abc") ≡ err unterminated
unfolding parse_basic cut_prefix has_prefix
unclosed = refl

trailing : parse_basic (codes "\"abc\" x") ≡ err unexpected_content
unfolding parse_basic cut_prefix has_prefix is_empty trim_space
trailing = refl

header : encode_header_key (codes "a") (codes "b c") ≡ codes "a.\"b c\""
unfolding encode_header_key is_empty replace_byte
header = refl

dotted : split_key (codes "a . 'b.c'.\"d\"") ≡ codes "a" ∷ codes "b.c" ∷ codes "d" ∷ []
unfolding split_key trim_space is_empty
dotted = refl

-- A sign in the key is not the one that the line is cut at.
sign_in_key : read_entry (codes "\"a=b\" = \"1\" # note") ≡ ok (codes "a=b" ∷ [], codes "1")
unfolding read_entry trim_space is_rest is_empty has_prefix
sign_in_key = refl

no_sign : read_entry (codes "key") ≡ err no_equals
unfolding read_entry
no_sign = refl

-- A key with a line feed is written over two lines, of which the first has no sign.
torn : lines_of (write_entry (97 ∷ 10 ∷ 98 ∷ []) []) ≡ codes "\"a" ∷ codes "b\" = \"\"" ∷ []
unfolding lines_of write_entry split trim_space is_empty replace_byte escape
torn = refl

torn_line : read_entry (codes "\"a") ≡ err no_equals
unfolding read_entry
torn_line = refl

-- A key with a backslash comes back with two, and a string with each byte that is escaped as it was.
read_entry-write_entry_example :
    (lines_of (write_entry (codes "a\\b c") awkward ++ (10 ∷ codes "# end"))
      ≡ write_entry (codes "a\\b c") awkward ∷ lines_of (codes "# end"))
    × (is_entry (write_entry (codes "a\\b c") awkward) ≡ true)
    × (read_entry (write_entry (codes "a\\b c") awkward) ≡ ok (codes "a\\\\b c" ∷ [], awkward))
unfolding contains_byte trim_space replace_byte is_empty
read_entry-write_entry_example =
    read_entry-write_entry (codes "a\\b c") awkward (codes "# end") refl refl
