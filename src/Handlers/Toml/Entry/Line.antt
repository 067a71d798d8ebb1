-- ===== src/Handlers/Toml/Entry/Line.antt =====
-- internal/handlers/toml.go: what is written is one line of the file, which parseTOML does not skip.
use dotvault.Prelude.{
  ℕ, ◌==◌, Str, codes, true, false, not, ◌&&◌, [], ◌∷◌, ◌++◌, ◌≡◌, refl, sym, ap, ◌∙◌, inl, inr,
  is_empty, is_space, trim_space, trim_space_left, trim_space_right, contains_byte, map, split,
  split-append, Bool-cases, arith,
}
use mathlib.Core.List.{append_assoc}
use dotvault.Handlers.Toml.{
  backslash, quote, replace_byte, escaped, escape, encode_string, is_bare, encode_key,
}
use dotvault.Handlers.Toml.Entry.{lines_of, is_entry, write_entry}
use dotvault.Handlers.Toml.Entry.Cut.{escaped_key}

contains_byte-append :
    (b : ℕ) (s t : Str)
    → contains_byte b s ≡ false
    → contains_byte b t ≡ false
    → contains_byte b (s ++ t) ≡ false
unfolding contains_byte
contains_byte-append b [] t h k = k
contains_byte-append b (x ∷ s) t h k = ground (arith, contains_byte-append b s t)

contains_byte-replace_byte :
    (b c : ℕ) (new s : Str)
    → contains_byte b new ≡ false
    → contains_byte b s ≡ false
    → contains_byte b (replace_byte c new s) ≡ false
unfolding contains_byte replace_byte
contains_byte-replace_byte b c new [] h k = refl
contains_byte-replace_byte b c new (x ∷ s) h k = elim (Bool-cases (x == c)) [
  | inl y ↦ rw y (
      contains_byte-append b new (replace_byte c new s) h
        (contains_byte-replace_byte b c new s h (ground arith)))
  | inr n ↦ rw n (ground (arith, contains_byte-replace_byte b c new s h))
]

-- A byte that is replaced is gone.
contains_byte-replaced :
    (b : ℕ) (new s : Str)
    → contains_byte b new ≡ false
    → contains_byte b (replace_byte b new s) ≡ false
unfolding contains_byte replace_byte
contains_byte-replaced b new [] h = refl
contains_byte-replaced b new (x ∷ s) h = elim (Bool-cases (x == b)) [
  | inl y ↦
      rw y (contains_byte-append b new (replace_byte b new s) h (contains_byte-replaced b new s h))
  | inr n ↦ rw n (ground (arith, contains_byte-replaced b new s h))
]

escape-one_line : (s : Str) → contains_byte 10 (escape s) ≡ false
unfolding escape contains_byte
escape-one_line s = contains_byte-replace_byte 10 13 (escaped b'r') _ refl (
    contains_byte-replace_byte 10 9 (escaped b't') _ refl
      (contains_byte-replaced 10 (escaped b'n') _ refl))

escaped_key-one_line :
    (key : Str) → contains_byte 10 key ≡ false → contains_byte 10 (escaped_key key) ≡ false
unfolding contains_byte
escaped_key-one_line key h =
    contains_byte-replace_byte 10 quote (escaped quote) _ refl
      (contains_byte-replace_byte 10 backslash (escaped backslash) key refl h)

encode_key-one_line :
    (key : Str) → contains_byte 10 key ≡ false → contains_byte 10 (encode_key key) ≡ false
unfolding encode_key contains_byte
encode_key-one_line key h = elim (Bool-cases (is_bare key && not (is_empty key))) [
  | inl y ↦ rw y h
  | inr n ↦
      rw n
        (contains_byte-append 10 (escaped_key key) (quote ∷ []) (escaped_key-one_line key h) refl)
]

write_entry-one_line :
    (key s : Str) → contains_byte 10 key ≡ false → contains_byte 10 (write_entry key s) ≡ false
unfolding write_entry encode_string contains_byte
write_entry-one_line key s h =
    contains_byte-append 10 (encode_key key) (codes " = " ++ encode_string s)
      (encode_key-one_line key h)
      (contains_byte-append 10 (escape s) (quote ∷ []) (escape-one_line s) refl)

-- The first byte of a key that is written is no space, and begins neither a comment nor a header.
encode_key-starts :
    (key : Str)
    → (c : ℕ) × (t : Str) × (encode_key key ≡ c ∷ t)
      × (is_space c ≡ false)
      × (not (c == b'#') && not (c == b'[') ≡ true)
unfolding encode_key is_bare is_empty
encode_key-starts [] = (quote, escaped_key [] ++ (quote ∷ []), refl, refl, refl)
encode_key-starts (c ∷ key) = elim (Bool-cases (is_bare (c ∷ key))) [
  | inl y ↦ (c, key, ground (arith, y), ground (arith, y), ground (arith, y))
  | inr n ↦ (quote, escaped_key (c ∷ key) ++ (quote ∷ []), rw n refl, refl, refl)
]

snoc_not_empty : (m : Str) (b : ℕ) → is_empty (m ++ (b ∷ [])) ≡ false
unfolding is_empty
snoc_not_empty [] b = refl
snoc_not_empty (c ∷ m) b = refl

pub trim_right_snoc :
    (m : Str) (b : ℕ) → is_space b ≡ false → trim_space_right (m ++ (b ∷ [])) ≡ m ++ (b ∷ [])
unfolding trim_space_right is_empty
trim_right_snoc [] b n = rw n
trim_right_snoc (c ∷ m) b n = rw (trim_right_snoc m b n, snoc_not_empty m b)

trim_space-bounded :
    (c : ℕ) (t : Str) (b : ℕ)
    → is_space c ≡ false
    → is_space b ≡ false
    → trim_space (c ∷ (t ++ (b ∷ []))) ≡ c ∷ (t ++ (b ∷ []))
unfolding trim_space trim_space_left
trim_space-bounded c t b h k = rw h (trim_right_snoc (c ∷ t) b k)

-- What is written has no space around it and is an entry.
write_entry-shape :
    (key s : Str)
    → (trim_space (write_entry key s) ≡ write_entry key s) × (is_entry (write_entry key s) ≡ true)
unfolding is_entry
write_entry-shape key s =
    let (c, t, starts, solid, fits) = encode_key-starts key in
    let body : Str = t ++ (codes " = " ++ (quote ∷ escape s)) in
    let shape : write_entry key s ≡ c ∷ (body ++ (quote ∷ [])) =
      unfold write_entry encode_string in
      ap (λ k. k ++ (codes " = " ++ (quote ∷ (escape s ++ (quote ∷ []))))) starts
      ∙ ap (λ r. c ∷ r) (sym (append_assoc t (codes " = " ++ (quote ∷ escape s)) (quote ∷ []))) in
    (
      ap trim_space shape ∙ trim_space-bounded c body quote solid refl ∙ sym shape,
      ap is_entry shape ∙ fits,
    )

-- An entry that is written and ended by a line feed is a line of its own, and not skipped.
pub lines_of-write_entry :
    (key s rest : Str)
    → contains_byte 10 key ≡ false
    → (lines_of (write_entry key s ++ (10 ∷ rest)) ≡ write_entry key s ∷ lines_of rest)
      × (is_entry (write_entry key s) ≡ true)
unfolding lines_of
lines_of-write_entry key s rest h =
    let (trimmed, fits) = write_entry-shape key s in
    (
      ap (map trim_space) (split-append 10 (write_entry key s) rest (write_entry-one_line key s h))
          ∙ ap (λ l. l ∷ map trim_space (split 10 rest)) trimmed,
      fits,
    )
