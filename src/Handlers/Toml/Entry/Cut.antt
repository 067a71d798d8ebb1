-- ===== src/Handlers/Toml/Entry/Cut.antt =====
-- internal/handlers/toml.go: a line is cut at the sign that was written.
use dotvault.Prelude.{
  ℕ, ◌==◌, Str, codes, true, false, not, ◌&&◌, ◌||◌, [], ◌∷◌, ◌++◌, none, some, ◌≡◌, refl, sym, ap,
  ◌∙◌, inl, inr, ◌⊎◌, is_empty, Bool-cases, arith, if◌then◌else◌,
}
use mathlib.Core.List.{append_assoc}
use dotvault.Handlers.Toml.{backslash, quote, replace_byte, escaped, is_bare, encode_key}
use dotvault.Handlers.Toml.Strings.{replace_byte-append}
use dotvault.Handlers.Toml.Entry.{before, equals_from, cut_equals}

abbrev pub escaped_key : Str → Str
escaped_key k = replace_byte quote (escaped quote) (replace_byte backslash (escaped backslash) k)

abbrev key_unit : ℕ → Str
key_unit c =
    if c == backslash then escaped backslash else if c == quote then escaped quote else c ∷ []

key_unit-cases :
    (c : ℕ)
    → ((d : ℕ) × (key_unit c ≡ escaped d))
      ⊎ ((key_unit c ≡ c ∷ []) × ((c == backslash) ≡ false) × ((c == quote) ≡ false))
key_unit-cases c = elim (Bool-cases (c == backslash)) [
  | inl y ↦ inl (backslash, ground arith)
  | inr n ↦ elim (Bool-cases (c == quote)) [
    | inl y ↦ inl (quote, ground arith)
    | inr n1 ↦ inr (ground arith)
  ]
]

escaped_key_byte : (c : ℕ) → escaped_key (c ∷ []) ≡ key_unit c
unfolding replace_byte
escaped_key_byte c = ground arith

escaped_key-cons : (c : ℕ) (k : Str) → escaped_key (c ∷ k) ≡ key_unit c ++ escaped_key k
escaped_key-cons c k =
    ap (replace_byte quote (escaped quote))
      (replace_byte-append backslash (escaped backslash) (c ∷ []) k)
    ∙ replace_byte-append quote (escaped quote)
        (replace_byte backslash (escaped backslash) (c ∷ []))
        (replace_byte backslash (escaped backslash) k)
    ∙ ap (λ t. t ++ escaped_key k) (escaped_key_byte c)

inside_plain :
    (c : ℕ) (t : Str)
    → ((c == backslash) ≡ false)
    → ((c == quote) ≡ false)
    → equals_from (some quote) (c ∷ t) ≡ before (c ∷ []) (equals_from (some quote) t)
unfolding equals_from
inside_plain c [] n n1 = refl
inside_plain c (d ∷ t) n n1 = rw (n, n1)

inside_escaped :
    (d : ℕ) (t : Str)
    → equals_from (some quote) (escaped d ++ t) ≡ before (escaped d) (equals_from (some quote) t)
unfolding equals_from
inside_escaped d t = refl

inside_unit :
    (c : ℕ) (t : Str)
    → equals_from (some quote) (key_unit c ++ t) ≡ before (key_unit c) (equals_from (some quote) t)
inside_unit c t = elim (key_unit-cases c) [
  | inl (d, written) ↦ rw written (inside_escaped d t)
  | inr (written, n, n1) ↦ rw written (inside_plain c t n n1)
]

-- No sign inside the quotes is taken for the one after them.
inside-escaped_key :
    (k rest : Str)
    → equals_from (some quote) (escaped_key k ++ (quote ∷ codes " =" ++ rest))
      ≡ some (escaped_key k ++ (quote ∷ codes " "), rest)
unfolding equals_from replace_byte
inside-escaped_key [] rest = refl
inside-escaped_key (c ∷ k) rest =
    ap (λ t. equals_from (some quote) (t ++ tail)) (escaped_key-cons c k)
    ∙ ap (equals_from (some quote)) (append_assoc (key_unit c) (escaped_key k) tail)
    ∙ inside_unit c (escaped_key k ++ tail)
    ∙ ap (before (key_unit c)) (inside-escaped_key k rest)
    ∙ ap (λ t. some (t, rest)) (sym (append_assoc (key_unit c) (escaped_key k) (quote ∷ codes " ")))
    ∙ ap (λ t. some (t ++ (quote ∷ codes " "), rest)) (sym (escaped_key-cons c k))
  where
    tail : Str
    tail = quote ∷ codes " =" ++ rest

outside-bare :
    (k rest : Str)
    → is_bare k ≡ true
    → equals_from none (k ++ (codes " =" ++ rest)) ≡ some (k ++ codes " ", rest)
unfolding equals_from is_bare
outside-bare [] rest h = refl
outside-bare (c ∷ k) rest h = rw (no_quote, no_equals_sign, outside-bare k rest others)
  where
    no_quote : ((c == quote) || (c == b'\'')) ≡ false
    no_quote = ground arith

    no_equals_sign : (c == b'=') ≡ false
    no_equals_sign = ground arith

    others : is_bare k ≡ true
    others = ground arith

-- A line is cut at the sign that was written, whatever the key.
pub cut_equals-encode_key :
    (key rest : Str)
    → cut_equals (encode_key key ++ (codes " =" ++ rest)) ≡ some (encode_key key ++ codes " ", rest)
unfolding cut_equals encode_key equals_from
cut_equals-encode_key key rest = elim (Bool-cases (is_bare key && not (is_empty key))) [
  | inl y ↦ rw y (outside-bare key rest (bare y))
  | inr n ↦ rw n (
      ap (before (quote ∷ [])) (
        ap (equals_from (some quote))
          (append_assoc (escaped_key key) (quote ∷ []) (codes " =" ++ rest))
        ∙ inside-escaped_key key rest
        ∙ ap (λ t. some (t, rest)) (sym (append_assoc (escaped_key key) (quote ∷ []) (codes " ")))))
]
  where
    bare : (is_bare key && not (is_empty key)) ≡ true → is_bare key ≡ true
    bare y = ground arith
