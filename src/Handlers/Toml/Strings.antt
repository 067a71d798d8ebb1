-- ===== src/Handlers/Toml/Strings.antt =====
-- internal/handlers/toml.go: a string that is written is read back.
use dotvault.Prelude.{
  ℕ, ◌+◌, ◌%◌, ◌==◌, Str, codes, true, false, ◌&&◌, [], ◌∷◌, ◌++◌, some, ok, ◌≡◌, refl, sym, ap,
  ◌∙◌, inl, inr, ◌⊎◌, has_prefix, cut_prefix, is_empty, trim_space, trim_space_left,
  trim_space_right, Bool-cases, arith, if◌then◌else◌,
}
use mathlib.Core.List.{append_assoc}
use dotvault.Handlers.Toml.{
  backslash, quote, replace_byte, escaped, escape, encode_string, unescaped, unescape, close_quote,
  is_rest, parse_basic,
}

pub replace_byte-append :
    (c : ℕ) (new s t : Str)
    → replace_byte c new (s ++ t) ≡ replace_byte c new s ++ replace_byte c new t
unfolding replace_byte
replace_byte-append c new [] t = refl
replace_byte-append c new (x ∷ s) t = simp (replace_byte-append c new s t, append_assoc)

-- How a byte is written.
abbrev unit : ℕ → Str
unit c =
    if c == backslash
    then escaped backslash
    else if c == quote
    then escaped quote
    else if c == 10
    then escaped b'n'
    else if c == 9
    then escaped b't'
    else if c == 13
    then escaped b'r'
    else c ∷ []

escape-append : (s t : Str) → escape (s ++ t) ≡ escape s ++ escape t
unfolding escape
escape-append s t = simp replace_byte-append

escape_byte : (c : ℕ) → escape (c ∷ []) ≡ unit c
unfolding escape replace_byte
escape_byte c = ground arith

escape-cons : (c : ℕ) (s : Str) → escape (c ∷ s) ≡ unit c ++ escape s
escape-cons c s = escape-append (c ∷ []) s ∙ ap (λ t. t ++ escape s) (escape_byte c)

-- A byte is written as a backslash and a byte that stands for it, or as itself.
unit-cases :
    (c : ℕ)
    → ((d : ℕ) × (unit c ≡ escaped d) × (unescaped d ≡ c ∷ []))
      ⊎ ((unit c ≡ c ∷ []) × ((c == backslash) ≡ false) × ((c == quote) ≡ false))
unit-cases c = elim (Bool-cases (c == backslash)) [
  | inl y ↦ inl (backslash, ground arith, ground arith)
  | inr n ↦ elim (Bool-cases (c == quote)) [
    | inl y ↦ inl (quote, ground arith, ground arith)
    | inr n1 ↦ elim (Bool-cases (c == 10)) [
      | inl y ↦ inl (b'n', ground arith, ground arith)
      | inr n2 ↦ elim (Bool-cases (c == 9)) [
        | inl y ↦ inl (b't', ground arith, ground arith)
        | inr n3 ↦ elim (Bool-cases (c == 13)) [
          | inl y ↦ inl (b'r', ground arith, ground arith)
          | inr n4 ↦ inr (ground arith)
        ]
      ]
    ]
  ]
]

unescape-plain :
    (c : ℕ) → ((c == backslash) ≡ false) → (s : Str) → unescape (c ∷ s) ≡ c ∷ unescape s
unfolding unescape
unescape-plain c n [] = refl
unescape-plain c n (d ∷ s) = rw n

unescape-unit : (c : ℕ) (s : Str) → unescape (unit c ++ s) ≡ c ∷ unescape s
unfolding unescape
unescape-unit c s = elim (unit-cases c) [
  | inl (d, written, means) ↦ rw (written, means)
  | inr (written, n, _) ↦ ap (λ u. unescape (u ++ s)) written ∙ unescape-plain c n s
]

unescape-escape : (s : Str) → unescape (escape s) ≡ s
unfolding unescape escape replace_byte
unescape-escape [] = refl
unescape-escape (c ∷ s) =
    ap unescape (escape-cons c s) ∙ unescape-unit c (escape s) ∙ ap (λ t. c ∷ t) (unescape-escape s)

-- After an even number of backslashes an escaped byte does not close the string.
close_quote-escaped :
    (d run : ℕ) (t text rest : Str)
    → run % 2 ≡ 0
    → ((n : ℕ) → n % 2 ≡ 0 → close_quote n t ≡ some (text, rest))
    → close_quote run (escaped d ++ t) ≡ some (escaped d ++ text, rest)
unfolding close_quote
close_quote-escaped d run t text rest even h = elim (Bool-cases (d == backslash)) [
  | inl y ↦ rw (y, odd, h (run + 1 + 1) (ground arith))
  | inr n ↦ rw (n, odd, h 0 refl)
]
  where
    odd : ((d == quote) && ((run + 1) % 2 == 0)) ≡ false
    odd = ground arith

close_quote-plain :
    (c run : ℕ) (t text rest : Str)
    → ((c == backslash) ≡ false)
    → ((c == quote) ≡ false)
    → ((n : ℕ) → n % 2 ≡ 0 → close_quote n t ≡ some (text, rest))
    → close_quote run (c ∷ t) ≡ some (c ∷ text, rest)
unfolding close_quote
close_quote-plain c run t text rest n n1 h = rw (n, n1, h 0 refl)

at_unit :
    (c : ℕ) (u : Str)
    → unit c ≡ u
    → (run : ℕ) (t text rest : Str) → close_quote run (u ++ t) ≡ some (u ++ text, rest)
    → close_quote run (unit c ++ t) ≡ some (unit c ++ text, rest)
at_unit c u written run t text rest e = rw (written, e)

close_quote-unit :
    (c run : ℕ) (t text rest : Str)
    → run % 2 ≡ 0
    → ((n : ℕ) → n % 2 ≡ 0 → close_quote n t ≡ some (text, rest))
    → close_quote run (unit c ++ t) ≡ some (unit c ++ text, rest)
close_quote-unit c run t text rest even h = elim (unit-cases c) [
  | inl (d, written, _) ↦
      at_unit c (escaped d) written run t text rest (close_quote-escaped d run t text rest even h)
  | inr (written, n, n1) ↦
      at_unit c (c ∷ []) written run t text rest (close_quote-plain c run t text rest n n1 h)
]

close_quote-escape :
    (s rest : Str) (run : ℕ)
    → run % 2 ≡ 0
    → close_quote run (escape s ++ (quote ∷ rest)) ≡ some (escape s, rest)
unfolding close_quote escape replace_byte
close_quote-escape [] rest run even = ground arith
close_quote-escape (c ∷ s) rest run even =
    ap (λ t. close_quote run (t ++ (quote ∷ rest))) (escape-cons c s)
    ∙ ap (close_quote run) (append_assoc (unit c) (escape s) (quote ∷ rest))
    ∙ close_quote-unit c run (escape s ++ (quote ∷ rest)) (escape s) rest even
        (close_quote-escape s rest)
    ∙ ap (λ t. some (t, rest)) (sym (escape-cons c s))

rest-unquoted : (rest : Str) → is_rest (quote ∷ rest) ≡ false
unfolding is_rest trim_space trim_space_left trim_space_right has_prefix cut_prefix is_empty
rest-unquoted rest = elim (Bool-cases (is_empty (trim_space_right rest))) [
  | inl e ↦ rw e
  | inr f ↦ rw f
]

rest-head : (x : ℕ) (rest : Str) → is_rest (x ∷ rest) ≡ true → (x == quote) ≡ false
rest-head x rest clean = elim (Bool-cases (x == quote)) [
  | inl y ↦ absurd (differ (sym clean ∙ ap (λ c. is_rest (c ∷ rest)) (same y) ∙ rest-unquoted rest))
  | inr n ↦ n
]
  where
    same : (x == quote) ≡ true → x ≡ quote
    same y = ground arith

    differ : true ≡ false → ⊥
    differ e = cc

-- What is written for a byte begins with no quote.
unit-unquoted : (c : ℕ) (t : Str) → has_prefix (quote ∷ (unit c ++ t)) (codes "\"\"\"") ≡ false
unfolding has_prefix cut_prefix
unit-unquoted c t = elim (unit-cases c) [
  | inl (d, written, _) ↦ rw written
  | inr (written, n, n1) ↦ rw (written, has_prefix, n1)
]

no_triple :
    (s rest : Str)
    → is_rest rest ≡ true
    → has_prefix (quote ∷ (escape s ++ (quote ∷ rest))) (codes "\"\"\"") ≡ false
unfolding has_prefix cut_prefix is_rest escape replace_byte
no_triple [] [] clean = refl
no_triple [] (x ∷ rest) clean = rw (has_prefix, rest-head x rest clean)
no_triple (c ∷ s) rest clean =
    ap (λ t. has_prefix (quote ∷ (t ++ (quote ∷ rest))) (codes "\"\"\"")) (escape-cons c s)
    ∙ ap (λ t. has_prefix (quote ∷ t) (codes "\"\"\""))
        (append_assoc (unit c) (escape s) (quote ∷ rest))
    ∙ unit-unquoted c (escape s ++ (quote ∷ rest))

-- A string that is written and read again is the string, whatever bytes it holds, with nothing or
-- a comment behind it.
pub parse_basic-encode_string :
    (s rest : Str) → is_rest rest ≡ true → parse_basic (encode_string s ++ rest) ≡ ok s
unfolding parse_basic encode_string cut_prefix
parse_basic-encode_string s rest clean = rw (
  append_assoc (escape s) (quote ∷ []) rest,
  no_triple s rest clean,
  close_quote-escape s rest 0 refl,
  clean,
  unescape-escape s,
)
