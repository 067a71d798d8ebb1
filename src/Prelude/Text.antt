-- ===== src/Prelude/Text.antt =====
-- Go strings as lists of bytes, with the functions of package strings that the modules use.
use Prim.Native.Nat.{ℕ}
use Prim.Native.Char.{code}
use Prim.Native.String.{String}
use mathlib.Core.Path.{◌≡◌, refl}
use mathlib.Core.Logic.{◌↔◌}
use mathlib.Core.Bool.{Bool, true, false}
use mathlib.Core.Option.{Option, none, some}
use mathlib.Core.List.{List, [], ◌∷◌, ◌++◌}
use native.Mathlib.Omega.{arith}
use dotvault.Prelude.Tests.{◌==◌, ltb, if◌then◌else◌, Eq}

abbrev pub Str : Type 0
Str = List ℕ

-- The bytes of an ASCII literal.
abbrev pub codes : String → Str
codes String.[] = []
codes (String.◌∷◌ c s) = code c ∷ codes s

abbrev pub slash : ℕ
slash = 47

unfoldable pub str_eq : Str → Str → Bool
str_eq [] [] = true
str_eq [] (y ∷ t) = false
str_eq (x ∷ s) [] = false
str_eq (x ∷ s) (y ∷ t) = let rest = str_eq s t in if x == y then rest else false

str_eq_sound : (s t : Str) → str_eq s t ≡ true → s ≡ t
unfolding str_eq
str_eq_sound [] [] h = refl
str_eq_sound [] (y ∷ t) h = cc
str_eq_sound (x ∷ s) [] h = cc
str_eq_sound (x ∷ s) (y ∷ t) h = ground (arith, str_eq_sound s t)

pub str_eq_refl : (s : Str) → str_eq s s ≡ true
unfolding str_eq
str_eq_refl [] = refl
str_eq_refl (x ∷ s) = ground (arith, str_eq_refl s)

pub str_eq_iff : (s t : Str) → (str_eq s t ≡ true) ↔ (s ≡ t)
str_eq_iff s t = (str_eq_sound s t, λ e. rw e (str_eq_refl t))

instance abbrev pub str_has_eq : Eq Str
str_has_eq = record { beq = str_eq; beq_iff = str_eq_iff }

-- s == ""
unfoldable pub is_empty : Str → Bool
is_empty [] = true
is_empty (x ∷ s) = false

-- strings.ContainsRune, and strings.Contains with a needle of one byte
unfoldable pub contains_byte : ℕ → Str → Bool
contains_byte c [] = false
contains_byte c (x ∷ s) = let rest = contains_byte c s in if x == c then true else rest

-- strings.CutPrefix; `none` means that the prefix is not there
unfoldable pub cut_prefix : Str → Str → Option Str
cut_prefix s [] = some s
cut_prefix [] (p ∷ ps) = none
cut_prefix (x ∷ s) (p ∷ ps) = let rest = cut_prefix s ps in if x == p then rest else none

-- strings.HasPrefix
unfoldable pub has_prefix : Str → Str → Bool
unfolding cut_prefix
has_prefix s p = elim (cut_prefix s p) [ none ↦ false | some rest ↦ true ]

-- The byte order that Go's `<` has on strings.
unfoldable pub str_lt : Str → Str → Bool
str_lt [] [] = false
str_lt [] (y ∷ t) = true
str_lt (x ∷ s) [] = false
str_lt (x ∷ s) (y ∷ t) =
    let rest = str_lt s t in if ltb x y then true else if ltb y x then false else rest

pub cut_prefix-append : (p rest : Str) → cut_prefix (p ++ rest) p ≡ some rest
unfolding cut_prefix
cut_prefix-append [] rest = refl
cut_prefix-append (x ∷ p) rest = ground (arith, cut_prefix-append p rest)

pub cut_prefix_sound : (s p rest : Str) → cut_prefix s p ≡ some rest → s ≡ p ++ rest
unfolding cut_prefix
cut_prefix_sound s [] rest h = cc
cut_prefix_sound [] (p ∷ ps) rest h = cc
cut_prefix_sound (x ∷ s) (p ∷ ps) rest h = ground (arith, cut_prefix_sound s ps rest)
