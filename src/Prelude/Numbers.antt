-- ===== src/Prelude/Numbers.antt =====
-- Signed integers, and strconv.ParseInt and ParseUint on their digits.
use Prim.Native.Nat.{ℕ, zero, suc, ◌+◌, ◌-◌, ◌*◌, ◌^◌}
use mathlib.Core.Path.{◌≡◌, refl}
use mathlib.Core.Bool.{Bool, ◌&&◌}
use mathlib.Core.Option.{Option, none, some}
use mathlib.Core.List.{[], ◌∷◌, ◌++◌}
use native.Mathlib.Omega.{arith}
use dotvault.Prelude.Tests.{◌==◌, ltb, leb, if◌then◌else◌}
use dotvault.Prelude.Text.{Str, is_empty}
use dotvault.Prelude.Results.{Result, ok, err}

-- `negsuc n` is -(n + 1).
pub data ℤ : Type 0 where
  pos : ℕ → ℤ
  negsuc : ℕ → ℤ

abbrev pub neg : ℕ → ℤ
neg zero = pos 0
neg (suc n) = negsuc n

abbrev pub is_digit : ℕ → ℕ → Bool
is_digit base c = leb 48 c && ltb c (48 + base)

-- The digits of a base up to ten, read behind those that stand for acc.
unfoldable pub parse_digits : ℕ → Str → ℕ → Option ℕ
parse_digits base [] acc = some acc
parse_digits base (c ∷ s) acc =
    let rest = parse_digits base s (acc * base + (c - 48)) in if is_digit base c then rest else none

-- strconv.ErrSyntax and strconv.ErrRange
pub data NumError : Type 0 where
  bad_syntax out_of_range : NumError

unfoldable pub magnitude : ℕ → Str → Option ℕ
magnitude base s = if is_empty s then none else parse_digits base s 0

-- strconv.ParseUint(s, base, bits)
unfoldable pub parse_uint : ℕ → ℕ → Str → Result NumError ℕ
unfolding magnitude
parse_uint base bits s = elim (magnitude base s) [
  | none ↦ err bad_syntax
  | some n ↦ if ltb n (2 ^ bits) then ok n else err out_of_range
]

unfoldable pub non_negative : Option ℕ → Result NumError ℤ
non_negative none = err bad_syntax
non_negative (some n) = if ltb n (2 ^ 63) then ok (pos n) else err out_of_range

unfoldable pub negative : Option ℕ → Result NumError ℤ
negative none = err bad_syntax
negative (some n) = if leb n (2 ^ 63) then ok (neg n) else err out_of_range

-- strconv.ParseInt(s, 10, 64)
unfoldable pub parse_int : Str → Result NumError ℤ
unfolding magnitude non_negative negative
parse_int [] = err bad_syntax
parse_int (c ∷ s) =
    if c == b'-'
    then negative (magnitude 10 s)
    else if c == b'+'
    then non_negative (magnitude 10 s)
    else non_negative (magnitude 10 (c ∷ s))

pub parse_digits-snoc :
    (base : ℕ) (s : Str) (acc d : ℕ)
    → parse_digits base (s ++ (d ∷ [])) acc ≡ elim (parse_digits base s acc) [
      | none ↦ none
      | some v ↦ if is_digit base d then some (v * base + (d - 48)) else none
    ]
unfolding parse_digits
parse_digits-snoc base [] acc d = refl
parse_digits-snoc base (c ∷ s) acc d =
    ground (arith, parse_digits-snoc base s (acc * base + (c - 48)) d)
