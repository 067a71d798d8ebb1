-- ===== src/Prelude/Suffix.antt =====
-- strings.CutSuffix and strings.HasSuffix.
use Prim.Native.Nat.{ℕ}
use mathlib.Core.Path.{◌≡◌, refl, ap}
use mathlib.Core.Logic.{◌≢◌, inl, inr}
use mathlib.Core.Bool.{Bool, true, false}
use mathlib.Core.Option.{Option, none, some}
use mathlib.Core.List.{[], ◌∷◌, ◌++◌}
use native.Mathlib.Omega.{arith}
use dotvault.Prelude.Tests.{if◌then◌else◌, Bool-cases, Option-cases}
use dotvault.Prelude.Lists.{length, length-append}
use dotvault.Prelude.Text.{Str, str_eq, str_eq_iff, str_eq_refl}

-- strings.CutSuffix, for a suffix that is not empty
unfoldable pub cut_suffix : Str → Str → Option Str
cut_suffix [] suffix = none
cut_suffix (x ∷ s) suffix =
    let rest = cut_suffix s suffix in
    if str_eq (x ∷ s) suffix
    then some []
    else elim rest [ none ↦ none | some stem ↦ some (x ∷ stem) ]

-- strings.HasSuffix, for a suffix that is not empty
unfoldable pub has_suffix : Str → Str → Bool
unfolding cut_suffix
has_suffix s suffix = elim (cut_suffix s suffix) [ none ↦ false | some stem ↦ true ]

longer : (x : ℕ) (s suffix : Str) → x ∷ (s ++ suffix) ≢ suffix
longer x s suffix e = omega (arith, ap length e, length-append s suffix)

pub cut_suffix-append : (s suffix : Str) → suffix ≢ [] → cut_suffix (s ++ suffix) suffix ≡ some s
unfolding cut_suffix
cut_suffix-append [] [] n = absurd (n refl)
cut_suffix-append [] (y ∷ suffix) n = ground (arith, str_eq_refl (y ∷ suffix))
cut_suffix-append (x ∷ s) suffix n =
    ground (
      arith,
      cut_suffix-append s suffix n,
      str_eq_iff (x ∷ (s ++ suffix)) suffix,
      longer x s suffix,
    )

pub cut_suffix-some : (s suffix stem : Str) → cut_suffix s suffix ≡ some stem → s ≡ stem ++ suffix
unfolding cut_suffix
cut_suffix-some [] suffix stem e = absurd (ground (arith, e))
cut_suffix-some (x ∷ s) suffix stem e = elim (Bool-cases (str_eq (x ∷ s) suffix)) [
  | inl same ↦ ground (arith, e, same, str_eq_iff (x ∷ s) suffix)
  | inr other ↦ elim (Option-cases (cut_suffix s suffix)) [
    | inl absent ↦ absurd (ground (arith, e, other, absent))
    | inr (rest, found) ↦ ground (arith, e, other, found, cut_suffix-some s suffix rest found)
  ]
]
