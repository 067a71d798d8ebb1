-- ===== src/Prelude/Sorting.antt =====
-- sort.Strings, membership in a list of strings, and ascending lists.
use mathlib.Core.Path.{◌≡◌, refl, ◌∙◌}
use mathlib.Core.Logic.{inl, inr}
use mathlib.Core.Bool.{Bool, true, false, ◌||◌}
use mathlib.Core.List.{List, [], ◌∷◌, ◌++◌}
use native.Mathlib.Omega.{arith}
use dotvault.Prelude.Tests.{if◌then◌else◌, Bool-cases}
use dotvault.Prelude.Text.{Str, str_eq, str_eq_iff, str_eq_refl, str_lt}

-- sort.Strings
unfoldable pub insert_sorted : Str → List Str → List Str
insert_sorted x [] = x ∷ []
insert_sorted x (y ∷ ys) =
    let rest = insert_sorted x ys in if str_lt y x then y ∷ rest else x ∷ y ∷ ys

unfoldable pub sort_strings : List Str → List Str
unfolding insert_sorted
sort_strings [] = []
sort_strings (x ∷ xs) = insert_sorted x (sort_strings xs)

unfoldable pub any_equal : List Str → Str → Bool
any_equal [] path = false
any_equal (root ∷ roots) path =
    let rest = any_equal roots path in if str_eq path root then true else rest

pub any_equal-append :
    (xs ys : List Str) (x : Str) → any_equal (xs ++ ys) x ≡ any_equal xs x || any_equal ys x
unfolding any_equal
any_equal-append [] ys x = refl
any_equal-append (y ∷ xs) ys x = ground (arith, any_equal-append xs ys x)

pub any_equal-snoc :
    (xs : List Str) (r x : Str) → any_equal (xs ++ (r ∷ [])) x ≡ any_equal xs x || str_eq x r
unfolding any_equal
any_equal-snoc xs r x = ground (arith, any_equal-append xs (r ∷ []) x)

any_equal-insert_sorted :
    (y : Str) (ys : List Str) (x : Str)
    → any_equal (insert_sorted y ys) x ≡ str_eq x y || any_equal ys x
unfolding any_equal insert_sorted
any_equal-insert_sorted y [] x = ground arith
any_equal-insert_sorted y (z ∷ ys) x = ground (arith, any_equal-insert_sorted y ys x)

-- Sorting keeps the elements.
pub any_equal-sort : (ys : List Str) (x : Str) → any_equal (sort_strings ys) x ≡ any_equal ys x
unfolding any_equal sort_strings
any_equal-sort [] x = refl
any_equal-sort (y ∷ ys) x =
    ground (arith, any_equal-insert_sorted y (sort_strings ys) x, any_equal-sort ys x)

-- Each element is below the next one.
abbrev pub IsAscending : List Str → Type 0
IsAscending [] = Unit
IsAscending (x ∷ []) = Unit
IsAscending (x ∷ y ∷ ys) = (str_lt x y ≡ true) × IsAscending (y ∷ ys)

abbrev pub IsNodup : List Str → Type 0
IsNodup [] = Unit
IsNodup (x ∷ xs) = (any_equal xs x ≡ false) × IsNodup xs

str_lt_total : (x y : Str) → str_eq x y ≡ false → str_lt y x ≡ false → str_lt x y ≡ true
unfolding str_eq str_lt
str_lt_total [] [] e h = cc
str_lt_total [] (b ∷ y) e h = refl
str_lt_total (a ∷ x) [] e h = cc
str_lt_total (a ∷ x) (b ∷ y) e h = ground (arith, str_lt_total x y)

insert_sorted-IsAscending :
    (x : Str) (ys : List Str)
    → any_equal ys x ≡ false
    → IsAscending ys
    → IsAscending (insert_sorted x ys)
unfolding insert_sorted any_equal
insert_sorted-IsAscending x [] n h = tt
insert_sorted-IsAscending x (y ∷ []) n h = ground (arith, str_lt_total x y)
insert_sorted-IsAscending x (y ∷ z ∷ ys) n h =
    ground (arith, str_lt_total x y, insert_sorted-IsAscending x (z ∷ ys))

pub sort-IsAscending : (xs : List Str) → IsNodup xs → IsAscending (sort_strings xs)
unfolding sort_strings
sort-IsAscending [] h = tt
sort-IsAscending (x ∷ xs) (n, h) =
    insert_sorted-IsAscending x (sort_strings xs) (any_equal-sort xs x ∙ n) (sort-IsAscending xs h)

pub IsNodup-snoc :
    (xs : List Str) (r : Str) → any_equal xs r ≡ false → IsNodup xs → IsNodup (xs ++ (r ∷ []))
unfolding any_equal
IsNodup-snoc [] r n h = (refl, tt)
IsNodup-snoc (x ∷ xs) r n (m, h) = (
  any_equal-snoc xs r x ∙ ground (arith, m, n, str_eq_iff r x, str_eq_iff x r),
  IsNodup-snoc xs r (ground (arith, n)) h,
)

str_lt_irrefl : (x : Str) → str_lt x x ≡ false
unfolding str_lt
str_lt_irrefl [] = refl
str_lt_irrefl (a ∷ x) = ground (arith, str_lt_irrefl x)

str_lt_trans : (x y z : Str) → str_lt x y ≡ true → str_lt y z ≡ true → str_lt x z ≡ true
unfolding str_lt
str_lt_trans [] [] z p q = q
str_lt_trans [] (b ∷ y) [] p q = cc
str_lt_trans [] (b ∷ y) (c ∷ z) p q = refl
str_lt_trans (a ∷ x) [] z p q = cc
str_lt_trans (a ∷ x) (b ∷ y) [] p q = cc
str_lt_trans (a ∷ x) (b ∷ y) (c ∷ z) p q = ground (arith, str_lt_trans x y z)

-- The first element of an ascending list is below every other.
IsAscending-head :
    (y : Str) (ys : List Str) (x : Str)
    → IsAscending (y ∷ ys)
    → any_equal ys x ≡ true
    → str_lt y x ≡ true
unfolding any_equal
IsAscending-head y [] x h m = cc
IsAscending-head y (z ∷ zs) x (lt, h) m = elim (Bool-cases (str_eq x z)) [
  | inl same ↦ rw ((str_eq_iff x z).0 same) lt
  | inr other ↦ str_lt_trans y z x lt (IsAscending-head z zs x h (ground (arith, m, other)))
]

IsAscending-tail : (y : Str) (ys : List Str) → IsAscending (y ∷ ys) → IsAscending ys
IsAscending-tail y [] h = tt
IsAscending-tail y (z ∷ zs) (lt, h) = h

IsAscending-notin : (y : Str) (ys : List Str) → IsAscending (y ∷ ys) → any_equal ys y ≡ false
IsAscending-notin y ys h = elim (Bool-cases (any_equal ys y)) [
  | inr out ↦ out
  | inl m ↦ absurd (ground (arith, IsAscending-head y ys y h m, str_lt_irrefl y))
]

-- Ascending lists with the same elements are equal.
pub IsAscending-ext :
    (xs ys : List Str)
    → IsAscending xs
    → IsAscending ys
    → ((s : Str) → any_equal xs s ≡ any_equal ys s)
    → xs ≡ ys
IsAscending-ext [] [] h k e = refl
IsAscending-ext [] (y ∷ ys) h k e = absurd (unfold any_equal in ground (arith, e y, str_eq_refl y))
IsAscending-ext (x ∷ xs) [] h k e = absurd (unfold any_equal in ground (arith, e x, str_eq_refl x))
IsAscending-ext (x ∷ xs) (y ∷ ys) h k e =
    step (IsAscending-ext xs ys (IsAscending-tail x xs h) (IsAscending-tail y ys k))
  where
    heads : x ≡ y
    heads = elim (Bool-cases (str_eq x y)) [
      | inl same ↦ (str_eq_iff x y).0 same
      | inr other ↦
          let p = IsAscending-head x xs y h in
          let q = IsAscending-head y ys x k in
          absurd (
            unfold any_equal in
            ground (
              arith,
              other,
              e x,
              e y,
              str_eq_refl x,
              str_eq_refl y,
              str_eq_iff x y,
              str_eq_iff y x,
              p,
              q,
              str_lt_trans x y x,
              str_lt_irrefl x,
            ))
    ]

    tails : (s : Str) → any_equal xs s ≡ any_equal ys s
    tails s =
        unfold any_equal in
        ground (
          arith,
          e s,
          heads,
          str_eq_iff s x,
          str_eq_iff s y,
          IsAscending-notin x xs h,
          IsAscending-notin y ys k,
        )

    step : (((s : Str) → any_equal xs s ≡ any_equal ys s) → xs ≡ ys) → x ∷ xs ≡ y ∷ ys
    step ih = cc (heads, ih tails)
