-- ===== src/Config/Duration.antt =====
-- ParseDuration of internal/config/config.go and ValidateDockerTTL of docker.go. A duration is a
-- number of nanoseconds; time.ParseDuration is the parameter `std`.
use dotvault.Prelude.{
  ℕ, zero, suc, ◌+◌, ◌*◌, ◌/◌, ◌%◌, ◌≤◌, ◌==◌, ltb, Str, codes, Bool, true, false, [], ◌∷◌, ◌++◌,
  Option, none, some, Result, ok, err, ℤ, pos, negsuc, bad_syntax, out_of_range, is_digit,
  parse_digits, parse_digits-snoc, parse_int, magnitude, non_negative, trim_space, trim_space_id,
  has_space, is_empty, cut_suffix, cut_suffix-append, ◌≡◌, ◌≢◌, refl, inl, inr, Bool-cases,
  if◌then◌else◌, arith,
}
use dotvault.Sync.RenderHash.{digits, decimal}

pub data DurationError : Type 0 where
  empty_duration not_representable negative_duration too_many_days not_a_duration : DurationError

-- 24 * time.Hour
abbrev pub day : ℕ
day = 86_400_000_000_000

abbrev pub max_int64 : ℕ
max_int64 = 9_223_372_036_854_775_807

abbrev pub max_days : ℕ
max_days = max_int64 / day

unfoldable pub days_duration : ℤ → Result DurationError ℤ
days_duration (negsuc n) = err negative_duration
days_duration (pos n) = if ltb max_days n then err too_many_days else ok (pos (n * day))

module _ (std : Str → Option ℤ) where
  unfoldable pub std_duration : Str → Result DurationError ℤ
  std_duration s = elim (std s) [ none ↦ err not_a_duration | some d ↦ ok d ]

  unfoldable pub parse_duration : Str → Result DurationError ℤ
  unfolding days_duration std_duration
  parse_duration raw =
      let s = trim_space raw in
      if is_empty s then err empty_duration else elim (cut_suffix s (codes "d")) [
        | none ↦ std_duration s
        | some num ↦ elim (parse_int num) [
          | err out_of_range ↦ err not_representable
          | err bad_syntax ↦ std_duration s
          | ok days ↦ days_duration days
        ]
      ]

-- 10 * time.Minute
abbrev pub max_docker_cache_ttl : ℕ
max_docker_cache_ttl = 600_000_000_000

pub data TtlError : Type 0 where
  not_positive ttl_too_long : TtlError

unfoldable pub validate_docker_ttl : ℤ → Option TtlError
validate_docker_ttl (negsuc n) = some not_positive
validate_docker_ttl (pos n) =
    if n == 0
    then some not_positive
    else if ltb max_docker_cache_ttl n
    then some ttl_too_long
    else none

all_digits : Str → Bool
all_digits [] = true
all_digits (c ∷ s) = let rest = all_digits s in if is_digit 10 c then rest else false

all_digits-append :
    (s t : Str) → all_digits s ≡ true → all_digits t ≡ true → all_digits (s ++ t) ≡ true
unfolding all_digits
all_digits-append [] t h k = k
all_digits-append (c ∷ s) t h k = ground (arith, h, all_digits-append s t)

parse_digits-digits : (fuel n : ℕ) → n ≤ fuel → parse_digits 10 (digits fuel n) 0 ≡ some n
unfolding digits
parse_digits-digits zero n h = unfold parse_digits in ground arith
parse_digits-digits (suc fuel) n h = elim (Bool-cases (ltb n 10)) [
  | inl t ↦ rw t (unfold parse_digits in ground (arith, t))
  | inr f ↦
      rw (f, parse_digits-snoc, parse_digits-digits fuel (n / 10) (ground (arith, f)))
        (ground arith)
]

digits-all : (fuel n : ℕ) → all_digits (digits fuel n) ≡ true
unfolding digits all_digits
digits-all zero n = ground arith
digits-all (suc fuel) n = elim (Bool-cases (ltb n 10)) [
  | inl t ↦ rw t (ground (arith, t))
  | inr f ↦ rw f (
      all_digits-append (digits fuel (n / 10)) ((48 + n % 10) ∷ []) (digits-all fuel (n / 10))
        (ground arith))
]

snoc-ne-nil : (s : Str) (d : ℕ) → s ++ (d ∷ []) ≢ []
snoc-ne-nil [] d e = cc
snoc-ne-nil (c ∷ s) d e = cc

digits-ne-nil : (fuel n : ℕ) → digits fuel n ≢ []
unfolding digits
digits-ne-nil zero n = λ e. cc e
digits-ne-nil (suc fuel) n = elim (Bool-cases (ltb n 10)) [
  | inl t ↦ rw t (λ e. cc e)
  | inr f ↦ rw f (snoc-ne-nil (digits fuel (n / 10)) (48 + n % 10))
]

parse_int-digits :
    (s : Str) (n : ℕ)
    → all_digits s ≡ true
    → s ≢ []
    → parse_digits 10 s 0 ≡ some n
    → parse_int s ≡ non_negative (some n)
unfolding all_digits parse_int magnitude is_empty
parse_int-digits [] n a e h = absurd (e refl)
parse_int-digits (c ∷ s) n a e h = ground (arith, a, h)

has_space-digits : (s : Str) → all_digits s ≡ true → has_space (s ++ codes "d") ≡ false
unfolding all_digits has_space
has_space-digits [] a = refl
has_space-digits (c ∷ s) a = ground (arith, a, has_space-digits s)

is_empty-snoc : (s : Str) (d : ℕ) → is_empty (s ++ (d ∷ [])) ≡ false
unfolding is_empty
is_empty-snoc [] d = refl
is_empty-snoc (c ∷ s) d = refl

-- A whole number of days is accepted exactly if its nanoseconds fit an int64, and stands for that
-- many nanoseconds.
pub parse_duration-days :
    (std : Str → Option ℤ) (n : ℕ)
    → parse_duration std (decimal n ++ codes "d") ≡ (
        if ltb max_int64 (n * day)
        then (if ltb max_int64 n then err not_representable else err too_many_days)
        else ok (pos (n * day)))
unfolding decimal parse_duration
parse_duration-days std n =
    rw
      (
        trim_space_id (digits n n ++ codes "d") (has_space-digits (digits n n) (digits-all n n)),
        is_empty-snoc (digits n n) b'd',
        cut_suffix-append (digits n n) (codes "d") (λ e. ground (arith, e)),
        parse_int-digits (digits n n) n (digits-all n n) (digits-ne-nil n n)
            (parse_digits-digits n n (omega arith)),
      )
      (unfold non_negative days_duration in ground arith)
