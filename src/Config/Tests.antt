-- ===== src/Config/Tests.antt =====
-- Runs and instances for durations.
use dotvault.Prelude.{
  Str, codes, Option, none, some, ok, err, ℤ, pos, parse_digits, parse_int, trim_space, is_empty,
  cut_suffix, str_eq, ◌≡◌, refl, if◌then◌else◌,
}
use dotvault.Config.Duration.{
  too_many_days, negative_duration, parse_duration, validate_docker_ttl, ttl_too_long,
}

-- A stand-in for time.ParseDuration that knows one text.
abbrev std : Str → Option ℤ
std s = if str_eq s (codes "6h") then some (pos 21_600_000_000_000) else none

sixty_days : parse_duration std (codes " 60d\n") ≡ ok (pos 5_184_000_000_000_000)
unfolding parse_duration parse_int parse_digits trim_space is_empty cut_suffix str_eq
sixty_days = refl

hours : parse_duration std (codes "6h") ≡ ok (pos 21_600_000_000_000)
unfolding parse_duration parse_int parse_digits trim_space is_empty cut_suffix str_eq
hours = refl

minus_five : parse_duration std (codes "-5d") ≡ err negative_duration
unfolding parse_duration parse_int parse_digits trim_space is_empty cut_suffix str_eq
minus_five = refl

too_big : parse_duration std (codes "106752d") ≡ err too_many_days
unfolding parse_duration parse_int parse_digits trim_space is_empty cut_suffix str_eq
too_big = refl

hour_ttl : validate_docker_ttl (pos 3_600_000_000_000) ≡ some ttl_too_long
unfolding validate_docker_ttl
hour_ttl = refl
