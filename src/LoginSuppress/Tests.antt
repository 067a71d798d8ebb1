-- ===== src/LoginSuppress/Tests.antt =====
-- Runs and instances for internal/loginsuppress.
use dotvault.Prelude.{codes, false, ok, pos, parse_int, parse_digits, is_empty, ◌≡◌, refl}

eight : parse_int (codes "8") ≡ ok (pos 8)
unfolding parse_int parse_digits is_empty
eight = refl

given : is_empty (codes "8") ≡ false
unfolding is_empty
given = refl
