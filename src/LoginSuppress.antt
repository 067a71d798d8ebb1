-- ===== src/LoginSuppress.antt =====
-- internal/loginsuppress/loginsuppress.go: whether a login check of a new shell stays quiet.
pub mod Window
mod Tests
use dotvault.Prelude.{
  ℕ, ◌-◌, ◌*◌, ◌%◌, ◌==◌, ltb, Str, codes, Bool, true, false, not, List, [], ◌∷◌, Option, none,
  some, Result, ok, err, ℤ, pos, negsuc, parse_int, is_empty, if◌then◌else◌,
}

abbrev pub hour : ℕ
hour = 3_600_000_000_000

abbrev pub default_hours : ℕ
default_hours = 6

-- The int64 that a product of int64s is.
unfoldable pub to_int64 : ℕ → ℤ
to_int64 m =
    let r = m % 18_446_744_073_709_551_616 in
    if ltb r 9_223_372_036_854_775_808 then pos r else negsuc (18_446_744_073_709_551_615 - r)

-- Path, with the three variables of the environment, none where the home directory is not known,
-- and filepath.Join.
unfoldable pub path : (List Str → Str) → Str → Str → Option Str → Str
path join marker state_home home =
    if not (is_empty marker)
    then marker
    else if not (is_empty state_home)
    then join (state_home ∷ codes "dotvault" ∷ codes "login-check-suppress" ∷ [])
    else elim home [
      | none ↦ []
      | some h ↦ join (
          join (h ∷ codes ".local" ∷ codes "state" ∷ [])
          ∷ codes "dotvault"
          ∷ codes "login-check-suppress"
          ∷ [])
    ]

-- Window, of the variable's text; none is the error.
unfoldable pub window : Str → Option ℤ
window raw = if is_empty raw then some (to_int64 (default_hours * hour)) else elim (parse_int raw) [
  | err e ↦ none
  | ok d ↦ elim d [ negsuc n ↦ none | pos n ↦ if n == 0 then none else some (to_int64 (n * hour)) ]
]

abbrev pub less : ℕ → ℤ → Bool
less d (pos w) = ltb d w
less d (negsuc w) = false

-- IsFresh, with the modification time of the marker, none where it cannot be read. Times are
-- nanoseconds, less than an int64 apart.
unfoldable pub is_fresh : Str → ℤ → Option ℕ → ℕ → Bool
is_fresh path window mtime now =
    if is_empty path
    then false
    else elim mtime [ none ↦ false | some t ↦ if ltb now t then false else less (now - t) window ]
