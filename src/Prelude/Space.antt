-- ===== src/Prelude/Space.antt =====
-- strings.TrimSpace and bytes.TrimSpace, for the spaces of ASCII.
use Prim.Native.Nat.{ℕ}
use mathlib.Core.Path.{◌≡◌, refl}
use mathlib.Core.Bool.{Bool, true, false, ◌&&◌, ◌||◌}
use mathlib.Core.List.{[], ◌∷◌}
use native.Mathlib.Omega.{arith}
use dotvault.Prelude.Tests.{◌==◌, leb, if◌then◌else◌}
use dotvault.Prelude.Text.{Str, is_empty}

-- '\t', '\n', '\v', '\f', '\r' and ' '
abbrev pub is_space : ℕ → Bool
is_space c = (leb 9 c && leb c 13) || c == 32

unfoldable pub trim_space_left : Str → Str
trim_space_left [] = []
trim_space_left (c ∷ s) = let rest = trim_space_left s in if is_space c then rest else c ∷ s

unfoldable pub trim_space_right : Str → Str
trim_space_right [] = []
trim_space_right (c ∷ s) =
    let rest = trim_space_right s in if is_empty rest && is_space c then [] else c ∷ rest

unfoldable pub trim_space : Str → Str
unfolding trim_space_left trim_space_right
trim_space s = trim_space_right (trim_space_left s)

unfoldable pub has_space : Str → Bool
has_space [] = false
has_space (c ∷ s) = let rest = has_space s in if is_space c then true else rest

trim_space_right_id : (s : Str) → has_space s ≡ false → trim_space_right s ≡ s
unfolding trim_space_right has_space
trim_space_right_id [] h = refl
trim_space_right_id (c ∷ s) h = ground (arith, h, trim_space_right_id s)

pub trim_space_id : (s : Str) → has_space s ≡ false → trim_space s ≡ s
unfolding trim_space trim_space_left
trim_space_id [] h = refl
trim_space_id (c ∷ s) h = unfold has_space in ground (arith, h, trim_space_right_id (c ∷ s))
