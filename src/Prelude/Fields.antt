-- ===== src/Prelude/Fields.antt =====
-- strings.Fields, for the spaces of ASCII, and strings.ToLower.
use Prim.Native.Nat.{ℕ, ◌+◌}
use mathlib.Core.Bool.{Bool, true, ◌&&◌}
use mathlib.Core.List.{List, [], ◌∷◌, map}
use dotvault.Prelude.Tests.{ltb, leb, if◌then◌else◌}
use dotvault.Prelude.Text.{Str, is_empty}
use dotvault.Prelude.Space.{is_space}

abbrev pub cons_word : Str → List Str → List Str
cons_word w ws = if is_empty w then ws else w ∷ ws

-- The word that the text begins with, empty at a space, and the other words.
unfoldable pub words : Str → Str × List Str
words [] = ([], [])
words (c ∷ s) = let (w, ws) = words s in if is_space c then ([], cons_word w ws) else (c ∷ w, ws)

unfoldable pub fields : Str → List Str
unfolding words
fields s = let (w, ws) = words s in cons_word w ws

unfoldable pub is_ascii : Str → Bool
is_ascii [] = true
is_ascii (c ∷ s) = let rest = is_ascii s in ltb c 128 && rest

abbrev pub lower_byte : ℕ → ℕ
lower_byte c = if leb 65 c && leb c 90 then c + 32 else c

-- What Unicode's tables make of a text that is not ASCII is a parameter.
unfoldable pub to_lower : (Str → Str) → Str → Str
unfolding is_ascii
to_lower unicode s = if is_ascii s then map lower_byte s else unicode s
