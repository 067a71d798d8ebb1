-- ===== src/Sync/RenderHash.antt =====
-- ruleRenderHash of internal/sync/engine.go: the text that is hashed.
pub mod Decimal
pub mod Injective
use dotvault.Prelude.{
  ℕ, zero, suc, ◌+◌, ◌/◌, ◌%◌, ltb, Str, codes, List, [], ◌∷◌, ◌++◌, length, Bool, true, false,
  if◌then◌else◌,
}
use dotvault.Sync.{Rule}

-- The decimal digits of a number; the number itself is fuel enough.
unfoldable pub digits : ℕ → ℕ → Str
digits zero n = (48 + n % 10) ∷ []
digits (suc fuel) n =
    let rest = digits fuel (n / 10) in
    if ltb n 10 then (48 + n) ∷ [] else rest ++ ((48 + n % 10) ∷ [])

-- fmt's %d of a length
unfoldable pub decimal : ℕ → Str
unfolding digits
decimal n = digits n n

abbrev pub colon : ℕ
colon = 58

-- The loop of Fprintf(h, "%d:%s", len(s), s).
unfoldable pub prefixed : List Str → Str
prefixed [] = []
prefixed (s ∷ fields) = decimal (length s) ++ (colon ∷ (s ++ prefixed fields))

-- strconv.FormatBool
unfoldable pub format_bool : Bool → Str
format_bool true = codes "true"
format_bool false = codes "false"

unfoldable pub rule_fields : Rule → List Str
rule_fields rule =
    rule.vault_key
    ∷ rule.target.path
    ∷ rule.target.format
    ∷ rule.target.template
    ∷ rule.target.merge
    ∷ format_bool rule.target.delete_nulls
    ∷ []

unfoldable pub rule_text : Rule → Str
unfolding rule_fields
rule_text rule = prefixed (rule_fields rule)
