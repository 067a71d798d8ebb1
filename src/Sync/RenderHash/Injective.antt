-- ===== src/Sync/RenderHash/Injective.antt =====
-- The text that ruleRenderHash of internal/sync/engine.go hashes determines the fields.
use dotvault.Prelude.{
  ◌≡◌, refl, Str, List, [], ◌∷◌, ◌++◌, length, Bool, true, false, contains_byte, arith,
}
use dotvault.Sync.{Rule}
use dotvault.Sync.RenderHash.{decimal, colon, prefixed, format_bool, rule_fields, rule_text}
use dotvault.Sync.RenderHash.Decimal.{decimal_inj, decimal-no_colon}

contains-append : (s t : Str) → contains_byte colon (s ++ (colon ∷ t)) ≡ true
unfolding contains_byte
contains-append [] t = refl
contains-append (x ∷ s) t = ground (arith, contains-append s t)

-- The first colon ends the length.
first_colon :
    (a b x y : Str)
    → a ++ (colon ∷ x) ≡ b ++ (colon ∷ y)
    → contains_byte colon a ≡ false
    → contains_byte colon b ≡ false
    → (a ≡ b) × (x ≡ y)
unfolding contains_byte
first_colon [] [] x y e f g = (refl, cc)
first_colon [] (c ∷ b) x y e f g = ground (arith, e, g)
first_colon (c ∷ a) [] x y e f g = ground (arith, e, f)
first_colon (c ∷ a) (d ∷ b) x y e f g = ground (arith, e, f, g, first_colon a b x y)

-- The length says where a field ends.
same_length : (s t x y : Str) → s ++ x ≡ t ++ y → length s ≡ length t → (s ≡ t) × (x ≡ y)
same_length [] [] x y e h = (refl, e)
same_length [] (d ∷ t) x y e h = absurd (omega arith)
same_length (c ∷ s) [] x y e h = absurd (omega arith)
same_length (c ∷ s) (d ∷ t) x y e h = ground (arith, e, same_length s t x y)

prefixed-cons :
    (s t : Str) (fs gs : List Str)
    → prefixed (s ∷ fs) ≡ prefixed (t ∷ gs)
    → (s ≡ t) × (prefixed fs ≡ prefixed gs)
unfolding prefixed
prefixed-cons s t fs gs e =
    let (d, r) =
      first_colon (decimal (length s)) (decimal (length t)) (s ++ prefixed fs) (t ++ prefixed gs) e
        (decimal-no_colon (length s)) (decimal-no_colon (length t)) in
    same_length s t (prefixed fs) (prefixed gs) r (decimal_inj (length s) (length t) d)

-- Two lists of as many fields that are written alike are the same.
pub prefixed_inj : (fs gs : List Str) → length fs ≡ length gs → prefixed fs ≡ prefixed gs → fs ≡ gs
prefixed_inj [] [] h e = refl
prefixed_inj [] (g ∷ gs) h e = absurd (omega arith)
prefixed_inj (f ∷ fs) [] h e = absurd (omega arith)
prefixed_inj (f ∷ fs) (g ∷ gs) h e =
    let (p, q) = prefixed-cons f g fs gs e in
    let r : fs ≡ gs = prefixed_inj fs gs (omega arith) q in cc

format_bool_inj : (a b : Bool) → format_bool a ≡ format_bool b → a ≡ b
unfolding format_bool
format_bool_inj true true e = refl
format_bool_inj true false e = cc
format_bool_inj false true e = cc
format_bool_inj false false e = refl

-- Rules with the same hashed text agree in all that determines the rendered, merged output.
pub rule_text_inj :
    (r s : Rule) → rule_text r ≡ rule_text s → (r.vault_key ≡ s.vault_key) × (r.target ≡ s.target)
unfolding rule_text
rule_text_inj r s e =
    let fields : rule_fields r ≡ rule_fields s =
      prefixed_inj (rule_fields r) (rule_fields s) refl e in
    ground (arith, fields, format_bool_inj r.target.delete_nulls s.target.delete_nulls)
