-- ===== src/Sync/RenderHash/Decimal.antt =====
-- The decimal lengths that ruleRenderHash of internal/sync/engine.go writes.
use dotvault.Prelude.{
  ℕ, zero, suc, ◌+◌, ◌-◌, ◌*◌, ◌/◌, ◌%◌, ◌≤◌, ◌≡◌, refl, sym, ap, ◌∙◌, ltb, Str, [], ◌∷◌, ◌++◌,
  Bool-cases, inl, inr, true, false, ◌||◌, ◌==◌, contains_byte, arith,
}
use dotvault.Sync.RenderHash.{digits, decimal, colon}

-- The number that digits stand for, behind those already read.
value : ℕ → Str → ℕ
value acc [] = acc
value acc (d ∷ ds) = value (acc * 10 + (d - 48)) ds

value-append :
    (acc : ℕ) (ds : Str) (d : ℕ) → value acc (ds ++ (d ∷ [])) ≡ value acc ds * 10 + (d - 48)
unfolding value
value-append acc [] d = refl
value-append acc (e ∷ ds) d = value-append (acc * 10 + (e - 48)) ds d

value-digits : (fuel n : ℕ) → n ≤ fuel → value 0 (digits fuel n) ≡ n
unfolding digits
value-digits zero n h = unfold value in omega arith
value-digits (suc fuel) n h = elim (Bool-cases (ltb n 10)) [
  | inl t ↦ rw t (unfold value in omega arith)
  | inr f ↦ rw (f, value-append, value-digits fuel (n / 10) (ground (arith, f))) (omega arith)
]

contains-snoc :
    (c : ℕ) (s : Str) (d : ℕ) → contains_byte c (s ++ (d ∷ [])) ≡ contains_byte c s || d == c
unfolding contains_byte
contains-snoc c [] d = ground arith
contains-snoc c (x ∷ s) d = ground (arith, contains-snoc c s d)

one_digit : (n : ℕ) → ltb n 10 ≡ true → contains_byte colon ((48 + n) ∷ []) ≡ false
unfolding contains_byte
one_digit n h = ground arith

digits-no_colon : (fuel n : ℕ) → contains_byte colon (digits fuel n) ≡ false
unfolding digits
digits-no_colon zero n = unfold contains_byte in ground arith
digits-no_colon (suc fuel) n = ground (
  arith,
  digits-no_colon fuel (n / 10),
  contains-snoc colon (digits fuel (n / 10)) (48 + n % 10),
  one_digit n,
)

-- Different numbers have different digits.
pub decimal_inj : (m n : ℕ) → decimal m ≡ decimal n → m ≡ n
unfolding decimal
decimal_inj m n e =
    sym (value-digits m m (omega arith)) ∙ ap (value 0) e ∙ value-digits n n (omega arith)

pub decimal-no_colon : (n : ℕ) → contains_byte colon (decimal n) ≡ false
unfolding decimal
decimal-no_colon n = digits-no_colon n n
