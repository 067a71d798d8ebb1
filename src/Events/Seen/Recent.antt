-- ===== src/Events/Seen/Recent.antt =====
-- internal/events/events.go: a version in the window of a key.
use dotvault.Prelude.{
  ℕ, zero, suc, ◌+◌, ◌-◌, ◌≤◌, ◌<◌, ◌==◌, ==_iff, ltb, str_has_eq, false, ◌||◌, List, [], ◌∷◌, ◌++◌,
  none, some, ◌≡◌, refl, inl, inr, length, length-append, All, Bool-cases, arith, if◌then◌else◌,
}
use mathlib.Core.Logic.{◌⊎◌}
use dotvault.Events.Seen.{scan, drop, last_seen, extend}

-- The version is in the window, with at most c versions after it.
abbrev pub Recent : ℕ → ℕ → List ℕ → Type 0
Recent v c [] = ⊥
Recent v c (x ∷ xs) = ((x ≡ v) × (length xs ≤ c)) ⊎ Recent v c xs

pub scan-Recent : (v c low : ℕ) (xs : List ℕ) → Recent v c xs → scan v low xs ≡ none
unfolding scan
scan-Recent v c low [] h = absurd h
scan-Recent v c low (x ∷ xs) h = elim h [
  | inl (e, _) ↦ ground (arith, e, ==_iff x v)
  | inr later ↦ ground (arith, scan-Recent v c (if low == 0 || ltb x low then x else low) xs later)
]

-- The lowest version is none above one that is there.
scan_le :
    (n low : ℕ) (xs : List ℕ) (l : ℕ)
    → All (λ v. 0 < v) xs
    → 0 < low
    → scan n low xs ≡ some l
    → (l ≤ low) × (0 < l)
unfolding scan
scan_le n low [] l h p e = ground (arith, e)
scan_le n low (x ∷ xs) l h p e =
    ground (arith, e, h.0, scan_le n x xs l h.1, scan_le n low xs l h.1)

pub scan-low :
    (n v c low : ℕ) (xs : List ℕ) (l : ℕ)
    → All (λ v. 0 < v) xs
    → Recent v c xs
    → scan n low xs ≡ some l
    → l ≤ v
unfolding scan
scan-low n v c low [] l h r e = absurd r
scan-low n v c low (x ∷ xs) l h r e =
    let low' = if low == 0 || ltb x low then x else low in
    elim r [
      | inl (same, _) ↦ ground (arith, same, e, h.0, scan_le n low' xs l h.1)
      | inr later ↦ ground (arith, e, scan-low n v c low' xs l h.1 later)
    ]

Recent-snoc : (v c n : ℕ) (xs : List ℕ) → Recent v c xs → Recent v (suc c) (xs ++ (n ∷ []))
Recent-snoc v c n [] r = absurd r
Recent-snoc v c n (x ∷ xs) (inl (e, short)) = inl (e, omega (arith, length-append xs (n ∷ [])))
Recent-snoc v c n (x ∷ xs) (inr later) = inr (Recent-snoc v c n xs later)

Recent-drop : (v c k : ℕ) (xs : List ℕ) → Recent v c xs → k + c < length xs → Recent v c (drop k xs)
unfolding drop
Recent-drop v c zero xs r h = r
Recent-drop v c (suc k) [] r h = r
Recent-drop v c (suc k) (x ∷ xs) (inl (e, short)) h = absurd (omega arith)
Recent-drop v c (suc k) (x ∷ xs) (inr later) h = Recent-drop v c k xs later (omega arith)

Recent-last_seen : (v c : ℕ) (xs : List ℕ) → Recent v c xs → c < 8 → Recent v c (last_seen xs)
unfolding last_seen
Recent-last_seen v c xs r h = elim (Bool-cases (ltb 8 (length xs))) [
  | inl long ↦ rw long (Recent-drop v c (length xs - 8) xs r (ground (arith, long)))
  | inr short ↦ rw short r
]

-- A version that is not lower pushes the others one place on.
pub Recent-extend :
    (v c n low : ℕ) (xs : List ℕ)
    → Recent v c xs
    → c < 7
    → low ≤ v
    → v ≤ n
    → Recent v (suc c) (extend n low xs)
unfolding extend
Recent-extend v c n low xs r h l k =
    let kept : ltb n low ≡ false = ground arith in
    rw kept (Recent-last_seen v (suc c) (xs ++ (n ∷ [])) (Recent-snoc v c n xs r) (omega arith))

-- The version that is recorded is the last.
Recent-last : (n : ℕ) (xs : List ℕ) → Recent n 0 (xs ++ (n ∷ []))
Recent-last n [] = inl (refl, omega arith)
Recent-last n (x ∷ xs) = inr (Recent-last n xs)

pub Recent-recorded : (n low : ℕ) (xs : List ℕ) → Recent n 0 (extend n low xs)
unfolding extend
Recent-recorded n low xs =
    Recent-last_seen n 0 ((if ltb n low then [] else xs) ++ (n ∷ []))
      (Recent-last n (if ltb n low then [] else xs)) (omega arith)
