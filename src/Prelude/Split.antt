-- ===== src/Prelude/Split.antt =====
-- strings.Split, strings.Join and strings.Trim with one byte, and how they meet.
use Prim.Native.Nat.{ℕ, zero, suc}
use mathlib.Core.Path.{◌≡◌, refl, ap, ◌∙◌}
use mathlib.Core.Logic.{◌≢◌, inl, inr}
use mathlib.Core.Bool.{false}
use mathlib.Core.List.{List, [], ◌∷◌, ◌++◌, append-nil}
use native.Mathlib.Omega.{arith}
use dotvault.Prelude.Tests.{◌==◌, if◌then◌else◌, Bool-cases}
use dotvault.Prelude.Lists.{replicate, All}
use dotvault.Prelude.Text.{Str, contains_byte}

module _ (sep : ℕ) where
  -- The first part and the others: a split always has at least one part.
  unfoldable pub parts : Str → Str × List Str
  parts [] = ([], [])
  parts (x ∷ s) =
      let (first, rest) = parts s in if x == sep then ([], first ∷ rest) else (x ∷ first, rest)

  -- strings.Split(s, sep)
  unfoldable pub split : Str → List Str
  unfolding parts
  split s = let (first, rest) = parts s in first ∷ rest

  -- strings.Join(parts, sep)
  unfoldable pub join : List Str → Str
  join [] = []
  join (p ∷ []) = p
  join (p ∷ q ∷ ps) = p ++ (sep ∷ join (q ∷ ps))

  -- strings.TrimLeft(s, sep)
  unfoldable pub trim_left : Str → Str
  trim_left [] = []
  trim_left (x ∷ s) = let rest = trim_left s in if x == sep then rest else x ∷ s

  -- strings.TrimRight(s, sep)
  unfoldable pub trim_right : Str → Str
  trim_right [] = []
  trim_right (x ∷ s) = elim (trim_right s) [
    | [] ↦ if x == sep then [] else x ∷ []
    | y ∷ t ↦ x ∷ y ∷ t
  ]

  -- strings.Trim(s, sep)
  unfoldable pub trim : Str → Str
  unfolding trim_left trim_right
  trim s = trim_right (trim_left s)

  parts-append :
      (p rest : Str) → contains_byte sep p ≡ false → parts (p ++ (sep ∷ rest)) ≡ (p, split rest)
  unfolding parts split contains_byte
  parts-append [] rest h = ground arith
  parts-append (x ∷ p) rest h = ground (arith, parts-append p rest)

  parts_whole : (p : Str) → contains_byte sep p ≡ false → parts p ≡ (p, [])
  unfolding parts contains_byte
  parts_whole [] h = refl
  parts_whole (x ∷ p) h = ground (arith, parts_whole p)

  -- A first part that lacks the separator is split off whole.
  pub split-append :
      (p rest : Str) → contains_byte sep p ≡ false → split (p ++ (sep ∷ rest)) ≡ p ∷ split rest
  unfolding split
  split-append p rest h = rw (parts-append p rest h)

  split_whole : (p : Str) → contains_byte sep p ≡ false → split p ≡ p ∷ []
  unfolding split
  split_whole p h = rw (parts_whole p h)

  -- Splitting a join gives the parts back, if there is a part and none holds the separator.
  pub split-join :
      (p : Str) (ps : List Str)
      → All (λ q. contains_byte sep q ≡ false) (p ∷ ps)
      → split (join (p ∷ ps)) ≡ p ∷ ps
  unfolding join
  split-join p [] (h, _) = split_whole p h
  split-join p (q ∷ ps) (h, hs) =
      split-append p (join (q ∷ ps)) h ∙ ap (λ t. p ∷ t) (split-join q ps hs)

  join-cons : (x : ℕ) (p : Str) (ps : List Str) → join ((x ∷ p) ∷ ps) ≡ x ∷ join (p ∷ ps)
  unfolding join
  join-cons x p [] = refl
  join-cons x p (q ∷ ps) = refl

  join-nil-cons : (p : Str) (ps : List Str) → join ([] ∷ p ∷ ps) ≡ sep ∷ join (p ∷ ps)
  unfolding join
  join-nil-cons p ps = refl

  -- Joining the parts of a split gives the text back.
  pub join-split : (s : Str) → join (split s) ≡ s
  join-split [] = unfold join split in refl
  join-split (x ∷ s) = step (join-split s)
    where
      step : join (split s) ≡ s → join (split (x ∷ s)) ≡ x ∷ s
      step ih =
          unfold split parts in
          ground
            (arith, ih, join-cons x (parts s).0 (parts s).1, join-nil-cons (parts s).0 (parts s).1)

  -- A text that does not begin with the separator is left as it is, and so at the other end.
  pub trim_left_id : (s : Str) → (parts s).0 ≢ [] → trim_left s ≡ s
  unfolding trim_left parts
  trim_left_id [] h = refl
  trim_left_id (x ∷ s) h = ground arith

  pub trim_right_id : (s : Str) → All (λ q. q ≢ []) (parts s).1 → trim_right s ≡ s
  unfolding trim_right parts
  trim_right_id [] h = refl
  trim_right_id (x ∷ []) h = ground arith
  trim_right_id (x ∷ y ∷ s) h = ground (arith, trim_right_id (y ∷ s))

  pub trim_left-replicate : (n : ℕ) (s : Str) → trim_left (replicate n sep ++ s) ≡ trim_left s
  unfolding trim_left
  trim_left-replicate zero s = refl
  trim_left-replicate (suc n) s = ground (arith, trim_left-replicate n s)

  trim_right-replicate_self : (n : ℕ) → trim_right (replicate n sep) ≡ []
  unfolding trim_right
  trim_right-replicate_self zero = refl
  trim_right-replicate_self (suc n) = ground (arith, trim_right-replicate_self n)

  pub trim_right-replicate : (s : Str) (n : ℕ) → trim_right (s ++ replicate n sep) ≡ trim_right s
  unfolding trim_right
  trim_right-replicate [] n = trim_right-replicate_self n
  trim_right-replicate (x ∷ s) n = ground (arith, trim_right-replicate s n)

  pub trim_left_lem : (s : Str) → (n : ℕ) × (s ≡ replicate n sep ++ trim_left s)
  unfolding trim_left
  trim_left_lem [] = (0, refl)
  trim_left_lem (x ∷ s) =
      let (n, e) = trim_left_lem s in
      elim (Bool-cases (x == sep)) [ inl t ↦ (suc n, ground (arith, e)) | inr f ↦ (0, rw f) ]

  pub trim_right_lem : (s : Str) → (n : ℕ) × (s ≡ trim_right s ++ replicate n sep)
  unfolding trim_right
  trim_right_lem [] = (0, refl)
  trim_right_lem (x ∷ s) =
      let (n, e) = trim_right_lem s in
      elim (Bool-cases (x == sep)) [
        | inl t ↦ (elim (trim_right s) [ [] ↦ suc n | _ ↦ n ], ground (arith, e))
        | inr f ↦ (n, ground (arith, e))
      ]

  pub trim_left-append : (s t : Str) → (parts s).0 ≢ [] → trim_left (s ++ t) ≡ s ++ t
  unfolding trim_left parts
  trim_left-append [] t h = absurd (h refl)
  trim_left-append (x ∷ s) t h = ground arith

  -- Trimming takes the separators off both ends of a text that has none there, and no more.
  pub trim-append :
      (a b : ℕ) (s : Str)
      → (parts s).0 ≢ []
      → All (λ q. q ≢ []) (parts s).1
      → trim (replicate a sep ++ (s ++ replicate b sep)) ≡ s
  trim-append a b s h hs =
      unfold trim in
      rw
        (
          trim_left-replicate a (s ++ replicate b sep),
          trim_left-append s (replicate b sep) h,
          trim_right-replicate s b,
        )
        (trim_right_id s hs)

  pub trim-replicate : (a b : ℕ) → trim (replicate a sep ++ replicate b sep) ≡ []
  unfolding trim
  trim-replicate a b =
      rw (trim_left-replicate a (replicate b sep)) (step (trim_left-replicate b []))
    where
      step : trim_left (replicate b sep ++ []) ≡ [] → trim_right (trim_left (replicate b sep)) ≡ []
      step e = rw (rw append-nil at e)

  -- What trimming took off is separators only.
  pub trim_lem :
      (s : Str) → (a : ℕ) × (b : ℕ) × (s ≡ replicate a sep ++ (trim s ++ replicate b sep))
  unfolding trim
  trim_lem s =
      let (a, e) = trim_left_lem s in
      let (b, f) = trim_right_lem (trim_left s) in (a, b, e ∙ ap (λ t. replicate a sep ++ t) f)
