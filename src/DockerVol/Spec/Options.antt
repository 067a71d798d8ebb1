-- ===== src/DockerVol/Spec/Options.antt =====
-- What the methods of internal/dockervol/dockervol.go's Spec decide: Equal, DirMode, Covers.
use dotvault.Prelude.{
  ◌≤◌, ◌+◌, ◌%◌, ◌/◌, Str, true, List, [], ◌∷◌, ◌≡◌, ◌↔◌, refl, ℤ, pos, negsuc, str_eq_iff,
  str_eq_refl, arith,
}
use dotvault.DockerVol.Spec.{Spec, mode_ok, same_strings, same_duration, equal, dir_mode}

same_strings_iff : (xs ys : List Str) → (same_strings xs ys ≡ true) ↔ (xs ≡ ys)
unfolding same_strings
same_strings_iff [] [] = (λ e. refl, λ e. refl)
same_strings_iff [] (y ∷ ys) = (λ e. cc, λ e. cc)
same_strings_iff (x ∷ xs) [] = (λ e. cc, λ e. cc)
same_strings_iff (x ∷ xs) (y ∷ ys) = (
  λ e. ground (arith, e, str_eq_iff x y, same_strings_iff xs ys),
  λ e. ground (arith, e, str_eq_iff x y, same_strings_iff xs ys),
)

same_duration_iff : (a b : ℤ) → (same_duration a b ≡ true) ↔ (a ≡ b)
unfolding same_duration
same_duration_iff (pos m) (pos n) = (λ e. ground (arith, e), λ e. ground (arith, e))
same_duration_iff (pos m) (negsuc n) = (λ e. cc, λ e. cc)
same_duration_iff (negsuc m) (pos n) = (λ e. cc, λ e. cc)
same_duration_iff (negsuc m) (negsuc n) = (λ e. ground (arith, e), λ e. ground (arith, e))

-- Equal decides equality.
pub equal_iff : (s o : Spec) → (equal s o ≡ true) ↔ (s ≡ o)
unfolding equal
equal_iff s o = (
  λ e. ground (
    arith,
    e,
    str_eq_iff s.layout o.layout,
    same_duration_iff s.ttl o.ttl,
    str_eq_iff s.client_cert o.client_cert,
    same_strings_iff s.secrets o.secrets,
  ),
  λ e. rw e (
      ground (
        arith,
        str_eq_refl o.layout,
        same_duration_iff o.ttl o.ttl,
        str_eq_refl o.client_cert,
        same_strings_iff o.secrets o.secrets,
      )),
)

-- A mode that validation accepts has the owner's read bit and no bit but read bits; the directory
-- then has all the owner's bits, none of write for others, and for group and world exactly the
-- traversal of those who can read.
pub dir_mode_bounds :
    (s : Spec)
    → mode_ok s.mode ≡ true
    → (448 ≤ dir_mode s)
      × (dir_mode s ≤ 493)
      × (dir_mode s / 8 % 8 ≡ s.mode / 8 % 8 + s.mode / 8 % 8 / 4)
      × (dir_mode s % 8 ≡ s.mode % 8 + s.mode % 8 / 4)
unfolding dir_mode mode_ok
dir_mode_bounds s h = ground (arith, h)
