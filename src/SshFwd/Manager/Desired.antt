-- ===== src/SshFwd/Manager/Desired.antt =====
-- internal/sshfwd/manager.go: what the loop over the configured entries builds.
use dotvault.Prelude.{
  is_ascii, true, Str, Map, List, [], ◌∷◌, none, some, ok, ◌≡◌, ◌⊎◌, refl, ◌∙◌, inl, inr, lookup,
  insert, lookup-insert, str_has_eq, str_eq, str_eq_iff, Bool-cases, Option-cases, All, Any, arith,
}
use dotvault.SshFwd.Config.{Remote, find}
use dotvault.SshFwd.Config.Entries.{IsUnique, AreValid, equal_fold_iff}
use dotvault.SshFwd.Manager.{normalize_host, invalid, desired_from, desired}

pub invalid-AreValid : (fold : Str → Str) (rs : List Remote) → AreValid fold rs → invalid rs ≡ none
unfolding invalid
invalid-AreValid fold [] v = refl
invalid-AreValid fold (r ∷ rs) (v, vs) = rw (invalid, v) (invalid-AreValid fold rs vs)

-- The hosts are of ASCII, as those of the DNS are.
abbrev pub AreAscii : List Remote → Type 0
AreAscii = All (λ r. is_ascii r.host ≡ true)

module _ (unicode fold : Str → Str) where
  abbrev pub key_of : Remote → Str
  key_of r = normalize_host unicode fold r.host

  desired_from-step :
      (x : Remote) (rs : List Remote) (acc d : Map Str Remote)
      → desired_from unicode fold (x ∷ rs) acc ≡ ok d
      → (lookup (key_of x) acc ≡ none)
        × (desired_from unicode fold rs (insert (key_of x) x acc) ≡ ok d)
  unfolding desired_from
  desired_from-step x rs acc d e = elim (Option-cases (lookup (key_of x) acc)) [
    | inl absent ↦ (absent, ground (arith, e, absent))
    | inr (dup, there) ↦ ground (arith, e, there)
  ]

  desired_from-keeps :
      (k : Str) (r : Remote) (rs : List Remote) (acc d : Map Str Remote)
      → desired_from unicode fold rs acc ≡ ok d
      → lookup k acc ≡ some r
      → lookup k d ≡ some r
  desired_from-keeps k r [] acc d e l = unfold desired_from in ground (arith, e, l)
  desired_from-keeps k r (x ∷ rs) acc d e l =
      let (absent, rest) = desired_from-step x rs acc d e in
      desired_from-keeps k r rs (insert (key_of x) x acc) d rest
        (lookup-insert (key_of x) k x acc ∙ ground (arith, l, absent, str_eq_iff (key_of x) k))

  -- Each entry is wanted under its key.
  pub desired_from-All :
      (rs : List Remote) (acc d : Map Str Remote)
      → desired_from unicode fold rs acc ≡ ok d
      → All (λ r. lookup (key_of r) d ≡ some r) rs
  desired_from-All [] acc d e = tt
  desired_from-All (x ∷ rs) acc d e =
      let (absent, rest) = desired_from-step x rs acc d e in
      (
        desired_from-keeps (key_of x) x rs (insert (key_of x) x acc) d rest (
            lookup-insert (key_of x) (key_of x) x acc
            ∙ ground (arith, str_eq_iff (key_of x) (key_of x))),
        desired_from-All rs (insert (key_of x) x acc) d rest,
      )

  -- What is wanted is an entry under its key.
  pub desired_from-Any :
      (k : Str) (r : Remote) (rs : List Remote) (acc d : Map Str Remote)
      → desired_from unicode fold rs acc ≡ ok d
      → lookup k d ≡ some r
      → (lookup k acc ≡ some r) ⊎ Any (λ x. (x ≡ r) × (key_of x ≡ k)) rs
  desired_from-Any k r [] acc d e l = inl (unfold desired_from in ground (arith, e, l))
  desired_from-Any k r (x ∷ rs) acc d e l =
      let (absent, rest) = desired_from-step x rs acc d e in
      elim (desired_from-Any k r rs (insert (key_of x) x acc) d rest l) [
        | inr later ↦ inr (inr later)
        | inl here ↦ elim (Bool-cases (str_eq (key_of x) k)) [
          | inl y ↦ inr (
              inl (
                ground (arith, here, lookup-insert (key_of x) k x acc, y),
                ground (arith, y, str_eq_iff (key_of x) k),
              ))
          | inr n ↦ inl (ground (arith, here, lookup-insert (key_of x) k x acc, n))
        ]
      ]

  -- What is inserted has a key of its own.
  insert-absent :
      ((a b : Str)
        → is_ascii a ≡ true
        → is_ascii b ≡ true
        → normalize_host unicode fold a ≡ normalize_host unicode fold b
        → fold a ≡ fold b)
      → (r : Remote) (acc : Map Str Remote) (xs : List Remote) → find fold r.host xs ≡ none
      → is_ascii r.host ≡ true
      → AreAscii xs
      → All (λ x. lookup (key_of x) acc ≡ none) xs
      → All (λ x. lookup (key_of x) (insert (key_of r) r acc) ≡ none) xs
  unfolding find
  insert-absent h r acc [] fresh own plain free = tt
  insert-absent h r acc (x ∷ xs) fresh own (mine, plain) (f, free) = (
    lookup-insert (key_of r) (key_of x) r acc
        ∙ ground (
          arith,
          f,
          fresh,
          str_eq_iff (key_of r) (key_of x),
          h r.host x.host own mine,
          equal_fold_iff fold x.host r.host,
        ),
    insert-absent h r acc xs (ground (arith, fresh)) own plain free,
  )

  -- Entries whose hosts differ are all wanted.
  desired_from-total :
      ((a b : Str)
        → is_ascii a ≡ true
        → is_ascii b ≡ true
        → normalize_host unicode fold a ≡ normalize_host unicode fold b
        → fold a ≡ fold b)
      → (rs : List Remote) (acc : Map Str Remote) → IsUnique fold rs
      → AreAscii rs
      → All (λ r. lookup (key_of r) acc ≡ none) rs
      → (d : Map Str Remote) × (desired_from unicode fold rs acc ≡ ok d)
  unfolding desired_from
  desired_from-total h [] acc u plain free = (acc, refl)
  desired_from-total h (r ∷ rs) acc (fresh, u) (own, plain) (f, free) =
      let (d, e) =
        desired_from-total h rs (insert (key_of r) r acc) u plain
          (insert-absent h r acc rs fresh own plain free) in
      (d, rw (desired_from, f) e)

  pub desired-total :
      ((a b : Str)
        → is_ascii a ≡ true
        → is_ascii b ≡ true
        → normalize_host unicode fold a ≡ normalize_host unicode fold b
        → fold a ≡ fold b)
      → (rs : List Remote) → IsUnique fold rs
      → AreAscii rs
      → AreValid fold rs
      → (d : Map Str Remote) × (desired unicode fold rs ≡ ok d)
  unfolding desired lookup
  desired-total h rs u plain v =
      let (d, e) = desired_from-total h rs [] u plain (free rs) in
      (d, rw (desired, invalid-AreValid fold rs v) e)
    where
      empty : Map Str Remote
      empty = []

      free : (xs : List Remote) → All (λ x. lookup (key_of x) empty ≡ none) xs
      free [] = tt
      free (x ∷ xs) = (refl, free xs)
