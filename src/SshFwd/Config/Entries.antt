-- ===== src/SshFwd/Config/Entries.antt =====
-- internal/sshfwd/config.go: what Upsert and Remove do to the entries.
use dotvault.Prelude.{
  Str, true, false, List, [], ◌∷◌, ◌++◌, none, some, ◌≡◌, ◌↔◌, refl, sym, ap, ◌∙◌, inl, inr,
  str_eq_iff, Bool-cases, Option-cases, All, All-append, arith, if◌then◌else◌,
}
use mathlib.Core.Path.{subst}
use dotvault.SshFwd.Config.{Remote, validate_remote, equal_fold, find, replace, upsert, remove}

module _ (fold : Str → Str) where
  pub equal_fold_iff : (a b : Str) → (equal_fold fold a b ≡ true) ↔ (fold a ≡ fold b)
  unfolding equal_fold
  equal_fold_iff a b = str_eq_iff (fold a) (fold b)

  -- Each host has one entry at most.
  abbrev pub IsUnique : List Remote → Type 0
  IsUnique [] = Unit
  IsUnique (r ∷ rs) = (find fold r.host rs ≡ none) × IsUnique rs

  -- Equal hosts find the same entry.
  pub find-equal :
      (a b : Str) (rs : List Remote) → equal_fold fold a b ≡ true → find fold a rs ≡ find fold b rs
  unfolding find
  find-equal a b [] e = refl
  find-equal a b (r ∷ rs) e = ground (
    arith,
    find-equal a b rs e,
    equal_fold_iff a b,
    equal_fold_iff r.host a,
    equal_fold_iff r.host b,
  )

  find-replace :
      (host : Str) (new : Remote) (h : Str) (rs : List Remote)
      → equal_fold fold new.host host ≡ true
      → find fold h (replace fold host new rs) ≡ (
          if equal_fold fold host h
          then elim (find fold host rs) [ none ↦ none | some old ↦ some new ]
          else find fold h rs)
  unfolding find replace
  find-replace host new h [] e = ground arith
  find-replace host new h (r ∷ rs) e = ground (
    arith,
    find-replace host new h rs e,
    equal_fold_iff new.host host,
    equal_fold_iff host h,
    equal_fold_iff r.host h,
    equal_fold_iff r.host host,
    equal_fold_iff new.host h,
  )

  find-snoc :
      (new : Remote) (h : Str) (rs : List Remote)
      → find fold h (rs ++ (new ∷ [])) ≡ elim (find fold h rs) [
        | none ↦ if equal_fold fold new.host h then some new else none
        | some r ↦ some r
      ]
  unfolding find
  find-snoc new h [] = refl
  find-snoc new h (r ∷ rs) = ground (arith, find-snoc new h rs)

  -- Upsert changes the entry of its host alone.
  pub find-upsert :
      (new : Remote) (h : Str) (rs : List Remote)
      → find fold h (upsert fold new rs)
        ≡ (if equal_fold fold new.host h then some new else find fold h rs)
  unfolding upsert
  find-upsert new h rs = elim (Option-cases (find fold new.host rs)) [
    | inl e ↦ rw (upsert, e) (find-snoc new h rs ∙ ground (arith, find-equal new.host h rs, e))
    | inr (old, e) ↦
        rw (upsert, e)
          (find-replace new.host new h rs (ground (arith, equal_fold_iff new.host new.host))
            ∙ ground (arith, e))
  ]

  -- Remove takes the first entry away, or one of those behind it.
  remove-cases {ℓ} :
      (P : List Remote → Type ℓ) (host : Str) (r : Remote) (rs others : List Remote)
      → remove fold host (r ∷ rs) ≡ some others
      → (equal_fold fold r.host host ≡ true → P rs)
      → ((rest : List Remote)
          → equal_fold fold r.host host ≡ false
          → remove fold host rs ≡ some rest
          → P (r ∷ rest))
      → P others
  unfolding remove
  remove-cases P host r rs others e first behind = elim (Bool-cases (equal_fold fold r.host host)) [
    | inl y ↦ at_others rs (ground (arith, e, y)) (first y)
    | inr n ↦ elim (Option-cases (remove fold host rs)) [
      | inl gone ↦ absurd (differ (ground (arith, e, n, gone)))
      | inr (rest, left) ↦ at_others (r ∷ rest) (ground (arith, e, n, left)) (behind rest n left)
    ]
  ]
    where
      at_others : (xs : List Remote) → xs ≡ others → P xs → P others
      at_others xs same p = subst P same p

      differ : true ≡ false → ⊥
      differ e = cc

  pub find-remove :
      (host h : Str) (rs others : List Remote)
      → IsUnique rs
      → remove fold host rs ≡ some others
      → find fold h others ≡ (if equal_fold fold host h then none else find fold h rs)
  unfolding find
  find-remove host h [] others u e = unfold remove in cc e
  find-remove host h (r ∷ rs) others (fresh, u) e =
      remove-cases
        (λ o. find fold h o ≡ (if equal_fold fold host h then none else find fold h (r ∷ rs))) host
        r rs others e
        (λ y. ground (
          arith,
          fresh,
          find-equal r.host h rs,
          equal_fold_iff r.host h,
          equal_fold_iff host h,
          equal_fold_iff r.host host,
          y,
        ))
        (λ rest n left. ground (
          arith,
          find-remove host h rs rest u left,
          equal_fold_iff r.host h,
          equal_fold_iff host h,
          equal_fold_iff r.host host,
          n,
        ))

  pub replace-IsUnique :
      (host : Str) (new : Remote) (rs : List Remote)
      → equal_fold fold new.host host ≡ true
      → IsUnique rs
      → IsUnique (replace fold host new rs)
  unfolding replace
  replace-IsUnique host new [] e u = u
  replace-IsUnique host new (r ∷ rs) e (fresh, u) =
      elim (Bool-cases (equal_fold fold r.host host)) [
        | inl y ↦ rw y (
          ground (
            arith,
            find-equal new.host r.host rs,
            equal_fold_iff new.host host,
            equal_fold_iff r.host host,
            equal_fold_iff new.host r.host,
            fresh,
          ),
          u,
        )
        | inr n ↦ rw n (
          find-replace host new r.host rs e
              ∙ ground (arith, equal_fold_iff r.host host, equal_fold_iff host r.host, n, fresh),
          replace-IsUnique host new rs e u,
        )
      ]

  pub snoc-IsUnique :
      (new : Remote) (rs : List Remote)
      → find fold new.host rs ≡ none
      → IsUnique rs
      → IsUnique (rs ++ (new ∷ []))
  unfolding find
  snoc-IsUnique new [] e u = (refl, tt)
  snoc-IsUnique new (r ∷ rs) e (fresh, u) = (
    find-snoc new r.host rs
        ∙ ground (arith, fresh, e, equal_fold_iff r.host new.host, equal_fold_iff new.host r.host),
    snoc-IsUnique new rs (ground (arith, e)) u,
  )

  pub upsert-IsUnique :
      (new : Remote) (rs : List Remote) → IsUnique rs → IsUnique (upsert fold new rs)
  unfolding upsert
  upsert-IsUnique new rs u = elim (Option-cases (find fold new.host rs)) [
    | inl e ↦ rw (upsert, e) (snoc-IsUnique new rs e u)
    | inr (old, e) ↦
        rw (upsert, e)
          (replace-IsUnique new.host new rs (ground (arith, equal_fold_iff new.host new.host)) u)
  ]

  -- What holds of each entry, and of a new one, holds after a change.
  module _ (P : Remote → Type 0) where
    pub replace-All :
        (host : Str) (new : Remote) (rs : List Remote)
        → P new
        → All P rs
        → All P (replace fold host new rs)
    unfolding replace
    replace-All host new [] n v = v
    replace-All host new (r ∷ rs) n (p, ps) = elim (Bool-cases (equal_fold fold r.host host)) [
      | inl y ↦ rw y (n, ps)
      | inr d ↦ rw d (p, replace-All host new rs n ps)
    ]

    pub upsert-All :
        (new : Remote) (rs : List Remote) → P new → All P rs → All P (upsert fold new rs)
    unfolding upsert
    upsert-All new rs n ps = elim (Option-cases (find fold new.host rs)) [
      | inl e ↦ rw (upsert, e) (All-append P rs (new ∷ []) ps (n, tt))
      | inr (old, e) ↦ rw (upsert, e) (replace-All new.host new rs n ps)
    ]

    pub remove-All :
        (host : Str) (rs others : List Remote)
        → remove fold host rs ≡ some others
        → All P rs
        → All P others
    remove-All host [] others e ps = unfold remove in cc e
    remove-All host (r ∷ rs) others e (p, ps) =
        remove-cases (All P) host r rs others e (λ y. ps)
          (λ rest n left. (p, remove-All host rs rest left ps))

    pub find-All :
        (host : Str) (rs : List Remote) (r : Remote) → find fold host rs ≡ some r → All P rs → P r
    unfolding find
    find-All host [] r e ps = cc e
    find-All host (x ∷ rs) r e (p, ps) = elim (Bool-cases (equal_fold fold x.host host)) [
      | inl y ↦ subst P (ground (arith, e, y)) p
      | inr n ↦ find-All host rs r (ground (arith, e, n)) ps
    ]

  pub find-host :
      (host : Str) (rs : List Remote) (r : Remote)
      → find fold host rs ≡ some r
      → equal_fold fold r.host host ≡ true
  unfolding find
  find-host host [] r e = cc e
  find-host host (x ∷ rs) r e = elim (Bool-cases (equal_fold fold x.host host)) [
    | inl y ↦
        let same : x ≡ r = ground (arith, e, y) in
        sym (ap (λ (z : Remote). equal_fold fold z.host host) same) ∙ y
    | inr n ↦ find-host host rs r (ground (arith, e, n))
  ]

  -- Every entry passes ValidateRemote.
  abbrev pub AreValid : List Remote → Type 0
  AreValid = All (λ r. validate_remote r ≡ none)

  pub remove-IsUnique :
      (host : Str) (rs others : List Remote)
      → remove fold host rs ≡ some others
      → IsUnique rs
      → IsUnique others
  remove-IsUnique host [] others e u = unfold remove in cc e
  remove-IsUnique host (r ∷ rs) others e (fresh, u) =
      remove-cases IsUnique host r rs others e (λ y. u)
        (λ rest n left. (
          find-remove host r.host rs rest u left ∙ ground (arith, fresh),
          remove-IsUnique host rs rest left u,
        ))
