-- ===== src/DockerVol/Render/Paths.antt =====
-- Parents of paths, and the directories that addDir of internal/dockervol/materialise.go adds.
use dotvault.Prelude.{
  ℕ, zero, suc, ◌≤◌, ◌<◌, ==_iff, Str, codes, slash, Map, Bool, true, false, ◌||◌, [], ◌∷◌, ◌++◌,
  none, some, ◌≡◌, ◌≢◌, refl, sym, ap, ◌∙◌, inl, inr, ◌⊎◌, lookup, insert, lookup-insert,
  str_has_eq, str_eq, str_eq_iff, is_empty, has_prefix, cut_prefix, cut_prefix-append,
  cut_prefix_sound, length, length-append, if◌then◌else◌, arith, Option-cases,
}
use mathlib.Core.List.{append_assoc}
use dotvault.VaultFs.Names.{last_slash}
use dotvault.DockerVol.Render.{parent_rel, is_dir, add_dirs, delete_where}

last_slash-append : (p dir leaf : Str) → last_slash p ≡ some (dir, leaf) → p ≡ dir ++ (slash ∷ leaf)
unfolding last_slash
last_slash-append [] dir leaf e = absurd (cc e)
last_slash-append (x ∷ s) dir leaf e = elim (Option-cases (last_slash s)) [
  | inr ((d, l), found) ↦ ground (arith, e, found, last_slash-append s d l)
  | inl absent ↦ ground (arith, e, absent, ==_iff x slash)
]

append-nil_inv : (q rest : Str) → [] ≡ q ++ rest → q ≡ []
append-nil_inv [] rest e = refl
append-nil_inv (x ∷ q) rest e = cc

-- The two cases of a path.
parent-cases :
    (p : Str) → (parent_rel p ≡ []) ⊎ ((leaf : Str) × (p ≡ parent_rel p ++ (slash ∷ leaf)))
unfolding parent_rel
parent-cases p = elim (Option-cases (last_slash p)) [
  | inl flat ↦ inl (rw (flat, parent_rel) refl)
  | inr ((dir, leaf), found) ↦
      inr (leaf, last_slash-append p dir leaf found ∙ rw (found, parent_rel) refl)
]

parent_rel_lt : (p : Str) → p ≢ [] → length (parent_rel p) < length p
parent_rel_lt [] n = absurd (n refl)
parent_rel_lt (x ∷ s) n = elim (parent-cases (x ∷ s)) [
  | inl flat ↦ rw flat (omega arith)
  | inr (leaf, deep) ↦
      let e = ap length deep in
      let l = length-append (parent_rel (x ∷ s)) (slash ∷ leaf) in omega (arith, e, l)
]

has_prefix-append : (prefix rest : Str) → has_prefix (prefix ++ rest) prefix ≡ true
unfolding has_prefix
has_prefix-append prefix rest = rw (cut_prefix-append prefix rest, has_prefix) refl

has_prefix_sound :
    (s prefix : Str) → has_prefix s prefix ≡ true → (rest : Str) × (s ≡ prefix ++ rest)
unfolding has_prefix
has_prefix_sound s prefix h = elim (Option-cases (cut_prefix s prefix)) [
  | inl none_cut ↦ absurd (ground (arith, h, none_cut))
  | inr (rest, cut) ↦ (rest, cut_prefix_sound s prefix rest cut)
]

-- What lies under a directory keeps lying there one level down.
pub has_prefix-parent_rel :
    (p prefix : Str)
    → has_prefix (parent_rel p) prefix ≡ true
    → prefix ≢ []
    → has_prefix p prefix ≡ true
has_prefix-parent_rel p prefix h n = elim (parent-cases p) [
  | inl flat ↦ absurd (n (nothing prefix (rw flat at h)))
  | inr (leaf, deep) ↦
      let (rest, e) = has_prefix_sound (parent_rel p) prefix h in
      let spelled : p ≡ prefix ++ (rest ++ (slash ∷ leaf)) =
        deep ∙ ap (λ t. t ++ (slash ∷ leaf)) e ∙ append_assoc prefix rest (slash ∷ leaf) in
      rw spelled (has_prefix-append prefix (rest ++ (slash ∷ leaf)))
]
  where
    nothing : (q : Str) → has_prefix [] q ≡ true → q ≡ []
    nothing q g = let (rest, e) = has_prefix_sound [] q g in append-nil_inv q rest e

pub parent_rel-prefix :
    (p dir : Str) → parent_rel p ≡ dir → dir ≢ [] → has_prefix p (dir ++ codes "/") ≡ true
parent_rel-prefix p dir e n = elim (parent-cases p) [
  | inl flat ↦ absurd (n (sym e ∙ flat))
  | inr (leaf, deep) ↦
      let spelled : p ≡ (dir ++ codes "/") ++ leaf =
        deep ∙ ap (λ t. t ++ (slash ∷ leaf)) e ∙ sym (append_assoc dir (codes "/") leaf) in
      rw spelled (has_prefix-append (dir ++ codes "/") leaf)
]

pub lookup-delete_where :
    {V : Type 0} (test : Str → Bool) (k : Str) (m : Map Str V)
    → lookup k (delete_where test m) ≡ (if test k then none else lookup k m)
unfolding lookup delete_where
lookup-delete_where test k [] = ground arith
lookup-delete_where test k ((j, v) ∷ m) =
    ground (arith, lookup-delete_where test k m, str_eq_iff j k)

-- The parent of a path is the root or one of the directories.
abbrev pub under : Map Str (Unit {0}) → Str → Bool
under dirs p = is_empty (parent_rel p) || is_dir dirs (parent_rel p)

-- Each directory lies under one, but for those whose parent is still to come.
abbrev pub IsClosedBut : Str → Map Str (Unit {0}) → Type 0
IsClosedBut d dirs =
    (p : Str) → is_dir dirs p ≡ true → under dirs p || str_eq (parent_rel p) d ≡ true

pub add_dirs_mono :
    (n : ℕ) (d : Str) (dirs : Map Str (Unit {0})) (p : Str)
    → is_dir dirs p ≡ true
    → is_dir (add_dirs n d dirs) p ≡ true
unfolding add_dirs
add_dirs_mono zero d dirs p h = h
add_dirs_mono (suc n) d dirs p h =
    ground
      (arith, h, add_dirs_mono n (parent_rel d) (insert d tt dirs) p, lookup-insert d p tt dirs)

pub add_dirs-root :
    (n : ℕ) (d : Str) (dirs : Map Str (Unit {0}))
    → is_dir dirs [] ≡ false
    → is_dir (add_dirs n d dirs) [] ≡ false
unfolding add_dirs is_empty
add_dirs-root zero d dirs h = h
add_dirs-root (suc n) d dirs h = ground (
  arith,
  h,
  add_dirs-root n (parent_rel d) (insert d tt dirs),
  lookup-insert d [] tt dirs,
  str_eq_iff d [],
)

-- What addDir leaves: every directory lies under one, and the one asked for is there.
pub add_dirs-IsClosed :
    (n : ℕ) (d : Str) (dirs : Map Str (Unit {0}))
    → length d ≤ n
    → IsClosedBut d dirs
    → ((p : Str) → is_dir (add_dirs n d dirs) p ≡ true → under (add_dirs n d dirs) p ≡ true)
      × (is_empty d || is_dir (add_dirs n d dirs) d ≡ true)
unfolding add_dirs is_empty
add_dirs-IsClosed zero [] dirs h c =
    (λ p in_dirs. ground (arith, c p, str_eq_iff (parent_rel p) []), refl)
add_dirs-IsClosed zero (x ∷ d) dirs h c = absurd (omega (arith, h))
add_dirs-IsClosed (suc n) [] dirs h c =
    (λ p in_dirs. ground (arith, c p, str_eq_iff (parent_rel p) []), refl)
add_dirs-IsClosed (suc n) (x ∷ s) dirs h c =
    go (Option-cases (lookup (x ∷ s) dirs))
      (add_dirs-IsClosed n (parent_rel (x ∷ s)) (insert (x ∷ s) tt dirs))
  where
    go :
        (lookup (x ∷ s) dirs ≡ none) ⊎ ((u : Unit {0}) × (lookup (x ∷ s) dirs ≡ some u))
        → (length (parent_rel (x ∷ s)) ≤ n
            → IsClosedBut (parent_rel (x ∷ s)) (insert (x ∷ s) tt dirs)
            → ((p : Str)
                → is_dir (add_dirs n (parent_rel (x ∷ s)) (insert (x ∷ s) tt dirs)) p ≡ true
                → under (add_dirs n (parent_rel (x ∷ s)) (insert (x ∷ s) tt dirs)) p ≡ true)
              × (is_empty (parent_rel (x ∷ s))
                    || is_dir
                        (add_dirs n (parent_rel (x ∷ s)) (insert (x ∷ s) tt dirs))
                        (parent_rel (x ∷ s))
                  ≡ true))
        → ((p : Str)
            → is_dir (add_dirs (suc n) (x ∷ s) dirs) p ≡ true
            → under (add_dirs (suc n) (x ∷ s) dirs) p ≡ true)
          × (is_empty (x ∷ s) || is_dir (add_dirs (suc n) (x ∷ s) dirs) (x ∷ s) ≡ true)
    go (inr (u, old)) ih =
        rw (old, add_dirs)
          (
            λ p in_dirs. ground (arith, c p, in_dirs, old, str_eq_iff (parent_rel p) (x ∷ s)),
            ground (arith, old),
          )
    go (inl new) ih =
        let closed : IsClosedBut (parent_rel (x ∷ s)) (insert (x ∷ s) tt dirs) = λ p in_dirs.
          ground (
            arith,
            c p,
            in_dirs,
            lookup-insert (x ∷ s) p tt dirs,
            lookup-insert (x ∷ s) (parent_rel p) tt dirs,
            str_eq_iff (x ∷ s) p,
            str_eq_iff (x ∷ s) (parent_rel p),
            str_eq_iff (parent_rel p) (x ∷ s),
            str_eq_iff (parent_rel p) (parent_rel (x ∷ s)),
          ) in
        let (all, last) = ih (omega (arith, h, parent_rel_lt (x ∷ s) (λ e. cc e))) closed in
        rw (new, add_dirs)
          (
            all,
            add_dirs_mono n (parent_rel (x ∷ s)) (insert (x ∷ s) tt dirs) (x ∷ s)
                (ground (arith, lookup-insert (x ∷ s) (x ∷ s) tt dirs, str_eq_iff (x ∷ s) (x ∷ s))),
          )
