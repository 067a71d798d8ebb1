-- ===== src/KvPath/Policy/Containment.antt =====
-- inRoot and underRoot of internal/kvpath/editable.go as relations between a path and the roots.
use dotvault.Prelude.{
  any_equal, Str, slash, str_eq, str_eq_iff, str_eq_refl, str_has_eq, contains_byte, cut_prefix,
  cut_prefix-append, cut_prefix_sound, Bool-cases, ◌∙◌, sym, ap, Bool, true, false, ◌≡◌, ◌↔◌, ◌⊎◌,
  inl, inr, refl, List, [], ◌∷◌, ◌++◌, Option, none, some, arith,
}
use mathlib.Core.List.{append_assoc}
use mathlib.Core.Bool.{false≢true}
use dotvault.KvPath.Policy.{in_root, under_root}

-- The path is a root, a slash, and a rest; with `Child` the rest is a single segment.
abbrev pub Below : List Str → Str → Type 0
Below roots path =
    (root : Str) × (rest : Str) × (any_equal roots root ≡ true) × (path ≡ root ++ (slash ∷ rest))

abbrev pub Child : List Str → Str → Type 0
Child roots path =
    (root : Str) × (name : Str) × (any_equal roots root ≡ true)
    × (path ≡ root ++ (slash ∷ name))
    × (contains_byte slash name ≡ false)

pub cut-root :
    (root name : Str) → cut_prefix (root ++ (slash ∷ name)) (root ++ (slash ∷ [])) ≡ some name
cut-root root name =
    ap (λ s. cut_prefix s (root ++ (slash ∷ []))) (sym (append_assoc root (slash ∷ []) name))
    ∙ cut_prefix-append (root ++ (slash ∷ [])) name

cut-root_sound :
    (path root rest : Str)
    → cut_prefix path (root ++ (slash ∷ [])) ≡ some rest
    → path ≡ root ++ (slash ∷ rest)
cut-root_sound path root rest h =
    cut_prefix_sound path (root ++ (slash ∷ [])) rest h ∙ append_assoc root (slash ∷ []) rest

Child-cons : (root path : Str) (roots : List Str) → Child roots path → Child (root ∷ roots) path
unfolding any_equal
Child-cons root path roots (r, name, m, e, f) = (r, name, ground (arith, m), e, f)

in_root_sound : (roots : List Str) (path : Str) → in_root roots path ≡ true → Child roots path
unfolding in_root any_equal
in_root_sound [] path h = cc
in_root_sound (root ∷ roots) path h =
    here (cut_prefix path (root ++ (slash ∷ []))) refl
      (λ k. Child-cons root path roots (in_root_sound roots path k))
  where
    here :
        (c : Option Str)
        → cut_prefix path (root ++ (slash ∷ [])) ≡ c
        → (in_root roots path ≡ true → Child (root ∷ roots) path)
        → Child (root ∷ roots) path
    here none e later = later (ground (arith, e, h))
    here (some rest) e later = elim (Bool-cases (contains_byte slash rest)) [
      | inl deep ↦ later (ground (arith, e, h))
      | inr flat ↦ (root, rest, rw (str_eq_refl root), cut-root_sound path root rest e, flat)
    ]

in_root_complete : (roots : List Str) (path : Str) → Child roots path → in_root roots path ≡ true
unfolding in_root any_equal
in_root_complete [] path c = cc (c.2)
in_root_complete (root ∷ roots) path (r, name, m, e, f) =
    here (in_root_complete roots path) (Bool-cases (str_eq r root))
  where
    here :
        (Child roots path → in_root roots path ≡ true)
        → (str_eq r root ≡ true) ⊎ (str_eq r root ≡ false)
        → in_root (root ∷ roots) path ≡ true
    here later (inl same) = ground (arith, cut-root root name, (str_eq_iff r root).0 same, e, f)
    here later (inr other) =
        let k = later (r, name, ground (arith, m, other), e, f) in ground (arith, k)

-- The depth test is membership in the set of direct children of a root.
pub in_root_iff : (roots : List Str) (path : Str) → (in_root roots path ≡ true) ↔ Child roots path
in_root_iff roots path = (in_root_sound roots path, in_root_complete roots path)

Below-cons : (root path : Str) (roots : List Str) → Below roots path → Below (root ∷ roots) path
unfolding any_equal
Below-cons root path roots (r, rest, m, e) = (r, rest, ground (arith, m), e)

under_root_sound : (roots : List Str) (path : Str) → under_root roots path ≡ true → Below roots path
unfolding under_root any_equal
under_root_sound [] path h = cc
under_root_sound (root ∷ roots) path h =
    here (cut_prefix path (root ++ (slash ∷ []))) refl
      (λ k. Below-cons root path roots (under_root_sound roots path k))
  where
    here :
        (c : Option Str)
        → cut_prefix path (root ++ (slash ∷ [])) ≡ c
        → (under_root roots path ≡ true → Below (root ∷ roots) path)
        → Below (root ∷ roots) path
    here none e later = later (ground (arith, e, h))
    here (some rest) e later = (root, rest, rw (str_eq_refl root), cut-root_sound path root rest e)

under_root_complete :
    (roots : List Str) (path : Str) → Below roots path → under_root roots path ≡ true
unfolding under_root any_equal
under_root_complete [] path c = cc (c.2)
under_root_complete (root ∷ roots) path (r, rest, m, e) =
    here (under_root_complete roots path) (Bool-cases (str_eq r root))
  where
    here :
        (Below roots path → under_root roots path ≡ true)
        → (str_eq r root ≡ true) ⊎ (str_eq r root ≡ false)
        → under_root (root ∷ roots) path ≡ true
    here later (inl same) = ground (arith, cut-root root rest, (str_eq_iff r root).0 same, e)
    here later (inr other) =
        let k = later (r, rest, ground (arith, m, other), e) in ground (arith, k)

pub under_root_iff :
    (roots : List Str) (path : Str) → (under_root roots path ≡ true) ↔ Below roots path
under_root_iff roots path = (under_root_sound roots path, under_root_complete roots path)

contains-append : (s t : Str) → contains_byte slash (s ++ (slash ∷ t)) ≡ true
unfolding contains_byte
contains-append [] t = refl
contains-append (x ∷ s) t = ground (arith, contains-append s t)

-- A path has one last slash.
pub last_slash :
    (r d m n : Str)
    → r ++ (slash ∷ m) ≡ d ++ (slash ∷ n)
    → contains_byte slash m ≡ false
    → contains_byte slash n ≡ false
    → r ≡ d
last_slash [] [] m n e f g = refl
last_slash [] (y ∷ d) m n e f g = ground (arith, e, f, contains-append d n)
last_slash (x ∷ r) [] m n e f g = ground (arith, e, g, contains-append r m)
last_slash (x ∷ r) (y ∷ d) m n e f g = ground (arith, e, last_slash r d m n)

-- A child of a directory is in a root exactly when the directory is one.
pub in_root-child :
    (roots : List Str) (d name : Str)
    → contains_byte slash name ≡ false
    → in_root roots (d ++ (slash ∷ name)) ≡ any_equal roots d
in_root-child roots d name f = elim (Bool-cases (any_equal roots d)) [
  | inl t ↦ (in_root_iff roots (d ++ (slash ∷ name))).1 (d, name, t, refl, f) ∙ sym t
  | inr u ↦
      not_true _
        (λ h. absurd (false≢true (sym u ∙ other ((in_root_iff roots (d ++ (slash ∷ name))).0 h))))
      ∙ sym u
]
  where
    other : Child roots (d ++ (slash ∷ name)) → any_equal roots d ≡ true
    other (r, m, t, e, g) = rw (last_slash r d m name (sym e) g f) at t

    not_true : (b : Bool) → (b ≡ true → ⊥) → b ≡ false
    not_true true h = absurd (h refl)
    not_true false h = refl
