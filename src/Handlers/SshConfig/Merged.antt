-- ===== src/Handlers/SshConfig/Merged.antt =====
-- internal/handlers/ssh_config.go: what a section holds after mergeDirectives.
use dotvault.Prelude.{
  Str, true, false, List, [], ◌∷◌, ◌≡◌, refl, inl, inr, sym, none, str_eq_iff, str_eq_refl,
  Bool-cases, All, arith,
}
use dotvault.Handlers.SshConfig.{
  Line, is_directive, fresh, directive_key, find_directive, clone_lines, merge_line, merge_lines,
}
use dotvault.Handlers.SshConfig.Keys.{IsPlainLine, directive_key-fresh}
use dotvault.Handlers.SshConfig.Holding.{
  holds, merge_line_id, merge_line-comment, holds-merge_line, holds-merge_line-other,
}
use mathlib.Core.Path.{subst}

clone_lines-directive :
    (l : Line) (ls : List Line)
    → is_directive l ≡ true
    → clone_lines (l ∷ ls) ≡ fresh l.indent l ∷ clone_lines ls
unfolding clone_lines
clone_lines-directive l ls d = rw d refl

clone_lines-comment :
    (l : Line) (ls : List Line) → is_directive l ≡ false → clone_lines (l ∷ ls) ≡ l ∷ clone_lines ls
unfolding clone_lines
clone_lines-comment l ls c = rw c refl

module _ (unicode : Str → Str) where
  -- Each directive of a section has a key of its own.
  abbrev pub HasDistinctKeys : List Line → Type 0
  HasDistinctKeys [] = Unit
  HasDistinctKeys (l ∷ ls) =
      (is_directive l ≡ true → find_directive unicode (directive_key unicode l) ls ≡ none)
      × HasDistinctKeys ls

  abbrev pub Held : List Line → List Line → Type 0
  Held srcs ls = All (λ src. is_directive src ≡ true → holds unicode src ls ≡ true) srcs

  holds-merge_lines :
      (src : Line) (ts ls : List Line)
      → All (IsPlainLine unicode) ts
      → find_directive unicode (directive_key unicode src) ts ≡ none
      → holds unicode src ls ≡ true
      → holds unicode src (merge_lines unicode ls ts) ≡ true
  unfolding merge_lines find_directive
  holds-merge_lines src [] ls plain absent h = h
  holds-merge_lines src (t ∷ ts) ls plain absent h = elim (Bool-cases (is_directive t)) [
    | inr comment ↦
        rw (merge_line-comment unicode t ls comment)
          (holds-merge_lines src ts ls plain.1 (ground (arith, absent, comment)) h)
    | inl d ↦
        holds-merge_lines src ts (merge_line unicode t ls) plain.1 (ground (arith, absent, d))
          (holds-merge_line-other unicode src t ls plain.0 d (ground (arith, absent, d)) h)
  ]

  pub merge_lines-Held :
      (srcs ls : List Line)
      → All (IsPlainLine unicode) srcs
      → HasDistinctKeys srcs
      → Held srcs (merge_lines unicode ls srcs)
  unfolding merge_lines
  merge_lines-Held [] ls plain distinct = tt
  merge_lines-Held (src ∷ srcs) ls plain distinct = (
    λ d.
        holds-merge_lines src srcs (merge_line unicode src ls) plain.1 (distinct.0 d)
          (holds-merge_line unicode src ls d plain.0),
    merge_lines-Held srcs (merge_line unicode src ls) plain.1 distinct.1,
  )

  pub merge_lines_id : (srcs ls : List Line) → Held srcs ls → merge_lines unicode ls srcs ≡ ls
  unfolding merge_lines
  merge_lines_id [] ls h = refl
  merge_lines_id (src ∷ srcs) ls h = elim (Bool-cases (is_directive src)) [
    | inl d ↦ rw (merge_line_id unicode src ls d (h.0 d)) (merge_lines_id srcs ls h.1)
    | inr comment ↦ rw (merge_line-comment unicode src ls comment) (merge_lines_id srcs ls h.1)
  ]

  Held-cons :
      (x : Line) (srcs ls : List Line)
      → find_directive unicode (directive_key unicode x) srcs ≡ none
      → Held srcs ls
      → Held srcs (x ∷ ls)
  unfolding holds find_directive
  Held-cons x [] ls absent h = tt
  Held-cons x (src ∷ srcs) ls absent h = (
    λ d. ground (
      arith,
      d,
      h.0 d,
      absent,
      str_eq_iff (directive_key unicode x) (directive_key unicode src),
      str_eq_iff (directive_key unicode src) (directive_key unicode x),
    ),
    Held-cons x srcs ls (ground (arith, absent)) h.1,
  )

  Held-comment :
      (x : Line) (srcs ls : List Line) → is_directive x ≡ false → Held srcs ls → Held srcs (x ∷ ls)
  unfolding holds
  Held-comment x [] ls comment h = tt
  Held-comment x (src ∷ srcs) ls comment h =
      (λ d. ground (arith, comment, h.0 d), Held-comment x srcs ls comment h.1)

  pub clone_lines-Held : (srcs : List Line) → HasDistinctKeys srcs → Held srcs (clone_lines srcs)
  clone_lines-Held [] distinct = tt
  clone_lines-Held (src ∷ srcs) distinct = elim (Bool-cases (is_directive src)) [
    | inl d ↦
        let new = fresh src.indent src in
        let key = directive_key-fresh unicode src.indent src in
        subst (Held (src ∷ srcs)) (sym (clone_lines-directive src srcs d)) (
          (λ e.
              unfold holds in
              ground
                (arith, d, key, str_eq_refl src.args, str_eq_refl (directive_key unicode src))),
          Held-cons new srcs (clone_lines srcs) (rw key (distinct.0 d))
              (clone_lines-Held srcs distinct.1),
        )
    | inr comment ↦ subst (Held (src ∷ srcs)) (sym (clone_lines-comment src srcs comment)) (
      (λ d. cc),
      Held-comment src srcs (clone_lines srcs) comment (clone_lines-Held srcs distinct.1),
    )
  ]
