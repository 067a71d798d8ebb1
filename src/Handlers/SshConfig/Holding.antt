-- ===== src/Handlers/SshConfig/Holding.antt =====
-- internal/handlers/ssh_config.go: what a section holds after mergeDirectives has taken one line.
use dotvault.Prelude.{
  ℕ, zero, suc, Str, Bool, true, false, ◌&&◌, List, [], ◌∷◌, ◌++◌, ◌≡◌, refl, inl, inr, none, some,
  str_eq, str_eq_iff, str_eq_refl, Bool-cases, Option-cases, arith, if◌then◌else◌,
}
use dotvault.Handlers.SshConfig.{
  Line, is_directive, fresh, directive_key, has_key, find_directive, set_args, insert_at,
  last_directive, insert_directive, merge_line,
}
use dotvault.Handlers.SshConfig.Keys.{IsPlainLine, has_key-args, directive_key-fresh}

abbrev agrees : Line → Line → Bool
agrees src l = str_eq l.args src.args && l.dirty

-- What holds wherever a directive is put holds of insertDirective.
pub insert_directive-cases {ℓ} :
    (P : List Line → Type ℓ) (src : Line) (ls : List Line)
    → P (ls ++ (fresh src.indent src ∷ []))
    → ((pos : ℕ) (indent : Str) → P (insert_at pos (fresh indent src) ls))
    → P (insert_directive src ls)
unfolding insert_directive
insert_directive-cases P src ls end inside = elim (Option-cases (last_directive 0 none ls)) [
  | inl no_directive ↦ rw (no_directive, insert_directive) end
  | inr ((pos, indent), last) ↦ rw (last, insert_directive) (inside pos indent)
]

module _ (unicode : Str → Str) where
  -- The first line with the key of src has its arguments, and is rendered from them.
  unfoldable pub holds : Line → List Line → Bool
  holds src [] = false
  holds src (l ∷ ls) =
      let rest = holds src ls in
      if has_key unicode (directive_key unicode src) l then agrees src l else rest

  holds-find_directive :
      (src : Line) (ls : List Line)
      → holds src ls ≡ true
      → (l : Line) × (find_directive unicode (directive_key unicode src) ls ≡ some l)
        × (l.args ≡ src.args)
  unfolding holds find_directive
  holds-find_directive src [] h = cc
  holds-find_directive src (l ∷ ls) h =
      elim (Bool-cases (has_key unicode (directive_key unicode src) l)) [
        | inl here ↦ (l, rw here refl, ground (arith, here, h, str_eq_iff l.args src.args))
        | inr later ↦
            let (x, found, same) = holds-find_directive src ls (ground (arith, later, h)) in
            (x, rw later found, same)
      ]

  set_args_id :
      (src : Line) (ls : List Line)
      → holds src ls ≡ true
      → set_args unicode (directive_key unicode src) src.args ls ≡ ls
  unfolding holds set_args
  set_args_id src [] h = cc
  set_args_id src (l ∷ ls) h = ground (arith, h, set_args_id src ls, str_eq_iff l.args src.args)

  -- What is there already is merged for nothing.
  pub merge_line_id :
      (src : Line) (ls : List Line)
      → is_directive src ≡ true
      → holds src ls ≡ true
      → merge_line unicode src ls ≡ ls
  unfolding merge_line
  merge_line_id src ls d h =
      let (l, found, same) = holds-find_directive src ls h in rw d (rw found (set_args_id src ls h))

  holds-set_args :
      (src : Line) (ls : List Line) (l : Line)
      → IsPlainLine unicode src
      → find_directive unicode (directive_key unicode src) ls ≡ some l
      → holds src (set_args unicode (directive_key unicode src) src.args ls) ≡ true
  unfolding holds set_args find_directive
  holds-set_args src [] l plain found = cc
  holds-set_args src (x ∷ ls) l plain found = ground (
    arith,
    found,
    holds-set_args src ls l plain,
    has_key-args unicode src x plain,
    str_eq_refl src.args,
  )

  -- What is inserted is found, where nothing had its key.
  holds-insert_at :
      (src new : Line) (pos : ℕ) (ls : List Line)
      → find_directive unicode (directive_key unicode src) ls ≡ none
      → has_key unicode (directive_key unicode src) new ≡ true
      → agrees src new ≡ true
      → holds src (insert_at pos new ls) ≡ true
  unfolding holds insert_at find_directive
  holds-insert_at src new zero ls absent key agree = ground (arith, absent, key, agree)
  holds-insert_at src new (suc pos) [] absent key agree = ground (arith, absent, key, agree)
  holds-insert_at src new (suc pos) (l ∷ ls) absent key agree =
      ground (arith, absent, holds-insert_at src new pos ls, key, agree)

  holds-snoc :
      (src new : Line) (ls : List Line)
      → find_directive unicode (directive_key unicode src) ls ≡ none
      → has_key unicode (directive_key unicode src) new ≡ true
      → agrees src new ≡ true
      → holds src (ls ++ (new ∷ [])) ≡ true
  unfolding holds find_directive
  holds-snoc src new [] absent key agree = ground (arith, absent, key, agree)
  holds-snoc src new (l ∷ ls) absent key agree =
      ground (arith, absent, holds-snoc src new ls, key, agree)

  holds-insert_directive :
      (src : Line) (ls : List Line)
      → is_directive src ≡ true
      → find_directive unicode (directive_key unicode src) ls ≡ none
      → holds src (insert_directive src ls) ≡ true
  holds-insert_directive src ls d absent =
      insert_directive-cases (λ xs. holds src xs ≡ true) src ls
        (holds-snoc src (fresh src.indent src) ls absent (mine src.indent) (agree src.indent))
        (λ pos indent.
          holds-insert_at src (fresh indent src) pos ls absent (mine indent) (agree indent))
    where
      mine : (indent : Str) → has_key unicode (directive_key unicode src) (fresh indent src) ≡ true
      mine indent = ground (
        arith,
        d,
        directive_key-fresh unicode indent src,
        str_eq_refl (directive_key unicode src),
      )

      agree : (indent : Str) → agrees src (fresh indent src) ≡ true
      agree indent = ground (arith, str_eq_refl src.args)

  -- A directive that is merged is held, and rendered with its arguments.
  pub holds-merge_line :
      (src : Line) (ls : List Line)
      → is_directive src ≡ true
      → IsPlainLine unicode src
      → holds src (merge_line unicode src ls) ≡ true
  unfolding merge_line
  holds-merge_line src ls d plain =
      elim (Option-cases (find_directive unicode (directive_key unicode src) ls)) [
        | inr (l, found) ↦ rw d (rw found (holds-set_args src ls l plain found))
        | inl absent ↦ rw d (rw absent (holds-insert_directive src ls d absent))
      ]

  -- Merging a directive with another key keeps what is held.
  other_line :
      (src t l : Line)
      → str_eq (directive_key unicode t) (directive_key unicode src) ≡ false
      → has_key unicode (directive_key unicode t) l ≡ true
      → has_key unicode (directive_key unicode src) l ≡ false
  other_line src t l other h = ground (
    arith,
    other,
    h,
    str_eq_iff (directive_key unicode l) (directive_key unicode t),
    str_eq_iff (directive_key unicode l) (directive_key unicode src),
    str_eq_iff (directive_key unicode t) (directive_key unicode src),
  )

  holds-set_args-other :
      (src t : Line) (ls : List Line)
      → IsPlainLine unicode t
      → str_eq (directive_key unicode t) (directive_key unicode src) ≡ false
      → holds src ls ≡ true
      → holds src (set_args unicode (directive_key unicode t) t.args ls) ≡ true
  unfolding holds set_args
  holds-set_args-other src t [] plain other h = h
  holds-set_args-other src t (l ∷ ls) plain other h = ground (
    arith,
    h,
    holds-set_args-other src t ls plain other,
    other_line src t l other,
    has_key-args unicode t l plain,
    other_line src t (record l { args = t.args; dirty = true }) other,
  )

  holds-insert_at-other :
      (src new : Line) (pos : ℕ) (ls : List Line)
      → has_key unicode (directive_key unicode src) new ≡ false
      → holds src ls ≡ true
      → holds src (insert_at pos new ls) ≡ true
  unfolding holds insert_at
  holds-insert_at-other src new zero ls key h = ground (arith, key, h)
  holds-insert_at-other src new (suc pos) [] key h = cc
  holds-insert_at-other src new (suc pos) (l ∷ ls) key h =
      ground (arith, h, key, holds-insert_at-other src new pos ls)

  holds-snoc-other :
      (src new : Line) (ls : List Line) → holds src ls ≡ true → holds src (ls ++ (new ∷ [])) ≡ true
  unfolding holds
  holds-snoc-other src new [] h = cc
  holds-snoc-other src new (l ∷ ls) h = ground (arith, h, holds-snoc-other src new ls)

  pub holds-merge_line-other :
      (src t : Line) (ls : List Line)
      → IsPlainLine unicode t
      → is_directive t ≡ true
      → str_eq (directive_key unicode t) (directive_key unicode src) ≡ false
      → holds src ls ≡ true
      → holds src (merge_line unicode t ls) ≡ true
  unfolding merge_line
  holds-merge_line-other src t ls plain d other h =
      elim (Option-cases (find_directive unicode (directive_key unicode t) ls)) [
        | inr (l, found) ↦ rw d (rw found (holds-set_args-other src t ls plain other h))
        | inl absent ↦ rw d (
            rw absent (
              insert_directive-cases (λ xs. holds src xs ≡ true) t ls
                (holds-snoc-other src (fresh t.indent t) ls h)
                (λ pos indent. holds-insert_at-other src (fresh indent t) pos ls (lacks indent) h)))
      ]
    where
      lacks : (indent : Str) → has_key unicode (directive_key unicode src) (fresh indent t) ≡ false
      lacks indent = ground (arith, other, directive_key-fresh unicode indent t)

  pub merge_line-comment :
      (src : Line) (ls : List Line) → is_directive src ≡ false → merge_line unicode src ls ≡ ls
  unfolding merge_line
  merge_line-comment src ls d = rw d refl
