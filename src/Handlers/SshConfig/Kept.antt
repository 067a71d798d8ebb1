-- ===== src/Handlers/SshConfig/Kept.antt =====
-- internal/handlers/ssh_config.go: what a merge leaves alone.
use dotvault.Prelude.{
  ℕ, zero, suc, Str, Bool, true, false, ◌&&◌, ◌||◌, List, [], ◌∷◌, ◌++◌, map, ◌≡◌, refl, inl, inr,
  sym, ap, ◌∙◌, str_eq, str_eq_iff, str_eq_refl, Bool-cases, Option-cases, All, arith,
  if◌then◌else◌,
}
use mathlib.Core.List.{append_assoc, append-nil}
use mathlib.Core.Path.{subst}
use dotvault.Handlers.SshConfig.{
  Line, Block, SshConfig, is_directive, fresh, block_key, directive_key, has_key, find_directive,
  set_args, insert_at, merge_line, merge_lines, merge_block, merge,
}
use dotvault.Handlers.SshConfig.Keys.{IsPlainLine, has_key-args, directive_key-fresh}
use dotvault.Handlers.SshConfig.Holding.{insert_directive-cases}

module _ (unicode : Str → Str) where
  -- Some line of the list is a directive with the key.
  unfoldable pub speaks_of : List Line → Str → Bool
  speaks_of [] key = false
  speaks_of (l ∷ ls) key = let rest = speaks_of ls key in has_key unicode key l || rest

  -- The document has a directive with the key in a section with the section's key.
  unfoldable pub names : SshConfig → Str → Str → Bool
  names [] section key = false
  names (b ∷ bs) section key =
      let rest = names bs section key in
      (str_eq (block_key unicode b) section && speaks_of b.lines key) || rest

  -- The comments, the blank lines and the directives whose keys are not among those given.
  unfoldable pub unnamed : (Str → Bool) → List Line → List Line
  unnamed named [] = []
  unnamed named (l ∷ ls) =
      let rest = unnamed named ls in
      if is_directive l && named (directive_key unicode l) then rest else l ∷ rest

  -- A section without the directives that the document names in it.
  unfoldable pub rest_of : SshConfig → Block → Block
  rest_of doc b = record b { lines = unnamed (names doc (block_key unicode b)) b.lines }

  module _ (named : Str → Bool) where
    -- A line with a key that is named is dropped.
    named_line :
        (src l : Line)
        → named (directive_key unicode src) ≡ true
        → has_key unicode (directive_key unicode src) l ≡ true
        → is_directive l && named (directive_key unicode l) ≡ true
    named_line src l n h =
        let d : is_directive l ≡ true = ground (arith, h) in
        let same : directive_key unicode l ≡ directive_key unicode src =
          (str_eq_iff (directive_key unicode l) (directive_key unicode src)).0
            (ground (arith, h)) in
        rw d (rw same n)

    unnamed-drop :
        (l : Line) (ls : List Line)
        → is_directive l && named (directive_key unicode l) ≡ true
        → unnamed named (l ∷ ls) ≡ unnamed named ls
    unfolding unnamed
    unnamed-drop l ls n = rw n refl

    unnamed-cons :
        (l : Line) (xs ys : List Line)
        → unnamed named xs ≡ unnamed named ys
        → unnamed named (l ∷ xs) ≡ unnamed named (l ∷ ys)
    unfolding unnamed
    unnamed-cons l xs ys e = rw e refl

    unnamed-set_args :
        (src : Line) (ls : List Line)
        → IsPlainLine unicode src
        → named (directive_key unicode src) ≡ true
        → unnamed named (set_args unicode (directive_key unicode src) src.args ls)
          ≡ unnamed named ls
    unfolding set_args
    unnamed-set_args src [] plain n = refl
    unnamed-set_args src (l ∷ ls) plain n =
        elim (Bool-cases (has_key unicode (directive_key unicode src) l)) [
          | inl mine ↦
              let l' = record l { args = src.args; dirty = true } in
              rw mine (
                unnamed-drop l' ls (named_line src l' n (has_key-args unicode src l plain mine))
                ∙ sym (unnamed-drop l ls (named_line src l n mine)))
          | inr other ↦ rw other (unnamed-cons l _ ls (unnamed-set_args src ls plain n))
        ]

    unnamed-insert_at :
        (new : Line) (pos : ℕ) (ls : List Line)
        → is_directive new && named (directive_key unicode new) ≡ true
        → unnamed named (insert_at pos new ls) ≡ unnamed named ls
    unfolding unnamed insert_at
    unnamed-insert_at new zero ls n = rw n refl
    unnamed-insert_at new (suc pos) [] n = rw n refl
    unnamed-insert_at new (suc pos) (l ∷ ls) n = rw (unnamed-insert_at new pos ls n) refl

    unnamed-snoc :
        (new : Line) (ls : List Line)
        → is_directive new && named (directive_key unicode new) ≡ true
        → unnamed named (ls ++ (new ∷ [])) ≡ unnamed named ls
    unfolding unnamed
    unnamed-snoc new [] n = rw n refl
    unnamed-snoc new (l ∷ ls) n = rw (unnamed-snoc new ls n) refl

    fresh-named :
        (src : Line) (indent : Str)
        → is_directive src ≡ true
        → named (directive_key unicode src) ≡ true
        → is_directive (fresh indent src) && named (directive_key unicode (fresh indent src)) ≡ true
    fresh-named src indent d n = rw d (rw (directive_key-fresh unicode indent src) n)

    unnamed-merge_line :
        (src : Line) (ls : List Line)
        → IsPlainLine unicode src
        → (is_directive src ≡ true → named (directive_key unicode src) ≡ true)
        → unnamed named (merge_line unicode src ls) ≡ unnamed named ls
    unfolding merge_line
    unnamed-merge_line src ls plain n = elim (Bool-cases (is_directive src)) [
      | inr comment ↦ rw comment refl
      | inl d ↦ elim (Option-cases (find_directive unicode (directive_key unicode src) ls)) [
        | inr (l, found) ↦ rw d (rw found (unnamed-set_args src ls plain (n d)))
        | inl absent ↦ rw d (
            rw absent (
              insert_directive-cases (λ xs. unnamed named xs ≡ unnamed named ls) src ls
                (unnamed-snoc (fresh src.indent src) ls (fresh-named src src.indent d (n d)))
                (λ pos indent.
                  unnamed-insert_at (fresh indent src) pos ls (fresh-named src indent d (n d)))))
      ]
    ]

    unnamed-merge_lines :
        (srcs ls : List Line)
        → All (IsPlainLine unicode) srcs
        → All (λ src. is_directive src ≡ true → named (directive_key unicode src) ≡ true) srcs
        → unnamed named (merge_lines unicode ls srcs) ≡ unnamed named ls
    unfolding merge_lines
    unnamed-merge_lines [] ls plain n = refl
    unnamed-merge_lines (src ∷ srcs) ls plain n =
        unnamed-merge_lines srcs (merge_line unicode src ls) plain.1 n.1
        ∙ unnamed-merge_line src ls plain.0 n.0

  speaks_of-middle :
      (pre : List Line) (l : Line) (ls : List Line)
      → is_directive l ≡ true
      → speaks_of (pre ++ (l ∷ ls)) (directive_key unicode l) ≡ true
  unfolding speaks_of
  speaks_of-middle [] l ls d = ground (arith, d, str_eq_refl (directive_key unicode l))
  speaks_of-middle (x ∷ pre) l ls d = ground (arith, speaks_of-middle pre l ls d)

  -- The directives of a list are named.
  abbrev AreNamed : (Str → Bool) → List Line → Type 0
  AreNamed named ls = All (λ l. is_directive l ≡ true → named (directive_key unicode l) ≡ true) ls

  AreNamed-speaks_of : (pre ls : List Line) → AreNamed (speaks_of (pre ++ ls)) ls
  AreNamed-speaks_of pre [] = tt
  AreNamed-speaks_of pre (l ∷ ls) = (
    speaks_of-middle pre l ls,
    subst (λ xs. AreNamed (speaks_of xs) ls) (append_assoc pre (l ∷ []) ls)
        (AreNamed-speaks_of (pre ++ (l ∷ [])) ls),
  )

  AreNamed-mono :
      (p q : Str → Bool) (ls : List Line)
      → ((key : Str) → p key ≡ true → q key ≡ true)
      → AreNamed p ls
      → AreNamed q ls
  AreNamed-mono p q [] sub h = tt
  AreNamed-mono p q (l ∷ ls) sub h =
      ((λ d. sub (directive_key unicode l) (h.0 d)), AreNamed-mono p q ls sub h.1)

  names-middle :
      (pre : SshConfig) (b : Block) (bs : SshConfig) (key : Str)
      → speaks_of b.lines key ≡ true
      → names (pre ++ (b ∷ bs)) (block_key unicode b) key ≡ true
  unfolding names
  names-middle [] b bs key h = ground (arith, h, str_eq_refl (block_key unicode b))
  names-middle (x ∷ pre) b bs key h = ground (arith, names-middle pre b bs key h)

  -- What is merged is named, so what is left of a section is the same.
  rest_of-merge_lines :
      (doc : SshConfig) (src b : Block)
      → All (IsPlainLine unicode) src.lines
      → AreNamed (names doc (block_key unicode b)) src.lines
      → rest_of doc (record b { lines = merge_lines unicode b.lines src.lines }) ≡ rest_of doc b
  unfolding rest_of block_key
  rest_of-merge_lines doc src b plain named =
      ap (λ (ls : List Line). record b { lines = ls })
        (unnamed-merge_lines (names doc (block_key unicode b)) src.lines b.lines plain named)

  merge_block-rest_of :
      (doc : SshConfig) (src : Block) (bs : List Block)
      → All (IsPlainLine unicode) src.lines
      → AreNamed (names doc (block_key unicode src)) src.lines
      → (new : List Block) × (map (rest_of doc) (merge_block unicode src bs)
          ≡ map (rest_of doc) bs ++ new)
  unfolding merge_block
  merge_block-rest_of doc src [] plain named = (_, refl)
  merge_block-rest_of doc src (b ∷ bs) plain named =
      elim (Bool-cases (str_eq (block_key unicode b) (block_key unicode src))) [
        | inl here ↦
            let same : block_key unicode b ≡ block_key unicode src =
              (str_eq_iff (block_key unicode b) (block_key unicode src)).0 here in
            (
              [],
              rw here (
                  rw (rest_of-merge_lines doc src b plain (rw same named))
                    (sym (append-nil (map (rest_of doc) (b ∷ bs))))),
            )
        | inr later ↦
            let (new, e) = merge_block-rest_of doc src bs plain named in
            (new, rw later (ap (λ xs. rest_of doc b ∷ xs) e))
      ]

  merge-rest_of :
      (pre srcs dst : SshConfig)
      → All (λ src. All (IsPlainLine unicode) src.lines) srcs
      → (new : List Block) × (map (rest_of (pre ++ srcs)) (merge unicode dst srcs)
          ≡ map (rest_of (pre ++ srcs)) dst ++ new)
  unfolding merge
  merge-rest_of pre [] dst plain = ([], sym (append-nil (map (rest_of (pre ++ [])) dst)))
  merge-rest_of pre (src ∷ srcs) dst plain =
      let doc = pre ++ (src ∷ srcs) in
      let (new, e) = merge_block-rest_of doc src dst plain.0 (
        AreNamed-mono (speaks_of src.lines) (names doc (block_key unicode src)) src.lines
          (names-middle pre src srcs) (AreNamed-speaks_of [] src.lines)) in
      let (more, e') =
        subst
          (λ d.
            (more : List Block) × (map (rest_of d)
                (merge unicode (merge_block unicode src dst) srcs)
              ≡ map (rest_of d) (merge_block unicode src dst) ++ more))
          (append_assoc pre (src ∷ []) srcs)
          (merge-rest_of (pre ++ (src ∷ [])) srcs (merge_block unicode src dst) plain.1) in
      (new ++ more, e' ∙ (ap (λ xs. xs ++ more) e ∙ append_assoc (map (rest_of doc) dst) new more))

  -- In the sections that the target has, in their order, a merge leaves the headers, the comments,
  -- the blank lines and the directives that the document does not name as they were and in the same
  -- order; other sections come after them. It is assumed that no keyword of the document has a NUL.
  pub merge-keeps :
      (dst src : SshConfig)
      → All (λ b. All (IsPlainLine unicode) b.lines) src
      → (new : List Block) × (map (rest_of src) (merge unicode dst src)
          ≡ map (rest_of src) dst ++ new)
  merge-keeps dst src plain = merge-rest_of [] src dst plain
