-- ===== src/Handlers/SshConfig/Idempotent.antt =====
-- internal/handlers/ssh_config.go: merging a document twice.
use dotvault.Prelude.{
  Str, true, false, List, [], ◌∷◌, ◌≡◌, refl, inl, inr, sym, ap, ◌∙◌, str_eq, str_eq_iff,
  str_eq_refl, Bool-cases, All, arith,
}
use dotvault.Handlers.SshConfig.{
  Line, Block, SshConfig, block_key, clone_block, merge_lines, merge_block, merge,
}
use dotvault.Handlers.SshConfig.Keys.{IsPlainLine}
use dotvault.Handlers.SshConfig.Merged.{
  HasDistinctKeys, Held, merge_lines-Held, merge_lines_id, clone_lines-Held,
}
use mathlib.Core.Path.{subst}

module _ (unicode : Str → Str) where
  -- The section of src is there, and holds its directives.
  pub data Filled (src : Block) : List Block → Type 0 where
    here :
        (b : Block) (bs : List Block)
        → str_eq (block_key unicode b) (block_key unicode src) ≡ true
        → Held unicode src.lines b.lines
        → Filled src (b ∷ bs)
    later :
        (b : Block) (bs : List Block)
        → str_eq (block_key unicode b) (block_key unicode src) ≡ false
        → Filled src bs
        → Filled src (b ∷ bs)

  -- A section that may be merged: no keyword has a NUL, and each directive has a key of its own.
  abbrev pub IsPlainBlock : Block → Type 0
  IsPlainBlock b = All (IsPlainLine unicode) b.lines × HasDistinctKeys unicode b.lines

  block_key-clone : (b : Block) → block_key unicode (clone_block b) ≡ block_key unicode b
  unfolding block_key clone_block
  block_key-clone b = ground arith

  block_key-lines :
      (b : Block) (ls : List Line)
      → block_key unicode (record b { lines = ls }) ≡ block_key unicode b
  unfolding block_key
  block_key-lines b ls = refl

  -- merge_block where the section is the first one, and where it is not.
  merge_block-here :
      (src b : Block) (bs : List Block)
      → str_eq (block_key unicode b) (block_key unicode src) ≡ true
      → merge_block unicode src (b ∷ bs)
        ≡ record b { lines = merge_lines unicode b.lines src.lines } ∷ bs
  unfolding merge_block
  merge_block-here src b bs e = rw e refl

  merge_block-later :
      (src b : Block) (bs : List Block)
      → str_eq (block_key unicode b) (block_key unicode src) ≡ false
      → merge_block unicode src (b ∷ bs) ≡ b ∷ merge_block unicode src bs
  unfolding merge_block
  merge_block-later src b bs e = rw e refl

  merge_block_id : (src : Block) (bs : List Block) → Filled src bs → merge_block unicode src bs ≡ bs
  merge_block_id src _ (here b bs e held) =
      merge_block-here src b bs e
      ∙ ap (λ ls. record b { lines = ls } ∷ bs) (merge_lines_id unicode src.lines b.lines held)
  merge_block_id src _ (later b bs e filled) =
      merge_block-later src b bs e ∙ ap (λ xs. b ∷ xs) (merge_block_id src bs filled)

  merge_block-Filled :
      (src : Block) (bs : List Block) → IsPlainBlock src → Filled src (merge_block unicode src bs)
  merge_block-Filled src [] p =
      unfold merge_block in
      here (clone_block src) [] (rw (block_key-clone src) (str_eq_refl (block_key unicode src)))
        (unfold clone_block in clone_lines-Held unicode src.lines p.1)
  merge_block-Filled src (b ∷ bs) p =
      elim (Bool-cases (str_eq (block_key unicode b) (block_key unicode src))) [
        | inl e ↦ subst (Filled src) (sym (merge_block-here src b bs e)) (
            here _ bs (rw (block_key-lines b (merge_lines unicode b.lines src.lines)) e)
              (merge_lines-Held unicode src.lines b.lines p.0 p.1))
        | inr e ↦
            subst (Filled src) (sym (merge_block-later src b bs e))
              (later b _ e (merge_block-Filled src bs p))
      ]

  -- The key of a section is not two different ones.
  not_both :
      (src t b : Block)
      → str_eq (block_key unicode t) (block_key unicode src) ≡ false
      → str_eq (block_key unicode b) (block_key unicode src) ≡ true
      → str_eq (block_key unicode b) (block_key unicode t) ≡ false
  not_both src t b other e = ground (
    arith,
    other,
    e,
    str_eq_iff (block_key unicode b) (block_key unicode src),
    str_eq_iff (block_key unicode b) (block_key unicode t),
    str_eq_iff (block_key unicode t) (block_key unicode src),
  )

  merge_block-Filled-other :
      (src t : Block) (bs : List Block)
      → str_eq (block_key unicode t) (block_key unicode src) ≡ false
      → Filled src bs
      → Filled src (merge_block unicode t bs)
  merge_block-Filled-other src t _ other (here b bs e held) =
      subst (Filled src) (sym (merge_block-later t b bs (not_both src t b other e)))
        (here b _ e held)
  merge_block-Filled-other src t _ other (later b bs e filled) =
      elim (Bool-cases (str_eq (block_key unicode b) (block_key unicode t))) [
        | inl mine ↦
            subst (Filled src) (sym (merge_block-here t b bs mine))
              (later _ bs (rw (block_key-lines b (merge_lines unicode b.lines t.lines)) e) filled)
        | inr e' ↦
            subst (Filled src) (sym (merge_block-later t b bs e'))
              (later b _ e (merge_block-Filled-other src t bs other filled))
      ]

  -- Sections that may be merged, each with a key of its own.
  abbrev pub IsPlainConfig : SshConfig → Type 0
  IsPlainConfig [] = Unit
  IsPlainConfig (b ∷ bs) =
      IsPlainBlock b
      × All (λ t. str_eq (block_key unicode t) (block_key unicode b) ≡ false) bs
      × IsPlainConfig bs

  merge-Filled-other :
      (src : Block) (ts dst : SshConfig)
      → All (λ t. str_eq (block_key unicode t) (block_key unicode src) ≡ false) ts
      → Filled src dst
      → Filled src (merge unicode dst ts)
  unfolding merge
  merge-Filled-other src [] dst others filled = filled
  merge-Filled-other src (t ∷ ts) dst others filled =
      merge-Filled-other src ts (merge_block unicode t dst) others.1
        (merge_block-Filled-other src t dst others.0 filled)

  -- After a merge of a document the target has each of its sections, and the first line with the key
  -- of a directive has that directive's arguments and is rendered from them, whatever the target
  -- held, where no keyword of the document has a NUL, its sections differ and so do the directives
  -- of each.
  pub merge-Filled :
      (srcs dst : SshConfig)
      → IsPlainConfig srcs
      → All (λ src. Filled src (merge unicode dst srcs)) srcs
  unfolding merge
  merge-Filled [] dst p = tt
  merge-Filled (src ∷ srcs) dst p = (
    merge-Filled-other src srcs (merge_block unicode src dst) p.1 (merge_block-Filled src dst p.0),
    merge-Filled srcs (merge_block unicode src dst) p.2,
  )

  merge_id :
      (srcs dst : SshConfig) → All (λ src. Filled src dst) srcs → merge unicode dst srcs ≡ dst
  unfolding merge
  merge_id [] dst filled = refl
  merge_id (src ∷ srcs) dst filled =
      rw (merge_block_id src dst filled.0) (merge_id srcs dst filled.1)

  -- A document merged once more changes nothing, whatever the target held, where no keyword of the
  -- document has a NUL, its sections differ and so do the directives of each.
  pub merge_idem :
      (dst src : SshConfig)
      → IsPlainConfig src
      → merge unicode (merge unicode dst src) src ≡ merge unicode dst src
  merge_idem dst src p = merge_id src (merge unicode dst src) (merge-Filled src dst p)
