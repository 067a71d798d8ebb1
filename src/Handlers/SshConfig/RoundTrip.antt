-- ===== src/Handlers/SshConfig/RoundTrip.antt =====
-- internal/handlers/ssh_config.go: what parsing and rendering make of a text.
use dotvault.Prelude.{
  Str, codes, false, List, [], ◌∷◌, ◌++◌, map, none, some, ◌≡◌, refl, ◌∙◌, str_eq, contains_byte,
  is_empty, cut_suffix, cut_suffix-append, split-join, join, All, Bool-cases, inl, inr, arith,
}
use mathlib.Core.List.{append_assoc, append-nil}
use dotvault.Handlers.SshConfig.{
  Line, Block, newline, trim_suffix, split_lines, parse_line, render_line, render_lines,
  render_block, render, starts_section, sections, parse,
}

-- Lines as they stand in a file.
abbrev pub unlines : List Str → Str
unlines [] = []
unlines (l ∷ ls) = l ++ (newline ∷ unlines ls)

-- A line of a file with Unix line ends.
abbrev pub IsUnixLine : Str → Type 0
IsUnixLine l = (contains_byte newline l ≡ false) × (cut_suffix l (codes "\r") ≡ none)

render-parse_line : (raw : Str) → render_line (parse_line raw) ≡ raw
unfolding render_line parse_line
render-parse_line raw = ground arith

render_lines-snoc :
    (ls : List Line) (l : Line)
    → render_lines (ls ++ (l ∷ [])) ≡ render_lines ls ++ (render_line l ++ (newline ∷ []))
unfolding render_lines
render_lines-snoc [] l = refl
render_lines-snoc (x ∷ ls) l = simp (render_lines-snoc ls l, append_assoc)

render_block-snoc :
    (b : Block) (l : Line)
    → render_block (record b { lines = b.lines ++ (l ∷ []) })
      ≡ render_block b ++ (render_line l ++ (newline ∷ []))
unfolding render_block
render_block-snoc b l = simp (render_lines-snoc b.lines l, append_assoc)

module _ (unicode : Str → Str) where
  render-sections :
      (current : Block) (raws : List Str)
      → render (sections unicode current raws) ≡ render_block current ++ unlines raws
  unfolding sections render
  render-sections current [] = simp append-nil
  render-sections current (raw ∷ raws) =
      elim (Bool-cases (starts_section unicode (parse_line raw))) [
        | inl new ↦
            rw (new, sections)
              (simp (
                render-sections (record { header = some (parse_line raw); lines = [] }) raws,
                render-parse_line,
                append_assoc,
              ))
        | inr old ↦
            rw (old, sections)
              (simp (
                render-sections (record current { lines = current.lines ++ (parse_line raw ∷ []) })
                    raws,
                render_block-snoc,
                render-parse_line,
                append_assoc,
              ))
      ]

ends_plain :
    (p t : Str)
    → cut_suffix t (codes "\r") ≡ none
    → cut_suffix (p ++ (newline ∷ t)) (codes "\r") ≡ none
unfolding cut_suffix str_eq
ends_plain [] t h = ground (arith, h)
ends_plain (x ∷ []) t h = ground (arith, h)
ends_plain (x ∷ y ∷ p) t h = ground (arith, ends_plain (y ∷ p) t h)

join-ends : (ls : List Str) → All IsUnixLine ls → cut_suffix (join newline ls) (codes "\r") ≡ none
unfolding join cut_suffix
join-ends [] h = refl
join-ends (l ∷ []) h = h.0.1
join-ends (l ∷ m ∷ ls) h =
    unfold join in ends_plain l (join newline (m ∷ ls)) (join-ends (m ∷ ls) h.1)

unlines-join :
    (l : Str) (ls : List Str) → unlines (l ∷ ls) ≡ join newline (l ∷ ls) ++ (newline ∷ [])
unfolding join
unlines-join l [] = refl
unlines-join l (m ∷ ls) = simp (unlines-join m ls, append_assoc)

trimmed : (ls : List Str) → All IsUnixLine ls → map (λ p. trim_suffix p (codes "\r")) ls ≡ ls
unfolding trim_suffix
trimmed [] h = refl
trimmed (l ∷ ls) h = ground (arith, h.0.1, trimmed ls h.1)

no_newline : (ls : List Str) → All IsUnixLine ls → All (λ q. contains_byte newline q ≡ false) ls
no_newline [] h = tt
no_newline (l ∷ ls) h = (h.0.0, no_newline ls h.1)

split_lines-join :
    (l : Str) (ls : List Str)
    → All IsUnixLine (l ∷ ls)
    → split_lines (join newline (l ∷ ls)) ≡ l ∷ ls
unfolding split_lines
split_lines-join l ls h = rw (split-join newline l ls (no_newline (l ∷ ls) h)) (trimmed (l ∷ ls) h)

trim_suffix-cut :
    (s suffix stem : Str) → cut_suffix s suffix ≡ some stem → trim_suffix s suffix ≡ stem
unfolding trim_suffix
trim_suffix-cut s suffix stem h = ground (arith, h)

trim_suffix_id : (s suffix : Str) → cut_suffix s suffix ≡ none → trim_suffix s suffix ≡ s
unfolding trim_suffix
trim_suffix_id s suffix h = ground (arith, h)

-- The body that parseSSHConfig splits.
body :
    (l : Str) (ls : List Str)
    → All IsUnixLine (l ∷ ls)
    → trim_suffix (trim_suffix (unlines (l ∷ ls)) (newline ∷ [])) (codes "\r")
      ≡ join newline (l ∷ ls)
body l ls h =
    let text = join newline (l ∷ ls) in
    let cut = cut_suffix-append text (newline ∷ []) (λ e. cc e) in
    rw (unlines-join l ls) (
      rw (trim_suffix-cut (text ++ (newline ∷ [])) (newline ∷ []) text cut)
        (trim_suffix_id text (codes "\r") (join-ends (l ∷ ls) h)))

not_empty : (l t : Str) → is_empty (l ++ (newline ∷ t)) ≡ false
unfolding is_empty
not_empty [] t = refl
not_empty (x ∷ l) t = refl

module _ (unicode : Str → Str) where
  -- A file whose lines all end in a bare line feed is rendered as it was parsed, byte for byte.
  pub render-parse :
      (ls : List Str) → All IsUnixLine ls → render (parse unicode (unlines ls)) ≡ unlines ls
  unfolding parse
  render-parse [] h = unfold render render_block render_lines is_empty in refl
  render-parse (l ∷ ls) h =
      let global : Block = record { header = none; lines = [] } in
      rw (not_empty l (unlines ls)) (
        rw (body l ls h) (
          rw (split_lines-join l ls h)
            (render-sections unicode global (l ∷ ls) ∙ unfold render_block render_lines in refl)))
