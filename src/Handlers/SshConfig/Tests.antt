-- ===== src/Handlers/SshConfig/Tests.antt =====
-- internal/handlers/ssh_config.go: runs of the model, and the theorems at concrete inputs.
use dotvault.Prelude.{
  Str, codes, false, List, [], ◌∷◌, ◌++◌, map, none, ◌≡◌, refl, All, is_empty, contains_byte,
  cut_prefix, has_prefix, cut_suffix, split, parts, join, trim_space, fields, to_lower, is_ascii,
  any_equal, str_eq,
}
use dotvault.Handlers.SshConfig.{
  Block, SshConfig, trim_suffix, split_lines, parse_line, render_line, render, is_multi_valued,
  discriminator, key_of, clone_block, starts_section, parse, block_key, directive_key,
  find_directive, merge,
}
use dotvault.Handlers.SshConfig.RoundTrip.{unlines, render-parse}
use dotvault.Handlers.SshConfig.Idempotent.{IsPlainConfig, Filled, merge-Filled, merge_idem}
use dotvault.Handlers.SshConfig.Kept.{rest_of, merge-keeps}

-- The texts of the tests are ASCII.
abbrev unicode : Str → Str
unicode s = s

abbrev lines : List Str
lines =
    codes "# mine" ∷ codes "Host *" ∷ codes "  User root" ∷ codes "\tPort = 22" ∷ codes "# end" ∷ []

abbrev incoming : List Str
incoming =
    codes "host  *"
    ∷ codes "  user alice"
    ∷ codes " SetEnv A=1"
    ∷ codes "Host x"
    ∷ codes "  Port 23"
    ∷ []

target : SshConfig
unfolding parse split_lines trim_suffix parse_line parts split is_empty cut_suffix str_eq cut_prefix
    has_prefix trim_space starts_section to_lower is_ascii
target = parse unicode (unlines lines)

doc : SshConfig
unfolding parse split_lines trim_suffix parse_line parts split is_empty cut_suffix str_eq cut_prefix
    has_prefix trim_space starts_section to_lower is_ascii
doc = parse unicode (unlines incoming)

merged_text :
    render (merge unicode target doc)
    ≡ unlines (
        codes "# mine"
        ∷ codes "Host *"
        ∷ codes "  User alice"
        ∷ codes "\tPort = 22"
        ∷ codes "\tSetEnv A=1"
        ∷ codes "# end"
        ∷ codes "Host x"
        ∷ codes "  Port 23"
        ∷ [])
unfolding target doc render render_line merge clone_block block_key key_of is_multi_valued
    discriminator directive_key fields any_equal join
merged_text = refl

-- A section that the target lacks is copied with its repetitions, which the next merge overwrites.
repeated : SshConfig
unfolding parse split_lines trim_suffix parse_line parts split is_empty cut_suffix str_eq cut_prefix
    has_prefix trim_space starts_section to_lower is_ascii
repeated = parse unicode (unlines (codes "Host y" ∷ codes "User a" ∷ codes "User b" ∷ []))

repeated_once :
    render (merge unicode target repeated)
    ≡ unlines (lines ++ (codes "Host y" ∷ codes "User a" ∷ codes "User b" ∷ []))
unfolding repeated target render render_line merge clone_block block_key key_of is_multi_valued
    discriminator directive_key fields any_equal join
repeated_once = refl

repeated_twice :
    render (merge unicode (merge unicode target repeated) repeated)
    ≡ unlines (lines ++ (codes "Host y" ∷ codes "User b" ∷ codes "User b" ∷ []))
unfolding repeated target render render_line merge clone_block block_key key_of is_multi_valued
    discriminator directive_key fields any_equal join
repeated_twice = refl

doc-IsPlainConfig : IsPlainConfig unicode doc
unfolding doc block_key find_directive key_of is_multi_valued discriminator directive_key fields
    any_equal join contains_byte
doc-IsPlainConfig = (
  (tt, tt),
  (refl, (refl, tt)),
  (
    ((refl, (refl, tt)), ((λ d. refl), ((λ d. refl), tt))),
    (refl, tt),
    (((refl, tt), ((λ d. refl), tt)), tt, tt),
  ),
)

merge_idem_example : merge unicode (merge unicode target doc) doc ≡ merge unicode target doc
merge_idem_example = merge_idem unicode target doc doc-IsPlainConfig

merge-Filled_example : All (λ src. Filled unicode src (merge unicode target doc)) doc
merge-Filled_example = merge-Filled unicode doc target doc-IsPlainConfig

merge-keeps_example :
    (new : List Block) × (map (rest_of unicode doc) (merge unicode target doc)
      ≡ map (rest_of unicode doc) target ++ new)
merge-keeps_example = merge-keeps unicode target doc doc_plain
  where
    doc_plain :
        All (λ b. All (λ l. contains_byte 0 (to_lower unicode l.keyword) ≡ false) b.lines) doc
    doc_plain = unfold doc contains_byte in (tt, ((refl, (refl, tt)), ((refl, tt), tt)))

render-parse_example : render (parse unicode (unlines lines)) ≡ unlines lines
render-parse_example = render-parse unicode lines lines_unix
  where
    lines_unix : All (λ l. (contains_byte 10 l ≡ false) × (cut_suffix l (codes "\r") ≡ none)) lines
    lines_unix =
        unfold contains_byte cut_suffix str_eq in
        ((refl, refl), ((refl, refl), ((refl, refl), ((refl, refl), ((refl, refl), tt)))))
