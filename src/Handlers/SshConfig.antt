-- ===== src/Handlers/SshConfig.antt =====
-- internal/handlers/ssh_config.go: parsing, rendering and merging OpenSSH client configurations.
pub mod RoundTrip
pub mod Keys
pub mod Holding
pub mod Merged
pub mod Idempotent
pub mod Kept
mod Tests
use dotvault.Prelude.{
  ℕ, zero, suc, ◌+◌, ◌==◌, Str, codes, Bool, true, false, not, ◌&&◌, ◌||◌, List, [], ◌∷◌, ◌++◌, map,
  Option, none, some, str_eq, is_empty, cut_prefix, has_prefix, cut_suffix, split, join, trim_space,
  fields, to_lower, any_equal, if◌then◌else◌,
}

-- raw: the line as it stands in the file, which is rendered unless the line is dirty.
pub record Line : Type 0 where
  pub raw : Str
  pub indent : Str
  pub keyword : Str
  pub args : Str
  pub dirty : Bool

-- header: none for the global section
pub record Block : Type 0 where
  pub header : Option Line
  pub lines : List Line

abbrev pub SshConfig : Type 0
SshConfig = List Block

abbrev pub newline : ℕ
newline = 10

-- strings.TrimSuffix
unfoldable pub trim_suffix : Str → Str → Str
trim_suffix s suffix = elim (cut_suffix s suffix) [ none ↦ s | some stem ↦ stem ]

unfoldable pub split_lines : Str → List Str
unfolding trim_suffix
split_lines s = map (λ p. trim_suffix p (codes "\r")) (split newline s)

abbrev pub is_blank : ℕ → Bool
is_blank c = c == b' ' || c == 9

-- The leading spaces and tabs, and the rest.
unfoldable pub cut_indent : Str → Str × Str
cut_indent [] = ([], [])
cut_indent (c ∷ s) =
    let (indent, rest) = cut_indent s in if is_blank c then (c ∷ indent, rest) else ([], c ∷ s)

-- What stands before the first of " \t=", and the text from it on.
unfoldable pub cut_keyword : Str → Option (Str × Str)
cut_keyword [] = none
cut_keyword (c ∷ s) =
    let rest = cut_keyword s in
    if is_blank c || c == b'='
    then some ([], c ∷ s)
    else elim rest [ none ↦ none | some (keyword, tail) ↦ some (c ∷ keyword, tail) ]

-- strings.TrimPrefix with "="
abbrev pub skip_equals : Str → Str
skip_equals s = elim (cut_prefix s (codes "=")) [ none ↦ s | some rest ↦ rest ]

unfoldable pub parse_line : Str → Line
unfolding cut_indent cut_keyword
parse_line raw =
    let (indent, rest) = cut_indent raw in
    if is_empty rest || has_prefix rest (codes "#")
    then record { raw = raw; indent = indent; keyword = []; args = []; dirty = false }
    else elim (cut_keyword rest) [
      | none ↦ record { raw = raw; indent = indent; keyword = rest; args = []; dirty = false }
      | some (keyword, tail) ↦ record {
        raw = raw;
        indent = indent;
        keyword = keyword;
        args = trim_space (skip_equals (trim_space tail));
        dirty = false;
      }
    ]

unfoldable pub render_line : Line → Str
render_line l =
    if not l.dirty
    then l.raw
    else if is_empty l.args
    then l.indent ++ l.keyword
    else l.indent ++ l.keyword ++ codes " " ++ l.args

unfoldable pub render_lines : List Line → Str
render_lines [] = []
render_lines (l ∷ ls) = render_line l ++ (newline ∷ render_lines ls)

unfoldable pub render_block : Block → Str
unfolding render_lines
render_block b =
    elim b.header [ none ↦ [] | some h ↦ render_line h ++ (newline ∷ []) ] ++ render_lines b.lines

unfoldable pub render : SshConfig → Str
unfolding render_block
render [] = []
render (b ∷ bs) = render_block b ++ render bs

abbrev pub is_directive : Line → Bool
is_directive l = not (is_empty l.keyword)

abbrev pub multi_valued : List Str
multi_valued =
    codes "identityfile"
    ∷ codes "certificatefile"
    ∷ codes "localforward"
    ∷ codes "remoteforward"
    ∷ codes "dynamicforward"
    ∷ codes "sendenv"
    ∷ codes "setenv"
    ∷ codes "include"
    ∷ codes "permitremoteopen"
    ∷ []

unfoldable pub first_field : Str → Str
first_field s = elim (fields s) [ [] ↦ [] | f ∷ fs ↦ f ]

-- What stands before the first '='.
unfoldable pub before_equals : Str → Str
before_equals [] = []
before_equals (c ∷ s) = let rest = before_equals s in if c == b'=' then [] else c ∷ rest

unfoldable pub is_multi_valued : Str → Bool
is_multi_valued kw = any_equal multi_valued kw

-- What tells the entries of a multi-valued keyword apart.
unfoldable pub discriminator : Str → Str → Str
unfolding first_field before_equals
discriminator kw args =
    let first = first_field args in
    if str_eq kw (codes "setenv") then before_equals first else first

-- directiveKey, of the keyword in lower case and the arguments.
unfoldable pub key_of : Str → Str → Str
key_of kw args = if not (is_multi_valued kw) then kw else kw ++ (0 ∷ discriminator kw args)

-- An insertion at a position, at the end if the list is shorter.
unfoldable pub insert_at : ℕ → Line → List Line → List Line
insert_at zero new ls = new ∷ ls
insert_at (suc pos) new [] = new ∷ []
insert_at (suc pos) new (l ∷ ls) = l ∷ insert_at pos new ls

-- The loop of insertDirective: the position after the last directive, and its indentation.
unfoldable pub last_directive : ℕ → Option (ℕ × Str) → List Line → Option (ℕ × Str)
last_directive i found [] = found
last_directive i found (l ∷ ls) =
    last_directive (i + 1) (if is_directive l then some (i + 1, l.indent) else found) ls

-- cloneLineDirty, with the indentation.
abbrev pub fresh : Str → Line → Line
fresh indent src = record {
  raw = [];
  indent = indent;
  keyword = src.keyword;
  args = src.args;
  dirty = true;
}

unfoldable pub insert_directive : Line → List Line → List Line
unfolding insert_at last_directive
insert_directive src ls = elim (last_directive 0 none ls) [
  | none ↦ ls ++ (fresh src.indent src ∷ [])
  | some (pos, indent) ↦ insert_at pos (fresh indent src) ls
]

unfoldable pub clone_lines : List Line → List Line
clone_lines [] = []
clone_lines (l ∷ ls) = (if is_directive l then fresh l.indent l else l) ∷ clone_lines ls

unfoldable pub clone_block : Block → Block
unfolding clone_lines
clone_block b = record {
  header = elim b.header [ none ↦ none | some h ↦ some (fresh h.indent h) ];
  lines = clone_lines b.lines;
}

-- unicode: what strings.ToLower makes of a text that is not ASCII.
module _ (unicode : Str → Str) where
  unfoldable pub starts_section : Line → Bool
  starts_section l =
      let kw = to_lower unicode l.keyword in str_eq kw (codes "host") || str_eq kw (codes "match")

  -- The loop of parseSSHConfig
  unfoldable pub sections : Block → List Str → List Block
  sections current [] = current ∷ []
  sections current (raw ∷ raws) = elim (starts_section (parse_line raw)) [
    | true ↦ current ∷ sections (record { header = some (parse_line raw); lines = [] }) raws
    | false ↦ sections (record current { lines = current.lines ++ (parse_line raw ∷ []) }) raws
  ]

  unfoldable pub parse : Str → SshConfig
  unfolding sections
  parse content =
      let global : Block = record { header = none; lines = [] } in
      if is_empty content
      then global ∷ []
      else sections global
          (split_lines (trim_suffix (trim_suffix content (newline ∷ [])) (codes "\r")))

  -- SSHConfigHandler.Read of a file with this content, none where there is no file.
  unfoldable pub read : Option Str → SshConfig
  unfolding parse
  read none = record { header = none; lines = [] } ∷ []
  read (some content) = parse content

  unfoldable pub block_key : Block → Str
  block_key b = elim b.header [
    | none ↦ 0 ∷ codes "global"
    | some h ↦ to_lower unicode h.keyword ++ codes " " ++ join (b' ') (fields h.args)
  ]

  unfoldable pub directive_key : Line → Str
  directive_key l = key_of (to_lower unicode l.keyword) l.args

  abbrev pub has_key : Str → Line → Bool
  has_key key l = is_directive l && str_eq (directive_key l) key

  unfoldable pub find_directive : Str → List Line → Option Line
  find_directive key [] = none
  find_directive key (l ∷ ls) =
      let rest = find_directive key ls in if has_key key l then some l else rest

  -- existing.args = args; existing.dirty = true, of the line that findDirective finds.
  unfoldable pub set_args : Str → Str → List Line → List Line
  set_args key args [] = []
  set_args key args (l ∷ ls) =
      let rest = set_args key args ls in
      if has_key key l then record l { args = args; dirty = true } ∷ ls else l ∷ rest

  unfoldable pub merge_line : Line → List Line → List Line
  unfolding find_directive set_args insert_directive
  merge_line src ls =
      if not (is_directive src) then ls else elim (find_directive (directive_key src) ls) [
        | some existing ↦ set_args (directive_key src) src.args ls
        | none ↦ insert_directive src ls
      ]

  -- mergeDirectives
  unfoldable pub merge_lines : List Line → List Line → List Line
  unfolding merge_line
  merge_lines ls [] = ls
  merge_lines ls (src ∷ srcs) = merge_lines (merge_line src ls) srcs

  -- The body of Merge's loop: findBlock, then mergeDirectives or the clone.
  unfoldable pub merge_block : Block → List Block → List Block
  unfolding merge_lines
  merge_block src [] = clone_block src ∷ []
  merge_block src (b ∷ bs) =
      let rest = merge_block src bs in
      if str_eq (block_key b) (block_key src)
      then record b { lines = merge_lines b.lines src.lines } ∷ bs
      else b ∷ rest

  -- SSHConfigHandler.Merge
  unfoldable pub merge : SshConfig → SshConfig → SshConfig
  unfolding merge_block
  merge dst [] = dst
  merge dst (src ∷ srcs) = merge (merge_block src dst) srcs
