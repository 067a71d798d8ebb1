-- ===== src/DockerVol/Spec.antt =====
-- internal/dockervol/dockervol.go: what a volume is, and the options that say so.
pub mod Selection
pub mod Options
pub mod Valid
use dotvault.Prelude.{
  ℕ, ◌+◌, ◌*◌, ◌/◌, ◌%◌, ◌==◌, ltb, leb, Str, codes, slash, Map, Bool, true, false, not, ◌&&◌, ◌||◌,
  List, [], ◌∷◌, ◌++◌, Option, none, some, Result, ok, err, ◌>>=◌, ℤ, pos, negsuc, NumError,
  parse_uint, lookup, insert, str_has_eq, str_eq, is_empty, cut_prefix, has_prefix, cut_suffix,
  has_suffix, trim_space, split, sort_strings, length, if◌then◌else◌,
}
use dotvault.KvPath.{KvError, clean}
use dotvault.Config.Duration.{DurationError, TtlError, parse_duration, validate_docker_ttl}

-- Errors are told apart by what was refused.
pub data SpecError : Type 0 where
  empty_name long_name bad_name : SpecError
  bad_path : KvError → SpecError
  bare_slash bad_layout not_octal bad_mode bad_client_cert unknown_option : SpecError
  bad_duration : DurationError → SpecError
  bad_ttl : TtlError → SpecError
  only_conflict no_window bad_selection : SpecError

-- Layout and ClientCertMode are Go strings.
pub record Spec : Type 0 where
  pub secrets : List Str
  pub layout : Str
  pub mode : ℕ
  pub ttl : ℤ
  pub client_cert : Str

abbrev pub layout_json : Str
layout_json = codes "json"

abbrev pub layout_fields : Str
layout_fields = codes "fields"

abbrev pub client_cert_off : Str
client_cert_off = []

abbrev pub client_cert_with : Str
client_cert_with = codes "true"

abbrev pub client_cert_only : Str
client_cert_only = codes "only"

abbrev pub default_mode : ℕ
default_mode = 0o400

abbrev pub max_volume_name_len : ℕ
max_volume_name_len = 255

-- [a-zA-Z0-9]
unfoldable pub is_alphanumeric : ℕ → Bool
is_alphanumeric c =
    (leb b'a' c && leb c b'z') || ((leb b'A' c && leb c b'Z') || (leb b'0' c && leb c b'9'))

-- [a-zA-Z0-9_.-]*
unfoldable pub all_name_bytes : Str → Bool
all_name_bytes [] = true
all_name_bytes (c ∷ s) =
    let rest = all_name_bytes s in
    if is_alphanumeric c || (c == b'_' || (c == b'.' || c == b'-')) then rest else false

-- volumeNamePattern
unfoldable pub matches_name : Str → Bool
matches_name [] = false
matches_name (c ∷ s) = is_alphanumeric c && all_name_bytes s

unfoldable pub validate_name : Str → Option SpecError
validate_name name =
    if is_empty name
    then some empty_name
    else if ltb max_volume_name_len (length name)
    then some long_name
    else if not (matches_name name)
    then some bad_name
    else none

-- One entry of the `secrets` option: none for a blank one.
unfoldable pub select_one : Str → Result SpecError (Option Str)
select_one raw =
    let entry = trim_space raw in
    if is_empty entry then ok none else elim (clean entry) [
      | err e ↦ err (bad_path e)
      | ok path ↦
          if is_empty path
          then err bare_slash
          else ok (some (if has_suffix entry (codes "/") then path ++ codes "/" else path))
    ]

-- The loop of parseSelection, with its set of the entries seen.
unfoldable pub collect_selection :
    List Str → Map Str (Unit {0}) → List Str → Result SpecError (List Str)
collect_selection [] seen out = ok out
collect_selection (raw ∷ raws) seen out = elim (select_one raw) [
  | err e ↦ err e
  | ok none ↦ collect_selection raws seen out
  | ok (some sel) ↦ elim (lookup sel seen) [
    | some dup ↦ collect_selection raws seen out
    | none ↦ collect_selection raws (insert sel tt seen) (out ++ (sel ∷ []))
  ]
]

unfoldable pub parse_selection : Str → Result SpecError (List Str)
parse_selection v = do out ← collect_selection (split b',' v) [] []; ok (sort_strings out)

-- m & 0o444 and m & 0o400
abbrev pub read_bits : ℕ → ℕ
read_bits m = 256 * (m / 256 % 2) + (32 * (m / 32 % 2) + 4 * (m / 4 % 2))

abbrev pub owner_bit : ℕ → ℕ
owner_bit m = 256 * (m / 256 % 2)

-- A mode that sets read bits only, the owner's among them.
unfoldable pub mode_ok : ℕ → Bool
mode_ok m = not (m == 0) && (m == read_bits m && not (owner_bit m == 0))

unfoldable pub parse_mode : Str → Result SpecError ℕ
parse_mode v =
    elim (parse_uint 8 32 (elim (cut_prefix v (codes "0o")) [ none ↦ v | some rest ↦ rest ])) [
      | err e ↦ err not_octal
      | ok m ↦ if mode_ok m then ok m else err bad_mode
    ]

unfoldable pub layout_ok : Str → Bool
layout_ok l = str_eq l layout_json || str_eq l layout_fields

unfoldable pub parse_client_cert : Str → Result SpecError Str
parse_client_cert v =
    if str_eq v (codes "true")
    then ok client_cert_with
    else if str_eq v (codes "false")
    then ok client_cert_off
    else if str_eq v client_cert_only
    then ok client_cert_only
    else err bad_client_cert

unfoldable pub client_cert_ok : Str → Bool
client_cert_ok c =
    str_eq c client_cert_off || (str_eq c client_cert_with || str_eq c client_cert_only)

unfoldable pub only_conflicts : Spec → Bool
only_conflicts s = str_eq s.client_cert client_cert_only && elim s.secrets [ [] ↦ false | _ ↦ true ]

unfoldable pub selection_ok : Str → Bool
selection_ok sel =
    let path : Str = elim (cut_suffix sel (codes "/")) [ none ↦ sel | some folder ↦ folder ] in
    elim (clean path) [ err e ↦ false | ok c ↦ not (is_empty c) && str_eq c path ]

unfoldable pub all_selections_ok : List Str → Bool
all_selections_ok [] = true
all_selections_ok (sel ∷ sels) =
    let rest = all_selections_ok sels in if selection_ok sel then rest else false

-- The method validate
unfoldable pub validate : Spec → Option SpecError
validate s =
    if not (client_cert_ok s.client_cert)
    then some bad_client_cert
    else if only_conflicts s
    then some only_conflict
    else if not (all_selections_ok s.secrets)
    then some bad_selection
    else if not (layout_ok s.layout)
    then some bad_layout
    else if not (mode_ok s.mode)
    then some bad_mode
    else elim (validate_docker_ttl s.ttl) [ some e ↦ some (bad_ttl e) | none ↦ none ]

-- What ParseOptions starts from.
abbrev pub initial : ℤ → Spec
initial default_ttl = record {
  secrets = [];
  layout = layout_json;
  mode = default_mode;
  ttl = default_ttl;
  client_cert = client_cert_off;
}

module _ (std : Str → Option ℤ) where
  unfoldable pub parse_ttl : Str → Result SpecError ℤ
  parse_ttl v = elim (parse_duration std v) [
    | err e ↦ err (bad_duration e)
    | ok d ↦ elim (validate_docker_ttl d) [ some e ↦ err (bad_ttl e) | none ↦ ok d ]
  ]

  -- One option
  unfoldable pub apply_option : Str → Str → Spec → Result SpecError Spec
  apply_option k v s =
      if str_eq k (codes "secrets")
      then (do sel ← parse_selection v; ok (record s { secrets = sel }))
      else if str_eq k (codes "layout")
      then (if layout_ok v then ok (record s { layout = v }) else err bad_layout)
      else if str_eq k (codes "mode")
      then (do m ← parse_mode v; ok (record s { mode = m }))
      else if str_eq k (codes "ttl")
      then (do d ← parse_ttl v; ok (record s { ttl = d }))
      else if str_eq k (codes "client_cert")
      then (do c ← parse_client_cert v; ok (record s { client_cert = c }))
      else err unknown_option

  unfoldable pub apply_options : Map Str Str → Spec → Result SpecError Spec
  apply_options [] s = ok s
  apply_options ((k, v) ∷ opts) s = elim (apply_option k v s) [
    | err e ↦ err e
    | ok s' ↦ apply_options opts s'
  ]

  unfoldable pub check_options : Spec → Result SpecError Spec
  check_options s = if only_conflicts s then err only_conflict else elim s.ttl [
    | pos n ↦ if n == 0 then err no_window else elim (validate s) [ some e ↦ err e | none ↦ ok s ]
    | _ ↦ err no_window
  ]

  unfoldable pub parse_options : Map Str Str → ℤ → Result SpecError Spec
  parse_options opts default_ttl = do s ← apply_options opts (initial default_ttl); check_options s

unfoldable pub covers_one : Str → Str → Bool
covers_one sel rel_path = elim (cut_suffix sel (codes "/")) [
  | some folder ↦ has_prefix rel_path (folder ++ codes "/")
  | none ↦ str_eq rel_path sel
]

unfoldable pub any_covers : List Str → Str → Bool
any_covers [] rel_path = false
any_covers (sel ∷ sels) rel_path =
    let rest = any_covers sels rel_path in if covers_one sel rel_path then true else rest

unfoldable pub covers : Spec → Str → Bool
covers s rel_path =
    if str_eq s.client_cert client_cert_only
    then false
    else elim s.secrets [ [] ↦ true | sels ↦ any_covers sels rel_path ]

unfoldable pub same_strings : List Str → List Str → Bool
same_strings [] [] = true
same_strings [] (y ∷ ys) = false
same_strings (x ∷ xs) [] = false
same_strings (x ∷ xs) (y ∷ ys) = let rest = same_strings xs ys in if str_eq x y then rest else false

unfoldable pub same_duration : ℤ → ℤ → Bool
same_duration (pos m) (pos n) = m == n
same_duration (pos m) (negsuc n) = false
same_duration (negsuc m) (pos n) = false
same_duration (negsuc m) (negsuc n) = m == n

-- The method Equal
unfoldable pub equal : Spec → Spec → Bool
equal s o =
    str_eq s.layout o.layout
    && (s.mode == o.mode
        && (same_duration s.ttl o.ttl
            && (str_eq s.client_cert o.client_cert && same_strings s.secrets o.secrets)))

-- 0o700 | shared | shared >> 2, where shared = mode & 0o044; the bits of the three do not meet.
unfoldable pub dir_mode : Spec → ℕ
dir_mode s =
    let shared = 32 * (s.mode / 32 % 2) + 4 * (s.mode / 4 % 2) in 448 + (shared + shared / 4)
