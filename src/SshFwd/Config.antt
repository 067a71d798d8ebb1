-- ===== src/SshFwd/Config.antt =====
-- internal/sshfwd/config.go: the entries of ssh.yaml, without reading and writing the file.
pub mod Entries
use dotvault.Prelude.{
  ℕ, zero, suc, ◌==◌, ltb, leb, Str, codes, Bool, true, false, not, ◌&&◌, ◌||◌, List, [], ◌∷◌, ◌++◌,
  Option, none, some, ℤ, pos, negsuc, str_eq, is_empty, contains_byte, has_prefix, cut_prefix,
  split, any_equal, if◌then◌else◌,
}

pub record Remote : Type 0 where
  pub host : Str
  pub port : ℤ
  pub remote_socket : Str
  pub host_key : Str
  pub enabled : Option Bool

abbrev pub hostname_token : Str
hostname_token = codes "{{HOSTNAME}}"

abbrev pub default_remote_socket : Str
default_remote_socket = codes "~/.ssh/dotvault.{{HOSTNAME}}.sock"

unfoldable pub enabled_or_default : Remote → Bool
enabled_or_default r = elim r.enabled [ none ↦ true | some b ↦ b ]

unfoldable pub port_or_default : Remote → ℤ
port_or_default r = elim r.port [ pos n ↦ (if n == 0 then pos 22 else pos n) | negsuc n ↦ negsuc n ]

unfoldable pub int_eq : ℤ → ℤ → Bool
int_eq (pos a) (pos b) = a == b
int_eq (negsuc a) (negsuc b) = a == b
int_eq (pos a) (negsuc b) = false
int_eq (negsuc a) (pos b) = false

abbrev bool_eq : Bool → Bool → Bool
bool_eq a b = if a then b else not b

pub data RemoteError : Type 0 where
  stray_brace empty_socket nul_byte parent_segment other_home relative_socket : RemoteError
  host_required leading_dash at_sign control_character bad_host port_out_of_range : RemoteError

-- strings.ReplaceAll of HostnameToken by x; the number counts the bytes of a token still to skip.
unfoldable pub strip_token : ℕ → Str → Str
strip_token n [] = []
strip_token (suc n) (c ∷ s) = strip_token n s
strip_token zero (c ∷ s) =
    let after = strip_token 11 s in
    let rest = strip_token 0 s in
    if has_prefix (c ∷ s) hostname_token then b'x' ∷ after else c ∷ rest

abbrev has_parent : Str → Bool
has_parent s = any_equal (split b'/' s) (codes "..")

-- `none` means that there is no error.
unfoldable pub validate_remote_socket : Str → Option RemoteError
unfolding strip_token
validate_remote_socket p =
    let stripped = strip_token 0 p in
    if contains_byte b'{' stripped || contains_byte b'}' stripped
    then some stray_brace
    else if is_empty p
    then some empty_socket
    else if contains_byte 0 p
    then some nul_byte
    else elim (cut_prefix p (codes "~/")) [
      | some rest ↦ if has_parent rest then some parent_segment else none
      | none ↦
          if has_prefix p (codes "~")
          then some other_home
          else if has_prefix p (codes "/")
          then (if has_parent p then some parent_segment else none)
          else some relative_socket
    ]

unfoldable pub has_control : Str → Bool
has_control [] = false
has_control (c ∷ s) = let rest = has_control s in if ltb c 32 || c == 127 then true else rest

-- strings.ContainsAny, with the set first
unfoldable pub contains_any : Str → Str → Bool
contains_any set [] = false
contains_any set (c ∷ s) =
    let rest = contains_any set s in if contains_byte c set then true else rest

unfoldable pub validate_host : Str → Option RemoteError
unfolding has_control contains_any
validate_host host =
    if is_empty host
    then some host_required
    else if has_prefix host (codes "-")
    then some leading_dash
    else if contains_byte b'@' host
    then some at_sign
    else if has_control host
    then some control_character
    else if contains_any (b' ' ∷ 9 ∷ 13 ∷ 10 ∷ b'/' ∷ b'\\' ∷ []) host
    then some bad_host
    else none

abbrev in_port_range : ℤ → Bool
in_port_range (pos n) = leb n 65535
in_port_range (negsuc n) = false

unfoldable pub validate_remote : Remote → Option RemoteError
unfolding validate_host validate_remote_socket
validate_remote r = elim (validate_host r.host) [
  | some e ↦ some e
  | none ↦
      if in_port_range r.port
      then validate_remote_socket r.remote_socket
      else some port_out_of_range
]

-- What strings.EqualFold compares is the form `fold` of a text: simple case folding.
module _ (fold : Str → Str) where
  unfoldable pub equal_fold : Str → Str → Bool
  equal_fold a b = str_eq (fold a) (fold b)

  unfoldable pub same_as : Remote → Remote → Bool
  unfolding equal_fold
  same_as r o =
      equal_fold r.host o.host
      && int_eq (port_or_default r) (port_or_default o)
      && str_eq r.remote_socket o.remote_socket
      && str_eq r.host_key o.host_key
      && bool_eq (enabled_or_default r) (enabled_or_default o)

  -- Find, and the entry at its index.
  unfoldable pub find : Str → List Remote → Option Remote
  unfolding equal_fold
  find host [] = none
  find host (r ∷ rs) = let rest = find host rs in if equal_fold r.host host then some r else rest

  -- An assignment at the index of Find.
  unfoldable pub replace : Str → Remote → List Remote → List Remote
  unfolding equal_fold
  replace host new [] = []
  replace host new (r ∷ rs) =
      let rest = replace host new rs in if equal_fold r.host host then new ∷ rs else r ∷ rest

  unfoldable pub upsert : Remote → List Remote → List Remote
  unfolding find replace
  upsert r rs = elim (find r.host rs) [ some old ↦ replace r.host r rs | none ↦ rs ++ (r ∷ []) ]

  -- `none` means that there was no such entry.
  unfoldable pub remove : Str → List Remote → Option (List Remote)
  unfolding equal_fold
  remove host [] = none
  remove host (r ∷ rs) =
      let rest = remove host rs in
      if equal_fold r.host host
      then some rs
      else elim rest [ none ↦ none | some others ↦ some (r ∷ others) ]
