-- ===== src/DockerVol/Render.antt =====
-- internal/dockervol/materialise.go: what a volume's directory is to hold.
--
-- Vault, encoding/json and the listing of a folder are parameters. Folders are walked with fuel for
-- their depth, and running out of it is an error of the model's own.
pub mod Paths
pub mod Trees
pub mod Shape
pub mod Depth
use dotvault.Prelude.{
  ℕ, zero, suc, ◌+◌, Str, codes, slash, Map, Bool, true, false, not, ◌||◌, ◌&&◌, List, [], ◌∷◌,
  ◌++◌, Option, none, some, Result, ok, err, lookup, insert, delete, str_has_eq, str_eq, is_empty,
  contains_byte, has_prefix, has_suffix, cut_suffix, length, if◌then◌else◌,
}
use dotvault.KvPath.{clean}
use dotvault.VaultFs.Names.{file_extension, last_slash}
use dotvault.VaultFs.Tree.{Secret, Env, Document, render_document}
use dotvault.DockerVol.Spec.{Spec, client_cert_only, layout_fields}

pub record FileEntry : Type 0 where
  pub content : Str
  pub mod_time : ℕ

pub record Rendered : Type 0 where
  pub files : Map Str FileEntry
  pub dirs : Map Str (Unit {0})
  pub secrets : ℕ

pub data RenderError : Type 0 where
  list_failed read_failed : Str → RenderError
  render_failed too_deep : RenderError

-- validComponent
unfoldable pub valid_component : Str → Bool
valid_component name = if is_empty name then false else elim (clean name) [
  | err e ↦ false
  | ok c ↦ str_eq c name && not (contains_byte slash name)
]

unfoldable pub join_rel : Str → Str → Str
join_rel dir name = if is_empty dir then name else dir ++ (slash ∷ name)

unfoldable pub parent_rel : Str → Str
parent_rel p = elim (last_slash p) [ none ↦ [] | some (dir, leaf) ↦ dir ]

-- The loop of addDir; a path has fewer ancestors than bytes.
unfoldable pub add_dirs : ℕ → Str → Map Str (Unit {0}) → Map Str (Unit {0})
add_dirs zero d dirs = dirs
add_dirs (suc n) d dirs =
    let rest = add_dirs n (parent_rel d) (insert d tt dirs) in
    if is_empty d then dirs else elim (lookup d dirs) [ some u ↦ dirs | none ↦ rest ]

unfoldable pub add_dir : Str → Rendered → Rendered
add_dir d r = record r { dirs = add_dirs (length d) d r.dirs }

unfoldable pub add_file : Str → FileEntry → Rendered → Rendered
add_file p e r = add_dir (parent_rel p) (record r { files = insert p e r.files })

-- Deleting the keys that a test names.
unfoldable pub delete_where : {V : Type 0} → (Str → Bool) → Map Str V → Map Str V
delete_where test [] = []
delete_where test ((k, v) ∷ m) =
    let rest = delete_where test m in if test k then rest else (k, v) ∷ rest

-- dropDir
unfoldable pub drop_dir : Str → Rendered → Rendered
drop_dir dir r =
    let prefix = dir ++ codes "/" in
    record r {
      files = delete_where (λ p. has_prefix p prefix) r.files;
      dirs = delete_where (λ p. str_eq p dir || has_prefix p prefix) r.dirs;
    }

-- clientcert.Pair: CertPEM, KeyPEM and NotBefore
pub record CertFiles : Type 0 where
  pub cert_pem : Str
  pub key_pem : Str
  pub not_before : ℕ

-- The method Combined: a newline stands between the two where the first lacks one.
unfoldable pub combined : CertFiles → Str
combined c =
    if is_empty c.cert_pem || has_suffix c.cert_pem (10 ∷ [])
    then c.cert_pem ++ c.key_pem
    else c.cert_pem ++ (10 ∷ c.key_pem)

unfoldable pub add_cert_file : Str → Str → ℕ → Rendered → Rendered
add_cert_file name content mod_time r =
    let cleared : Rendered = elim (lookup name r.dirs) [ some u ↦ drop_dir name r | none ↦ r ] in
    record cleared {
      files = insert name (record { content = content; mod_time = mod_time }) cleared.files;
    }

unfoldable pub add_client_cert : CertFiles → Rendered → Rendered
add_client_cert c r = add_cert_file (codes "client.pem") (combined c) c.not_before (
    add_cert_file (codes "client.key") c.key_pem c.not_before
      (add_cert_file (codes "client.crt") c.cert_pem c.not_before r))

abbrev pub is_dir : Map Str (Unit {0}) → Str → Bool
is_dir dirs p = elim (lookup p dirs) [ none ↦ false | some u ↦ true ]

-- A directory wins over a file of the same name.
unfoldable pub fold_collisions : Rendered → Rendered
fold_collisions r = record r { files = delete_where (is_dir r.dirs) r.files }

-- A value of a secret: what it is as a string, if it is one, and what json.Marshal makes of it.
pub record Value : Type 0 where
  pub as_string : Option Str
  pub as_json : Option Str

unfoldable pub field_bytes : Value → Option Str
field_bytes v = elim v.as_string [ some s ↦ some s | none ↦ v.as_json ]

unfoldable pub add_fields : Str → ℕ → Map Str Value → Rendered → Rendered
add_fields kv_path created [] r = r
add_fields kv_path created ((field, value) ∷ fields) r = add_fields kv_path created fields (
    if not (valid_component field) then r else elim (field_bytes value) [
      | none ↦ r
      | some content ↦
          add_file (join_rel kv_path field) (record { content = content; mod_time = created }) r
    ])

abbrev pub no_files : Rendered
no_files = record { files = []; dirs = []; secrets = 0 }

-- strings.TrimSuffix(name, "/")
unfoldable pub entry_name : Str → Str
entry_name entry = elim (cut_suffix entry (codes "/")) [ none ↦ entry | some stem ↦ stem ]

module _ {S : Type 0} (env : Env (Map Str Value) S) (list : Str → S → Option (List Str)) (store : S)
    (spec : Spec) where
  -- emitPath, once the secret is read.
  unfoldable pub emit_secret : Str → Secret (Map Str Value) → Rendered → Result RenderError Rendered
  emit_secret kv_path secret r =
      let counted = record r { secrets = r.secrets + 1 } in
      if str_eq spec.layout layout_fields
      then ok (
          add_dir kv_path (
            add_fields kv_path secret.created_time (elim secret.data_map [ none ↦ [] | some m ↦ m ])
              counted))
      else elim (render_document env secret) [
        | none ↦ err render_failed
        | some doc ↦ ok (
            add_file (kv_path ++ file_extension)
              (record { content = doc.bytes; mod_time = doc.mod_time }) counted)
      ]

  unfoldable pub emit_path : Str → Rendered → Result RenderError Rendered
  emit_path kv_path r = elim (env.read kv_path store) [
    | none ↦ err (read_failed kv_path)
    | some none ↦ ok r
    | some (some secret) ↦ emit_secret kv_path secret r
  ]

  -- The loop over the names of a folder; `walk` is what it does with a folder in it.
  unfoldable pub walk_names :
      (Str → Rendered → Result RenderError Rendered)
      → Str
      → List Str
      → Rendered
      → Result RenderError Rendered
  walk_names walk dir [] r = ok r
  walk_names walk dir (entry ∷ names) r =
      let folder = has_suffix entry (codes "/") in
      let name = entry_name entry in
      if not (valid_component name)
      then walk_names walk dir names r
      else elim (if folder then walk (join_rel dir name) r else emit_path (join_rel dir name) r) [
        | err e ↦ err e
        | ok r' ↦ walk_names walk dir names r'
      ]

  unfoldable pub walk : ℕ → Str → Rendered → Result RenderError Rendered
  walk zero dir r = err too_deep
  walk (suc n) dir r = elim (list dir store) [
    | none ↦ err (list_failed dir)
    | some names ↦ walk_names (walk n) dir names r
  ]

  unfoldable pub render_selection : ℕ → List Str → Rendered → Result RenderError Rendered
  render_selection depth [] r = ok r
  render_selection depth (sel ∷ sels) r =
      let emitted : Result RenderError Rendered = elim (cut_suffix sel (codes "/")) [
        | some folder ↦ walk depth folder r
        | none ↦ emit_path sel r
      ] in
      elim emitted [ err e ↦ err e | ok r' ↦ render_selection depth sels r' ]

  unfoldable pub render_secrets : ℕ → Result RenderError Rendered
  render_secrets depth = elim spec.secrets [
    | [] ↦ if str_eq spec.client_cert client_cert_only then ok no_files else walk depth [] no_files
    | sel ∷ sels ↦ render_selection depth (sel ∷ sels) no_files
  ]

  unfoldable pub render : ℕ → Option CertFiles → Result RenderError Rendered
  render depth cert = elim (render_secrets depth) [
    | err e ↦ err e
    | ok r ↦ ok (fold_collisions (elim cert [ none ↦ r | some c ↦ add_client_cert c r ]))
  ]
