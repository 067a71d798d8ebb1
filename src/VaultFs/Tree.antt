-- ===== src/VaultFs/Tree.antt =====
-- internal/vaultfs/tree.go and document.go: reading, writing and removing secrets through the mount.
-- The store (Vault), encoding/json and the certificate source are the parameter `Env`.
pub mod Guards
pub mod Calls
pub mod Cached
pub mod Coherence
use dotvault.Prelude.{
  ℕ, Str, codes, Map, Bool, true, false, not, ◌&&◌, ◌||◌, List, [], ◌∷◌, ◌++◌, Option, none, some,
  Result, ok, err, lookup, str_has_eq, str_eq, is_empty, if◌then◌else◌,
}
use dotvault.KvPath.{KvError, clean}
use dotvault.VaultFs.Names.{kv_path_for_file}
use dotvault.VaultFs.Cache.{Cache, lookup_doc, store_doc, invalidate, invalidate_all}

pub data TreeError : Type 0 where
  name_error : KvError → TreeError
  read_only invalid_document read_failed write_failed delete_failed render_failed cert_failed :
      TreeError

pub record Document : Type 0 where
  pub bytes : Str
  pub mod_time : ℕ
  pub version : ℕ

module _ (Data : Type 0) where
  pub record Secret : Type 0 where
    pub data_map : Option Data
    pub version : ℕ
    pub created_time : ℕ

  module _ (S : Type 0) where
    -- What the tree calls: `read` fails with none and finds no secret with some none; `write` and
    -- `delete` say whether they succeeded.
    pub record Env : Type 0 where
      pub read : Str → S → Option (Option Secret)
      pub write : Str → Data → S → Bool × S
      pub delete : Str → S → Bool × S
      pub empty_map : Data
      pub has_no_entries : Data → Bool
      pub marshal : Data → Option Str
      -- the map that the decoder reads, none where it is nil, and whether more input follows
      pub decode : Str → Option (Option Data × Bool)
      pub trim_space : Str → Str
      pub read_write : Bool
      pub client_cert : Option (Str → Option Document)

    pub record Mount : Type 0 where
      pub store : S
      pub cache : Cache Document

unfoldable pub is_client_cert_path : Str → Bool
is_client_cert_path p =
    str_eq p (codes "client.crt")
    || (str_eq p (codes "client.key") || str_eq p (codes "client.pem"))

module _ {Data S : Type 0} (env : Env Data S) where
  unfoldable pub render_document : Secret Data → Option Document
  render_document s = elim (env.marshal (elim s.data_map [ none ↦ env.empty_map | some m ↦ m ])) [
    | none ↦ none
    | some b ↦
        some (record { bytes = b ++ (10 ∷ []); mod_time = s.created_time; version = s.version })
  ]

  unfoldable pub parse_document : Str → Option Data
  parse_document b =
      let trimmed = env.trim_space b in
      if is_empty trimmed then none else elim (env.decode trimmed) [
        | none ↦ none
        | some (none, more) ↦ none
        | some (some m, more) ↦ if more then none else if env.has_no_entries m then none else some m
      ]

  unfoldable pub serves_client_cert : Str → Bool
  serves_client_cert p = elim env.client_cert [ none ↦ false | some source ↦ is_client_cert_path p ]

  unfoldable pub client_cert_document : Str → Result TreeError (Option Document)
  client_cert_document p = elim env.client_cert [
    | none ↦ ok none
    | some source ↦ elim (source p) [ none ↦ err cert_failed | some doc ↦ ok (some doc) ]
  ]

  -- The end of Document: what the store has at a KV path, kept in the cache, with no other call
  -- between the two; the code holds no lock over them.
  unfoldable pub fetch_document :
      ℕ → Str → Mount Data S → Result TreeError (Option Document) × Mount Data S
  fetch_document now kv_path w = elim (env.read kv_path w.store) [
    | none ↦ (err read_failed, w)
    | some none ↦ (ok none, record w { cache = store_doc w.cache now kv_path none })
    | some (some secret) ↦ elim (render_document secret) [
      | none ↦ (err render_failed, w)
      | some doc ↦ (ok (some doc), record w { cache = store_doc w.cache now kv_path (some doc) })
    ]
  ]

  unfoldable pub document :
      ℕ → Str → Mount Data S → Result TreeError (Option Document) × Mount Data S
  document now display_path w = elim (clean display_path) [
    | err e ↦ (err (name_error e), w)
    | ok path ↦
        if is_empty path
        then (ok none, w)
        else if serves_client_cert path
        then (client_cert_document path, w)
        else elim (kv_path_for_file path) [
          | err e ↦ (ok none, w)
          | ok kv_path ↦ elim (lookup_doc w.cache now kv_path) [
            | some doc ↦ (ok doc, w)
            | none ↦ fetch_document now kv_path w
          ]
        ]
  ]

  -- The end of Put and of Remove: a change of the store, and the invalidation where it succeeded.
  unfoldable pub finish :
      TreeError → Str → Bool × S → Mount Data S → Result TreeError (Unit {0}) × Mount Data S
  finish e kv_path (done, store) w =
      if done
      then (ok tt, record w { store = store; cache = invalidate w.cache kv_path })
      else (err e, record w { store = store })

  unfoldable pub put : Str → Str → Mount Data S → Result TreeError (Unit {0}) × Mount Data S
  put path content w =
      if not env.read_write || serves_client_cert path
      then (err read_only, w)
      else elim (kv_path_for_file path) [
        | err e ↦ (err (name_error e), w)
        | ok kv_path ↦ elim (parse_document content) [
          | none ↦ (err invalid_document, w)
          | some data_map ↦ finish write_failed kv_path (env.write kv_path data_map w.store) w
        ]
      ]

  unfoldable pub remove : Str → Mount Data S → Result TreeError (Unit {0}) × Mount Data S
  remove path w =
      if not env.read_write || serves_client_cert path
      then (err read_only, w)
      else elim (kv_path_for_file path) [
        | err e ↦ (err (name_error e), w)
        | ok kv_path ↦ finish delete_failed kv_path (env.delete kv_path w.store) w
      ]

  unfoldable pub flush : Mount Data S → Mount Data S
  flush w = record w { cache = invalidate_all w.cache }
