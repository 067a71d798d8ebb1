-- ===== src/VaultFs/Tests.antt =====
-- Runs and instances for internal/vaultfs: a store of texts, rendered as they are.
use dotvault.Prelude.{
  any_equal, cut_suffix, err, Str, codes, Map, true, false, List, [], ◌∷◌, ◌++◌, Option, none, some,
  ok, ◌≡◌, refl, arith, lookup, insert, delete, lookup-insert, lookup-delete, str_eq, str_eq_iff,
  str_has_eq, is_empty, trim, split, has_suffix, contains_byte,
}
use dotvault.KvPath.{invalid_name, validate_name, validate_names, clean}
use dotvault.VaultFs.Names.{
  file_display_name, secret_kv_name, kv_path_for_file, last_slash, leaf_name, parent_path,
  join_path,
}
use dotvault.VaultFs.Cache.{
  Entry, kind_dir, kind_file, new_cache, lookup_dir, lookup_doc, store_doc, invalidate, enabled,
}
use dotvault.VaultFs.Store.{
  invalid_username, new_store, check_prefix, user_root, ends_in_slash, store_path-new_store,
}
use dotvault.VaultFs.Tree.{
  Document, Secret, Env, Mount, render_document, parse_document, serves_client_cert, fetch_document,
  document, finish, put,
}
use dotvault.VaultFs.Tree.Calls.{StoreLaws, Call, reading, putting, removing, perform, perform_all}
use dotvault.VaultFs.Tree.Coherence.{uncached, document-perform_all}
use dotvault.VaultFs.Listing.{
  find_kind, fold_names, add_certs, readdir, shown_as, claim, sorted_entries, insert_entry,
}
use dotvault.VaultFs.Listing.Shown.{lists_secret, lists_folder, shown, readdir-shows}

abbrev as_secret : Str → Secret Str
as_secret s = record { data_map = some s; version = 1; created_time = 0 }

abbrev stored : Str → Map Str Str → Option (Option (Secret Str))
stored k s = elim (lookup k s) [ none ↦ some none | some v ↦ some (some (as_secret v)) ]

abbrev env : Env Str (Map Str Str)
env = record {
  read = stored;
  write = λ k m s. (true, insert k m s);
  delete = λ k s. (true, delete k s);
  empty_map = [];
  has_no_entries = is_empty;
  marshal = λ m. some m;
  decode = λ s. some (some s, false);
  trim_space = λ s. s;
  read_write = true;
  client_cert = none;
}

abbrev mount : Mount Str (Map Str Str)
mount = record { store = []; cache = new_cache 10 }

kv_name : kv_path_for_file (codes "/aws/prod.json") ≡ ok (codes "aws/prod")
unfolding kv_path_for_file secret_kv_name cut_suffix last_slash leaf_name parent_path join_path
    is_empty str_eq clean validate_name validate_names split trim
kv_name = refl

-- A missing secret is cached as missing; the write through the mount is seen at once.
written_seen :
    (document env 2 (codes "gh.json") (
      perform_all env
        (reading 1 (codes "gh.json") ∷ putting (codes "gh.json") (codes "x") ∷ [])
        mount)).0
    ≡ ok (some (record { bytes = codes "x" ++ (10 ∷ []); mod_time = 0; version = 1 }))
unfolding document fetch_document render_document parse_document put finish perform perform_all
    serves_client_cert lookup_doc store_doc invalidate enabled new_cache lookup insert delete
    kv_path_for_file secret_kv_name cut_suffix last_slash leaf_name parent_path join_path is_empty
    str_eq clean validate_name validate_names split trim
written_seen = refl

-- A Document that read the secret before a Put, and puts it in the cache after: the mount answers
-- with the old document.
abbrev before_put : Mount Str (Map Str Str)
before_put = record mount { store = (codes "gh", codes "old") ∷ [] }

abbrev old_document : Document
old_document = record { bytes = codes "old" ++ (10 ∷ []); mod_time = 0; version = 1 }

abbrev after_put : Mount Str (Map Str Str)
after_put = (put env (codes "gh.json") (codes "new") before_put).1

read_before : (fetch_document env 1 (codes "gh") before_put).0 ≡ ok (some old_document)
unfolding fetch_document render_document lookup str_eq
read_before = refl

late_entry :
    (document env 3
      (codes "gh.json")
      (record after_put { cache = store_doc after_put.cache 2 (codes "gh") (some old_document) })).0
    ≡ ok (some old_document)
unfolding document fetch_document render_document parse_document put finish serves_client_cert
    lookup_doc store_doc invalidate enabled new_cache lookup insert delete kv_path_for_file
    secret_kv_name cut_suffix last_slash leaf_name parent_path join_path is_empty str_eq clean
    validate_name validate_names split trim
late_entry = refl

laws : StoreLaws env
laws = record {
  write_frame = λ k m s j n. ground (arith, n, str_eq_iff k j, lookup-insert k j m s);
  write_failed = λ k m s e. absurd (ground (arith, e));
  delete_frame = λ k s j n. ground (arith, n, str_eq_iff k j, lookup-delete k j s);
  delete_failed = λ k s e. absurd (ground (arith, e));
}

abbrev calls : List Call
calls =
    reading 1 (codes "gh.json")
    ∷ putting (codes "gh.json") (codes "x")
    ∷ reading 2 (codes "gh.json")
    ∷ removing (codes "gh.json")
    ∷ []

document-perform_all_example :
    (document env 3 (codes "gh.json") (perform_all env calls mount)).0
    ≡ (document env 3 (codes "gh.json") (uncached env (perform_all env calls mount))).0
document-perform_all_example = document-perform_all env laws 10 [] calls 3 (codes "gh.json")

mine :
    new_store true (codes "kv") (codes "users") (codes "gary")
    ≡ ok (record { kv_mount = codes "kv"; prefix = codes "users/gary/" })
unfolding new_store check_prefix user_root ends_in_slash is_empty clean validate_name validate_names
    split trim
mine = refl

-- A user name that climbs out of the prefix is refused.
climbing :
    new_store true (codes "kv") (codes "users") (codes "../root")
    ≡ err (invalid_username invalid_name)
unfolding new_store validate_name is_empty
climbing = refl

store_path-new_store_example : codes "gary" ≡ codes "gary"
store_path-new_store_example =
    store_path-new_store true true (codes "kv") (codes "kv") (codes "users") (codes "gary")
      (codes "gary") (record { kv_mount = codes "kv"; prefix = codes "users/gary/" })
      (record { kv_mount = codes "kv"; prefix = codes "users/gary/" }) (codes "gh") (codes "gh")
      mine mine refl

-- A folder wins over the secret that is shown under its name.
folder_wins :
    (readdir env
      (λ dir s. some (codes "gh" ∷ codes "gh.json/" ∷ codes "../" ∷ []))
      1
      (codes "/aws")
      mount).0
    ≡ ok (record { name = codes "gh.json"; kind = kind_dir } ∷ [])
unfolding readdir fold_names add_certs shown_as claim sorted_entries insert_entry serves_client_cert
    join_path file_display_name lookup_dir enabled new_cache cut_suffix has_suffix is_empty str_eq
    clean validate_name validate_names split trim contains_byte lookup insert
folder_wins = refl

-- A secret and a folder that are listed at the root.
abbrev listing : Str → Map Str Str → Option (List Str)
listing dir s = some (codes "gh" ∷ codes "aws/" ∷ [])

readdir-shows_example :
    (entries : List Entry) × ((readdir env listing 1 [] mount).0 ≡ ok entries)
    × (find_kind (codes "gh.json") entries
        ≡ shown env [] (codes "gh" ∷ codes "aws/" ∷ []) (codes "gh.json"))
unfolding clean trim split lookup_dir enabled new_cache is_empty lookup
readdir-shows_example =
    readdir-shows env listing 1 [] [] (codes "gh.json") (codes "gh" ∷ codes "aws/" ∷ []) mount refl
      refl refl

shown_secret : shown env [] (codes "gh" ∷ codes "aws/" ∷ []) (codes "gh.json") ≡ some kind_file
unfolding shown lists_folder lists_secret is_empty serves_client_cert any_equal str_eq validate_name
    has_suffix
shown_secret = refl
