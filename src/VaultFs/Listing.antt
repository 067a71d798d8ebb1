-- ===== src/VaultFs/Listing.antt =====
-- internal/vaultfs/tree.go: what a directory of the mount shows, Readdir and Lookup. What the store
-- lists is an argument beside the parameter Env of the tree.
pub mod Folded
pub mod Shown
use dotvault.Prelude.{
  ℕ, Str, codes, Map, Bool, true, false, not, ◌&&◌, List, [], ◌∷◌, Option, none, some, Result, ok,
  err, lookup, insert, str_has_eq, str_eq, str_lt, is_empty, cut_suffix, has_suffix, if◌then◌else◌,
}
use dotvault.KvPath.{clean, validate_name}
use dotvault.VaultFs.Names.{file_display_name, join_path}
use dotvault.VaultFs.Cache.{Kind, kind_none, kind_dir, kind_file, Entry, lookup_dir, store_dir}
use dotvault.VaultFs.Tree.{
  TreeError, name_error, Env, Mount, Document, serves_client_cert, document,
}

abbrev pub same_kind : Kind → Kind → Bool
same_kind kind_none kind_none = true
same_kind kind_dir kind_dir = true
same_kind kind_file kind_file = true
same_kind a b = false

-- A name that is claimed twice is the folder's.
unfoldable pub claim : Str → Kind → Map Str Kind → Map Str Kind
claim name kind by_name = elim (lookup name by_name) [
  | none ↦ insert name kind by_name
  | some prev ↦ insert name (if same_kind prev kind then kind else kind_dir) by_name
]

module _ {Data S : Type 0} (env : Env Data S) where
  -- What one listed name is shown as, none where it is dropped.
  unfoldable pub shown_as : Str → Str → Option (Str × Kind)
  shown_as dir raw =
      let folder = has_suffix raw (codes "/") in
      let name : Str = elim (cut_suffix raw (codes "/")) [ none ↦ raw | some stem ↦ stem ] in
      elim (validate_name name) [
        | some e ↦ none
        | none ↦
            if folder && serves_client_cert env (join_path dir name)
            then none
            else if folder
            then some (name, kind_dir)
            else some (file_display_name name, kind_file)
      ]

  -- The loop of Readdir
  unfoldable pub fold_names : Str → List Str → Map Str Kind → Map Str Kind
  fold_names dir [] by_name = by_name
  fold_names dir (raw ∷ raws) by_name =
      fold_names dir raws
        (elim (shown_as dir raw) [ none ↦ by_name | some (name, kind) ↦ claim name kind by_name ])

  unfoldable pub add_certs : Str → Map Str Kind → Map Str Kind
  add_certs dir by_name = elim env.client_cert [
    | none ↦ by_name
    | some source ↦
        if is_empty dir
        then insert (codes "client.pem") kind_file
            (insert (codes "client.key") kind_file (insert (codes "client.crt") kind_file by_name))
        else by_name
  ]

unfoldable pub insert_entry : Entry → List Entry → List Entry
insert_entry e [] = e ∷ []
insert_entry e (f ∷ fs) =
    let rest = insert_entry e fs in if str_lt f.name e.name then f ∷ rest else e ∷ f ∷ fs

unfoldable pub sorted_entries : Map Str Kind → List Entry
sorted_entries [] = []
sorted_entries ((name, kind) ∷ by_name) =
    insert_entry (record { name = name; kind = kind }) (sorted_entries by_name)

unfoldable pub find_kind : Str → List Entry → Option Kind
find_kind name [] = none
find_kind name (e ∷ es) =
    let rest = find_kind name es in if str_eq e.name name then some e.kind else rest

module _ {Data S : Type 0} (env : Env Data S) (list : Str → S → Option (List Str)) where
  unfoldable pub readdir : ℕ → Str → Mount Data S → Result TreeError (List Entry) × Mount Data S
  readdir now dir w = elim (clean dir) [
    | err e ↦ (err (name_error e), w)
    | ok path ↦ elim (lookup_dir w.cache now path) [
      | some cached ↦ (ok cached, w)
      | none ↦ elim (list path w.store) [
        | none ↦ (err TreeError.read_failed, w)
        | some raws ↦
            let entries = sorted_entries (add_certs env path (fold_names env path raws [])) in
            (ok entries, record w { cache = store_dir w.cache now path entries })
      ]
    ]
  ]

  -- Lookup
  unfoldable pub lookup_name : ℕ → Str → Str → Mount Data S → Result TreeError Kind × Mount Data S
  lookup_name now dir name w = elim (validate_name name) [
    | some e ↦ (err (name_error e), w)
    | none ↦
        let at_root : Bool = elim (clean dir) [ err e ↦ false | ok path ↦ is_empty path ] in
        if at_root && serves_client_cert env name
        then (ok kind_file, w)
        else (let (listed, w') = readdir now dir w in
            elim listed [
              | ok entries ↦
                  (ok (elim (find_kind name entries) [ none ↦ kind_none | some kind ↦ kind ]), w')
              | err e ↦
                  let (read, w'') = document env now (join_path dir name) w' in
                  elim read [
                    | err x ↦ (err e, w'')
                    | ok doc ↦ (ok (elim doc [ none ↦ kind_none | some d ↦ kind_file ]), w'')
                  ]
            ])
  ]
