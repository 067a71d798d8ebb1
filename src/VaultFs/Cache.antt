-- ===== src/VaultFs/Cache.antt =====
-- internal/vaultfs/cache.go. Times are numbers and the clock is an argument; a time to live that is
-- not positive is 0. A cache made by newCache is never nil.
use dotvault.Prelude.{
  ℕ, ◌+◌, ltb, Str, Map, Bool, List, [], Option, none, some, lookup, insert, delete, str_has_eq,
  if◌then◌else◌,
}
use dotvault.VaultFs.Names.{parent_path}

pub data Kind : Type 0 where
  kind_none kind_dir kind_file : Kind

pub record Entry : Type 0 where
  pub name : Str
  pub kind : Kind

pub record DirEntry : Type 0 where
  pub entries : List Entry
  pub expires : ℕ

module _ (Doc : Type 0) where
  -- doc is none where the path was looked up and no secret exists.
  pub record DocEntry : Type 0 where
    pub doc : Option Doc
    pub expires : ℕ

  pub record Cache : Type 0 where
    pub ttl : ℕ
    pub dirs : Map Str DirEntry
    pub docs : Map Str (DocEntry)

module _ {Doc : Type 0} where
  unfoldable pub new_cache : ℕ → Cache Doc
  new_cache ttl = record { ttl = ttl; dirs = []; docs = [] }

  unfoldable pub enabled : Cache Doc → Bool
  enabled c = ltb 0 c.ttl

  unfoldable pub lookup_dir : Cache Doc → ℕ → Str → Option (List Entry)
  lookup_dir c now path =
      if enabled c
      then (elim (lookup path c.dirs) [
        | none ↦ none
        | some e ↦ if ltb e.expires now then none else some e.entries
      ])
      else none

  unfoldable pub store_dir : Cache Doc → ℕ → Str → List Entry → Cache Doc
  store_dir c now path entries =
      if enabled c
      then record c {
        dirs = insert path (record { entries = entries; expires = now + c.ttl }) c.dirs;
      }
      else c

  -- some none: the cached answer is that there is no secret
  unfoldable pub lookup_doc : Cache Doc → ℕ → Str → Option (Option Doc)
  lookup_doc c now path =
      if enabled c
      then (elim (lookup path c.docs) [
        | none ↦ none
        | some e ↦ if ltb e.expires now then none else some e.doc
      ])
      else none

  unfoldable pub store_doc : Cache Doc → ℕ → Str → Option Doc → Cache Doc
  store_doc c now path doc =
      if enabled c
      then record c { docs = insert path (record { doc = doc; expires = now + c.ttl }) c.docs }
      else c

  unfoldable pub invalidate : Cache Doc → Str → Cache Doc
  invalidate c path =
      if enabled c
      then record c { docs = delete path c.docs; dirs = delete (parent_path path) c.dirs }
      else c

  unfoldable pub invalidate_all : Cache Doc → Cache Doc
  invalidate_all c = if enabled c then record c { dirs = []; docs = [] } else c
