-- ===== src/Handlers/JsonMerge.antt =====
-- internal/handlers/json.go: JSON documents, Merge, and what Read makes of a file.
pub mod Entries
pub mod Pointwise
pub mod Idempotent
pub mod Paths
use dotvault.Prelude.{
  Str, Bool, true, false, Option, none, some, Result, ok, err, str_eq, is_empty, if◌then◌else◌,
}

-- Values of encoding/json. What a merge never looks into (strings, numbers, booleans and arrays)
-- is kept as its text.
mutual
  pub data Json : Type 0 where
    null : Json
    leaf : Str → Json
    object : Members → Json

  -- map[string]any
  pub data Members : Type 0 where
    empty : Members
    member : Str → Json → Members → Members

-- v, ok := m[key]
unfoldable pub find : Str → Members → Option Json
find key empty = none
find key (member k v ms) = if str_eq k key then some v else find key ms

-- m[key] = v
unfoldable pub put : Str → Json → Members → Members
put key v empty = member key v empty
put key v (member k w ms) =
    let rest = put key v ms in if str_eq k key then member k v ms else member k w rest

-- delete(m, key)
unfoldable pub remove : Str → Members → Members
remove key empty = empty
remove key (member k w ms) =
    let rest = remove key ms in if str_eq k key then rest else member k w rest

-- What the loop does to one key: none deletes it.
unfoldable pub assign : Str → Option Json → Members → Members
assign key none ms = remove key ms
assign key (some v) ms = put key v ms

-- pruneNullsJSON with deleteNulls
unfoldable mutual
  pub strip : Json → Json
  strip null = null
  strip (leaf s) = leaf s
  strip (object ms) = object (strip_members ms)

  pub strip_members : Members → Members
  strip_members empty = empty
  strip_members (member k null ms) = strip_members ms
  strip_members (member k (leaf s) ms) = member k (leaf s) (strip_members ms)
  strip_members (member k (object s) ms) = member k (object (strip_members s)) (strip_members ms)

unfoldable pub prune_nulls : Bool → Json → Json
prune_nulls false v = v
prune_nulls true v = strip v

module _ (delete_nulls : Bool) where
  -- deepMergeJSON; `merge_value` is the body of its loop: the new value of the key, or none where
  -- the key is deleted.
  unfoldable mutual
    pub deep_merge : Members → Members → Members
    deep_merge dst empty = dst
    deep_merge dst (member key v src) =
        deep_merge (assign key (merge_value (find key dst) v) dst) src

    pub merge_value : Option Json → Json → Option Json
    merge_value old null = if delete_nulls then none else some null
    merge_value old (leaf s) = some (leaf s)
    merge_value none (object src) = some (prune_nulls delete_nulls (object src))
    merge_value (some null) (object src) = some (prune_nulls delete_nulls (object src))
    merge_value (some (leaf s)) (object src) = some (prune_nulls delete_nulls (object src))
    merge_value (some (object dst)) (object src) = some (object (deep_merge dst src))

pub data JsonError : Type 0 where
  parse_error : JsonError
  -- the run-time panic of an assignment to an entry of a nil map
  nil_map_panic : JsonError

-- Every entry is one that the loop deletes.
unfoldable pub only_deletes : Bool → Members → Bool
only_deletes delete_nulls empty = true
only_deletes delete_nulls (member k null ms) =
    if delete_nulls then only_deletes delete_nulls ms else false
only_deletes delete_nulls (member k (leaf s) ms) = false
only_deletes delete_nulls (member k (object s) ms) = false

-- JSONHandler.Merge, on maps of which none is the nil map.
unfoldable pub merge : Bool → Option Members → Option Members → Result JsonError (Option Members)
merge delete_nulls (some dst) (some src) = ok (some (deep_merge delete_nulls dst src))
merge delete_nulls (some dst) none = ok (some dst)
merge delete_nulls none none = ok none
merge delete_nulls none (some src) =
    if only_deletes delete_nulls src then ok none else err nil_map_panic

module _ (unmarshal : Str → Option (Option Members)) where
  -- JSONHandler.Parse, and JSONHandler.Read of a file with this content. json.Unmarshal into a map
  -- yields the nil map for the text `null`.
  unfoldable pub parse : Str → Result JsonError (Option Members)
  parse content =
      if is_empty content
      then ok (some empty)
      else elim (unmarshal content) [ none ↦ err parse_error | some m ↦ ok m ]

  unfoldable pub read : Option Str → Result JsonError (Option Members)
  read none = ok (some empty)
  read (some content) = parse content
