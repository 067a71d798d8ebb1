-- ===== src/Sync.antt =====
-- internal/sync: the state store (state.go) and the data that the engine (engine.go) works on.
-- What the engine calls but does not implement is the parameter `Env`: the Vault client, the
-- handlers of internal/handlers, the template package, digests, and which file operations fail.
pub mod Store
pub mod RenderHash
pub mod SyncRule
pub mod Cycle
pub mod Update
mod Tests
use dotvault.Prelude.{
  ℕ, Str, Map, Bool, true, false, List, Option, Result, is_empty, lookup, insert, str_has_eq, none,
  some, str_eq, [], if◌then◌else◌, slash, ◌++◌, ◌∷◌,
}

-- config.Target
pub record Target : Type 0 where
  pub path : Str
  pub format : Str
  pub template : Str
  pub merge : Str
  pub delete_nulls : Bool

-- config.Rule, less `description` and `oauth`, which the engine does not read
pub record Rule : Type 0 where
  pub name : Str
  pub vault_key : Str
  pub target : Target

unfoldable pub keyless : Rule → Bool
keyless r = is_empty r.vault_key

pub record RuleState : Type 0 where
  pub vault_version : ℕ
  pub last_synced : ℕ
  pub file_checksum : Str
  pub rule_hash : Str

-- A file of the user, with its mode bits.
pub record File : Type 0 where
  pub content : Str
  pub perm : ℕ

-- What a sync reads and changes. `state` is the store in memory and `saved` the state file;
-- `parents` lists the targets whose parent directory MkdirAll made sure of.
pub record World : Type 0 where
  pub files : Map Str File
  pub state : Map Str RuleState
  pub saved : Map Str RuleState
  pub parents : List Str

pub data SyncError : Type 0 where
  read_secret_failed expand_failed bad_format render_failed no_templates parse_failed : SyncError
  convert_failed read_file_failed merge_failed mkdir_failed write_failed : SyncError

module _ (Data Doc : Type 0) where
  pub record Secret : Type 0 where
    pub secret_data : Data
    pub version : ℕ

  -- handlers.FileHandler. `parse` is there for a handler that is a Parser.
  pub record Handler : Type 0 where
    pub read_file : Option Str → Option Doc
    pub merge_docs : Doc → Doc → Option Doc
    pub encode : Doc → Option Str
    pub parse : Option (Str → Option Doc)

  pub record Env : Type 0 where
    pub kv_mount : Str
    pub user_prefix : Str
    pub username : Str
    pub dry_run : Bool
    pub now : ℕ
    -- none: the read fails; some none: there is no such secret
    pub read_secret : Str → Str → Option (Option Secret)
    pub expand_home : Str → Option Str
    pub handler_for : Str → Bool → Option Handler
    pub render : Str → Str → Data → Str → Option Str
    pub empty_data : Data
    pub from_netrc : Data → Doc
    pub from_text : Data → Option Doc
    pub from_data : Data → Doc
    pub file_digest : Str → Str
    pub rule_digest : Str → Str
    pub can_read : Str → Bool
    pub can_mkdir : Str → Bool
    pub can_write : Str → Bool
    pub can_chmod : Str → Bool
    pub can_save : Bool
