-- ===== src/Sync/SyncRule.antt =====
-- syncRule of internal/sync/engine.go: one rule, from the secret to the file and the state store.
pub mod Effects
pub mod Converges
pub mod Target
pub mod Written
use dotvault.Prelude.{
  ℕ, ◌<◌, ltb, ◌==◌, Str, slash, codes, Map, Bool, true, false, not, ◌&&◌, ◌||◌, List, [], ◌∷◌,
  ◌++◌, Option, none, some, Result, ok, err, ◌>>=◌, lookup, insert, str_has_eq, str_eq, is_empty,
  if◌then◌else◌,
}
use dotvault.Sync.{
  Rule, RuleState, File, World, Secret, Handler, Env, SyncError, keyless, read_secret_failed,
  expand_failed, bad_format, render_failed, no_templates, parse_failed, convert_failed,
  read_file_failed, merge_failed, mkdir_failed, write_failed,
}
use dotvault.Sync.Store.{get_state, set_state}
use dotvault.Sync.RenderHash.{rule_text}

-- An operation that fails with one error of the engine's own.
abbrev pub or_error {ℓ} : {A : Type ℓ} → SyncError → Option A → Result SyncError A
or_error e none = err e
or_error e (some a) = ok a

abbrev pub owner_only : ℕ
owner_only = 0o600

module _ {Data Doc : Type 0} (env : Env Data Doc) where
  -- FileChecksum with its error dropped: "" for a missing file and for one that cannot be read.
  unfoldable pub file_checksum : Map Str File → Str → Str
  file_checksum files path = elim (lookup path files) [
    | none ↦ []
    | some f ↦ if env.can_read path then env.file_digest f.content else []
  ]

  unfoldable pub rule_render_hash : Rule → Str
  rule_render_hash rule = env.rule_digest (rule_text rule)

  -- The secret of a rule: an empty one for a keyless rule, none where Vault has none.
  unfoldable pub fetch : Rule → Result SyncError (Option (Secret Data Doc))
  fetch rule =
      if keyless rule
      then ok (some (record { secret_data = env.empty_data; version = 0 }))
      else or_error read_secret_failed (
          env.read_secret env.kv_mount
            (env.user_prefix ++ (env.username ++ (slash ∷ rule.vault_key))))

  -- The skip gate.
  unfoldable pub unchanged : Rule → Secret Data Doc → Str → World → Bool
  unchanged rule secret path w =
      let current = get_state rule.name w.state in
      (keyless rule || (secret.version == current.vault_version && ltb 0 current.vault_version))
      && (str_eq current.rule_hash (rule_render_hash rule)
          && str_eq (file_checksum w.files path) current.file_checksum)

  -- Stat, compare with 0600, Chmod.
  unfoldable pub enforce_perm : Str → World → World
  enforce_perm path w = elim (lookup path w.files) [
    | none ↦ w
    | some f ↦
        if f.perm == owner_only
        then w
        else if env.can_chmod path
        then record w { files = insert path (record f { perm = owner_only }) w.files }
        else w
  ]

  unfoldable pub incoming : Rule → Handler Data Doc → Secret Data Doc → Result SyncError Doc
  incoming rule handler secret =
      if not (is_empty rule.target.template)
      then (do
        rendered ←
            or_error render_failed
              (env.render rule.name rule.target.template secret.secret_data env.username)
        parser ← or_error no_templates handler.parse
        or_error parse_failed (parser rendered))
      else if str_eq rule.target.format (codes "netrc")
      then ok (env.from_netrc secret.secret_data)
      else if str_eq rule.target.format (codes "text")
      then or_error convert_failed (env.from_text secret.secret_data)
      else ok (env.from_data secret.secret_data)

  -- The file as the handler reads it; a missing file is an empty document.
  unfoldable pub existing : Handler Data Doc → Map Str File → Str → Result SyncError Doc
  existing handler files path = elim (lookup path files) [
    | none ↦ or_error read_file_failed (handler.read_file none)
    | some f ↦
        if env.can_read path
        then or_error read_file_failed (handler.read_file (some f.content))
        else err read_file_failed
  ]

  -- What would be written: the handler, and the merged document.
  unfoldable pub plan :
      Rule → Secret Data Doc → Str → World → Result SyncError (Handler Data Doc × Doc)
  plan rule secret path w = do
    handler ← or_error bad_format (env.handler_for rule.target.format rule.target.delete_nulls)
    new ← incoming rule handler secret
    old ← existing handler w.files path
    merged ← or_error merge_failed (handler.merge_docs old new)
    ok (handler, merged)

  -- state.Set and state.Save
  unfoldable pub record_sync : Rule → ℕ → Str → World → World
  record_sync rule version path w =
      let rs : RuleState = record {
        vault_version = version;
        last_synced = env.now;
        file_checksum = file_checksum w.files path;
        rule_hash = rule_render_hash rule;
      } in
      let state = set_state rule.name rs w.state in
      record w { state = state; saved = if env.can_save then state else w.saved }

  -- From MkdirAll to the end.
  unfoldable pub commit :
      Rule
      → Secret Data Doc
      → Str
      → Handler Data Doc
      → Doc
      → World
      → Result SyncError (Unit {0}) × World
  commit rule secret path handler merged w =
      if not (env.can_mkdir path)
      then (err mkdir_failed, w)
      else let w' = record w { parents = path ∷ w.parents } in
        if env.dry_run then (ok tt, w') else elim (handler.encode merged) [
          | none ↦ (err write_failed, w')
          | some content ↦ if not (env.can_write path) then (err write_failed, w') else (
            ok tt,
            record_sync rule secret.version path (
                enforce_perm path (record w' {
                  files = insert path (record { content = content; perm = owner_only }) w'.files;
                })),
          )
        ]

  unfoldable pub sync_at :
      Rule → Secret Data Doc → Str → World → Result SyncError (Unit {0}) × World
  sync_at rule secret path w =
      if unchanged rule secret path w
      then (ok tt, if env.dry_run then w else enforce_perm path w)
      else elim (plan rule secret path w) [
        | err e ↦ (err e, w)
        | ok (handler, merged) ↦ commit rule secret path handler merged w
      ]

  unfoldable pub sync_rule : Rule → World → Result SyncError (Unit {0}) × World
  sync_rule rule w = elim (fetch rule) [
    | err e ↦ (err e, w)
    | ok none ↦ (ok tt, w)
    | ok (some secret) ↦ elim (env.expand_home rule.target.path) [
      | none ↦ (err expand_failed, w)
      | some path ↦ sync_at rule secret path w
    ]
  ]
