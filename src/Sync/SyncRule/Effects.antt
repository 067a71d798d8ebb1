-- ===== src/Sync/SyncRule/Effects.antt =====
-- What one call of syncRule of internal/sync/engine.go leaves alone.
use dotvault.Prelude.{
  Str, true, none, some, err, ◌≡◌, ◌⊎◌, inl, inr, lookup, lookup-insert, str_has_eq, str_eq_iff,
  str_eq_refl, Option-cases, Result-cases, arith,
}
use dotvault.Sync.{Rule, World, Secret, Handler, Env, SyncError}
use dotvault.Sync.SyncRule.{
  file_checksum, fetch, enforce_perm, plan, commit, sync_at, sync_rule, owner_only,
}

-- The parts of the world that a sync is about; `parents` is not among them.
abbrev pub SameFiles : World → World → Type 0
SameFiles w w' = (w'.files ≡ w.files) × (w'.state ≡ w.state) × (w'.saved ≡ w.saved)

module _ {Data Doc : Type 0} (env : Env Data Doc) where
  pub state-enforce_perm : (path : Str) (w : World) → (enforce_perm env path w).state ≡ w.state
  unfolding enforce_perm
  state-enforce_perm path w = ground arith

  pub checksum-enforce_perm :
      (path q : Str) (w : World)
      → file_checksum env (enforce_perm env path w).files q ≡ file_checksum env w.files q
  unfolding enforce_perm file_checksum
  checksum-enforce_perm path q w = elim (Option-cases (lookup path w.files)) [
    | inl e ↦ ground (arith, e)
    | inr (f, e) ↦ ground (
      arith,
      e,
      lookup-insert path q (record { content = f.content; perm = owner_only }) w.files,
      str_eq_iff path q,
    )
  ]

  pub enforce_perm_idem :
      (path : Str) (w : World)
      → enforce_perm env path (enforce_perm env path w) ≡ enforce_perm env path w
  unfolding enforce_perm
  enforce_perm_idem path w = elim (Option-cases (lookup path w.files)) [
    | inl e ↦ ground (arith, e)
    | inr (f, e) ↦ ground (
      arith,
      e,
      lookup-insert path path (record { content = f.content; perm = owner_only }) w.files,
      str_eq_refl path,
    )
  ]

  commit_dry :
      (rule : Rule) (secret : Secret Data Doc) (path : Str) (h : Handler Data Doc) (doc : Doc)
      (w : World)
      → env.dry_run ≡ true
      → SameFiles w (commit env rule secret path h doc w).1
  unfolding commit
  commit_dry rule secret path h doc w dry = ground arith

  commit_error :
      (rule : Rule) (secret : Secret Data Doc) (path : Str) (h : Handler Data Doc) (doc : Doc)
      (w : World) (e : SyncError)
      → (commit env rule secret path h doc w).0 ≡ err e
      → SameFiles w (commit env rule secret path h doc w).1
  unfolding commit
  commit_error rule secret path h doc w e fails = ground arith

  sync_at_dry :
      (rule : Rule) (secret : Secret Data Doc) (path : Str) (w : World)
      → env.dry_run ≡ true
      → SameFiles w (sync_at env rule secret path w).1
  unfolding sync_at
  sync_at_dry rule secret path w dry = elim (Result-cases (plan env rule secret path w)) [
    | inl (x, eq) ↦ ground (arith, eq)
    | inr ((h, doc), eq) ↦ ground (arith, eq, commit_dry rule secret path h doc w)
  ]

  sync_at_error :
      (rule : Rule) (secret : Secret Data Doc) (path : Str) (w : World) (e : SyncError)
      → (sync_at env rule secret path w).0 ≡ err e
      → SameFiles w (sync_at env rule secret path w).1
  unfolding sync_at
  sync_at_error rule secret path w e fails = elim (Result-cases (plan env rule secret path w)) [
    | inl (x, eq) ↦ ground (arith, eq)
    | inr ((h, doc), eq) ↦ ground (arith, eq, commit_error rule secret path h doc w e)
  ]

  -- A rule ends before its target is known, or it is a sync of a secret at a path.
  pub sync_rule_cases :
      (rule : Rule) (w : World)
      → ((sync_rule env rule w).1 ≡ w)
        ⊎ ((secret : Secret Data Doc) × (path : Str) × (sync_rule env rule w
              ≡ sync_at env rule secret path w))
  sync_rule_cases rule w = elim (Result-cases (fetch env rule)) [
    | inl (x, eq) ↦ inl (unfold sync_rule in ground (arith, eq))
    | inr (none, eq) ↦ inl (unfold sync_rule in ground (arith, eq))
    | inr (some secret, eq) ↦ elim (Option-cases (env.expand_home rule.target.path)) [
      | inl home ↦ inl (unfold sync_rule in ground (arith, eq, home))
      | inr (path, home) ↦ inr (secret, path, unfold sync_rule in ground (arith, eq, home))
    ]
  ]

  -- A dry run changes no file, no state and no saved state.
  pub sync_rule_dry :
      (rule : Rule) (w : World) → env.dry_run ≡ true → SameFiles w (sync_rule env rule w).1
  sync_rule_dry rule w dry = elim (sync_rule_cases rule w) [
    | inl same ↦ ground (arith, same)
    | inr (secret, path, eq) ↦ ground (arith, eq, sync_at_dry rule secret path w)
  ]

  -- A sync that fails has changed no file, no state and no saved state.
  pub sync_rule_error :
      (rule : Rule) (w : World) (e : SyncError)
      → (sync_rule env rule w).0 ≡ err e
      → SameFiles w (sync_rule env rule w).1
  sync_rule_error rule w e fails = elim (sync_rule_cases rule w) [
    | inl same ↦ ground (arith, same)
    | inr (secret, path, eq) ↦ ground (arith, eq, sync_at_error rule secret path w e)
  ]
