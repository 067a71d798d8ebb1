-- ===== src/Sync/SyncRule/Converges.antt =====
-- What a sync that succeeds establishes (syncRule of internal/sync/engine.go), and why the next
-- one has nothing to do.
use dotvault.Prelude.{
  ℕ, ◌<◌, Str, ◌∷◌, true, false, none, some, ok, ◌≡◌, refl, sym, ◌∙◌, ap, ◌⊎◌, inl, inr, lookup,
  insert, lookup-insert, str_has_eq, str_eq_iff, str_eq_refl, Bool-cases, Option-cases,
  Result-cases, arith,
}
use dotvault.Sync.{Rule, RuleState, File, World, Secret, Handler, Env, keyless}
use dotvault.Sync.Store.{get_state, get-set_state}
use dotvault.Sync.SyncRule.{
  file_checksum, rule_render_hash, fetch, unchanged, enforce_perm, plan, record_sync, commit,
  sync_at, sync_rule, owner_only,
}
use dotvault.Sync.SyncRule.Effects.{state-enforce_perm, checksum-enforce_perm, enforce_perm_idem}

module _ {Data Doc : Type 0} (env : Env Data Doc) where
  -- The store describes the secret, the rule and the file on disk, and the file's mode is settled.
  pub record IsSynced (rule : Rule) (secret : Secret Data Doc) (path : Str) (w : World)
      : Type 0 where
    pub version :
        (keyless rule ≡ true) ⊎ ((get_state rule.name w.state).vault_version ≡ secret.version)
    pub hash : (get_state rule.name w.state).rule_hash ≡ rule_render_hash env rule
    pub checksum : (get_state rule.name w.state).file_checksum ≡ file_checksum env w.files path
    pub settled : enforce_perm env path w ≡ w

  get-record_sync :
      (rule : Rule) (v : ℕ) (path : Str) (w : World)
      → get_state rule.name (record_sync env rule v path w).state ≡ record {
        vault_version = v;
        last_synced = env.now;
        file_checksum = file_checksum env w.files path;
        rule_hash = rule_render_hash env rule;
      }
  unfolding record_sync
  get-record_sync rule v path w = simp (get-set_state, str_eq_refl)

  -- The world in which the target holds this content, for its owner only.
  abbrev written : Str → Str → World → World
  written path content w = record w {
    parents = path ∷ w.parents;
    files = insert path (record { content = content; perm = owner_only }) w.files;
  }

  owner_only-settled :
      (path : Str) (w : World) (f : File)
      → lookup path w.files ≡ some f
      → f.perm ≡ owner_only
      → enforce_perm env path w ≡ w
  unfolding enforce_perm
  owner_only-settled path w f e p = ground (arith, e, p)

  lookup-written :
      (path content : Str) (w : World)
      → lookup path (written path content w).files
        ≡ some (record { content = content; perm = owner_only })
  lookup-written path content w = simp (lookup-insert, str_eq_refl)

  -- A commit that succeeds outside a dry run has written what the handler encoded.
  pub commit_ok :
      (rule : Rule) (secret : Secret Data Doc) (path : Str) (h : Handler Data Doc) (doc : Doc)
      (w : World)
      → env.dry_run ≡ false
      → (commit env rule secret path h doc w).0 ≡ ok tt
      → (content : Str) × (h.encode doc ≡ some content)
        × ((commit env rule secret path h doc w).1
            ≡ record_sync env rule secret.version path (written path content w))
  commit_ok rule secret path h doc w wet done = elim (Option-cases (h.encode doc)) [
    | inl e ↦ unfold commit in absurd (ground (arith, e, done, wet))
    | inr (content, e) ↦ (
      content,
      e,
      unfold commit in
          ground (
            arith,
            e,
            done,
            wet,
            owner_only-settled path (written path content w)
                (record { content = content; perm = owner_only }) (lookup-written path content w)
                refl,
          ),
    )
  ]

  record_sync-IsSynced :
      (rule : Rule) (secret : Secret Data Doc) (path content : Str) (w : World)
      → IsSynced rule secret path
          (record_sync env rule secret.version path (written path content w))
  record_sync-IsSynced rule secret path content w = record {
    version = inr (ap (λ (rs : RuleState). rs.vault_version) g);
    hash = ap (λ (rs : RuleState). rs.rule_hash) g;
    checksum = ap (λ (rs : RuleState). rs.file_checksum) g ∙ unfold record_sync in refl;
    settled =
        owner_only-settled path (record_sync env rule secret.version path (written path content w))
          (record { content = content; perm = owner_only })
          (unfold record_sync in lookup-written path content w) refl;
  }
    where
      g :
          get_state rule.name
            (record_sync env rule secret.version path (written path content w)).state
          ≡ record {
            vault_version = secret.version;
            last_synced = env.now;
            file_checksum = file_checksum env (written path content w).files path;
            rule_hash = rule_render_hash env rule;
          }
      g = get-record_sync rule secret.version path (written path content w)

  skip-IsSynced :
      (rule : Rule) (secret : Secret Data Doc) (path : Str) (w : World)
      → unchanged env rule secret path w ≡ true
      → IsSynced rule secret path (enforce_perm env path w)
  unfolding unchanged
  skip-IsSynced rule secret path w same =
      rec (ground (arith, same))
        (ground (
          arith,
          same,
          str_eq_iff (get_state rule.name w.state).rule_hash (rule_render_hash env rule),
        ))
        (ground (
          arith,
          same,
          str_eq_iff (file_checksum env w.files path) (get_state rule.name w.state).file_checksum,
        ))
    where
      rec :
          (keyless rule ≡ true) ⊎ ((get_state rule.name w.state).vault_version ≡ secret.version)
          → (get_state rule.name w.state).rule_hash ≡ rule_render_hash env rule
          → (get_state rule.name w.state).file_checksum ≡ file_checksum env w.files path
          → IsSynced rule secret path (enforce_perm env path w)
      rec v h c = record {
        version = rw (state-enforce_perm env path w) v;
        hash = rw (state-enforce_perm env path w) h;
        checksum =
            rw (state-enforce_perm env path w) (c ∙ sym (checksum-enforce_perm env path path w));
        settled = enforce_perm_idem env path w;
      }

  unchanged-IsSynced :
      (rule : Rule) (secret : Secret Data Doc) (path : Str) (w : World)
      → IsSynced rule secret path w
      → (keyless rule ≡ true) ⊎ (0 < secret.version)
      → unchanged env rule secret path w ≡ true
  unfolding unchanged
  unchanged-IsSynced rule secret path w s v = ground (
    arith,
    str_eq_iff (get_state rule.name w.state).rule_hash (rule_render_hash env rule),
    str_eq_iff (file_checksum env w.files path) (get_state rule.name w.state).file_checksum,
  )

  -- Outside a dry run, a sync at a path that succeeds leaves the rule synced there.
  sync_at-IsSynced :
      (rule : Rule) (secret : Secret Data Doc) (path : Str) (w : World)
      → env.dry_run ≡ false
      → (sync_at env rule secret path w).0 ≡ ok tt
      → IsSynced rule secret path (sync_at env rule secret path w).1
  sync_at-IsSynced rule secret path w wet done =
      elim (Bool-cases (unchanged env rule secret path w)) [
        | inl same ↦ rw (skipped same) (skip-IsSynced rule secret path w same)
        | inr differs ↦ elim (Result-cases (plan env rule secret path w)) [
          | inl (x, eq) ↦ unfold sync_at in absurd (ground (arith, eq, differs, done))
          | inr ((h, doc), eq) ↦
              let step : sync_at env rule secret path w ≡ commit env rule secret path h doc w =
                unfold sync_at in ground (arith, eq, differs) in
              let (content, e, f) = commit_ok rule secret path h doc w wet (rw step at done) in
              rw (step, f) (record_sync-IsSynced rule secret path content w)
        ]
      ]
    where
      skipped :
          unchanged env rule secret path w ≡ true
          → (sync_at env rule secret path w).1 ≡ enforce_perm env path w
      skipped same = unfold sync_at in ground (arith, same, wet)

  sync_at_again :
      (rule : Rule) (secret : Secret Data Doc) (path : Str) (w : World)
      → env.dry_run ≡ false
      → IsSynced rule secret path w
      → (keyless rule ≡ true) ⊎ (0 < secret.version)
      → sync_at env rule secret path w ≡ (ok tt, w)
  unfolding sync_at
  sync_at_again rule secret path w wet s v =
      ground (arith, wet, unchanged-IsSynced rule secret path w s v, s.settled)

  -- A sync of a rule that succeeds outside a dry run is repeated for nothing: run again on the world
  -- it left, it succeeds and changes nothing, provided the version of the secret is positive where
  -- the rule is not keyless. (Vault numbers versions from 1.)
  pub sync_rule_idem :
      (rule : Rule) (w : World)
      → env.dry_run ≡ false
      → ((secret : Secret Data Doc)
          → fetch env rule ≡ ok (some secret)
          → (keyless rule ≡ true) ⊎ (0 < secret.version))
      → (sync_rule env rule w).0 ≡ ok tt
      → sync_rule env rule (sync_rule env rule w).1 ≡ (ok tt, (sync_rule env rule w).1)
  sync_rule_idem rule w wet numbered done = elim (Result-cases (fetch env rule)) [
    | inl (x, eq) ↦ unfold sync_rule in absurd (ground (arith, eq, done))
    | inr (none, eq) ↦ unfold sync_rule in ground (arith, eq)
    | inr (some secret, eq) ↦ elim (Option-cases (env.expand_home rule.target.path)) [
      | inl home ↦ unfold sync_rule in absurd (ground (arith, eq, home, done))
      | inr (path, home) ↦
          let at : (v : World) → sync_rule env rule v ≡ sync_at env rule secret path v =
            λ v. unfold sync_rule in ground (arith, eq, home) in
          let synced : IsSynced rule secret path (sync_rule env rule w).1 =
            rw (at w) (sync_at-IsSynced rule secret path w wet (rw (at w) at done)) in
          at (sync_rule env rule w).1
          ∙ sync_at_again rule secret path (sync_rule env rule w).1 wet synced (numbered secret eq)
    ]
  ]
