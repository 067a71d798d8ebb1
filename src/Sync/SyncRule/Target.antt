-- ===== src/Sync/SyncRule/Target.antt =====
-- Which file and which state syncRule of internal/sync/engine.go touches.
use dotvault.Prelude.{
  Str, ◌∷◌, false, none, some, ◌≡◌, ◌≢◌, sym, ◌∙◌, ◌⊎◌, inl, inr, lookup, insert, lookup-insert,
  str_has_eq, str_eq_iff, Bool-cases, Option-cases, Result-cases, arith,
}
use dotvault.Sync.{Rule, World, Secret, Handler, Env}
use dotvault.Sync.Store.{get_state}
use dotvault.Sync.RenderHash.{rule_text}
use dotvault.Sync.RenderHash.Injective.{rule_text_inj}
use dotvault.Sync.SyncRule.{
  rule_render_hash, fetch, unchanged, enforce_perm, plan, record_sync, commit, sync_at, sync_rule,
  owner_only,
}

module _ {Data Doc : Type 0} (env : Env Data Doc) where
  enforce_perm-frame :
      (path q : Str) (w : World)
      → q ≢ path
      → lookup q (enforce_perm env path w).files ≡ lookup q w.files
  unfolding enforce_perm
  enforce_perm-frame path q w n = elim (Option-cases (lookup path w.files)) [
    | inl e ↦ ground (arith, e)
    | inr (f, e) ↦ ground (
      arith,
      e,
      lookup-insert path q (record { content = f.content; perm = owner_only }) w.files,
      str_eq_iff path q,
    )
  ]

  commit-frame :
      (rule : Rule) (secret : Secret Data Doc) (path : Str) (h : Handler Data Doc) (doc : Doc)
      (w : World) (q : Str)
      → q ≢ path
      → lookup q (commit env rule secret path h doc w).1.files ≡ lookup q w.files
  unfolding commit record_sync
  commit-frame rule secret path h doc w q n = elim (Option-cases (h.encode doc)) [
    | inl e ↦ ground (arith, e)
    | inr (content, e) ↦ ground (
      arith,
      e,
      enforce_perm-frame path q (record w {
        parents = path ∷ w.parents;
        files = insert path (record { content = content; perm = owner_only }) w.files;
      }),
      lookup-insert path q (record { content = content; perm = owner_only }) w.files,
      str_eq_iff path q,
    )
  ]

  sync_at-frame :
      (rule : Rule) (secret : Secret Data Doc) (path : Str) (w : World) (q : Str)
      → q ≢ path
      → lookup q (sync_at env rule secret path w).1.files ≡ lookup q w.files
  unfolding sync_at
  sync_at-frame rule secret path w q n = elim (Result-cases (plan env rule secret path w)) [
    | inl (x, eq) ↦ ground (arith, eq, enforce_perm-frame path q w n)
    | inr ((h, doc), eq) ↦
        ground (arith, eq, enforce_perm-frame path q w n, commit-frame rule secret path h doc w q n)
  ]

  -- A sync of a rule whose target expands to a path, whatever becomes of it, changes no file at
  -- another path.
  pub sync_rule_frame :
      (rule : Rule) (w : World) (path q : Str)
      → env.expand_home rule.target.path ≡ some path
      → q ≢ path
      → lookup q (sync_rule env rule w).1.files ≡ lookup q w.files
  unfolding sync_rule
  sync_rule_frame rule w path q home n = elim (Result-cases (fetch env rule)) [
    | inl (x, eq) ↦ ground (arith, eq)
    | inr (none, eq) ↦ ground (arith, eq)
    | inr (some secret, eq) ↦ ground (arith, eq, home, sync_at-frame rule secret path w q n)
  ]

  -- Where the stored hash is that of an older rule and the rule's key or target differs from that
  -- rule's, the rule is not skipped, if the digest tells texts apart.
  pub unchanged_edited :
      (old rule : Rule) (secret : Secret Data Doc) (path : Str) (w : World)
      → ((s t : Str) → env.rule_digest s ≡ env.rule_digest t → s ≡ t)
      → (get_state rule.name w.state).rule_hash ≡ rule_render_hash env old
      → (old.vault_key ≢ rule.vault_key) ⊎ (old.target ≢ rule.target)
      → unchanged env rule secret path w ≡ false
  unchanged_edited old rule secret path w inj hashed edited =
      elim (Bool-cases (unchanged env rule secret path w)) [
        | inr f ↦ f
        | inl t ↦
            let e : rule_render_hash env old ≡ rule_render_hash env rule =
              sym hashed
              ∙ unfold unchanged in
                ground (
                  arith,
                  t,
                  str_eq_iff (get_state rule.name w.state).rule_hash (rule_render_hash env rule),
                ) in
            let (key, target) =
              rule_text_inj old rule
                (inj (rule_text old) (rule_text rule) (unfold rule_render_hash in e)) in
            elim edited [ inl n ↦ absurd (n key) | inr n ↦ absurd (n target) ]
      ]
