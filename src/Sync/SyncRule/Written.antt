-- ===== src/Sync/SyncRule/Written.antt =====
-- internal/sync/engine.go: what a syncRule that succeeds leaves in the target.
use dotvault.Prelude.{
  ◌==◌, Str, codes, true, false, Option, none, some, ok, ◌≡◌, ◌≢◌, sym, ap, ◌∙◌, ◌⊎◌, inl, inr,
  lookup, lookup-insert, str_has_eq, str_eq, str_eq_iff, str_eq_refl, is_empty, Bool-cases,
  Option-cases, Result-cases, arith,
}
use mathlib.Core.Path.{subst}
use dotvault.Sync.{Rule, File, World, Secret, Handler, Env}
use dotvault.Sync.SyncRule.{
  fetch, unchanged, enforce_perm, incoming, existing, plan, record_sync, commit, sync_at, sync_rule,
  owner_only,
}
use dotvault.Sync.SyncRule.Converges.{commit_ok}

module _ {Data Doc : Type 0} (env : Env Data Doc) where
  -- Where the new document comes from: a template that is rendered and parsed, or the secret itself,
  -- in the way of the format.
  unfoldable pub IsIncoming : Rule → Handler Data Doc → Secret Data Doc → Doc → Type 0
  IsIncoming rule h secret new =
      ((is_empty rule.target.template ≡ false)
        × (text : Str) × (parser : Str → Option Doc) × (env.render rule.name rule.target.template
              secret.secret_data env.username
            ≡ some text)
        × (h.parse ≡ some parser)
        × (parser text ≡ some new))
      ⊎ (((is_empty rule.target.template ≡ true)
            × (rule.target.format ≡ codes "netrc")
            × (env.from_netrc secret.secret_data ≡ new))
          ⊎ (((is_empty rule.target.template ≡ true)
                × (rule.target.format ≡ codes "text")
                × (env.from_text secret.secret_data ≡ some new))
              ⊎ ((is_empty rule.target.template ≡ true)
                  × (rule.target.format ≢ codes "netrc")
                  × (rule.target.format ≢ codes "text")
                  × (env.from_data secret.secret_data ≡ new))))

  -- The old document is what the handler reads of the file, or makes of a missing one.
  abbrev pub IsExisting : Handler Data Doc → Option File → Doc → Type 0
  IsExisting h none old = h.read_file none ≡ some old
  IsExisting h (some f) old = h.read_file (some f.content) ≡ some old

  -- The target holds what the handler encodes of the old document merged with the new, mode 0600.
  pub record IsWritten (rule : Rule) (secret : Secret Data Doc) (path : Str) (w w' : World)
      : Type 0 where
    pub handler : Handler Data Doc
    pub old : Doc
    pub new : Doc
    pub merged : Doc
    pub content : Str
    pub chosen : env.handler_for rule.target.format rule.target.delete_nulls ≡ some handler
    pub read : IsExisting handler (lookup path w.files) old
    pub come : IsIncoming rule handler secret new
    pub joined : handler.merge_docs old new ≡ some merged
    pub encoded : handler.encode merged ≡ some content
    pub stored : lookup path w'.files ≡ some (record { content = content; perm = owner_only })

  -- A file that stands at the target keeps its content, and has mode 0600 where it can be set.
  abbrev pub IsGuarded : Str → World → World → Type 0
  IsGuarded path w w' =
      (f : File)
      → lookup path w.files ≡ some f
      → env.can_chmod path ≡ true
      → lookup path w'.files ≡ some (record { content = f.content; perm = owner_only })

  incoming-IsIncoming :
      (rule : Rule) (h : Handler Data Doc) (secret : Secret Data Doc) (new : Doc)
      → incoming env rule h secret ≡ ok new
      → IsIncoming rule h secret new
  unfolding incoming IsIncoming
  incoming-IsIncoming rule h secret new e = elim (Bool-cases (is_empty rule.target.template)) [
    | inr some_template ↦
        elim (Option-cases
          (env.render rule.name rule.target.template secret.secret_data env.username)) [
            | inl bad ↦ absurd (ground (arith, e, some_template, bad))
            | inr (text, rendered) ↦ elim (Option-cases h.parse) [
              | inl bad ↦ absurd (ground (arith, e, some_template, rendered, bad))
              | inr (parser, parses) ↦ elim (Option-cases (parser text)) [
                | inl bad ↦ absurd (ground (arith, e, some_template, rendered, parses, bad))
                | inr (doc, parsed) ↦ inl (
                  some_template,
                  text,
                  parser,
                  rendered,
                  parses,
                  ground (arith, e, some_template, rendered, parses, parsed),
                )
              ]
            ]
          ]
    | inl no_template ↦ elim (Bool-cases (str_eq rule.target.format (codes "netrc"))) [
      | inl netrc ↦ inr (
          inl (
            no_template,
            ground (arith, netrc, str_eq_iff rule.target.format (codes "netrc")),
            ground (arith, e, no_template, netrc),
          ))
      | inr other ↦ elim (Bool-cases (str_eq rule.target.format (codes "text"))) [
        | inl text ↦ elim (Option-cases (env.from_text secret.secret_data)) [
          | inl bad ↦ absurd (ground (arith, e, no_template, other, text, bad))
          | inr (doc, made) ↦ inr (
              inr (
                inl (
                  no_template,
                  ground (arith, text, str_eq_iff rule.target.format (codes "text")),
                  ground (arith, e, no_template, other, text, made),
                )))
        ]
        | inr neither ↦ inr (
            inr (
              inr (
                no_template,
                (λ q. ground (arith, q, other, str_eq_iff rule.target.format (codes "netrc"))),
                (λ q. ground (arith, q, neither, str_eq_iff rule.target.format (codes "text"))),
                ground (arith, e, no_template, other, neither),
              )))
      ]
    ]
  ]

  existing-IsExisting :
      (h : Handler Data Doc) (path : Str) (w : World) (old : Doc)
      → existing env h w.files path ≡ ok old
      → IsExisting h (lookup path w.files) old
  unfolding existing
  existing-IsExisting h path w old e = elim (Option-cases (lookup path w.files)) [
    | inl absent ↦ subst (λ o. IsExisting h o old) (sym absent) (ground (arith, e, absent))
    | inr (f, there) ↦ subst (λ o. IsExisting h o old) (sym there) (ground (arith, e, there))
  ]

  plan-cases :
      (rule : Rule) (secret : Secret Data Doc) (path : Str) (w : World) (h : Handler Data Doc)
      (doc : Doc)
      → plan env rule secret path w ≡ ok (h, doc)
      → (env.handler_for rule.target.format rule.target.delete_nulls ≡ some h)
        × (new : Doc) × (old : Doc) × (incoming env rule h secret ≡ ok new)
        × (existing env h w.files path ≡ ok old)
        × (h.merge_docs old new ≡ some doc)
  unfolding plan
  plan-cases rule secret path w h doc e =
      elim (Option-cases (env.handler_for rule.target.format rule.target.delete_nulls)) [
        | inl bad ↦ absurd (ground (arith, e, bad))
        | inr (g, chosen) ↦ elim (Result-cases (incoming env rule g secret)) [
          | inl (x, bad) ↦ absurd (ground (arith, e, chosen, bad))
          | inr (new, come) ↦ elim (Result-cases (existing env g w.files path)) [
            | inl (x, bad) ↦ absurd (ground (arith, e, chosen, come, bad))
            | inr (old, read) ↦ elim (Option-cases (g.merge_docs old new)) [
              | inl bad ↦ absurd (ground (arith, e, chosen, come, read, bad))
              | inr (merged, joined) ↦
                  let (same, made) : (g ≡ h) × (merged ≡ doc) =
                    ground (arith, e, chosen, come, read, joined) in
                  (
                    chosen ∙ ap some same,
                    new,
                    old,
                    ap (λ k. incoming env rule k secret) (sym same) ∙ come,
                    ap (λ k. existing env k w.files path) (sym same) ∙ read,
                    ap (λ k. k.merge_docs old new) (sym same) ∙ joined ∙ ap some made,
                  )
            ]
          ]
        ]
      ]

  enforce_perm-IsGuarded : (path : Str) (w : World) → IsGuarded path w (enforce_perm env path w)
  unfolding enforce_perm
  enforce_perm-IsGuarded path w f there can = elim (Bool-cases (f.perm == owner_only)) [
    | inl already ↦ ground (arith, there, already)
    | inr other ↦ ground (
      arith,
      there,
      can,
      other,
      lookup-insert path path (record { content = f.content; perm = owner_only }) w.files,
      str_eq_refl path,
    )
  ]

  sync_rule-IsWritten :
      (rule : Rule) (secret : Secret Data Doc) (path : Str) (w : World)
      → env.dry_run ≡ false
      → fetch env rule ≡ ok (some secret)
      → env.expand_home rule.target.path ≡ some path
      → unchanged env rule secret path w ≡ false
      → (sync_rule env rule w).0 ≡ ok tt
      → IsWritten rule secret path w (sync_rule env rule w).1
  sync_rule-IsWritten rule secret path w wet fetched home differs done =
      elim (Result-cases (plan env rule secret path w)) [
        | inl (x, eq) ↦
            unfold sync_rule sync_at in absurd (ground (arith, eq, differs, done, fetched, home))
        | inr ((h, doc), eq) ↦
            let step : sync_rule env rule w ≡ commit env rule secret path h doc w =
              unfold sync_rule sync_at in ground (arith, eq, differs, fetched, home) in
            let (content, e, f) = commit_ok env rule secret path h doc w wet (rw step at done) in
            let (chosen, new, old, come, read, joined) = plan-cases rule secret path w h doc eq in
            record {
              handler = h;
              old = old;
              new = new;
              merged = doc;
              content = content;
              chosen = chosen;
              read = existing-IsExisting h path w old read;
              come = incoming-IsIncoming rule h secret new come;
              joined = joined;
              encoded = e;
              stored = rw (step, f) (unfold record_sync in rw (lookup-insert, str_eq_refl));
            }
      ]

  -- Outside a dry run, a sync that succeeds found no secret and changed nothing; or it skipped the
  -- rule as unchanged, and a file at the target keeps its content and has mode 0600 where it can be
  -- set; or it wrote what the rule's handler encodes of the document in the target merged with the
  -- new one, from the template or the secret, with mode 0600.
  pub sync_rule_writes :
      (rule : Rule) (w : World)
      → env.dry_run ≡ false
      → (sync_rule env rule w).0 ≡ ok tt
      → ((fetch env rule ≡ ok none) × ((sync_rule env rule w).1 ≡ w))
        ⊎ ((secret : Secret Data Doc) × (path : Str) × (fetch env rule ≡ ok (some secret))
            × (env.expand_home rule.target.path ≡ some path)
            × (((unchanged env rule secret path w ≡ true)
                  × IsGuarded path w (sync_rule env rule w).1)
                ⊎ ((unchanged env rule secret path w ≡ false)
                    × IsWritten rule secret path w (sync_rule env rule w).1)))
  sync_rule_writes rule w wet done = elim (Result-cases (fetch env rule)) [
    | inl (x, bad) ↦ absurd (unfold sync_rule in ground (arith, done, bad))
    | inr (none, fetched) ↦ inl (fetched, unfold sync_rule in ground (arith, fetched))
    | inr (some secret, fetched) ↦ elim (Option-cases (env.expand_home rule.target.path)) [
      | inl bad ↦ absurd (unfold sync_rule in ground (arith, done, fetched, bad))
      | inr (path, home) ↦ inr (secret, path, fetched, home, at secret path fetched home)
    ]
  ]
    where
      at :
          (secret : Secret Data Doc) (path : Str)
          → fetch env rule ≡ ok (some secret)
          → env.expand_home rule.target.path ≡ some path
          → ((unchanged env rule secret path w ≡ true) × IsGuarded path w (sync_rule env rule w).1)
            ⊎ ((unchanged env rule secret path w ≡ false)
                × IsWritten rule secret path w (sync_rule env rule w).1)
      at secret path fetched home = elim (Bool-cases (unchanged env rule secret path w)) [
        | inl same ↦
            let step : (sync_rule env rule w).1 ≡ enforce_perm env path w =
              unfold sync_rule sync_at in ground (arith, same, wet, fetched, home) in
            inl (same, subst (IsGuarded path w) (sym step) (enforce_perm-IsGuarded path w))
        | inr differs ↦
            inr (differs, sync_rule-IsWritten rule secret path w wet fetched home differs done)
      ]
