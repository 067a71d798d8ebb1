-- ===== src/VaultFs/Tree/Cached.antt =====
-- internal/vaultfs/tree.go and cache.go: what is cached is what the store has.
use dotvault.Prelude.{
  ℕ, ◌+◌, Str, Bool, true, false, not, ◌||◌, List, [], ◌∷◌, Option, none, some, ◌≡◌, ◌≢◌, refl, sym,
  ◌∙◌, arith, inl, inr, lookup, lookup-insert, lookup-delete, str_has_eq, str_eq, str_eq_iff,
  is_empty, Bool-cases, Option-cases, Result-cases,
}
use mathlib.Core.Bool.{false≢true}
use dotvault.KvPath.{clean}
use dotvault.VaultFs.Names.{kv_path_for_file}
use dotvault.VaultFs.Cache.{
  DocEntry, enabled, lookup_doc, store_doc, invalidate, invalidate_all, new_cache,
}
use dotvault.VaultFs.Tree.{
  TreeError, write_failed, delete_failed, Document, Env, Mount, render_document, parse_document,
  serves_client_cert, fetch_document, document, finish, put, remove, flush,
}
use dotvault.VaultFs.Tree.Calls.{
  StoreLaws, Call, reading, putting, removing, flushing, perform, perform_all,
}

module _ {Data S : Type 0} (env : Env Data S) where
  -- The document that the store has at a KV path, none where it cannot be had.
  unfoldable pub answer : Str → S → Option (Option Document)
  answer k s = elim (env.read k s) [
    | none ↦ none
    | some none ↦ some none
    | some (some secret) ↦ elim (render_document env secret) [
      | none ↦ none
      | some doc ↦ some (some doc)
    ]
  ]

  -- Every cached document is the one that the store has, unless the cache is switched off.
  unfoldable pub IsCoherent : Mount Data S → Type 0
  IsCoherent w =
      enabled w.cache ≡ true
      → (k : Str) (e : DocEntry Document) → lookup k w.cache.docs ≡ some e
      → answer k w.store ≡ some e.doc

  answer_frame : (k : Str) (s s' : S) → env.read k s ≡ env.read k s' → answer k s ≡ answer k s'
  unfolding answer
  answer_frame k s s' e = rw (e, answer) refl

  store_doc-IsCoherent :
      (now : ℕ) (k : Str) (doc : Option Document) (w : Mount Data S)
      → answer k w.store ≡ some doc
      → IsCoherent w
      → IsCoherent (record w { cache = store_doc w.cache now k doc })
  unfolding IsCoherent store_doc
  store_doc-IsCoherent now k doc w a h = elim (Bool-cases (enabled w.cache)) [
    | inr off ↦ rw (off, store_doc) h
    | inl on ↦
        rw (on, store_doc)
          (λ still j e l. ground (
            arith,
            on,
            a,
            l,
            str_eq_iff k j,
            h on j e,
            lookup-insert k j (record { doc = doc; expires = now + w.cache.ttl }) w.cache.docs,
          ))
  ]

  fetch_document-IsCoherent :
      (now : ℕ) (k : Str) (w : Mount Data S)
      → IsCoherent w
      → IsCoherent (fetch_document env now k w).1
  unfolding fetch_document
  fetch_document-IsCoherent now k w h = elim (Option-cases (env.read k w.store)) [
    | inl e ↦ rw (e, fetch_document, fetch_document) h
    | inr (none, e) ↦
        rw (e, fetch_document, fetch_document)
          (store_doc-IsCoherent now k none w (unfold answer in rw (e, answer) refl) h)
    | inr (some secret, e) ↦ elim (Option-cases (render_document env secret)) [
      | inl f ↦ rw (e, f, fetch_document) h
      | inr (doc, f) ↦
          rw (e, f, fetch_document)
            (store_doc-IsCoherent now k (some doc) w (unfold answer in rw (e, answer, f) refl) h)
    ]
  ]

  document-IsCoherent :
      (now : ℕ) (path : Str) (w : Mount Data S)
      → IsCoherent w
      → IsCoherent (document env now path w).1
  unfolding document
  document-IsCoherent now path w h = elim (Result-cases (clean path)) [
    | inl (x, e) ↦ rw (e, document) h
    | inr (p, e) ↦ elim (Bool-cases (is_empty p)) [
      | inl root ↦ rw (e, root, document) h
      | inr below ↦ elim (Bool-cases (serves_client_cert env p)) [
        | inl cert ↦ rw (e, below, cert, document) h
        | inr other ↦ elim (Result-cases (kv_path_for_file p)) [
          | inl (x, f) ↦ rw (e, below, other, f, document) h
          | inr (k, f) ↦ elim (Option-cases (lookup_doc w.cache now k)) [
            | inl miss ↦
                rw (e, below, other, f, miss, document) (fetch_document-IsCoherent now k w h)
            | inr (doc, hit) ↦ rw (e, below, other, f, hit, document) h
          ]
        ]
      ]
    ]
  ]

  finish-IsCoherent :
      (x : TreeError) (k : Str) (r : Bool × S) (w : Mount Data S)
      → ((j : Str) → j ≢ k → env.read j r.1 ≡ env.read j w.store)
      → (r.0 ≡ false → r.1 ≡ w.store)
      → IsCoherent w
      → IsCoherent (finish env x k r w).1
  unfolding finish IsCoherent invalidate
  finish-IsCoherent x k (false, s) w frame failed h = rw (failed refl) h
  finish-IsCoherent x k (true, s) w frame failed h = elim (Bool-cases (enabled w.cache)) [
    | inr off ↦ rw (off, invalidate) (λ on. absurd (false≢true (sym off ∙ on)))
    | inl on ↦
        rw (on, invalidate)
          (λ still j e l. elim (Bool-cases (str_eq k j)) [
            | inl same ↦ absurd (ground (arith, l, same, lookup-delete k j w.cache.docs))
            | inr other ↦
                answer_frame j s w.store (frame j (λ q. ground (arith, q, other, str_eq_iff k j)))
                ∙ h on j e (ground (arith, l, other, lookup-delete k j w.cache.docs))
          ])
  ]

  module _ (laws : StoreLaws env) where
    put-IsCoherent :
        (path content : Str) (w : Mount Data S)
        → IsCoherent w
        → IsCoherent (put env path content w).1
    unfolding put
    put-IsCoherent path content w h =
        elim (Bool-cases (not env.read_write || serves_client_cert env path)) [
          | inl barred ↦ rw (barred, put) h
          | inr free ↦ elim (Result-cases (kv_path_for_file path)) [
            | inl (x, e) ↦ rw (free, e, put) h
            | inr (k, e) ↦ elim (Option-cases (parse_document env content)) [
              | inl f ↦ rw (free, e, f, put) h
              | inr (m, f) ↦
                  rw (free, e, f, put)
                    (finish-IsCoherent write_failed k (env.write k m w.store) w
                      (laws.write_frame k m w.store) (laws.write_failed k m w.store) h)
            ]
          ]
        ]

    remove-IsCoherent :
        (path : Str) (w : Mount Data S) → IsCoherent w → IsCoherent (remove env path w).1
    unfolding remove
    remove-IsCoherent path w h =
        elim (Bool-cases (not env.read_write || serves_client_cert env path)) [
          | inl barred ↦ rw (barred, remove) h
          | inr free ↦ elim (Result-cases (kv_path_for_file path)) [
            | inl (x, e) ↦ rw (free, e, remove) h
            | inr (k, e) ↦
                rw (free, e, remove)
                  (finish-IsCoherent delete_failed k (env.delete k w.store) w
                    (laws.delete_frame k w.store) (laws.delete_failed k w.store) h)
          ]
        ]

    flush-IsCoherent : (w : Mount Data S) → IsCoherent w → IsCoherent (flush env w)
    unfolding IsCoherent flush invalidate_all lookup
    flush-IsCoherent w h = elim (Bool-cases (enabled w.cache)) [
      | inr off ↦ rw (off, invalidate_all) h
      | inl on ↦ rw (on, invalidate_all) (λ still j e l. absurd (ground (arith, l)))
    ]

    perform-IsCoherent : (c : Call) (w : Mount Data S) → IsCoherent w → IsCoherent (perform env c w)
    unfolding perform
    perform-IsCoherent (reading now path) w h = document-IsCoherent now path w h
    perform-IsCoherent (putting path content) w h = put-IsCoherent path content w h
    perform-IsCoherent (removing path) w h = remove-IsCoherent path w h
    perform-IsCoherent flushing w h = flush-IsCoherent w h

    pub perform_all-IsCoherent :
        (cs : List Call) (w : Mount Data S) → IsCoherent w → IsCoherent (perform_all env cs w)
    unfolding perform_all
    perform_all-IsCoherent [] w h = h
    perform_all-IsCoherent (c ∷ cs) w h =
        perform_all-IsCoherent cs (perform env c w) (perform-IsCoherent c w h)

  pub new_cache-IsCoherent :
      (ttl : ℕ) (s : S) → IsCoherent (record { store = s; cache = new_cache ttl })
  unfolding IsCoherent new_cache lookup
  new_cache-IsCoherent ttl s on j e l = absurd (ground (arith, l))
