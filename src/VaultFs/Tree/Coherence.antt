-- ===== src/VaultFs/Tree/Coherence.antt =====
-- The cache of internal/vaultfs does not show while only the mount writes to the store.
use dotvault.Prelude.{
  ℕ, Str, List, Option, none, some, ok, ◌≡◌, refl, arith, inl, inr, lookup, str_has_eq, Bool-cases,
  Option-cases, Result-cases,
}
use dotvault.KvPath.{clean}
use dotvault.VaultFs.Names.{kv_path_for_file}
use dotvault.VaultFs.Cache.{enabled, lookup_doc, new_cache}
use dotvault.VaultFs.Tree.{Document, Env, Mount, fetch_document, document}
use dotvault.VaultFs.Tree.Calls.{StoreLaws, Call, perform_all}
use dotvault.VaultFs.Tree.Cached.{answer, IsCoherent, perform_all-IsCoherent, new_cache-IsCoherent}

module _ {Data S : Type 0} (env : Env Data S) where
  -- What Document answers without a cached document: the same mount with the cache emptied.
  abbrev pub uncached : Mount Data S → Mount Data S
  uncached w = record w { cache = new_cache 0 }

  cached :
      (now : ℕ) (k : Str) (doc : Option Document) (w : Mount Data S)
      → IsCoherent env w
      → lookup_doc w.cache now k ≡ some doc
      → answer env k w.store ≡ some doc
  unfolding lookup_doc IsCoherent
  cached now k doc w h l = elim (Bool-cases (enabled w.cache)) [
    | inr off ↦ absurd (ground (arith, off, l))
    | inl on ↦ elim (Option-cases (lookup k w.cache.docs)) [
      | inl miss ↦ absurd (ground (arith, on, miss, l))
      | inr (e, found) ↦ ground (arith, on, found, l, h on k e found)
    ]
  ]

  fetch_document-answer :
      (now : ℕ) (k : Str) (doc : Option Document) (w : Mount Data S)
      → answer env k w.store ≡ some doc
      → (fetch_document env now k w).0 ≡ ok doc
  unfolding answer fetch_document
  fetch_document-answer now k doc w a = ground (arith, a)

  fetch_document-uncached :
      (now : ℕ) (k : Str) (w : Mount Data S)
      → (fetch_document env now k w).0 ≡ (fetch_document env now k (uncached w)).0
  unfolding fetch_document
  fetch_document-uncached now k w = ground arith

  lookup_doc-uncached :
      (now : ℕ) (k : Str) (w : Mount Data S) → lookup_doc (uncached w).cache now k ≡ none
  unfolding lookup_doc new_cache enabled
  lookup_doc-uncached now k w = refl

  document-uncached :
      (now : ℕ) (path : Str) (w : Mount Data S)
      → IsCoherent env w
      → (document env now path w).0 ≡ (document env now path (uncached w)).0
  unfolding document
  document-uncached now path w h = elim (Result-cases (clean path)) [
    | inl (x, e) ↦ rw (e, document) refl
    | inr (p, e) ↦ elim (Result-cases (kv_path_for_file p)) [
      | inl (x, f) ↦ ground (arith, e, f)
      | inr (k, f) ↦ elim (Option-cases (lookup_doc w.cache now k)) [
        | inl miss ↦
            ground (arith, e, f, miss, lookup_doc-uncached now k w, fetch_document-uncached now k w)
        | inr (doc, hit) ↦ ground (
          arith,
          e,
          f,
          hit,
          lookup_doc-uncached now k w,
          fetch_document-answer now k doc (uncached w) (cached now k doc w h hit),
        )
      ]
    ]
  ]

  -- The cache does not show: after any calls on a new mount, in any order and at any times, Document
  -- answers as it does without a cache, if only the mount changes the store and its changes are
  -- confined to their path.
  pub document-perform_all :
      (laws : StoreLaws env) (ttl : ℕ) (s : S) (cs : List Call) (now : ℕ) (path : Str)
      → (document env now path (perform_all env cs (record { store = s; cache = new_cache ttl }))).0
        ≡ (document env now path
            (uncached (perform_all env cs (record { store = s; cache = new_cache ttl })))).0
  document-perform_all laws ttl s cs now path =
      document-uncached now path (perform_all env cs (record { store = s; cache = new_cache ttl }))
        (perform_all-IsCoherent env laws cs (record { store = s; cache = new_cache ttl })
          (new_cache-IsCoherent env ttl s))
