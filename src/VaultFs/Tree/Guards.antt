-- ===== src/VaultFs/Tree/Guards.antt =====
-- A mount of internal/vaultfs that is not read-write changes nothing in the store.
use dotvault.Prelude.{ℕ, Str, false, List, [], ◌∷◌, ◌≡◌, refl, ◌∙◌, arith, inl, inr, Result-cases}
use dotvault.KvPath.{clean}
use dotvault.VaultFs.Names.{kv_path_for_file}
use dotvault.VaultFs.Tree.{Env, Mount, fetch_document, document, put, remove, flush}
use dotvault.VaultFs.Tree.Calls.{Call, reading, putting, removing, flushing, perform, perform_all}

module _ {Data S : Type 0} (env : Env Data S) where
  store-fetch_document :
      (now : ℕ) (k : Str) (w : Mount Data S) → (fetch_document env now k w).1.store ≡ w.store
  unfolding fetch_document
  store-fetch_document now k w = ground arith

  store-document :
      (now : ℕ) (path : Str) (w : Mount Data S) → (document env now path w).1.store ≡ w.store
  unfolding document
  store-document now path w = elim (Result-cases (clean path)) [
    | inl (x, e) ↦ ground (arith, e)
    | inr (p, e) ↦ elim (Result-cases (kv_path_for_file p)) [
      | inl (x, f) ↦ ground (arith, e, f)
      | inr (k, f) ↦ ground (arith, e, f, store-fetch_document now k w)
    ]
  ]

  store-perform :
      (c : Call) (w : Mount Data S) → env.read_write ≡ false → (perform env c w).store ≡ w.store
  unfolding perform put remove flush
  store-perform (reading now path) w r = store-document now path w
  store-perform (putting path content) w r = ground (arith, r)
  store-perform (removing path) w r = ground (arith, r)
  store-perform flushing w r = refl

  -- On a mount that is not read-write no calls, in any order, change the store.
  pub store-perform_all :
      (cs : List Call) (w : Mount Data S)
      → env.read_write ≡ false
      → (perform_all env cs w).store ≡ w.store
  unfolding perform_all
  store-perform_all [] w r = refl
  store-perform_all (c ∷ cs) w r = store-perform_all cs (perform env c w) r ∙ store-perform c w r
