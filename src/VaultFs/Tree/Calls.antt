-- ===== src/VaultFs/Tree/Calls.antt =====
-- internal/vaultfs/tree.go: any calls on a mount that alone writes to its store.
use dotvault.Prelude.{ℕ, Str, false, List, [], ◌∷◌, ◌≡◌, ◌≢◌}
use dotvault.VaultFs.Tree.{Env, Mount, document, put, remove, flush}

-- What the mount relies on: a change of one path leaves the others, and one that fails leaves all.
pub record StoreLaws {Data S : Type 0} (env : Env Data S) : Type 0 where
  pub write_frame :
      (k : Str) (m : Data) (s : S) (j : Str) → j ≢ k → env.read j (env.write k m s).1 ≡ env.read j s
  pub write_failed :
      (k : Str) (m : Data) (s : S) → (env.write k m s).0 ≡ false → (env.write k m s).1 ≡ s
  pub delete_frame :
      (k : Str) (s : S) (j : Str) → j ≢ k → env.read j (env.delete k s).1 ≡ env.read j s
  pub delete_failed : (k : Str) (s : S) → (env.delete k s).0 ≡ false → (env.delete k s).1 ≡ s

-- A call on the mount, with its time.
pub data Call : Type 0 where
  reading : ℕ → Str → Call
  putting : Str → Str → Call
  removing : Str → Call
  flushing : Call

module _ {Data S : Type 0} (env : Env Data S) where
  unfoldable pub perform : Call → Mount Data S → Mount Data S
  perform (reading now path) w = (document env now path w).1
  perform (putting path content) w = (put env path content w).1
  perform (removing path) w = (remove env path w).1
  perform flushing w = flush env w

  unfoldable pub perform_all : List Call → Mount Data S → Mount Data S
  perform_all [] w = w
  perform_all (c ∷ cs) w = perform_all cs (perform c w)
