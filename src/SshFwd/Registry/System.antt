-- ===== src/SshFwd/Registry/System.antt =====
-- internal/sshfwd/registry.go: the orders in which requests and transactions can come. An Add that
-- has verified its host waits for the lock with the pin and the entry that it decided on; other
-- requests and transactions may come before it gets it.
use dotvault.Prelude.{
  Bool, Option, Result, Str, true, List, [], ◌∷◌, some, Result, ok, ◌≡◌, ◌⊎◌, Any,
}
use dotvault.SshFwd.Config.{Remote}
use dotvault.SshFwd.Manager.{close}
use dotvault.SshFwd.Registry.{
  Env, World, VerifyResult, AddOptions, Patch, add_begin, add_commit, patch, remove, resync,
}

pub record System : Type 0 where
  pub world : World
  pub pending : List (Str × Remote)

-- A caller of Add confirms the fingerprint of a trusted key only, and with Force gives no key or a
-- trusted one.
abbrev pub IsCareful : Env → (Str → Type 0) → Remote → AddOptions → Type 0
IsCareful env Trusted request opts =
    ((k : Str) → env.key_fingerprint k ≡ some opts.accept_fingerprint → Trusted k)
    × (opts.force ≡ true → (request.host_key ≡ []) ⊎ Trusted request.host_key)

pub data Step (env : Env) (Trusted : Str → Type 0) : System → System → Type 0 where
  begin :
      {s : System} (request : Remote) (opts : AddOptions) (existing : Str) (entry : Remote)
      → IsCareful env Trusted request opts
      → add_begin env request opts s.world ≡ ok (existing, entry)
      → Step env Trusted s (record s { pending = (existing, entry) ∷ s.pending })
  commit :
      {s : System} (existing : Str) (entry : Remote)
      → Any (λ p. p ≡ (existing, entry)) s.pending
      → Step env Trusted s (record s { world = (add_commit env existing entry s.world).1 })
  patching :
      {s : System} (host : Str) (p : Patch)
      → Step env Trusted s (record s { world = (patch env host p s.world).1 })
  removing :
      {s : System} (host : Str)
      → Step env Trusted s (record s { world = (remove env host s.world).1 })
  resyncing : {s : System} → Step env Trusted s (record s { world = (resync env s.world).1 })
  closing :
      {s : System}
      → Step env Trusted s
          (record s { world = record (s.world) { manager = close s.world.manager } })

-- What the verifier, the remotes and the disk answer may change from step to step.
abbrev pub answering :
    Env
    → (Bool → Remote → Result Str VerifyResult)
    → (Str → Bool)
    → (List Remote → Option Str)
    → Env
answering env verify connected save = record env {
  verify = verify;
  connected = connected;
  save = save;
}

pub data Reach (env : Env) (Trusted : Str → Type 0) (s : System) : System → Type 0 where
  start : Reach env Trusted s s
  next :
      {t u : System}
      → Reach env Trusted s t
      → (verify : Bool → Remote → Result Str VerifyResult) (connected : Str → Bool)
        (save : List Remote → Option Str)
      → Step (answering env verify connected save) Trusted t u
      → Reach env Trusted s u
