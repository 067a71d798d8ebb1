-- ===== src/SshFwd/Registry/Invariant.antt =====
-- internal/sshfwd/registry.go: what holds in every order of requests and transactions.
use dotvault.Prelude.{
  Str, true, List, [], ◌∷◌, none, ◌≡◌, refl, inl, inr, All, Any, arith, lookup, str_has_eq,
}
use mathlib.Core.Path.{subst}
use dotvault.SshFwd.Config.{Remote, validate_remote}
use dotvault.SshFwd.Manager.{close}
use dotvault.SshFwd.Registry.{Env, with_default_socket}
use dotvault.SshFwd.Registry.Cases.{add_begin-cases, decide-cases}
use dotvault.SshFwd.Registry.System.{
  answering, System, Step, begin, commit, patching, removing, resyncing, closing, Reach, start,
  next,
}
use dotvault.SshFwd.Registry.Sound.{
  adding, changing, dropping, reading, transact, is_valid, IsSound, transact-IsSound,
}

module _ (fold : Str → Str) where
  -- The world is sound, and what waits for the lock was validated.
  pub record IsOrderly (s : System) : Type 0 where
    pub sound : IsSound fold s.world
    pub waiting : All (λ p. validate_remote p.1 ≡ none) s.pending

module _ (env : Env) (Trusted : Str → Type 0) where
  -- The check of an entry does not look at its pin.
  validate_remote-pin :
      (r : Remote) (k : Str)
      → validate_remote r ≡ none
      → validate_remote (record r { host_key = k }) ≡ none
  unfolding validate_remote
  validate_remote-pin r k v = v

  pending-valid :
      (existing : Str) (entry : Remote) (waiting : List (Str × Remote))
      → Any (λ p. p ≡ (existing, entry)) waiting
      → All (λ p. validate_remote p.1 ≡ none) waiting
      → is_valid (adding existing entry) ≡ true
  unfolding is_valid
  pending-valid existing entry [] m ps = absurd m
  pending-valid existing entry (p ∷ waiting) (inl same) (v, ps) =
      let moved : validate_remote entry ≡ none = subst (λ q. validate_remote q.1 ≡ none) same v in
      ground (arith, moved)
  pending-valid existing entry (p ∷ waiting) (inr later) (v, ps) =
      pending-valid existing entry waiting later ps

  Step-IsOrderly :
      {s t : System} → Step env Trusted s t → IsOrderly env.fold s → IsOrderly env.fold t
  unfolding transact is_valid close lookup
  Step-IsOrderly {s} (begin request opts existing entry careful e) h =
      let (v, _, decided) = add_begin-cases env request entry opts existing s.world e in
      let (k, same, _) =
        decide-cases env existing (with_default_socket request) entry opts decided in
      record {
        sound = h.sound;
        waiting = (
          subst (λ x. validate_remote x ≡ none) same
              (validate_remote-pin (with_default_socket request) k v),
          h.waiting,
        );
      }
  Step-IsOrderly {s} (commit existing entry m) h = record {
    sound =
        transact-IsSound env (adding existing entry) s.world
          (pending-valid existing entry s.pending m h.waiting) h.sound;
    waiting = h.waiting;
  }
  Step-IsOrderly {s} (patching host p) h = record {
    sound = transact-IsSound env (changing host p) s.world refl h.sound;
    waiting = h.waiting;
  }
  Step-IsOrderly {s} (removing host) h = record {
    sound = transact-IsSound env (dropping host) s.world refl h.sound;
    waiting = h.waiting;
  }
  Step-IsOrderly {s} resyncing h = record {
    sound = transact-IsSound env reading s.world refl h.sound;
    waiting = h.waiting;
  }
  Step-IsOrderly {s} closing h = record {
    sound = record { listed = h.sound.listed; healthy = record { runs = λ k mr e. cc e } };
    waiting = h.waiting;
  }

module _ (env : Env) (Trusted : Str → Type 0) where
  -- In whatever order requests and transactions come, ssh.yaml lists valid entries, each host once,
  -- and a managed remote runs exactly if its entry is enabled, if it was so before and only the
  -- registry writes the file.
  pub Reach-IsOrderly :
      {s t : System} → Reach env Trusted s t → IsOrderly env.fold s → IsOrderly env.fold t
  Reach-IsOrderly start h = h
  Reach-IsOrderly (next path verify connected save step) h =
      Step-IsOrderly (answering env verify connected save) Trusted step (Reach-IsOrderly path h)
