-- ===== src/SshFwd/Registry/Trust.antt =====
-- internal/sshfwd/registry.go: which host keys come to be pinned.
use dotvault.Prelude.{
  Str, true, List, [], ◌∷◌, none, some, ok, ◌≡◌, ◌⊎◌, refl, sym, inl, inr, Bool-cases, Option-cases,
  Result-cases, All, Any, str_eq_iff, is_empty, arith,
}
use mathlib.Core.Path.{subst}
use dotvault.SshFwd.Config.{Remote, find, upsert, replace}
use dotvault.SshFwd.Config.Entries.{replace-All, upsert-All, remove-All, find-All}
use dotvault.SshFwd.Registry.{
  Env, World, VerifyResult, AddOptions, patched, with_default_socket, check_reported, choose_pin,
  or_else, stored_host_key, decide, apply, add_begin,
}
use dotvault.SshFwd.Registry.Cases.{
  saved, add_commit-cases, add_begin-cases, decide-cases, patch-cases, remove-cases, resync-cases,
}
use dotvault.SshFwd.Registry.System.{
  answering, System, IsCareful, Step, begin, commit, patching, removing, resyncing, closing, Reach,
  start, next,
}

module _ (Trusted : Str → Type 0) where
  -- A pin is empty or a trusted key.
  abbrev pub IsPin : Str → Type 0
  IsPin k = (k ≡ []) ⊎ Trusted k

  abbrev pub ArePinned : List Remote → Type 0
  ArePinned = All (λ r. IsPin r.host_key)

  abbrev pub IsPinned : World → Type 0
  IsPinned w = (rs : List Remote) → w.file ≡ ok rs → ArePinned rs

  pub record IsTrusted (s : System) : Type 0 where
    pub stored : IsPinned s.world
    pub waiting : All (λ p. IsPin p.1.host_key) s.pending

module _ (env : Env) (Trusted : Str → Type 0) where
  -- The key that a caller confirmed is the one that the verifier reported.
  choose_pin-cases :
      (existing : Str) (opts : AddOptions) (v : VerifyResult) (pin : Str)
      → check_reported env.key_fingerprint v ≡ none
      → choose_pin existing opts v ≡ ok pin
      → (pin ≡ existing)
        ⊎ (is_empty pin ≡ true)
        ⊎ ((pin ≡ v.host_key) × (env.key_fingerprint v.host_key ≡ some opts.accept_fingerprint))
  unfolding check_reported choose_pin
  choose_pin-cases existing opts v pin checked chosen =
      elim (Option-cases (env.key_fingerprint v.host_key)) [
        | inl unread ↦ ground (arith, checked, chosen, unread)
        | inr (got, read) ↦ ground (
          arith,
          checked,
          chosen,
          read,
          str_eq_iff opts.accept_fingerprint v.fingerprint,
          str_eq_iff got v.fingerprint,
        )
      ]

  empty-IsPin : (k : Str) → is_empty k ≡ true → IsPin Trusted k
  unfolding is_empty
  empty-IsPin [] e = inl refl
  empty-IsPin (c ∷ k) e = cc e

  or_else-IsPin :
      (k existing : Str)
      → IsPin Trusted k
      → IsPin Trusted existing
      → IsPin Trusted (or_else k existing)
  or_else-IsPin k existing p old = elim (Bool-cases (is_empty k)) [
    | inl y ↦ rw y old
    | inr n ↦ rw n p
  ]

  choose_pin-IsPin :
      (existing : Str) (opts : AddOptions) (v : VerifyResult) (pin : Str)
      → ((k : Str) → env.key_fingerprint k ≡ some opts.accept_fingerprint → Trusted k)
      → IsPin Trusted existing
      → check_reported env.key_fingerprint v ≡ none
      → choose_pin existing opts v ≡ ok pin
      → IsPin Trusted pin
  choose_pin-IsPin existing opts v pin accepts old checked chosen =
      elim (choose_pin-cases existing opts v pin checked chosen) [
        | inl same ↦ subst (IsPin Trusted) (sym same) old
        | inr (inl blank) ↦ empty-IsPin pin blank
        | inr (inr (reported, confirmed)) ↦
            inr (subst Trusted (sym reported) (accepts v.host_key confirmed))
      ]

  decide-IsPin :
      (existing : Str) (r entry : Remote) (opts : AddOptions)
      → IsCareful env Trusted r opts
      → IsPin Trusted existing
      → decide env existing r opts ≡ ok entry
      → IsPin Trusted entry.host_key
  decide-IsPin existing r entry opts (accepts, forces) old e =
      let (k, same, how) = decide-cases env existing r entry opts e in
      subst (λ x. IsPin Trusted x.host_key) same
        (elim how [
          | inl (y, taken) ↦
              subst (IsPin Trusted) (sym taken) (or_else-IsPin r.host_key existing (forces y) old)
          | inr (v, checked, chosen) ↦ choose_pin-IsPin existing opts v k accepts old checked chosen
        ])

  stored_host_key-IsPin :
      (host existing : Str) (w : World)
      → IsPinned Trusted w
      → stored_host_key env host w ≡ ok existing
      → IsPin Trusted existing
  unfolding stored_host_key
  stored_host_key-IsPin host existing w pinned e = elim (Result-cases w.file) [
    | inl (bad, f) ↦ ground (arith, e, f)
    | inr (rs, f) ↦ elim (Option-cases (find env.fold host rs)) [
      | inl absent ↦ inl (ground (arith, e, f, absent))
      | inr (r, there) ↦
          subst (IsPin Trusted) (ground (arith, e, f, there))
            (find-All env.fold (λ x. IsPin Trusted x.host_key) host rs r there (pinned rs f))
    ]
  ]

  add_begin-IsPin :
      (request entry : Remote) (opts : AddOptions) (existing : Str) (w : World)
      → IsCareful env Trusted request opts
      → IsPinned Trusted w
      → add_begin env request opts w ≡ ok (existing, entry)
      → IsPin Trusted entry.host_key
  add_begin-IsPin request entry opts existing w (accepts, forces) pinned e =
      let (_, read, decided) = add_begin-cases env request entry opts existing w e in
      decide-IsPin existing (with_default_socket request) entry opts
        (accepts, λ y. subst (IsPin Trusted) kept (forces y))
        (stored_host_key-IsPin (with_default_socket request).host existing w pinned read) decided
    where
      kept : request.host_key ≡ (with_default_socket request).host_key
      kept = ground arith

  -- What the file holds after a change is pinned as what was written.
  file-IsPinned :
      (rs : List Remote) (w : World) → w.file ≡ ok rs → ArePinned Trusted rs → IsPinned Trusted w
  file-IsPinned rs w f pinned others g = subst (ArePinned Trusted) (ground (arith, f, g)) pinned

  pending-IsPin :
      (existing : Str) (entry : Remote) (waiting : List (Str × Remote))
      → Any (λ p. p ≡ (existing, entry)) waiting
      → All (λ p. IsPin Trusted p.1.host_key) waiting
      → IsPin Trusted entry.host_key
  pending-IsPin existing entry [] m ps = absurd m
  pending-IsPin existing entry (p ∷ waiting) (inl same) (h, ps) =
      subst (λ q. IsPin Trusted q.1.host_key) same h
  pending-IsPin existing entry (p ∷ waiting) (inr later) (h, ps) =
      pending-IsPin existing entry waiting later ps

  Step-IsTrusted : {s t : System} → Step env Trusted s t → IsTrusted Trusted s → IsTrusted Trusted t
  unfolding apply
  Step-IsTrusted {s} (begin request opts existing entry careful e) h = record {
    stored = h.stored;
    waiting = (add_begin-IsPin request entry opts existing s.world careful h.stored e, h.waiting);
  }
  Step-IsTrusted {s} (commit existing entry m) h = record {
    stored =
        add_commit-cases env (λ o. IsPinned Trusted o.1) existing entry s.world
          (λ o early. h.stored)
          (λ rs f.
            file-IsPinned (upsert env.fold entry rs)
              ((apply env (upsert env.fold entry rs) s.world).1) refl
              (upsert-All env.fold (λ r. IsPin Trusted r.host_key) entry rs
                (pending-IsPin existing entry s.pending m h.waiting) (h.stored rs f)));
    waiting = h.waiting;
  }
  Step-IsTrusted {s} (patching host p) h = record {
    stored =
        patch-cases env (λ o. IsPinned Trusted o.1) host p s.world (λ o early. h.stored)
          (λ rs r f there valid.
            let pinned : ArePinned Trusted (replace env.fold host (patched p r) rs) =
              replace-All env.fold (λ x. IsPin Trusted x.host_key) host (patched p r) rs
                (find-All env.fold (λ x. IsPin Trusted x.host_key) host rs r there (h.stored rs f))
                (h.stored rs f) in
            (
              λ now.
                  file-IsPinned (replace env.fold host (patched p r) rs)
                    ((apply env (replace env.fold host (patched p r) rs) s.world).1) refl pinned,
              λ later.
                  file-IsPinned (replace env.fold host (patched p r) rs)
                    (saved env (replace env.fold host (patched p r) rs) s.world) refl pinned,
            ));
    waiting = h.waiting;
  }
  Step-IsTrusted {s} (removing host) h = record {
    stored =
        remove-cases env (λ o. IsPinned Trusted o.1) host s.world (λ o early. h.stored)
          (λ rs f absent. h.stored)
          (λ rs others f left. file-IsPinned others ((apply env others s.world).1) refl (
            remove-All env.fold (λ x. IsPin Trusted x.host_key) host rs others left
              (h.stored rs f)));
    waiting = h.waiting;
  }
  Step-IsTrusted {s} resyncing h = record {
    stored =
        resync-cases env (λ o. IsPinned Trusted o.1) s.world (λ o early. h.stored)
          (λ rs f. file-IsPinned rs ((apply env rs s.world).1) refl (h.stored rs f));
    waiting = h.waiting;
  }
  Step-IsTrusted closing h = record { stored = h.stored; waiting = h.waiting }

module _ (env : Env) (Trusted : Str → Type 0) where
  -- Whatever the verifier reports and in whatever order requests and transactions come, the pins of
  -- ssh.yaml stay empty or trusted, if callers confirm the fingerprints of trusted keys only, and
  -- with Force give no key or a trusted one.
  pub Reach-IsTrusted :
      {s t : System} → Reach env Trusted s t → IsTrusted Trusted s → IsTrusted Trusted t
  Reach-IsTrusted start h = h
  Reach-IsTrusted (next path verify connected save step) h =
      Step-IsTrusted (answering env verify connected save) Trusted step (Reach-IsTrusted path h)
