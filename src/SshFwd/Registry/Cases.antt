-- ===== src/SshFwd/Registry/Cases.antt =====
-- internal/sshfwd/registry.go: what a mutation makes of the file and the manager.
use dotvault.Prelude.{
  Str, Bool, true, false, List, Option, none, some, ok, ◌≡◌, ◌⊎◌, refl, sym, ap, ◌∙◌, inl, inr,
  Bool-cases, Option-cases, Result-cases, arith,
}
use dotvault.SshFwd.Config.{Remote, validate_remote, find, upsert, replace}
use dotvault.SshFwd.Config as Config
use dotvault.SshFwd.Registry.{
  RegistryError, unreadable, not_saved, changed_concurrently, host_not_found, delay_out_of_range,
  invalid, not_applied, Env, World, VerifyResult, AddOptions, with_default_socket, or_else,
  check_reported, choose_pin, stored_host_key, decide, add_begin, Patch, patched, delay_in_range,
  pin_changed, apply, store, store_only, is_deferred, add_commit, patch, remove, resync,
}

-- An error that comes before anything is changed.
unfoldable pub is_early : Option RegistryError → Bool
is_early none = false
is_early (some (not_applied e)) = false
is_early (some e) = true

module _ (env : Env) where
  abbrev pub Outcome : Type 0
  Outcome = Option RegistryError × World

  abbrev pub saved : List Remote → World → World
  saved rs w = record w { file = ok rs }

  pub store-cases {ℓ} :
      (P : Outcome → Type ℓ) (rs : List Remote) (w : World)
      → ((o : Option RegistryError) → is_early o ≡ true → P (o, w))
      → P (apply env rs w)
      → P (store env rs w)
  unfolding store is_early
  store-cases P rs w same stored = elim (Option-cases (env.save rs)) [
    | inl fine ↦ rw (store, fine) stored
    | inr (e, bad) ↦ rw (store, bad) (same (some (not_saved e)) refl)
  ]

  store_only-cases {ℓ} :
      (P : Outcome → Type ℓ) (rs : List Remote) (w : World)
      → ((o : Option RegistryError) → is_early o ≡ true → P (o, w))
      → P (none, saved rs w)
      → P (store_only env rs w)
  unfolding store_only is_early
  store_only-cases P rs w same stored = elim (Option-cases (env.save rs)) [
    | inl fine ↦ rw (store_only, fine) stored
    | inr (e, bad) ↦ rw (store_only, bad) (same (some (not_saved e)) refl)
  ]

  pub add_commit-cases {ℓ} :
      (P : Outcome → Type ℓ) (existing : Str) (r : Remote) (w : World)
      → ((o : Option RegistryError) → is_early o ≡ true → P (o, w))
      → ((rs : List Remote) → w.file ≡ ok rs → P (apply env (upsert env.fold r rs) w))
      → P (add_commit env existing r w)
  unfolding add_commit is_early
  add_commit-cases P existing r w same stored = elim (Result-cases w.file) [
    | inl (e, f) ↦ rw (add_commit, f) (same (some (unreadable e)) refl)
    | inr (rs, f) ↦ elim (Bool-cases (pin_changed env r.host existing rs)) [
      | inl y ↦ rw (add_commit, f, y) (same (some changed_concurrently) refl)
      | inr n ↦ rw (add_commit, f, n) (store-cases P (upsert env.fold r rs) w same (stored rs f))
    ]
  ]

  pub patch-cases {ℓ} :
      (P : Outcome → Type ℓ) (host : Str) (p : Patch) (w : World)
      → ((o : Option RegistryError) → is_early o ≡ true → P (o, w))
      → ((rs : List Remote) (r : Remote)
          → w.file ≡ ok rs
          → find env.fold host rs ≡ some r
          → validate_remote (patched p r) ≡ none
          → (is_deferred p ≡ false → P (apply env (replace env.fold host (patched p r) rs) w))
            × (is_deferred p ≡ true → P (none, saved (replace env.fold host (patched p r) rs) w)))
      → P (patch env host p w)
  unfolding patch is_early
  patch-cases P host p w same stored = elim (Bool-cases (delay_in_range p.reconcile_delay)) [
    | inr n ↦ rw (patch, n) (same (some delay_out_of_range) refl)
    | inl y ↦ elim (Result-cases w.file) [
      | inl (e, f) ↦ rw (patch, y, f) (same (some (unreadable e)) refl)
      | inr (rs, f) ↦ elim (Option-cases (find env.fold host rs)) [
        | inl absent ↦ rw (patch, y, f, absent) (same (some host_not_found) refl)
        | inr (r, there) ↦ elim (Option-cases (validate_remote (patched p r))) [
          | inr (e, bad) ↦ rw (patch, y, f, there, bad) (same (some (invalid e)) refl)
          | inl fine ↦ elim (Bool-cases (is_deferred p)) [
            | inl later ↦
                rw (patch, y, f, there, fine, later)
                  (store_only-cases P (replace env.fold host (patched p r) rs) w same
                    ((stored rs r f there fine).1 later))
            | inr now ↦
                rw (patch, y, f, there, fine, now)
                  (store-cases P (replace env.fold host (patched p r) rs) w same
                    ((stored rs r f there fine).0 now))
          ]
        ]
      ]
    ]
  ]

  pub remove-cases {ℓ} :
      (P : Outcome → Type ℓ) (host : Str) (w : World)
      → ((o : Option RegistryError) → is_early o ≡ true → P (o, w))
      → ((rs : List Remote) → w.file ≡ ok rs → Config.remove env.fold host rs ≡ none → P (none, w))
      → ((rs others : List Remote)
          → w.file ≡ ok rs
          → Config.remove env.fold host rs ≡ some others
          → P (apply env others w))
      → P ((remove env host w).0.1, (remove env host w).1)
  unfolding remove is_early
  remove-cases P host w same nothing stored = elim (Result-cases w.file) [
    | inl (e, f) ↦ rw (remove, f) (same (some (unreadable e)) refl)
    | inr (rs, f) ↦ elim (Option-cases (Config.remove env.fold host rs)) [
      | inl absent ↦ rw (remove, f, absent) (nothing rs f absent)
      | inr (others, left) ↦ elim (Option-cases (env.save others)) [
        | inl fine ↦ rw (remove, f, left, fine) (stored rs others f left)
        | inr (e, bad) ↦ rw (remove, f, left, bad) (same (some (not_saved e)) refl)
      ]
    ]
  ]

  pub resync-cases {ℓ} :
      (P : Outcome → Type ℓ) (w : World)
      → ((o : Option RegistryError) → is_early o ≡ true → P (o, w))
      → ((rs : List Remote) → w.file ≡ ok rs → P (apply env rs w))
      → P (resync env w)
  unfolding resync is_early
  resync-cases P w same stored = elim (Result-cases w.file) [
    | inl (e, f) ↦ rw (resync, f) (same (some (unreadable e)) refl)
    | inr (rs, f) ↦ rw (resync, f) (stored rs f)
  ]

  pub add_begin-cases :
      (request entry : Remote) (opts : AddOptions) (existing : Str) (w : World)
      → add_begin env request opts w ≡ ok (existing, entry)
      → (validate_remote (with_default_socket request) ≡ none)
        × (stored_host_key env (with_default_socket request).host w ≡ ok existing)
        × (decide env existing (with_default_socket request) opts ≡ ok entry)
  unfolding add_begin
  add_begin-cases request entry opts existing w e =
      elim (Option-cases (validate_remote (with_default_socket request))) [
        | inr (bad, f) ↦ ground (arith, e, f)
        | inl fine ↦
            elim (Result-cases (stored_host_key env (with_default_socket request).host w)) [
              | inl (bad, f) ↦ ground (arith, e, fine, f)
              | inr (k, f) ↦ elim (Result-cases (decide env k (with_default_socket request) opts)) [
                | inl (bad, g) ↦ ground (arith, e, fine, f, g)
                | inr (r, g) ↦ (
                  fine,
                  f ∙ ap ok (ground (arith, e, fine, f, g)),
                  ap (λ x. decide env x (with_default_socket request) opts)
                        (sym (ground (arith, e, fine, f, g)))
                      ∙ g
                      ∙ ap ok (ground (arith, e, fine, f, g)),
                )
              ]
            ]
      ]

  -- The entry is the request with a pin: the one given or stored if the add is forced, else the one
  -- chosen on what the verifier reports.
  pub decide-cases :
      (existing : Str) (r entry : Remote) (opts : AddOptions)
      → decide env existing r opts ≡ ok entry
      → (k : Str) × (record r { host_key = k } ≡ entry)
        × (((opts.force ≡ true) × (k ≡ or_else r.host_key existing))
            ⊎ ((v : VerifyResult) × (check_reported env.key_fingerprint v ≡ none)
                × (choose_pin existing opts v ≡ ok k)))
  unfolding decide
  decide-cases existing r entry opts e = elim (Bool-cases opts.force) [
    | inl y ↦ (or_else r.host_key existing, ground (arith, e, y), inl (y, refl))
    | inr n ↦
        elim (Result-cases (
          env.verify (env.connected r.host)
            (record r { host_key = or_else r.host_key existing }))) [
              | inl (bad, f) ↦ ground (arith, e, n, f)
              | inr (v, f) ↦ elim (Option-cases (check_reported env.key_fingerprint v)) [
                | inr (bad, g) ↦ ground (arith, e, n, f, g)
                | inl checked ↦ elim (Result-cases (choose_pin existing opts v)) [
                  | inl (bad, h) ↦ ground (arith, e, n, f, checked, h)
                  | inr (pin, h) ↦ (pin, ground (arith, e, n, f, checked, h), inr (v, checked, h))
                ]
              ]
            ]
  ]
