-- ===== src/SshFwd/Registry/Sound.antt =====
-- internal/sshfwd/registry.go: the file, the running set and how they agree.
use dotvault.Prelude.{
  is_ascii, Str, Bool, true, false, not, List, Option, none, some, ok, err, ◌≡◌, ◌≢◌, refl, sym, ap,
  ◌∙◌, inl, inr, Option-cases, arith, str_has_eq,
}
use mathlib.Core.Path.{subst}
use dotvault.SshFwd.Config.{Remote, validate_remote, find, equal_fold, upsert, replace}
use dotvault.SshFwd.Config as Config
use dotvault.SshFwd.Config.Entries.{
  IsUnique, AreValid, replace-All, upsert-All, remove-All, find-host, upsert-IsUnique,
  replace-IsUnique, remove-IsUnique,
}
use dotvault.SshFwd.Manager.{Manager, ManagerError, normalize_host, reconcile}
use dotvault.SshFwd.Manager.Desired.{AreAscii}
use dotvault.SshFwd.Manager.Settled.{IsHealthy}
use dotvault.SshFwd.Manager.Applied.{
  IsApplied, reconcile-IsApplied, reconcile-IsHealthy, reconcile-error, reconcile-total,
}
use dotvault.SshFwd.Registry.{
  Env, World, RegistryError, not_applied, Patch, patched, is_deferred, apply, add_commit, patch,
  remove, resync,
}
use dotvault.SshFwd.Registry.Cases.{
  Outcome, is_early, saved, add_commit-cases, patch-cases, remove-cases, resync-cases,
}

-- A transaction: what is done under the lock.
pub data Transaction : Type 0 where
  adding : Str → Remote → Transaction
  changing : Str → Patch → Transaction
  dropping : Str → Transaction
  reading : Transaction

-- An Add brings an entry that was validated, and a Patch that is deferred is another matter.
unfoldable pub is_valid : Transaction → Bool
is_valid (adding existing r) = elim (validate_remote r) [ none ↦ true | some e ↦ false ]
is_valid (changing host p) = true
is_valid (dropping host) = true
is_valid reading = true

unfoldable pub is_inline : Transaction → Bool
is_inline (adding existing r) = true
is_inline (changing host p) = not (is_deferred p)
is_inline (dropping host) = true
is_inline reading = true

module _ (fold : Str → Str) where
  -- The file lists valid entries, each host once.
  pub record IsListed (rs : List Remote) : Type 0 where
    pub unique : IsUnique fold rs
    pub valid : AreValid fold rs

  pub record IsSound (w : World) : Type 0 where
    pub listed : (rs : List Remote) → w.file ≡ ok rs → IsListed rs
    pub healthy : IsHealthy w.manager

module _ (env : Env) where
  unfoldable pub transact : Transaction → World → Option RegistryError × World
  transact (adding existing r) w = add_commit env existing r w
  transact (changing host p) w = patch env host p w
  transact (dropping host) w = ((remove env host w).0.1, (remove env host w).1)
  transact reading w = resync env w

  -- Remove of a host that has no entry does nothing.
  unfoldable pub is_absent : Transaction → World → Bool
  is_absent (adding existing r) w = false
  is_absent (changing host p) w = false
  is_absent reading w = false
  is_absent (dropping host) w = elim w.file [
    | err e ↦ false
    | ok rs ↦ elim (Config.remove env.fold host rs) [ none ↦ true | some others ↦ false ]
  ]

  -- A transaction changes nothing, or saves a file that is listed and applies it at once, or saves
  -- it for later.
  transact-cases {ℓ} :
      (P : Outcome env → Type ℓ) (t : Transaction) (w : World)
      → is_valid t ≡ true
      → ((rs : List Remote) → w.file ≡ ok rs → IsListed env.fold rs)
      → ((o : Option RegistryError) → is_early o ≡ true → P (o, w))
      → (is_absent t w ≡ true → P (none, w))
      → ((rs : List Remote) → IsListed env.fold rs → P (apply env rs w))
      → ((rs : List Remote) → is_inline t ≡ false → IsListed env.fold rs → P (none, saved env rs w))
      → P (transact t w)
  unfolding transact is_valid is_inline is_absent
  transact-cases P (adding existing r) w v listed same nothing now later =
      add_commit-cases env P existing r w same (λ rs f. now (upsert env.fold r rs) (record {
        unique = upsert-IsUnique env.fold r rs (listed rs f).unique;
        valid =
            upsert-All env.fold (λ x. validate_remote x ≡ none) r rs (ground (arith, v))
              (listed rs f).valid;
      }))
  transact-cases P (changing host p) w v listed same nothing now later =
      patch-cases env P host p w same (λ rs r f there fine.
        let l : IsListed env.fold (replace env.fold host (patched p r) rs) = record {
          unique =
              replace-IsUnique env.fold host (patched p r) rs (find-host env.fold host rs r there)
                (listed rs f).unique;
          valid =
              replace-All env.fold (λ x. validate_remote x ≡ none) host (patched p r) rs fine
                (listed rs f).valid;
        } in
        (
          λ at_once. now (replace env.fold host (patched p r) rs) l,
          λ deferred. later (replace env.fold host (patched p r) rs) (ground (arith, deferred)) l,
        ))
  transact-cases P (dropping host) w v listed same nothing now later =
      remove-cases env P host w same (λ rs f absent. nothing (ground (arith, f, absent)))
        (λ rs others f left. now others (record {
          unique = remove-IsUnique env.fold host rs others left (listed rs f).unique;
          valid =
              remove-All env.fold (λ x. validate_remote x ≡ none) host rs others left
                (listed rs f).valid;
        }))
  transact-cases P reading w v listed same nothing now later =
      resync-cases env P w same (λ rs f. now rs (listed rs f))

  reconciled-IsHealthy :
      (rs : List Remote) (m : Manager)
      → IsHealthy m
      → IsHealthy (reconcile env.unicode env.fold rs m).1
  reconciled-IsHealthy rs m healthy = elim (Option-cases (reconcile env.unicode env.fold rs m).0) [
    | inl fine ↦
        reconcile-IsHealthy env.unicode env.fold rs m (reconcile env.unicode env.fold rs m).1
          healthy (ap (λ o. (o, (reconcile env.unicode env.fold rs m).1)) fine)
    | inr (bad, failed) ↦
        subst IsHealthy
          (sym (
            reconcile-error env.unicode env.fold rs m (reconcile env.unicode env.fold rs m).1 bad
              (ap (λ o. (o, (reconcile env.unicode env.fold rs m).1)) failed)))
          healthy
  ]

  file-IsListed :
      (rs : List Remote) (w : World)
      → w.file ≡ ok rs
      → IsListed env.fold rs
      → (others : List Remote) → w.file ≡ ok others
      → IsListed env.fold others
  file-IsListed rs w f l others g = subst (IsListed env.fold) (ground (arith, f, g)) l

  -- A transaction keeps a world sound.
  pub transact-IsSound :
      (t : Transaction) (w : World)
      → is_valid t ≡ true
      → IsSound env.fold w
      → IsSound env.fold (transact t w).1
  unfolding apply
  transact-IsSound t w v sound =
      transact-cases (λ o. IsSound env.fold o.1) t w v sound.listed (λ o early. sound)
        (λ absent. sound)
        (λ rs l. record {
          listed = file-IsListed rs (apply env rs w).1 refl l;
          healthy = reconciled-IsHealthy rs w.manager sound.healthy;
        })
        (λ rs deferred l. record {
          listed = file-IsListed rs (saved env rs w) refl l;
          healthy = sound.healthy;
        })

  applied :
      (rs : List Remote) (w : World)
      → (apply env rs w).0 ≡ none
      → (reconcile env.unicode env.fold rs w.manager).0 ≡ none
  unfolding apply
  applied rs w fine = elim (Option-cases (reconcile env.unicode env.fold rs w.manager).0) [
    | inl e ↦ e
    | inr (bad, e) ↦ ground (arith, fine, e)
  ]

  -- A transaction that reports no error leaves a file that lists valid entries, each host once, and
  -- as managed remotes exactly those of its entries, with their configuration and running if they
  -- are enabled, provided that before it the file listed valid entries, each host once, and a
  -- managed remote ran exactly if its entry was enabled, that an entry that is added was validated,
  -- a patch is not deferred, and a host that is removed has an entry.
  pub transact-IsApplied :
      (t : Transaction) (w : World)
      → is_valid t ≡ true
      → IsSound env.fold w
      → is_inline t ≡ true
      → is_absent t w ≡ false
      → (transact t w).0 ≡ none
      → (rs : List Remote) × ((transact t w).1.file ≡ ok rs)
        × IsListed env.fold rs
        × IsApplied env.unicode env.fold rs (transact t w).1.manager
  unfolding apply is_early
  transact-IsApplied t w v sound at_once present =
      transact-cases
        (λ o.
          o.0 ≡ none
          → (rs : List Remote) × (o.1.file ≡ ok rs)
            × IsListed env.fold rs
            × IsApplied env.unicode env.fold rs o.1.manager)
        t w v sound.listed (λ o early fine. absurd (differ (sym early ∙ ap is_early fine)))
        (λ absent fine. absurd (differ (sym absent ∙ present)))
        (λ rs l fine. (
          rs,
          refl,
          l,
          reconcile-IsApplied env.unicode env.fold rs w.manager
              (reconcile env.unicode env.fold rs w.manager).1 sound.healthy
              (ap (λ o. (o, (reconcile env.unicode env.fold rs w.manager).1)) (applied rs w fine)),
        ))
        (λ rs deferred l fine. absurd (differ (sym at_once ∙ deferred)))
    where
      differ : true ≡ false → ⊥
      differ e = cc

  -- While the manager is open no transaction reports that a file that was saved could not be
  -- applied, provided that before it the file listed valid entries, each host once, and a managed
  -- remote ran exactly if its entry was enabled, that an entry that is added was validated, that
  -- the file it leaves lists hosts of ASCII, and that hosts of ASCII with one lower-case form are
  -- equal to EqualFold.
  pub transact-applies :
      ((a b : Str)
        → is_ascii a ≡ true
        → is_ascii b ≡ true
        → normalize_host env.unicode env.fold a ≡ normalize_host env.unicode env.fold b
        → env.fold a ≡ env.fold b)
      → (t : Transaction) (w : World) → is_valid t ≡ true
      → IsSound env.fold w
      → ((rs : List Remote) → (transact t w).1.file ≡ ok rs → AreAscii rs)
      → w.manager.closed ≡ false
      → (e : ManagerError) → (transact t w).0 ≢ some (not_applied e)
  unfolding apply is_early
  transact-applies h t w v sound plain open_still e =
      transact-cases
        (λ o. ((rs : List Remote) → o.1.file ≡ ok rs → AreAscii rs) → o.0 ≢ some (not_applied e)) t
        w v sound.listed (λ o early ascii same. differ (sym early ∙ ap is_early same))
        (λ absent ascii same. cc same)
        (λ rs l ascii same. ground (
          arith,
          same,
          reconcile-total env.unicode env.fold h rs w.manager l.unique (ascii rs refl) l.valid
              open_still,
        ))
        (λ rs deferred l ascii same. cc same) plain
    where
      differ : true ≡ false → ⊥
      differ e = cc e
