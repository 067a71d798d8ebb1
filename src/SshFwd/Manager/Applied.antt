-- ===== src/SshFwd/Manager/Applied.antt =====
-- internal/sshfwd/manager.go: what Reconcile leaves running, and what it leaves alone.
use dotvault.Prelude.{
  is_ascii, true, Str, Map, false, List, [], ◌∷◌, Option, none, some, ok, ◌≡◌, refl, sym, ap, ◌∙◌,
  inl, inr, lookup, str_has_eq, Bool-cases, Option-cases, Result-cases, All, Any, arith,
}
use mathlib.Core.Path.{subst}
use dotvault.SshFwd.Config.{Remote, enabled_or_default}
use dotvault.SshFwd.Config.Entries.{IsUnique, AreValid}
use dotvault.SshFwd.Manager.{
  ManagedRemote, Manager, ManagerError, keys, normalize_host, desired, desired_from, is_victim,
  retire_each, retire, managed, start_each, start_missing, reconcile,
}
use dotvault.SshFwd.Manager.Desired.{
  AreAscii, key_of, desired_from-All, desired_from-Any, desired-total,
}
use dotvault.SshFwd.Manager.Settled.{
  IsSettled, IsHealthy, kept, lookup-keys, lookup-retired, same_as_refl, same_as-enabled,
  IsSettled-spared, spared-IsSettled, unwanted-victim, start_each-there, start_each-unwanted,
  start_each-made,
}

module _ (unicode fold : Str → Str) where
  -- The managed remotes are the entries: each has one that is settled, and there are no others.
  pub record IsApplied (rs : List Remote) (m : Manager) : Type 0 where
    pub each :
        All
          (λ r.
            (mr : ManagedRemote) × (lookup (key_of unicode fold r) m.remotes ≡ some mr)
            × IsSettled unicode fold r mr)
          rs
    pub only :
        (k : Str) (mr : ManagedRemote)
        → lookup k m.remotes ≡ some mr
        → Any (λ r. key_of unicode fold r ≡ k) rs

  desired-loop :
      (rs : List Remote) (d : Map Str Remote)
      → desired unicode fold rs ≡ ok d
      → desired_from unicode fold rs [] ≡ ok d
  unfolding desired
  desired-loop rs d e = ground (arith, e)

  abbrev retired : Map Str Remote → Manager → Manager
  retired d m = record m { remotes = retire_each unicode fold d (keys m.remotes) m.remotes }

  -- Both critical sections, of a manager that is open.
  abbrev settle : Map Str Remote → Manager → Manager
  settle d m = start_each unicode fold d (keys d) (retired d m)

  reconcile-cases :
      (rs : List Remote) (m m' : Manager)
      → reconcile unicode fold rs m ≡ (none, m')
      → (d : Map Str Remote) × (desired unicode fold rs ≡ ok d)
        × (m.closed ≡ false)
        × (settle d m ≡ m')
  unfolding reconcile retire start_missing
  reconcile-cases rs m m' e = elim (Result-cases (desired unicode fold rs)) [
    | inl (bad, f) ↦ ground (arith, e, f)
    | inr (d, f) ↦ (d, f, ground (arith, e, f), ground (arith, e, f))
  ]

  kept-some :
      (d : Map Str Remote) (k : Str) (o : Option ManagedRemote) (mr : ManagedRemote)
      → kept unicode fold d k o ≡ some mr
      → (o ≡ some mr) × (is_victim unicode fold d k mr ≡ false)
  kept-some d k none mr e = cc e
  kept-some d k (some old) mr e = elim (Bool-cases (is_victim unicode fold d k old)) [
    | inl y ↦ ground (arith, e, y)
    | inr n ↦ (ground (arith, e, n), ap (is_victim unicode fold d k) (ground (arith, e, n)) ∙ n)
  ]

  settle-wanted :
      (d : Map Str Remote) (k : Str) (r : Remote) (m : Manager)
      → IsHealthy m
      → lookup k d ≡ some r
      → (mr : ManagedRemote) × (lookup k (settle d m).remotes ≡ some mr)
        × IsSettled unicode fold r mr
  settle-wanted d k r m healthy w =
      elim (Option-cases (kept unicode fold d k (lookup k m.remotes))) [
        | inl gone ↦
            let (id, made) =
              start_each-made unicode fold d k r (keys d) (retired d m)
                (lookup-retired unicode fold d k m.remotes ∙ gone) w (lookup-keys k r d w) in
            (managed r id, made, (refl, same_as_refl unicode fold r))
        | inr (mr, stays) ↦
            let (there, spared) = kept-some d k (lookup k m.remotes) mr stays in
            (
              mr,
              start_each-there unicode fold d k mr (keys d) (retired d m)
                  (lookup-retired unicode fold d k m.remotes ∙ stays),
              spared-IsSettled unicode fold d k r mr w (healthy.runs k mr there) spared,
            )
      ]

  settle-unwanted :
      (d : Map Str Remote) (k : Str) (m : Manager)
      → lookup k d ≡ none
      → lookup k (settle d m).remotes ≡ none
  settle-unwanted d k m w =
      start_each-unwanted unicode fold d k (keys d) (retired d m)
        (lookup-retired unicode fold d k m.remotes ∙ gone (lookup k m.remotes)) w
    where
      gone : (o : Option ManagedRemote) → kept unicode fold d k o ≡ none
      gone none = refl
      gone (some mr) = ground (arith, unwanted-victim unicode fold d k mr w)

  map_All :
      (P Q : Remote → Type 0) (rs : List Remote) → ((r : Remote) → P r → Q r) → All P rs → All Q rs
  map_All P Q [] f h = tt
  map_All P Q (r ∷ rs) f (p, h) = (f r p, map_All P Q rs f h)

  -- A Reconcile that succeeds leaves as managed remotes exactly those of the entries, each with the
  -- configuration of its entry and running if the entry is enabled, where every managed remote
  -- whose entry is enabled was running before.
  pub reconcile-IsApplied :
      (rs : List Remote) (m m' : Manager)
      → IsHealthy m
      → reconcile unicode fold rs m ≡ (none, m')
      → IsApplied rs m'
  unfolding lookup
  reconcile-IsApplied rs m m' healthy e =
      let (d, f, _, settled) = reconcile-cases rs m m' e in
      subst (IsApplied rs) settled (record {
        each =
            map_All (λ r. lookup (key_of unicode fold r) d ≡ some r)
              (λ r.
                (mr : ManagedRemote) × (lookup (key_of unicode fold r) (settle d m).remotes
                  ≡ some mr)
                × IsSettled unicode fold r mr)
              rs (λ r w. settle-wanted d (key_of unicode fold r) r m healthy w)
              (desired_from-All unicode fold rs [] d (desired-loop rs d f));
        only = λ k mr there. elim (Option-cases (lookup k d)) [
          | inl unwanted ↦ absurd (differ (sym (settle-unwanted d k m unwanted) ∙ there))
          | inr (r, w) ↦ elim (desired_from-Any unicode fold k r rs [] d (desired-loop rs d f) w) [
            | inl nowhere ↦ absurd (differ nowhere)
            | inr listed ↦ named k r rs listed
          ]
        ];
      })
    where
      differ : {A : Type 0} {a : A} → none ≡ some a → ⊥
      differ e = cc e

      named :
          (k : Str) (r : Remote) (xs : List Remote)
          → Any (λ x. (x ≡ r) × (key_of unicode fold x ≡ k)) xs
          → Any (λ x. key_of unicode fold x ≡ k) xs
      named k r [] h = h
      named k r (x ∷ xs) (inl (_, same)) = inl same
      named k r (x ∷ xs) (inr later) = inr (named k r xs later)

  -- What Reconcile leaves is healthy again.
  pub reconcile-IsHealthy :
      (rs : List Remote) (m m' : Manager)
      → IsHealthy m
      → reconcile unicode fold rs m ≡ (none, m')
      → IsHealthy m'
  reconcile-IsHealthy rs m m' healthy e =
      let (d, f, _, settled) = reconcile-cases rs m m' e in
      subst IsHealthy settled (record {
        runs = λ k mr there. elim (Option-cases (lookup k d)) [
          | inl unwanted ↦ absurd (differ (sym (settle-unwanted d k m unwanted) ∙ there))
          | inr (r, w) ↦
              let (mr', there', (runs, same)) = settle-wanted d k r m healthy w in
              subst (λ x. x.running ≡ enabled_or_default x.cfg)
                (injective mr' mr (sym there' ∙ there))
                (runs ∙ sym (same_as-enabled unicode fold mr'.cfg r same))
        ];
      })
    where
      injective : (a b : ManagedRemote) → some a ≡ some b → a ≡ b
      injective a b e = ground (arith, e)

      differ : {mr : ManagedRemote} → none ≡ some mr → ⊥
      differ e = cc e

  -- A managed remote that has the configuration of a configured entry, under its key, and runs
  -- exactly if that entry is enabled is the same one after a Reconcile that succeeds.
  pub reconcile-keeps :
      (rs : List Remote) (m m' : Manager)
      → reconcile unicode fold rs m ≡ (none, m')
      → All
          (λ r.
            (mr : ManagedRemote)
            → lookup (key_of unicode fold r) m.remotes ≡ some mr
            → IsSettled unicode fold r mr
            → lookup (key_of unicode fold r) m'.remotes ≡ some mr)
          rs
  reconcile-keeps rs m m' e =
      let (d, f, _, settled) = reconcile-cases rs m m' e in
      map_All (λ r. lookup (key_of unicode fold r) d ≡ some r)
        (λ r.
          (mr : ManagedRemote)
          → lookup (key_of unicode fold r) m.remotes ≡ some mr
          → IsSettled unicode fold r mr
          → lookup (key_of unicode fold r) m'.remotes ≡ some mr)
        rs
        (λ r w mr there fits.
          ap (λ n. lookup (key_of unicode fold r) n.remotes) (sym settled)
          ∙ start_each-there unicode fold d (key_of unicode fold r) mr (keys d) (retired d m) (
              lookup-retired unicode fold d (key_of unicode fold r) m.remotes
              ∙ ground (
                arith,
                there,
                IsSettled-spared unicode fold d (key_of unicode fold r) r mr w fits,
              )))
        (desired_from-All unicode fold rs [] d (desired-loop rs d f))

  -- An open manager reconciles every list of valid entries with different hosts of ASCII.
  pub reconcile-total :
      ((a b : Str)
        → is_ascii a ≡ true
        → is_ascii b ≡ true
        → normalize_host unicode fold a ≡ normalize_host unicode fold b
        → fold a ≡ fold b)
      → (rs : List Remote) (m : Manager) → IsUnique fold rs
      → AreAscii rs
      → AreValid fold rs
      → m.closed ≡ false
      → (reconcile unicode fold rs m).0 ≡ none
  unfolding reconcile retire start_missing
  reconcile-total h rs m u plain v open_still =
      let (d, f) = desired-total unicode fold h rs u plain v in ground (arith, f, open_still)

  -- A Reconcile that fails leaves the manager as it was.
  pub reconcile-error :
      (rs : List Remote) (m m' : Manager) (bad : ManagerError)
      → reconcile unicode fold rs m ≡ (some bad, m')
      → m' ≡ m
  unfolding reconcile retire start_missing
  reconcile-error rs m m' bad e = elim (Result-cases (desired unicode fold rs)) [
    | inl (_, f) ↦ ground (arith, e, f)
    | inr (d, f) ↦ ground (arith, e, f)
  ]
