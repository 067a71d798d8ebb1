-- ===== src/SshFwd/Manager/Settled.antt =====
-- internal/sshfwd/manager.go: after Reconcile the managed remotes are those that are configured.
use dotvault.Prelude.{
  ℕ, ℤ, pos, negsuc, Str, Map, true, false, List, [], ◌∷◌, Option, none, some, ◌≡◌, refl, ◌∙◌, inl,
  inr, lookup, lookup-insert, lookup-delete, str_has_eq, str_eq, str_eq_iff, str_eq_refl, any_equal,
  Bool-cases, Option-cases, arith, if◌then◌else◌,
}
use dotvault.SshFwd.Config.{
  Remote, port_or_default, int_eq, enabled_or_default, same_as, equal_fold,
}
use dotvault.SshFwd.Manager.{
  ManagedRemote, Manager, keys, is_victim, retire_one, retire_each, managed, start_one, start_each,
}

pub lookup-keys {ℓ} :
    {V : Type ℓ} (k : Str) (v : V) (m : Map Str V)
    → lookup k m ≡ some v
    → any_equal (keys m) k ≡ true
unfolding lookup any_equal
lookup-keys k v [] e = cc e
lookup-keys k v ((j, w) ∷ m) e =
    ground (arith, e, str_eq_iff j k, str_eq_iff k j, lookup-keys k v m)

int_eq_refl : (a : ℤ) → int_eq a a ≡ true
unfolding int_eq
int_eq_refl (pos n) = ground arith
int_eq_refl (negsuc n) = ground arith

-- A managed remote runs if its entry is enabled.
pub record IsHealthy (m : Manager) : Type 0 where
  pub runs :
      (k : Str) (mr : ManagedRemote)
      → lookup k m.remotes ≡ some mr
      → mr.running ≡ enabled_or_default mr.cfg

module _ (unicode fold : Str → Str) where
  -- The managed remote has the entry's configuration, and runs if the entry is enabled.
  abbrev pub IsSettled : Remote → ManagedRemote → Type 0
  IsSettled r mr = (mr.running ≡ enabled_or_default r) × (same_as fold mr.cfg r ≡ true)

  -- What the first critical section leaves under a key.
  abbrev pub kept : Map Str Remote → Str → Option ManagedRemote → Option ManagedRemote
  kept wanted k o = elim o [
    | none ↦ none
    | some mr ↦ if is_victim unicode fold wanted k mr then none else some mr
  ]

  kept_idem :
      (wanted : Map Str Remote) (k : Str) (o : Option ManagedRemote)
      → kept wanted k (kept wanted k o) ≡ kept wanted k o
  kept_idem wanted k none = refl
  kept_idem wanted k (some mr) = ground arith

  lookup-retire_one :
      (wanted : Map Str Remote) (key k : Str) (ms : Map Str ManagedRemote)
      → lookup k (retire_one unicode fold wanted key ms)
        ≡ (if str_eq key k then kept wanted k (lookup k ms) else lookup k ms)
  unfolding retire_one
  lookup-retire_one wanted key k ms = elim (Option-cases (lookup key ms)) [
    | inl absent ↦ ground (arith, absent, str_eq_iff key k)
    | inr (mr, there) ↦ ground (arith, there, str_eq_iff key k, lookup-delete key k ms)
  ]

  lookup-retire_each :
      (wanted : Map Str Remote) (k : Str) (ks : List Str) (ms : Map Str ManagedRemote)
      → lookup k (retire_each unicode fold wanted ks ms)
        ≡ (if any_equal ks k then kept wanted k (lookup k ms) else lookup k ms)
  unfolding retire_each any_equal
  lookup-retire_each wanted k [] ms = refl
  lookup-retire_each wanted k (key ∷ ks) ms = ground (
    arith,
    lookup-retire_each wanted k ks (retire_one unicode fold wanted key ms),
    lookup-retire_one wanted key k ms,
    kept_idem wanted k (lookup k ms),
    str_eq_iff key k,
    str_eq_iff k key,
  )

  pub lookup-retired :
      (wanted : Map Str Remote) (k : Str) (ms : Map Str ManagedRemote)
      → lookup k (retire_each unicode fold wanted (keys ms) ms) ≡ kept wanted k (lookup k ms)
  lookup-retired wanted k ms = elim (Option-cases (lookup k ms)) [
    | inl absent ↦ lookup-retire_each wanted k (keys ms) ms ∙ ground (arith, absent)
    | inr (mr, there) ↦
        lookup-retire_each wanted k (keys ms) ms ∙ ground (arith, lookup-keys k mr ms there)
  ]

  pub same_as-enabled :
      (r o : Remote) → same_as fold r o ≡ true → enabled_or_default r ≡ enabled_or_default o
  unfolding same_as
  same_as-enabled r o e = ground (arith, e)

  pub same_as_refl : (r : Remote) → same_as fold r r ≡ true
  unfolding same_as equal_fold
  same_as_refl r = ground (
    arith,
    str_eq_refl (fold r.host),
    str_eq_refl r.remote_socket,
    str_eq_refl r.host_key,
    int_eq_refl (port_or_default r),
  )

  pub IsSettled-spared :
      (wanted : Map Str Remote) (k : Str) (r : Remote) (mr : ManagedRemote)
      → lookup k wanted ≡ some r
      → IsSettled r mr
      → is_victim unicode fold wanted k mr ≡ false
  unfolding is_victim
  IsSettled-spared wanted k r mr l (runs, same) = ground (arith, l, runs, same)

  pub spared-IsSettled :
      (wanted : Map Str Remote) (k : Str) (r : Remote) (mr : ManagedRemote)
      → lookup k wanted ≡ some r
      → mr.running ≡ enabled_or_default mr.cfg
      → is_victim unicode fold wanted k mr ≡ false
      → IsSettled r mr
  unfolding is_victim
  spared-IsSettled wanted k r mr l runs n = ground (arith, l, runs, n, same_as-enabled mr.cfg r)

  pub unwanted-victim :
      (wanted : Map Str Remote) (k : Str) (mr : ManagedRemote)
      → lookup k wanted ≡ none
      → is_victim unicode fold wanted k mr ≡ true
  unfolding is_victim
  unwanted-victim wanted k mr l = ground (arith, l)

  lookup-start_one :
      (wanted : Map Str Remote) (key k : Str) (m : Manager)
      → lookup k (start_one unicode fold wanted key m).remotes ≡ elim (lookup k m.remotes) [
        | some mr ↦ some mr
        | none ↦
            if str_eq key k
            then elim (lookup k wanted) [ none ↦ none | some r ↦ some (managed r m.made) ]
            else none
      ]
  unfolding start_one
  lookup-start_one wanted key k m = elim (Option-cases (lookup key wanted)) [
    | inl w ↦ rw (w, start_one) (ground (arith, w, str_eq_iff key k))
    | inr (r, w) ↦ elim (Option-cases (lookup key m.remotes)) [
      | inl l ↦
          rw (w, start_one, l)
            (lookup-insert key k (managed r m.made) m.remotes
              ∙ ground (arith, w, l, str_eq_iff key k))
      | inr (mr, l) ↦ rw (w, start_one, l) (ground (arith, w, l, str_eq_iff key k))
    ]
  ]

  pub start_each-there :
      (wanted : Map Str Remote) (k : Str) (mr : ManagedRemote) (ks : List Str) (m : Manager)
      → lookup k m.remotes ≡ some mr
      → lookup k (start_each unicode fold wanted ks m).remotes ≡ some mr
  unfolding start_each
  start_each-there wanted k mr [] m l = l
  start_each-there wanted k mr (key ∷ ks) m l =
      start_each-there wanted k mr ks (start_one unicode fold wanted key m)
        (lookup-start_one wanted key k m ∙ ground (arith, l))

  pub start_each-unwanted :
      (wanted : Map Str Remote) (k : Str) (ks : List Str) (m : Manager)
      → lookup k m.remotes ≡ none
      → lookup k wanted ≡ none
      → lookup k (start_each unicode fold wanted ks m).remotes ≡ none
  unfolding start_each
  start_each-unwanted wanted k [] m l w = l
  start_each-unwanted wanted k (key ∷ ks) m l w =
      start_each-unwanted wanted k ks (start_one unicode fold wanted key m)
        (lookup-start_one wanted key k m ∙ ground (arith, l, w)) w

  pub start_each-made :
      (wanted : Map Str Remote) (k : Str) (r : Remote) (ks : List Str) (m : Manager)
      → lookup k m.remotes ≡ none
      → lookup k wanted ≡ some r
      → any_equal ks k ≡ true
      → (id : ℕ) × (lookup k (start_each unicode fold wanted ks m).remotes ≡ some (managed r id))
  unfolding start_each any_equal
  start_each-made wanted k r [] m l w h = cc h
  start_each-made wanted k r (key ∷ ks) m l w h = elim (Bool-cases (str_eq key k)) [
    | inl y ↦ (
      m.made,
      start_each-there wanted k (managed r m.made) ks (start_one unicode fold wanted key m)
          (lookup-start_one wanted key k m ∙ ground (arith, l, w, y)),
    )
    | inr n ↦
        start_each-made wanted k r ks (start_one unicode fold wanted key m)
          (lookup-start_one wanted key k m ∙ ground (arith, l, w, n)) w
          (ground (arith, h, n, str_eq_iff key k, str_eq_iff k key))
  ]
