-- ===== src/Auth/Denylist/Bound.antt =====
-- internal/auth/denylist.go never holds more than its bound, and what it gives up for that.
use dotvault.Prelude.{
  ℕ, ◌+◌, ◌≤◌, ◌<◌, ltb, Map, Str, List, [], ◌∷◌, Option, none, some, ◌≡◌, ◌≢◌, inl, inr, ◌⊎◌,
  arith, lookup, insert, delete, lookup-insert, lookup-delete, length-insert, length-delete_le,
  length-delete_lt, length, str_eq, str_eq_iff, str_has_eq, is_empty, if◌then◌else◌, Option-cases,
  Bool-cases,
}
use dotvault.Auth.Denylist.{
  TokenDenylist, max_denied_tokens, window, evict_oldest, ask, suppress, deny, note_rejection,
  clear, is_token_rejected,
}
use dotvault.Auth.Denylist.Entries.{IsKeyed, IsKeyed-insert, IsKeyed-delete, evict_oldest-Evicted}
use dotvault.Auth.Denylist.Window.{Call, asked, denying, rejecting, clearing, perform, perform_all}

-- What holds of the map between calls.
pub record IsBounded (m : Map Str ℕ) : Type 0 where
  pub keyed : IsKeyed m
  pub bound : length m ≤ max_denied_tokens

abbrev pub WellFormed : Option TokenDenylist → Type 0
WellFormed none = Unit {0}
WellFormed (some d) = IsBounded d.denied

module _ (digest : Str → Str) (nonempty : (s : Str) → digest s ≢ []) where
  -- The map that a new token is put into.
  room : Map Str ℕ → Map Str ℕ
  room m = if ltb (length m) max_denied_tokens then m else evict_oldest m

  room-IsBounded :
      (m : Map Str ℕ) → IsBounded m → IsKeyed (room m) × (length (room m) < max_denied_tokens)
  unfolding room
  room-IsBounded m b = elim (Bool-cases (ltb (length m) max_denied_tokens)) [
    | inl lt ↦ rw lt (b.keyed, ground (arith, lt))
    | inr ge ↦
        let e = evict_oldest-Evicted m b.keyed (ground (arith, ge)) in
        rw (ge, e.gone)
          (
            IsKeyed-delete e.key m b.keyed,
            omega (arith, length-delete_lt e.key e.deadline m e.there, b.bound),
          )
  ]

  suppress-IsBounded :
      (d : TokenDenylist) (now : ℕ) (token : Str)
      → IsBounded d.denied
      → IsBounded (suppress digest d now token).1.denied
  suppress-IsBounded d now token b = elim (Option-cases (lookup (digest token) d.denied)) [
    | inl new ↦
        let r = room-IsBounded d.denied b in
        unfold suppress room in
        rw (new, suppress)
          (record {
            keyed =
                IsKeyed-insert (digest token) (now + window d) (room d.denied) (nonempty token) r.0;
            bound =
                ground (arith, r.1, length-insert (digest token) (now + window d) (room d.denied));
          })
    | inr (t, old) ↦
        unfold suppress in
        rw (old, suppress)
          (record {
            keyed =
                IsKeyed-insert (digest token) (now + window d) d.denied (nonempty token) b.keyed;
            bound =
                ground
                  (arith, b.bound, old, length-insert (digest token) (now + window d) d.denied);
          })
  ]

  deny-WellFormed :
      (d : Option TokenDenylist) (now : ℕ) (token : Str)
      → WellFormed d
      → WellFormed (deny digest d now token).1
  unfolding deny is_empty
  deny-WellFormed none now token b = tt
  deny-WellFormed (some d) now [] b = b
  deny-WellFormed (some d) now (x ∷ token) b = suppress-IsBounded d now (x ∷ token) b

  IsBounded-delete : (k : Str) (m : Map Str ℕ) → IsBounded m → IsBounded (delete k m)
  IsBounded-delete k m b = record {
    keyed = IsKeyed-delete k m b.keyed;
    bound = omega (arith, length-delete_le k m, b.bound);
  }

  ask-WellFormed :
      (d : Option TokenDenylist) (now : ℕ) (token : Str)
      → WellFormed d
      → WellFormed (ask digest d now token).1
  unfolding ask is_empty
  ask-WellFormed none now token b = tt
  ask-WellFormed (some d) now [] b = b
  ask-WellFormed (some d) now (x ∷ token) b =
      elim (Option-cases (lookup (digest (x ∷ token)) d.denied)) [
        | inl e ↦ rw e b
        | inr (until, e) ↦ elim (Bool-cases (ltb now until)) [
          | inl lt ↦ rw (e, lt) b
          | inr ge ↦ rw (e, ge) (IsBounded-delete (digest (x ∷ token)) d.denied b)
        ]
      ]

  perform-WellFormed :
      (c : Call) (d : Option TokenDenylist) → WellFormed d → WellFormed (perform digest c d)
  unfolding perform note_rejection clear
  perform-WellFormed (asked now token) d b = ask-WellFormed d now token b
  perform-WellFormed (denying now token) d b = deny-WellFormed d now token b
  perform-WellFormed (rejecting now token e) none b = tt
  perform-WellFormed (rejecting now token e) (some d) b = elim (Bool-cases (is_token_rejected e)) [
    | inl rejected ↦ rw rejected (deny-WellFormed (some d) now token b)
    | inr other ↦ rw other b
  ]
  perform-WellFormed clearing none b = tt
  perform-WellFormed clearing (some d) b = record {
    keyed = unfold IsKeyed in tt;
    bound = omega arith;
  }

  -- No calls, in any order and at any times, make a denylist that holds at most 16 suppressions
  -- under distinct keys hold more, and the keys stay distinct, where no digest is empty.
  pub perform_all-WellFormed :
      (cs : List Call) (d : Option TokenDenylist)
      → WellFormed d
      → WellFormed (perform_all digest cs d)
  unfolding perform_all
  perform_all-WellFormed [] d b = b
  perform_all-WellFormed (c ∷ cs) d b =
      perform_all-WellFormed cs (perform digest c d) (perform-WellFormed c d b)

  -- In a list within its bound, where no digest is empty, a denial leaves the suppression of another
  -- digest as it was; or the list was full and the denied token not in it, that other suppression is
  -- let go, and no suppression would have lapsed before it.
  pub suppress-others :
      (d : TokenDenylist) (now : ℕ) (token : Str) (k : Str)
      → IsBounded d.denied
      → k ≢ digest token
      → (lookup k (suppress digest d now token).1.denied ≡ lookup k d.denied)
        ⊎ ((lookup k (suppress digest d now token).1.denied ≡ none)
            × (length d.denied ≡ max_denied_tokens)
            × (lookup (digest token) d.denied ≡ none)
            × (t : ℕ) × (lookup k d.denied ≡ some t)
            × ((j : Str) (u : ℕ) → lookup j d.denied ≡ some u → t ≤ u))
  suppress-others d now token k b n = elim (Option-cases (lookup (digest token) d.denied)) [
    | inr (t, old) ↦ inl (unfold suppress in rw (old, suppress) (ground (arith, n, put d.denied)))
    | inl new ↦ elim (Bool-cases (ltb (length d.denied) max_denied_tokens)) [
      | inl lt ↦ inl (unfold suppress in rw (new, lt, suppress) (ground (arith, n, put d.denied)))
      | inr ge ↦
          let e = evict_oldest-Evicted d.denied b.keyed (ground (arith, ge)) in
          elim (Bool-cases (str_eq e.key k)) [
            | inr other ↦ inl (
                unfold suppress in
                rw (new, ge, suppress, e.gone)
                  (ground
                    (arith, n, other, put (delete e.key d.denied), lookup-delete e.key k d.denied)))
            | inl same ↦ inr (
              unfold suppress in
                  rw (new, ge, suppress, e.gone)
                    (ground (
                      arith,
                      n,
                      same,
                      put (delete e.key d.denied),
                      lookup-delete e.key k d.denied,
                    )),
              ground (arith, ge, b.bound),
              new,
              e.deadline,
              ground (arith, e.there, (str_eq_iff e.key k).0 same),
              e.soonest,
            )
          ]
    ]
  ]
    where
      put : (m : Map Str ℕ) → lookup k (insert (digest token) (now + window d) m) ≡ lookup k m
      put m =
          ground (
            arith,
            n,
            str_eq_iff (digest token) k,
            lookup-insert (digest token) k (now + window d) m,
          )
