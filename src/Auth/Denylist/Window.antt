-- ===== src/Auth/Denylist/Window.antt =====
-- How long internal/auth/denylist.go suppresses a token.
use dotvault.Prelude.{
  ℕ, ◌+◌, ◌≤◌, ltb, Map, Str, Bool, true, false, not, List, [], ◌∷◌, Option, none, some, ◌≡◌, ◌≢◌,
  refl, inl, inr, arith, lookup, lookup-insert, lookup-delete, str_eq, str_eq_refl, ◌⊎◌, str_has_eq,
  is_empty, if◌then◌else◌, Option-cases,
}
use dotvault.Auth.Denylist.{
  TokenDenylist, AuthError, window, oldest, evict_oldest, ask, suppress, deny, note_rejection,
  clear,
}

-- The deadline that is stored under a key.
unfoldable pub deadline : Str → Option TokenDenylist → Option ℕ
deadline k none = none
deadline k (some d) = lookup k d.denied

-- A call of one of the methods, and the list after it.
pub data Call : Type 0 where
  asked denying : ℕ → Str → Call
  rejecting : ℕ → Str → AuthError → Call
  clearing : Call

module _ (digest : Str → Str) where
  unfoldable pub perform : Call → Option TokenDenylist → Option TokenDenylist
  perform (asked now token) d = (ask digest d now token).1
  perform (denying now token) d = (deny digest d now token).1
  perform (rejecting now token e) d = note_rejection digest d now token e
  perform clearing d = (clear d).1

  unfoldable pub perform_all : List Call → Option TokenDenylist → Option TokenDenylist
  perform_all [] d = d
  perform_all (c ∷ cs) d = perform_all cs (perform c d)

  deadline-suppress :
      (d : TokenDenylist) (now : ℕ) (token : Str)
      → lookup (digest token) (suppress digest d now token).1.denied ≡ some (now + window d)
  unfolding suppress
  deadline-suppress d now token = elim (Option-cases (lookup (digest token) d.denied)) [
    | inl e ↦ rw (suppress, e) (rw (lookup-insert, str_eq_refl) refl)
    | inr (t, e) ↦ rw (suppress, e) (rw (lookup-insert, str_eq_refl) refl)
  ]

  -- A non-empty token that was just denied is suppressed at a time exactly if that time is before
  -- the end of the window that began with the denial, whatever was stored before.
  pub ask-deny :
      (d : TokenDenylist) (now later : ℕ) (token : Str)
      → token ≢ []
      → (ask digest (deny digest (some d) now token).1 later token).0 ≡ ltb later (now + window d)
  unfolding ask deny is_empty
  ask-deny d now later [] n = absurd (n refl)
  ask-deny d now later (x ∷ token) n = ground (arith, deadline-suppress d now (x ∷ token))

  -- Deny of a non-empty token announces a new suppression exactly if Denied would not have
  -- suppressed the token at that time.
  pub deny-ask :
      (d : TokenDenylist) (now : ℕ) (token : Str)
      → token ≢ []
      → (deny digest (some d) now token).0 ≡ not (ask digest (some d) now token).0
  unfolding ask deny is_empty suppress
  deny-ask d now [] n = absurd (n refl)
  deny-ask d now (x ∷ token) n = ground arith

  -- A call that does not deny a token with this digest.
  unfoldable pub spares : Str → Call → Bool
  spares k (asked now token) = true
  spares k (denying now token) = not (str_eq (digest token) k)
  spares k (rejecting now token e) = not (str_eq (digest token) k)
  spares k clearing = true

  unfoldable pub all_spare : Str → List Call → Bool
  all_spare k [] = true
  all_spare k (c ∷ cs) = let rest = all_spare k cs in if spares k c then rest else false

  -- The stored deadline of k is gone or the same.
  Kept : Str → Option TokenDenylist → Option TokenDenylist → Type 0
  Kept k d d' = (deadline k d' ≡ none) ⊎ (deadline k d' ≡ deadline k d)

  evict_oldest-lookup :
      (k : Str) (m : Map Str ℕ)
      → (lookup k (evict_oldest m) ≡ none) ⊎ (lookup k (evict_oldest m) ≡ lookup k m)
  unfolding evict_oldest
  evict_oldest-lookup k m = ground (arith, lookup-delete (oldest m ([], 0)).0 k m)

  suppress-Kept :
      (k : Str) (d : TokenDenylist) (now : ℕ) (token : Str)
      → str_eq (digest token) k ≡ false
      → Kept k (some d) (some (suppress digest d now token).1)
  unfolding Kept deadline suppress
  suppress-Kept k d now token other = ground (
    arith,
    other,
    evict_oldest-lookup k d.denied,
    lookup-insert (digest token) k (now + window d) d.denied,
    lookup-insert (digest token) k (now + window d) (evict_oldest d.denied),
  )

  deny-Kept :
      (k : Str) (d : Option TokenDenylist) (now : ℕ) (token : Str)
      → str_eq (digest token) k ≡ false
      → Kept k d (deny digest d now token).1
  unfolding Kept deadline deny
  deny-Kept k none now token other = inl refl
  deny-Kept k (some d) now token other = ground (arith, suppress-Kept k d now token other)

  perform-Kept :
      (k : Str) (c : Call) (d : Option TokenDenylist) → spares k c ≡ true → Kept k d (perform c d)
  unfolding perform spares Kept deadline ask deny note_rejection clear
  perform-Kept k (asked now token) none s = inl refl
  perform-Kept k (denying now token) none s = inl refl
  perform-Kept k (rejecting now token e) none s = inl refl
  perform-Kept k clearing none s = inl refl
  perform-Kept k (asked now token) (some d) s =
      unfold ask in ground (arith, lookup-delete (digest token) k d.denied)
  perform-Kept k (denying now token) (some d) s = deny-Kept k (some d) now token (ground (arith, s))
  perform-Kept k (rejecting now token e) (some d) s =
      unfold note_rejection in ground (arith, s, deny-Kept k (some d) now token)
  perform-Kept k clearing (some d) s = inl (unfold clear lookup in refl)

  perform_all-Kept :
      (k : Str) (cs : List Call) (d : Option TokenDenylist)
      → all_spare k cs ≡ true
      → Kept k d (perform_all cs d)
  unfolding perform_all all_spare Kept
  perform_all-Kept k [] d s = inr refl
  perform_all-Kept k (c ∷ cs) d s =
      ground (arith, s, perform-Kept k c d, perform_all-Kept k cs (perform c d))

  -- A denied token is let through at every time from the end of the window on, after any calls that
  -- do not deny a token of its digest again. The token is not empty.
  pub ask-lapsed :
      (d : TokenDenylist) (now later : ℕ) (token : Str) (cs : List Call)
      → all_spare (digest token) cs ≡ true
      → now + window d ≤ later
      → token ≢ []
      → (ask digest (perform_all cs (deny digest (some d) now token).1) later token).0 ≡ false
  unfolding deny is_empty
  ask-lapsed d now later [] cs s le n = absurd (n refl)
  ask-lapsed d now later (x ∷ token) cs s le n =
      lapsed (perform_all cs (some d')) (perform_all-Kept (digest (x ∷ token)) cs (some d') s)
    where
      d' : TokenDenylist
      d' = (suppress digest d now (x ∷ token)).1

      lapsed :
          (e : Option TokenDenylist)
          → Kept (digest (x ∷ token)) (some d') e
          → (ask digest e later (x ∷ token)).0 ≡ false
      lapsed none k = unfold ask in refl
      lapsed (some e) k =
          unfold ask Kept deadline in ground (arith, k, le, deadline-suppress d now (x ∷ token))

  -- After Clear no token is suppressed.
  pub ask-clear :
      (d : Option TokenDenylist) (now : ℕ) (token : Str)
      → (ask digest (clear d).1 now token).0 ≡ false
  unfolding ask clear lookup
  ask-clear none now token = refl
  ask-clear (some d) now token = ground arith
