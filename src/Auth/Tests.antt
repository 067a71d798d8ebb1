-- ===== src/Auth/Tests.antt =====
-- Runs and instances for the denylist of internal/auth.
use dotvault.Prelude.{
  ℕ, ◌+◌, ◌≤◌, Str, codes, Map, true, false, List, [], ◌∷◌, Option, none, some, ◌≡◌, ◌≢◌, refl, ◌⊎◌,
  arith, lookup, insert, delete, str_eq, str_has_eq, is_empty, length,
}
use dotvault.Auth.Denylist.{
  TokenDenylist, new_token_denylist, max_denied_tokens, window, oldest, evict_oldest, ask, suppress,
  deny, note_rejection, is_token_rejected, is_forbidden, len,
}
use dotvault.Auth.Denylist.Entries.{IsKeyed}
use dotvault.Auth.Denylist.Window.{Call, asked, denying, perform_all, all_spare, spares, ask-lapsed}
use dotvault.Auth.Denylist.Bound.{IsBounded, suppress-others}

-- A digest for runs: no digest is empty, and different tokens have different ones.
abbrev digest : Str → Str
digest s = 100 ∷ s

abbrev tok : Str
tok = codes "hvs.a"

abbrev other : Str
other = codes "hvs.b"

abbrev fresh : Option TokenDenylist
fresh = some new_token_denylist

-- A 403 suppresses a token, a 500 does not.
forbidden_only :
    (len (note_rejection digest fresh 5 tok (record { status = some 403; expired = false })) ≡ 1)
    × (len (note_rejection digest fresh 5 tok (record { status = some 500; expired = false })) ≡ 0)
unfolding len note_rejection is_token_rejected is_forbidden deny suppress lookup insert is_empty
forbidden_only = (refl, refl)

evicts_soonest :
    evict_oldest ((codes "a", 7) ∷ (codes "b", 3) ∷ (codes "c", 9) ∷ [])
    ≡ (codes "a", 7) ∷ (codes "c", 9) ∷ []
unfolding evict_oldest oldest delete is_empty str_eq
evicts_soonest = refl

tok_named : tok ≢ []
tok_named e = ground (arith, e)

abbrev calls : List Call
calls = asked 6 tok ∷ denying 7 other ∷ asked 8 other ∷ []

calls_spare : all_spare digest (digest tok) calls ≡ true
unfolding all_spare spares str_eq
calls_spare = refl

later : 5 + window new_token_denylist ≤ 900_000_000_005
unfolding window
later = omega arith

ask-lapsed_example :
    (ask digest (perform_all digest calls (deny digest fresh 5 tok).1) 900_000_000_005 tok).0
    ≡ false
ask-lapsed_example =
    ask-lapsed digest new_token_denylist 5 900_000_000_005 tok calls calls_spare later tok_named

digest_nonempty : (s : Str) → digest s ≢ []
digest_nonempty s e = ground (arith, e)

fresh-IsBounded : IsBounded []
unfolding IsKeyed
fresh-IsBounded = record { keyed = tt; bound = omega arith }

-- A full list, whose first entry lapses first.
entries : ℕ → List ℕ → Map Str ℕ
entries t [] = []
entries t (b ∷ bs) = (digest (b ∷ []), t) ∷ entries (t + 1) bs

abbrev full : TokenDenylist
full = record {
  denied = entries 100 (1 ∷ 2 ∷ 3 ∷ 4 ∷ 5 ∷ 6 ∷ 7 ∷ 8 ∷ 9 ∷ 10 ∷ 11 ∷ 12 ∷ 13 ∷ 14 ∷ 15 ∷ 16 ∷ []);
  interval = 0;
}

full-IsBounded : IsBounded full.denied
unfolding entries IsKeyed lookup str_eq
full-IsBounded = record { keyed = ground arith; bound = omega arith }

first_digest : digest (1 ∷ []) ≢ digest tok
first_digest e = ground (arith, e)

suppress-others_example :
    (lookup (digest (1 ∷ [])) (suppress digest full 5 tok).1.denied
      ≡ lookup (digest (1 ∷ [])) full.denied)
    ⊎ ((lookup (digest (1 ∷ [])) (suppress digest full 5 tok).1.denied ≡ none)
        × (length full.denied ≡ max_denied_tokens)
        × (lookup (digest tok) full.denied ≡ none)
        × (t : ℕ) × (lookup (digest (1 ∷ [])) full.denied ≡ some t)
        × ((j : Str) (u : ℕ) → lookup j full.denied ≡ some u → t ≤ u))
suppress-others_example =
    suppress-others digest digest_nonempty full 5 tok (digest (1 ∷ [])) full-IsBounded first_digest

-- The first entry makes room.
first_evicted : lookup (digest (1 ∷ [])) (suppress digest full 5 tok).1.denied ≡ none
unfolding entries suppress evict_oldest oldest lookup insert delete is_empty str_eq
first_evicted = refl
