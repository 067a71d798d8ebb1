-- ===== src/Auth/Denylist/Entries.antt =====
-- The entries of the denylist (internal/auth/denylist.go), and what an eviction picks.
use dotvault.Prelude.{
  ℕ, ◌≤◌, ◌<◌, ltb, Str, Map, [], ◌∷◌, none, some, ◌≡◌, ◌≢◌, refl, inl, inr, ◌⊎◌, arith, lookup,
  insert, delete, lookup-insert, lookup-delete, str_eq_iff, str_has_eq, Bool-cases, is_empty,
  length,
}
use dotvault.Auth.Denylist.{oldest, evict_oldest}

-- A Go map holds a key once, and no digest is empty.
unfoldable pub IsKeyed : Map Str ℕ → Type 0
IsKeyed [] = Unit {0}
IsKeyed ((k, until) ∷ m) = (lookup k m ≡ none) × (k ≢ []) × IsKeyed m

pub IsKeyed-insert : (k : Str) (t : ℕ) (m : Map Str ℕ) → k ≢ [] → IsKeyed m → IsKeyed (insert k t m)
unfolding IsKeyed insert lookup
IsKeyed-insert k t [] n h = (refl, n, tt)
IsKeyed-insert k t ((j, u) ∷ m) n (new, o, h) =
    ground
      (arith, new, str_eq_iff j k, str_eq_iff k j, lookup-insert k j t m, IsKeyed-insert k t m n h)

pub IsKeyed-delete : (k : Str) (m : Map Str ℕ) → IsKeyed m → IsKeyed (delete k m)
unfolding IsKeyed delete lookup
IsKeyed-delete k [] h = tt
IsKeyed-delete k ((j, u) ∷ m) (new, o, h) =
    ground (arith, new, lookup-delete k j m, IsKeyed-delete k m h)

-- The loop keeps its best entry or finds one of the map's, and nothing lapses before it.
pub record IsSoonest (m : Map Str ℕ) (best found : Str × ℕ) : Type 0 where
  pub named : found.0 ≢ []
  pub there : (found ≡ best) ⊎ (lookup found.0 m ≡ some found.1)
  pub first : found.1 ≤ best.1
  pub soonest : (j : Str) (u : ℕ) → lookup j m ≡ some u → found.1 ≤ u

IsSoonest-earlier :
    (m : Map Str ℕ) (j : Str) (u : ℕ) (best found : Str × ℕ)
    → lookup j m ≡ none
    → u < best.1
    → IsSoonest m (j, u) found
    → IsSoonest ((j, u) ∷ m) best found
unfolding lookup
IsSoonest-earlier m j u best (k, t) new lt s = record {
  named = s.named;
  there = inr (elim s.there [
    | inl e ↦ ground (arith, e, str_eq_iff j k)
    | inr e ↦ ground (arith, e, new, str_eq_iff j k)
  ]);
  first = omega (arith, s.first, lt);
  soonest = λ i v e. ground (arith, e, s.first, s.soonest i v);
}

IsSoonest-later :
    (m : Map Str ℕ) (j : Str) (u : ℕ) (best found : Str × ℕ)
    → lookup j m ≡ none
    → best.1 ≤ u
    → IsSoonest m best found
    → IsSoonest ((j, u) ∷ m) best found
unfolding lookup
IsSoonest-later m j u best (k, t) new le s = record {
  named = s.named;
  there = elim s.there [ inl e ↦ inl e | inr e ↦ inr (ground (arith, e, new, str_eq_iff j k)) ];
  first = s.first;
  soonest = λ i v e. ground (arith, e, le, s.first, s.soonest i v);
}

oldest-IsSoonest :
    (m : Map Str ℕ) (k : Str) (t : ℕ) → IsKeyed m → k ≢ [] → IsSoonest m (k, t) (oldest m (k, t))
unfolding IsKeyed oldest is_empty
oldest-IsSoonest [] k t h n =
    unfold lookup in
    record {
      named = n;
      there = inl refl;
      first = omega arith;
      soonest = λ j u e. absurd (ground (arith, e));
    }
oldest-IsSoonest ((j, u) ∷ m) [] t (new, o, h) n = absurd (n refl)
oldest-IsSoonest ((j, u) ∷ m) (x ∷ k) t (new, o, h) n =
    step (oldest-IsSoonest m j u h o) (oldest-IsSoonest m (x ∷ k) t h n)
  where
    step :
        IsSoonest m (j, u) (oldest m (j, u))
        → IsSoonest m (x ∷ k, t) (oldest m (x ∷ k, t))
        → IsSoonest ((j, u) ∷ m) (x ∷ k, t) (oldest ((j, u) ∷ m) (x ∷ k, t))
    step earlier later = elim (Bool-cases (ltb u t)) [
      | inl lt ↦
          rw (oldest, lt)
            (IsSoonest-earlier m j u (x ∷ k, t) (oldest m (j, u)) new (ground (arith, lt)) earlier)
      | inr ge ↦
          rw (oldest, ge)
            (IsSoonest-later m j u (x ∷ k, t) (oldest m (x ∷ k, t)) new (ground (arith, ge)) later)
    ]

-- What an eviction removes from a map with entries: the entry that lapses first.
pub record Evicted (m m' : Map Str ℕ) : Type 0 where
  pub key : Str
  pub deadline : ℕ
  pub there : lookup key m ≡ some deadline
  pub gone : m' ≡ delete key m
  pub soonest : (j : Str) (u : ℕ) → lookup j m ≡ some u → deadline ≤ u

pub evict_oldest-Evicted : (m : Map Str ℕ) → IsKeyed m → 0 < length m → Evicted m (evict_oldest m)
unfolding IsKeyed
evict_oldest-Evicted [] h n = absurd (omega (arith, n))
evict_oldest-Evicted ((k, t) ∷ m) (new, o, h) n = taken (oldest-IsSoonest m k t h o)
  where
    taken : IsSoonest m (k, t) (oldest m (k, t)) → Evicted ((k, t) ∷ m) (evict_oldest ((k, t) ∷ m))
    taken s =
        let all = IsSoonest-later m k t (k, t) (oldest m (k, t)) new (omega arith) s in
        record {
          key = (oldest m (k, t)).0;
          deadline = (oldest m (k, t)).1;
          there = elim s.there [
            | inl e ↦ unfold lookup in ground (arith, e, str_eq_iff k (oldest m (k, t)).0)
            | inr e ↦ unfold lookup in ground (arith, e, new, str_eq_iff k (oldest m (k, t)).0)
          ];
          gone = unfold evict_oldest oldest is_empty in ground (arith, s.named);
          soonest = all.soonest;
        }
