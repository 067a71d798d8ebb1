-- ===== src/KvPath/Grammar.antt =====
-- What `Clean` of internal/kvpath/kvpath.go accepts, and what it returns.
use dotvault.Prelude.{
  ℕ, Str, codes, slash, str_eq_iff, is_empty, contains_byte, split, join, parts, trim, split-join,
  join-split, trim-append, trim-replicate, trim_lem, ok, err, ◌≡◌, ◌≢◌, refl, sym, ap, ◌∙◌, List,
  [], ◌∷◌, ◌++◌, none, some, true, false, ◌⊎◌, inl, inr, All, replicate, arith,
}
use mathlib.Core.List.{append-nil}
use mathlib.Core.Bool.{false≢true}
use dotvault.KvPath.{KvError, invalid_name, validate_name, validate_names, clean}

-- A path segment that Vault can carry.
pub record IsName (s : Str) : Type 0 where
  pub nonempty : s ≢ []
  pub not_dot : s ≢ codes "."
  pub not_dotdot : s ≢ codes ".."
  pub no_slash : contains_byte slash s ≡ false
  pub no_nul : contains_byte 0 s ≡ false

pub validate_name-none : (s : Str) → validate_name s ≡ none → IsName s
unfolding validate_name
validate_name-none s h = ground (arith, str_eq_iff s (codes "."), str_eq_iff s (codes ".."))

pub IsName-validate : (s : Str) → IsName s → validate_name s ≡ none
unfolding validate_name
IsName-validate s h = ground (arith, str_eq_iff s (codes "."), str_eq_iff s (codes ".."))

validate_names-none : (segs : List Str) → validate_names segs ≡ none → All IsName segs
unfolding validate_names
validate_names-none [] h = tt
validate_names-none (s ∷ segs) h =
    (validate_name-none s (ground arith), validate_names-none segs (ground arith))

All-validate : (segs : List Str) → All IsName segs → validate_names segs ≡ none
unfolding validate_names
All-validate [] h = refl
All-validate (s ∷ segs) (h, hs) = ground (arith, IsName-validate s h, All-validate segs hs)

-- Every failure of the grammar is the one sentinel.
validate_names-some :
    (segs : List Str) (e : KvError) → validate_names segs ≡ some e → e ≡ invalid_name
unfolding validate_names validate_name
validate_names-some [] e h = cc
validate_names-some (s ∷ segs) e h = ground (arith, validate_names-some segs e)

-- A path that is already canonical: names with one slash between each two; "" for none.
pub record IsCanonical (q : Str) : Type 0 where
  pub segs : List Str
  pub names : All IsName segs
  pub spelled : q ≡ join slash segs

All-no_slash : (segs : List Str) → All IsName segs → All (λ q. contains_byte slash q ≡ false) segs
All-no_slash [] h = tt
All-no_slash (s ∷ segs) (h, hs) = (h.no_slash, All-no_slash segs hs)

All-nonempty : (segs : List Str) → All IsName segs → All (λ q. q ≢ []) segs
All-nonempty [] h = tt
All-nonempty (s ∷ segs) (h, hs) = (h.nonempty, All-nonempty segs hs)

join-ne-nil : (s : Str) (segs : List Str) → All IsName (s ∷ segs) → join slash (s ∷ segs) ≢ []
unfolding join
join-ne-nil s [] (h, hs) = h.nonempty
join-ne-nil [] (t ∷ segs) (h, hs) = absurd (h.nonempty refl)
join-ne-nil (x ∷ s) (t ∷ segs) (h, hs) = λ e. cc e

-- A call of `clean` by the value of the trimmed path.
clean_root : (p : Str) → trim slash p ≡ [] → clean p ≡ ok []
unfolding clean is_empty
clean_root p e = rw e

clean_names : (p q : Str) → trim slash p ≡ q → q ≢ [] → All IsName (split slash q) → clean p ≡ ok q
unfolding clean is_empty
clean_names p q e n h = ground (arith, All-validate (split slash q) h)

-- The ends of such a path are no slashes, so trimming changes nothing.
trim-join :
    (a b : ℕ) (s : Str) (segs : List Str)
    → All IsName (s ∷ segs)
    → trim slash (replicate a slash ++ (join slash (s ∷ segs) ++ replicate b slash))
      ≡ join slash (s ∷ segs)
trim-join a b s segs (h, hs) =
    trim-append slash a b (join slash (s ∷ segs)) (rw first_part h.nonempty)
      (rw other_parts (All-nonempty segs hs))
  where
    cut : split slash (join slash (s ∷ segs)) ≡ s ∷ segs
    cut = split-join slash s segs (All-no_slash (s ∷ segs) (h, hs))

    first_part : (parts slash (join slash (s ∷ segs))).0 ≡ s
    first_part = unfold split in cc cut

    other_parts : (parts slash (join slash (s ∷ segs))).1 ≡ segs
    other_parts = unfold split in cc cut

-- Clean strips the slashes around a canonical path and returns it.
pub clean-canonical :
    (a b : ℕ) (q : Str)
    → IsCanonical q
    → clean (replicate a slash ++ (q ++ replicate b slash)) ≡ ok q
clean-canonical a b q c = by_names c.segs c.names c.spelled
  where
    by_names :
        (segs : List Str)
        → All IsName segs
        → q ≡ join slash segs
        → clean (replicate a slash ++ (q ++ replicate b slash)) ≡ ok q
    by_names [] h e = rw e (unfold join in clean_root _ (trim-replicate slash a b))
    by_names (s ∷ segs) h e = rw e (
        clean_names _ _ (trim-join a b s segs h) (join-ne-nil s segs h)
          (rw (split-join slash s segs (All-no_slash (s ∷ segs) h)) h))

pub clean_cases :
    (p q : Str) → clean p ≡ ok q → (trim slash p ≡ q) × ((q ≡ []) ⊎ All IsName (split slash q))
unfolding clean is_empty
clean_cases p q h = ground (arith, validate_names-none (split slash (trim slash p)))

-- What Clean accepts is its result with slashes before and after it, and the result is canonical.
pub clean-IsCanonical :
    (p q : Str)
    → clean p ≡ ok q
    → IsCanonical q × (a : ℕ) × (b : ℕ) × (p ≡ replicate a slash ++ (q ++ replicate b slash))
clean-IsCanonical p q h =
    let (e, c) = clean_cases p q h in
    let (a, b, f) = trim_lem slash p in (canonical c, a, b, rw e at f)
  where
    canonical : (q ≡ []) ⊎ All IsName (split slash q) → IsCanonical q
    canonical (inl e) = record { segs = []; names = tt; spelled = unfold join in e }
    canonical (inr hs) = record {
      segs = split slash q;
      names = hs;
      spelled = sym (join-split slash q);
    }

pub clean_id : (q : Str) → IsCanonical q → clean q ≡ ok q
clean_id q c = rw append-nil at (clean-canonical 0 0 q c)

-- What `clean` returns is canonical, and cleaning it again changes nothing.
pub clean_idem : (p q : Str) → clean p ≡ ok q → clean q ≡ ok q
clean_idem p q h = let (c, a, b, e) = clean-IsCanonical p q h in clean_id q c

contains-append : (s t : Str) → contains_byte slash (s ++ (slash ∷ t)) ≡ true
unfolding contains_byte
contains-append [] t = refl
contains-append (x ∷ s) t = ground (arith, contains-append s t)

-- A canonical path that is neither the root nor holds a slash is one name.
pub IsCanonical-IsName :
    (q : Str) → IsCanonical q → q ≢ [] → contains_byte slash q ≡ false → IsName q
IsCanonical-IsName q c n f = one c.segs c.names c.spelled
  where
    one : (segs : List Str) → All IsName segs → q ≡ join slash segs → IsName q
    one [] h e = absurd (n (unfold join in e))
    one (s ∷ []) (h, hs) e = rw e (unfold join in h)
    one (s ∷ t ∷ segs) h e = absurd (
        false≢true (
          sym f
          ∙ ap (contains_byte slash) e
          ∙ unfold join in contains-append s (join slash (t ∷ segs))))

-- A directory's path and a name, joined.
pub IsCanonical-child : (d name : Str) → IsName d → IsName name → IsCanonical (d ++ (slash ∷ name))
IsCanonical-child d name h k = record {
  segs = d ∷ name ∷ [];
  names = (h, (k, tt));
  spelled = unfold join in refl;
}

-- The grammar has one error.
pub clean_error : (p : Str) (e : KvError) → clean p ≡ err e → e ≡ invalid_name
unfolding clean
clean_error p e h = ground (arith, validate_names-some (split slash (trim slash p)) e)
