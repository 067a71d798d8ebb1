-- ===== src/DockerVol/Spec/Selection.antt =====
-- The selection that parseSelection of internal/dockervol/dockervol.go makes of a `secrets` option.
use dotvault.Prelude.{
  Str, Map, Bool, true, false, ◌||◌, List, [], ◌∷◌, ◌++◌, none, some, ok, err, is_ok, ◌≡◌, ◌⊎◌,
  refl, sym, ap, ◌∙◌, inl, inr, lookup, insert, str_has_eq, str_eq, str_eq_iff, str_eq_refl, split,
  sort_strings, any_equal, any_equal-snoc, any_equal-sort, IsAscending, IsNodup, IsNodup-snoc,
  sort-IsAscending, IsAscending-ext, if◌then◌else◌, arith, Bool-cases, Option-cases, Result-cases,
}
use dotvault.KvPath.Policy.Roots.{SeenFound, SeenFound-insert}
use dotvault.DockerVol.Spec.{SpecError, select_one, collect_selection, parse_selection}

-- Some entry of the list selects this path.
unfoldable pub chosen : List Str → Str → Bool
chosen [] s = false
chosen (raw ∷ raws) s =
    let rest = chosen raws s in
    elim (select_one raw) [
      | err e ↦ rest
      | ok none ↦ rest
      | ok (some t) ↦ if str_eq t s then true else rest
    ]

unfoldable pub all_fine : List Str → Bool
all_fine [] = true
all_fine (raw ∷ raws) = let rest = all_fine raws in if is_ok (select_one raw) then rest else false

-- What the loop makes of the entries.
pub record Collected (raws out out' : List Str) : Type 0 where
  pub nodup : IsNodup out'
  pub members : (s : Str) → any_equal out' s ≡ any_equal out s || chosen raws s
  pub fine : all_fine raws ≡ true

pub select-cases :
    (raw : Str)
    → ((e : SpecError) × (select_one raw ≡ err e))
      ⊎ (select_one raw ≡ ok none)
      ⊎ ((s : Str) × (select_one raw ≡ ok (some s)))
select-cases raw = elim (Result-cases (select_one raw)) [
  | inl (e, eq) ↦ inl (e, eq)
  | inr (o, eq) ↦ elim (Option-cases o) [
    | inl blank ↦ inr (inl (eq ∙ ap ok blank))
    | inr (s, is) ↦ inr (inr (s, eq ∙ ap ok is))
  ]
]

collect-Collected :
    (raws : List Str) (seen : Map Str (Unit {0})) (out : List Str) {out' : List Str}
    → collect_selection raws seen out ≡ ok out'
    → SeenFound seen out
    → IsNodup out
    → Collected raws out out'
unfolding collect_selection chosen all_fine
collect-Collected [] seen out {out'} e h n =
    let same : out ≡ out' = cc e in
    record { nodup = rw (← same) n; members = λ s. ground (arith, same); fine = refl }
collect-Collected (raw ∷ raws) seen out {out'} e h n = elim (select-cases raw) [
  | inl (x, bad) ↦ absurd (cc (rw (bad, collect_selection) at e))
  | inr (inl blank) ↦
      let c = collect-Collected raws seen out (rw (blank, collect_selection) at e) h n in
      record {
        nodup = c.nodup;
        members = λ s. c.members s ∙ ground (arith, blank);
        fine = ground (arith, blank, c.fine);
      }
  | inr (inr (s, sel)) ↦ elim (Option-cases (lookup s seen)) [
    | inl new ↦
        let c =
          collect-Collected raws (insert s tt seen) (out ++ (s ∷ []))
            (rw (sel, collect_selection, new) at e) (SeenFound-insert s seen out h)
            (IsNodup-snoc out s (ground (arith, new, h s)) n) in
        record {
          nodup = c.nodup;
          members = λ t.
              c.members t
              ∙ ground (arith, sel, any_equal-snoc out s t, str_eq_iff s t, str_eq_iff t s);
          fine = ground (arith, sel, c.fine);
        }
    | inr (u, old) ↦
        let c = collect-Collected raws seen out (rw (sel, collect_selection, old) at e) h n in
        record {
          nodup = c.nodup;
          members = λ t. c.members t ∙ ground (arith, sel, old, h s, str_eq_iff s t);
          fine = ground (arith, sel, c.fine);
        }
  ]
]

collect_total :
    (raws : List Str) (seen : Map Str (Unit {0})) (out : List Str)
    → all_fine raws ≡ true
    → (out' : List Str) × (collect_selection raws seen out ≡ ok out')
unfolding all_fine collect_selection
collect_total [] seen out f = (out, refl)
collect_total (raw ∷ raws) seen out f = elim (select-cases raw) [
  | inl (x, bad) ↦ absurd (cc (rw bad at f))
  | inr (inl blank) ↦ rw (blank, collect_selection) (collect_total raws seen out (rw blank at f))
  | inr (inr (s, sel)) ↦ elim (Option-cases (lookup s seen)) [
    | inl new ↦
        rw (sel, collect_selection, new)
          (collect_total raws (insert s tt seen) (out ++ (s ∷ [])) (rw sel at f))
    | inr (u, old) ↦ rw (sel, collect_selection, old) (collect_total raws seen out (rw sel at f))
  ]
]

chosen-any :
    (raws : List Str) (raw s : Str)
    → any_equal raws raw ≡ true
    → select_one raw ≡ ok (some s)
    → chosen raws s ≡ true
unfolding chosen any_equal
chosen-any [] raw s m e = cc
chosen-any (r ∷ raws) raw s m e =
    ground (arith, m, e, str_eq_iff raw r, str_eq_refl s, chosen-any raws raw s)

pub any-chosen :
    (raws : List Str) (s : Str)
    → chosen raws s ≡ true
    → (raw : Str) × (any_equal raws raw ≡ true) × (select_one raw ≡ ok (some s))
unfolding chosen any_equal
any-chosen [] s c = absurd (cc c)
any-chosen (r ∷ raws) s c = go (any-chosen raws s)
  where
    go :
        (chosen raws s ≡ true
          → (raw : Str) × (any_equal raws raw ≡ true) × (select_one raw ≡ ok (some s)))
        → (raw : Str) × (any_equal (r ∷ raws) raw ≡ true) × (select_one raw ≡ ok (some s))
    go ih = elim (Bool-cases (chosen raws s)) [
      | inl later ↦ let (raw, m, is) = ih later in (raw, ground (arith, m), is)
      | inr not_later ↦ (
        r,
        ground (arith, str_eq_refl r),
        elim (select-cases r) [
          | inl (x, bad) ↦ absurd (ground (arith, c, bad, not_later))
          | inr (inl blank) ↦ absurd (ground (arith, c, blank, not_later))
          | inr (inr (t, sel)) ↦ ground (arith, c, sel, not_later, str_eq_iff t s)
        ],
      )
    ]

all_fine-any :
    (raws : List Str) (raw : Str)
    → all_fine raws ≡ true
    → any_equal raws raw ≡ true
    → is_ok (select_one raw) ≡ true
unfolding all_fine any_equal
all_fine-any [] raw f m = cc
all_fine-any (r ∷ raws) raw f m = ground (arith, f, m, str_eq_iff raw r, all_fine-any raws raw)

any-all_fine :
    (raws : List Str)
    → ((raw : Str) → any_equal raws raw ≡ true → is_ok (select_one raw) ≡ true)
    → all_fine raws ≡ true
unfolding all_fine
any-all_fine [] h = refl
any-all_fine (r ∷ raws) h =
    rw (h r (unfold any_equal in ground (arith, str_eq_refl r)))
      (any-all_fine raws (λ raw m. h raw (unfold any_equal in ground (arith, m))))

-- Options that list the same entries, in any order and any number of times, select the same.
chosen_mono :
    (raws raws' : List Str)
    → ((raw : Str) → any_equal raws' raw ≡ any_equal raws raw)
    → (s : Str) → chosen raws s ≡ true
    → chosen raws' s ≡ true
chosen_mono raws raws' same s c =
    let (raw, m, sel) = any-chosen raws s c in chosen-any raws' raw s (same raw ∙ m) sel

chosen_ext :
    (raws raws' : List Str)
    → ((raw : Str) → any_equal raws' raw ≡ any_equal raws raw)
    → (s : Str) → chosen raws' s ≡ chosen raws s
chosen_ext raws raws' same s = elim (Bool-cases (chosen raws s)) [
  | inl is ↦ chosen_mono raws raws' same s is ∙ sym is
  | inr isnt ↦ elim (Bool-cases (chosen raws' s)) [
    | inl is' ↦ cc (chosen_mono raws' raws (λ raw. sym (same raw)) s is')
    | inr isnt' ↦ isnt' ∙ sym isnt
  ]
]

none_seen : SeenFound [] []
unfolding any_equal lookup
none_seen r = refl

-- What a selection that parses is made of.
pub parse_selection-Collected :
    (v : Str) {xs : List Str}
    → parse_selection v ≡ ok xs
    → (out : List Str) × (sort_strings out ≡ xs) × Collected (split b',' v) [] out
parse_selection-Collected v {xs} e = elim (Result-cases (collect_selection (split b',' v) [] [])) [
  | inl (x, bad) ↦ absurd (unfold parse_selection in ground (arith, bad, e))
  | inr (out, fine) ↦ (
    out,
    unfold parse_selection in ground (arith, fine, e),
    collect-Collected (split b',' v) [] [] fine none_seen tt,
  )
]

parse_selection_total :
    (v : Str) → all_fine (split b',' v) ≡ true → (xs : List Str) × (parse_selection v ≡ ok xs)
unfolding parse_selection
parse_selection_total v f =
    let (out, fine) = collect_total (split b',' v) [] [] f in (sort_strings out, rw fine)

-- The selection is ascending, hence without repetition, and it depends only on the set of the
-- entries: an option that lists the same entries in another order or more than once gives the same.
pub parse_selection_order :
    (v w : Str) (xs : List Str)
    → parse_selection v ≡ ok xs
    → ((raw : Str) → any_equal (split b',' w) raw ≡ any_equal (split b',' v) raw)
    → IsAscending xs × (parse_selection w ≡ ok xs)
parse_selection_order v w xs e same =
    let (out, sorted, c) = parse_selection-Collected v e in
    let (ys, e') = parse_selection_total w (
      any-all_fine (split b',' w)
        (λ raw m. all_fine-any (split b',' v) raw c.fine (sym (same raw) ∙ m))) in
    let (out', sorted', c') = parse_selection-Collected w e' in
    let up : IsAscending xs = rw (← sorted) (sort-IsAscending out c.nodup) in
    let up' : IsAscending ys = rw (← sorted') (sort-IsAscending out' c'.nodup) in
    let agree : ys ≡ xs = IsAscending-ext ys xs up' up (λ s.
      rw (← sorted, ← sorted', any_equal-sort out s, any_equal-sort out' s)
        (c'.members s
          ∙ unfold any_equal in
            chosen_ext (split b',' v) (split b',' w) same s ∙ sym (c.members s))) in
    (up, e' ∙ ap ok agree)
