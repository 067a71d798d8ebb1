-- ===== src/DockerVol/Spec/Valid.antt =====
-- The loop of ParseOptions of internal/dockervol/dockervol.go against the method validate.
use dotvault.Prelude.{
  ℕ, zero, suc, Str, codes, slash, Map, true, false, List, [], ◌∷◌, ◌++◌, Option, none, some, ok,
  ◌≡◌, ◌≢◌, refl, sym, ap, ◌∙◌, inl, inr, ℤ, str_eq, str_eq_iff, str_eq_refl, is_empty, has_suffix,
  cut_suffix, cut_suffix-append, cut_suffix-some, trim_space, trim, trim_left, trim_right,
  trim_left_lem, trim_right_lem, trim_right-replicate, split, replicate, length, length-append,
  any_equal, any_equal-sort, ◌⊎◌, if◌then◌else◌, arith, Bool-cases, Option-cases, Result-cases,
  first_value,
}
use dotvault.KvPath.{clean}
use dotvault.KvPath.Grammar.{clean_cases, clean_idem}
use dotvault.Config.Duration.{validate_docker_ttl}
use dotvault.DockerVol.Spec.{
  SpecError, Spec, client_cert_with, client_cert_off, client_cert_only, select_one, parse_selection,
  mode_ok, parse_mode, layout_ok, parse_client_cert, client_cert_ok, only_conflicts, selection_ok,
  all_selections_ok, validate, parse_ttl, apply_option, apply_options, initial,
}
use dotvault.DockerVol.Spec.Selection.{chosen, parse_selection-Collected, any-chosen}

length-replicate : (n a : ℕ) → length (replicate n a) ≡ n
length-replicate zero a = refl
length-replicate (suc n) a = omega (arith, length-replicate n a)

trim-no_slash : (q stem : Str) → trim slash q ≡ q → q ≢ stem ++ (slash ∷ [])
trim-no_slash q stem fixed ends =
    let t : Str = trim_left slash q in
    let (n, before) = trim_left_lem slash q in
    let (m, after) = trim_right_lem slash t in
    let (k, rest) = trim_right_lem slash stem in
    let same : trim_right slash t ≡ q = unfold trim in fixed in
    let none_before : n ≡ 0 = omega (
      arith,
      ap length before,
      ap length after,
      ap length same,
      length-append (replicate n slash) t,
      length-append (trim_right slash t) (replicate m slash),
      length-replicate n slash,
    ) in
    let whole : q ≡ t = rw none_before at before in
    let cut : trim_right slash q ≡ trim_right slash stem =
      ap (trim_right slash) ends ∙ trim_right-replicate slash stem 1 in
    let kept : trim_right slash q ≡ q = ap (trim_right slash) whole ∙ same in
    omega (
      arith,
      ap length cut,
      ap length kept,
      ap length ends,
      ap length rest,
      length-append stem (slash ∷ []),
      length-append (trim_right slash stem) (replicate k slash),
    )

-- A clean path does not end with a slash.
clean-no_slash : (p q : Str) → clean p ≡ ok q → cut_suffix q (codes "/") ≡ none
clean-no_slash p q e = elim (Option-cases (cut_suffix q (codes "/"))) [
  | inl no_slash ↦ no_slash
  | inr (stem, found) ↦ absurd (
      trim-no_slash q stem ((clean_cases q q (clean_idem p q e)).0)
        (cut_suffix-some q (codes "/") stem found))
]

select_one_inv :
    (raw s : Str)
    → select_one raw ≡ ok (some s)
    → (path : Str) × (clean (trim_space raw) ≡ ok path)
      × (is_empty path ≡ false)
      × ((s ≡ path ++ codes "/") ⊎ (s ≡ path))
unfolding select_one
select_one_inv raw s e = elim (Result-cases (clean (trim_space raw))) [
  | inl (x, bad) ↦ absurd (ground (arith, bad, e))
  | inr (path, good) ↦ (
    path,
    good,
    ground (arith, good, e),
    elim (Bool-cases (has_suffix (trim_space raw) (codes "/"))) [
      | inl folder ↦ inl (ground (arith, good, e, folder))
      | inr secret ↦ inr (ground (arith, good, e, secret))
    ],
  )
]

select_one-selection_ok : (raw s : Str) → select_one raw ≡ ok (some s) → selection_ok s ≡ true
select_one-selection_ok raw s e =
    let (path, good, full, spelled) = select_one_inv raw s e in
    let again : clean path ≡ ok path = clean_idem (trim_space raw) path good in
    elim spelled [
      | inl folder ↦ rw folder (
          unfold selection_ok in
          ground
            (arith, again, full, cut_suffix-append path (codes "/") (λ q. cc q), str_eq_refl path))
      | inr secret ↦ rw secret (
          unfold selection_ok in
          ground (arith, again, full, clean-no_slash (trim_space raw) path good, str_eq_refl path))
    ]

any-all_selections_ok :
    (sels : List Str)
    → ((s : Str) → any_equal sels s ≡ true → selection_ok s ≡ true)
    → all_selections_ok sels ≡ true
unfolding all_selections_ok
any-all_selections_ok [] h = refl
any-all_selections_ok (r ∷ sels) h =
    rw (h r (unfold any_equal in ground (arith, str_eq_refl r)))
      (any-all_selections_ok sels (λ s m. h s (unfold any_equal in ground (arith, m))))

-- What validate asks, apart from the one conflict between two options.
pub record IsSound (s : Spec) : Type 0 where
  pub cert : client_cert_ok s.client_cert ≡ true
  pub selections : all_selections_ok s.secrets ≡ true
  pub layout : layout_ok s.layout ≡ true
  pub mode : mode_ok s.mode ≡ true
  pub ttl : validate_docker_ttl s.ttl ≡ none

parse_selection-all_selections_ok :
    (v : Str) {xs : List Str} → parse_selection v ≡ ok xs → all_selections_ok xs ≡ true
parse_selection-all_selections_ok v {xs} e =
    let (out, sorted, c) = parse_selection-Collected v e in
    let members : (s : Str) → any_equal out s ≡ chosen (split b',' v) s =
      λ s. c.members s ∙ unfold any_equal in refl in
    any-all_selections_ok xs (λ s m.
      let (raw, n, sel) = any-chosen (split b',' v) s (
        sym (members s)
        ∙ sym (any_equal-sort out s)
        ∙ ap (λ (ys : List Str). any_equal ys s) sorted
        ∙ m) in
      select_one-selection_ok raw s sel)

parse_mode-mode_ok : (v : Str) {m : ℕ} → parse_mode v ≡ ok m → mode_ok m ≡ true
unfolding parse_mode
parse_mode-mode_ok v e = ground (arith, e)

parse_client_cert-client_cert_ok :
    (v : Str) {c : Str} → parse_client_cert v ≡ ok c → client_cert_ok c ≡ true
unfolding parse_client_cert client_cert_ok
parse_client_cert-client_cert_ok v {c} e = ground (
  arith,
  e,
  str_eq_iff c client_cert_with,
  str_eq_iff c client_cert_off,
  str_eq_iff c client_cert_only,
)

module _ (std : Str → Option ℤ) where
  parse_ttl-validate_docker_ttl :
      (v : Str) {d : ℤ} → parse_ttl std v ≡ ok d → validate_docker_ttl d ≡ none
  unfolding parse_ttl
  parse_ttl-validate_docker_ttl v e = ground (arith, e)

  apply_option-IsSound :
      (k v : Str) (s : Spec) {s' : Spec} → apply_option std k v s ≡ ok s' → IsSound s → IsSound s'
  unfolding apply_option
  apply_option-IsSound k v s {s'} e h = elim (Bool-cases (str_eq k (codes "secrets"))) [
    | inl is_secrets ↦
        let (x, same, good) =
          first_value (λ x. ok (record s { secrets = x })) (parse_selection v) s'
            (rw is_secrets at e) in
        let done : record s { secrets = x } ≡ s' = cc same in
        rw (← done) (record {
          cert = h.cert;
          selections = parse_selection-all_selections_ok v good;
          layout = h.layout;
          mode = h.mode;
          ttl = h.ttl;
        })
    | inr not_secrets ↦ elim (Bool-cases (str_eq k (codes "layout"))) [
      | inl is_layout ↦ ground (arith, not_secrets, is_layout, e, h)
      | inr not_layout ↦ elim (Bool-cases (str_eq k (codes "mode"))) [
        | inl is_mode ↦
            let (x, same, good) =
              first_value (λ x. ok (record s { mode = x })) (parse_mode v) s'
                (rw (not_secrets, not_layout, is_mode) at e) in
            let done : record s { mode = x } ≡ s' = cc same in
            rw (← done) (record {
              cert = h.cert;
              selections = h.selections;
              layout = h.layout;
              mode = parse_mode-mode_ok v good;
              ttl = h.ttl;
            })
        | inr not_mode ↦ elim (Bool-cases (str_eq k (codes "ttl"))) [
          | inl is_ttl ↦
              let (x, same, good) =
                first_value (λ x. ok (record s { ttl = x })) (parse_ttl std v) s'
                  (rw (not_secrets, not_layout, not_mode, is_ttl) at e) in
              let done : record s { ttl = x } ≡ s' = cc same in
              rw (← done) (record {
                cert = h.cert;
                selections = h.selections;
                layout = h.layout;
                mode = h.mode;
                ttl = parse_ttl-validate_docker_ttl v good;
              })
          | inr not_ttl ↦ elim (Bool-cases (str_eq k (codes "client_cert"))) [
            | inl is_cert ↦
                let (x, same, good) =
                  first_value (λ x. ok (record s { client_cert = x })) (parse_client_cert v) s'
                    (rw (not_secrets, not_layout, not_mode, not_ttl, is_cert) at e) in
                let done : record s { client_cert = x } ≡ s' = cc same in
                rw (← done) (record {
                  cert = parse_client_cert-client_cert_ok v good;
                  selections = h.selections;
                  layout = h.layout;
                  mode = h.mode;
                  ttl = h.ttl;
                })
            | inr not_cert ↦
                absurd (ground (arith, not_secrets, not_layout, not_mode, not_ttl, not_cert, e))
          ]
        ]
      ]
    ]
  ]

  apply_options-IsSound :
      (opts : Map Str Str) (s : Spec) {s' : Spec}
      → apply_options std opts s ≡ ok s'
      → IsSound s
      → IsSound s'
  unfolding apply_options
  apply_options-IsSound [] s {s'} e h = let same : s ≡ s' = cc e in rw (← same) h
  apply_options-IsSound ((k, v) ∷ opts) s e h = elim (Result-cases (apply_option std k v s)) [
    | inl (x, bad) ↦ absurd (ground (arith, bad, e))
    | inr (t, good) ↦
        apply_options-IsSound opts t (rw (good, apply_options) at e)
          (apply_option-IsSound k v s good h)
  ]

IsSound-validate :
    (s : Spec)
    → IsSound s
    → validate s ≡ (if only_conflicts s then some SpecError.only_conflict else none)
unfolding validate
IsSound-validate s h = ground (arith, h)

-- What the loop over the options builds, whatever the options are, passes every check of validate
-- but the one on `only` with a selection, if the default window passes its check.
pub apply_options-validate :
    (std : Str → Option ℤ) (opts : Map Str Str) (default_ttl : ℤ) (s : Spec)
    → validate_docker_ttl default_ttl ≡ none
    → apply_options std opts (initial default_ttl) ≡ ok s
    → validate s ≡ (if only_conflicts s then some SpecError.only_conflict else none)
unfolding str_eq
apply_options-validate std opts default_ttl s fine e = IsSound-validate s (
    apply_options-IsSound std opts (initial default_ttl) e (
      unfold client_cert_ok all_selections_ok layout_ok mode_ok in
      record { cert = refl; selections = refl; layout = refl; mode = refl; ttl = fine }))
