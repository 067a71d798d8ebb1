-- ===== src/VaultFs/Listing/Shown.antt =====
-- internal/vaultfs/tree.go: what a directory shows, in terms of what the store lists.
use dotvault.Prelude.{
  ℕ, Str, codes, is_empty, Map, Bool, true, false, not, ◌&&◌, List, [], ◌∷◌, ◌++◌, Option, none,
  some, ok, ◌≡◌, refl, sym, ap, ◌∙◌, inl, inr, lookup, str_has_eq, str_eq, str_eq_iff, str_lt,
  any_equal, cut_suffix, cut_suffix-append, cut_suffix-some, has_suffix, if◌then◌else◌, arith,
  Bool-cases, Option-cases,
}
use dotvault.KvPath.{clean, validate_name}
use dotvault.VaultFs.Names.{file_display_name, join_path}
use dotvault.VaultFs.Cache.{Kind, kind_dir, kind_file, Entry, lookup_dir}
use dotvault.VaultFs.Tree.{Env, Mount, serves_client_cert}
use dotvault.VaultFs.Listing.{
  shown_as, fold_names, add_certs, insert_entry, sorted_entries, find_kind, readdir,
}
use dotvault.VaultFs.Listing.Folded.{claimed, lookup-fold_names-add_certs}

str_lt_irreflexive : (s : Str) → str_lt s s ≡ false
unfolding str_lt
str_lt_irreflexive [] = refl
str_lt_irreflexive (c ∷ s) = ground (arith, str_lt_irreflexive s)

find_kind-insert_entry :
    (name : Str) (e : Entry) (es : List Entry)
    → find_kind name (insert_entry e es)
      ≡ (if str_eq e.name name then some e.kind else find_kind name es)
unfolding find_kind insert_entry
find_kind-insert_entry name e [] = refl
find_kind-insert_entry name e (f ∷ fs) = ground (
  arith,
  find_kind-insert_entry name e fs,
  str_eq_iff e.name name,
  str_eq_iff f.name name,
  str_lt_irreflexive name,
)

-- Sorting the entries loses none.
find_kind-sorted_entries :
    (name : Str) (by_name : Map Str Kind)
    → find_kind name (sorted_entries by_name) ≡ lookup name by_name
unfolding sorted_entries lookup
find_kind-sorted_entries name [] = unfold find_kind in refl
find_kind-sorted_entries name ((n, k) ∷ by_name) =
    find_kind-insert_entry name (record { name = n; kind = k }) (sorted_entries by_name)
    ∙ rw (find_kind-sorted_entries name by_name) refl

abbrev pub is_name : Str → Bool
is_name name = elim (validate_name name) [ none ↦ true | some e ↦ false ]

-- Some listed name is that of a secret, without a slash at its end, whose file has this name.
unfoldable pub lists_secret : List Str → Str → Bool
lists_secret [] name = false
lists_secret (raw ∷ raws) name =
    let rest = lists_secret raws name in
    if is_name raw && not (has_suffix raw (codes "/")) && str_eq (raw ++ codes ".json") name
    then true
    else rest

bare-folder :
    (raw name : Str) → cut_suffix raw (codes "/") ≡ none → str_eq (name ++ codes "/") raw ≡ false
bare-folder raw name bare = elim (Bool-cases (str_eq (name ++ codes "/") raw)) [
  | inr n ↦ n
  | inl y ↦
      let same : name ++ codes "/" ≡ raw = ground (arith, y, str_eq_iff (name ++ codes "/") raw) in
      absurd (
        differ (
          sym bare
          ∙ ap (λ s. cut_suffix s (codes "/")) (sym same)
          ∙ cut_suffix-append name (codes "/") (λ e. cc e)))
]
  where
    differ : none ≡ some name → ⊥
    differ e = cc e

cut-folder :
    (raw stem name : Str)
    → cut_suffix raw (codes "/") ≡ some stem
    → str_eq (name ++ codes "/") raw ≡ str_eq stem name
cut-folder raw stem name cut = elim (Bool-cases (str_eq stem name)) [
  | inl y ↦ ground (
    arith,
    y,
    str_eq_iff stem name,
    str_eq_iff (name ++ codes "/") raw,
    cut_suffix-some raw (codes "/") stem cut,
  )
  | inr n ↦ elim (Bool-cases (str_eq (name ++ codes "/") raw)) [
    | inr m ↦ m ∙ sym n
    | inl y ↦
        let same : name ++ codes "/" ≡ raw =
          ground (arith, y, str_eq_iff (name ++ codes "/") raw) in
        let back : some stem ≡ some name =
          sym cut
          ∙ ap (λ s. cut_suffix s (codes "/")) (sym same)
          ∙ cut_suffix-append name (codes "/") (λ e. cc e) in
        absurd (ground (arith, n, back, str_eq_iff stem name))
  ]
]

module _ {Data S : Type 0} (env : Env Data S) (dir : Str) where
  -- The folder of this name is listed, with a slash, and no certificate has its place.
  unfoldable pub lists_folder : List Str → Str → Bool
  lists_folder raws name =
      any_equal raws (name ++ codes "/")
      && (is_name name && not (serves_client_cert env (join_path dir name)))

  -- What is shown, from what stands before the slash.
  abbrev shown_from : Str → Option Str → Option (Str × Kind)
  shown_from raw o =
      let folder : Bool = elim o [ none ↦ false | some stem ↦ true ] in
      let name : Str = elim o [ none ↦ raw | some stem ↦ stem ] in
      elim (validate_name name) [
        | some e ↦ none
        | none ↦
            if folder && serves_client_cert env (join_path dir name)
            then none
            else if folder
            then some (name, kind_dir)
            else some (file_display_name name, kind_file)
      ]

  shown_as-bare :
      (raw : Str)
      → cut_suffix raw (codes "/") ≡ none
      → shown_as env dir raw ≡ elim (validate_name raw) [
        | some e ↦ none
        | none ↦ some (file_display_name raw, kind_file)
      ]
  unfolding shown_as has_suffix
  shown_as-bare raw bare = ap (shown_from raw) bare

  shown_as-cut :
      (raw stem : Str)
      → cut_suffix raw (codes "/") ≡ some stem
      → shown_as env dir raw ≡ elim (validate_name stem) [
        | some e ↦ none
        | none ↦ if serves_client_cert env (join_path dir stem) then none else some (stem, kind_dir)
      ]
  unfolding shown_as has_suffix
  shown_as-cut raw stem cut = ap (shown_from raw) cut

  shown_as-folder :
      (raw name : Str) → claimed env dir kind_dir (raw ∷ []) name ≡ lists_folder (raw ∷ []) name
  unfolding claimed lists_folder any_equal
  shown_as-folder raw name = elim (Option-cases (cut_suffix raw (codes "/"))) [
    | inl bare ↦ ground (arith, shown_as-bare raw bare, bare-folder raw name bare)
    | inr (stem, cut) ↦
        ground
          (arith, shown_as-cut raw stem cut, cut-folder raw stem name cut, str_eq_iff stem name)
  ]

  shown_as-secret :
      (raw name : Str) → claimed env dir kind_file (raw ∷ []) name ≡ lists_secret (raw ∷ []) name
  unfolding claimed shown_as lists_secret has_suffix file_display_name
  shown_as-secret raw name = elim (Option-cases (cut_suffix raw (codes "/"))) [
    | inl bare ↦ ground (arith, bare)
    | inr (stem, cut) ↦ ground (arith, cut)
  ]

  claimed-folder :
      (raws : List Str) (name : Str) → claimed env dir kind_dir raws name ≡ lists_folder raws name
  unfolding claimed lists_folder any_equal
  claimed-folder [] name = refl
  claimed-folder (raw ∷ raws) name =
      ground (arith, claimed-folder raws name, shown_as-folder raw name)

  claimed-secret :
      (raws : List Str) (name : Str) → claimed env dir kind_file raws name ≡ lists_secret raws name
  unfolding claimed lists_secret
  claimed-secret [] name = refl
  claimed-secret (raw ∷ raws) name =
      ground (arith, claimed-secret raws name, shown_as-secret raw name)

  -- What a directory shows under a name.
  unfoldable pub shown : List Str → Str → Option Kind
  shown raws name =
      if is_empty dir && serves_client_cert env name
      then some kind_file
      else if lists_folder raws name
      then some kind_dir
      else if lists_secret raws name
      then some kind_file
      else none

module _ {Data S : Type 0} (env : Env Data S) (list : Str → S → Option (List Str)) where
  -- Where no listing is cached and the store lists the directory, Readdir shows a name as a file if
  -- the directory is the root and the name is that of a certificate that is served; else as a folder
  -- if the store lists the name with a slash at its end and no certificate has its place; else as a
  -- file if the store lists a secret whose name with `.json` is the name; and not at all otherwise.
  pub readdir-shows :
      (now : ℕ) (dir path name : Str) (raws : List Str) (w : Mount Data S)
      → clean dir ≡ ok path
      → lookup_dir w.cache now path ≡ none
      → list path w.store ≡ some raws
      → (entries : List Entry) × ((readdir env list now dir w).0 ≡ ok entries)
        × (find_kind name entries ≡ shown env path raws name)
  unfolding readdir shown
  readdir-shows now dir path name raws w cleaned miss listed = (
    sorted_entries (add_certs env path (fold_names env path raws [])),
    ground (arith, cleaned, miss, listed),
    find_kind-sorted_entries name (add_certs env path (fold_names env path raws []))
        ∙ lookup-fold_names-add_certs env path raws name
        ∙ rw (claimed-folder env path raws name, claimed-secret env path raws name) refl,
  )
