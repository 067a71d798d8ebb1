-- ===== src/VaultFs/Listing/Folded.antt =====
-- Which names a directory of the mount of internal/vaultfs/tree.go shows, and as what.
use dotvault.Prelude.{
  Str, codes, is_empty, Map, Bool, true, false, ◌&&◌, ◌||◌, List, [], ◌∷◌, Option, none, some, ◌≡◌,
  refl, ◌∙◌, inl, inr, lookup, insert, lookup-insert, str_has_eq, str_eq, str_eq_iff, if◌then◌else◌,
  arith, Option-cases,
}
use dotvault.VaultFs.Cache.{Kind, kind_none, kind_dir, kind_file}
use dotvault.VaultFs.Tree.{Env, serves_client_cert, is_client_cert_path}
use dotvault.VaultFs.Listing.{same_kind, shown_as, claim, fold_names, add_certs}

-- Some listed name is shown so.
unfoldable pub claimed : {Data S : Type 0} → Env Data S → Str → Kind → List Str → Str → Bool
claimed env dir kind [] name = false
claimed env dir kind (raw ∷ raws) name =
    let rest = claimed env dir kind raws name in
    elim (shown_as env dir raw) [
      | none ↦ rest
      | some (n, k) ↦ if str_eq n name && same_kind k kind then true else rest
    ]

-- What a name is shown as once listings claim it, from what it was shown as before.
merged : Option Kind → Bool → Bool → Option Kind
merged none as_dir as_file =
    if as_dir then some kind_dir else if as_file then some kind_file else none
merged (some kind_dir) as_dir as_file = some kind_dir
merged (some kind_file) as_dir as_file = if as_dir then some kind_dir else some kind_file
merged (some kind_none) as_dir as_file = if as_dir || as_file then some kind_dir else some kind_none

merged-same : (o : Option Kind) → o ≡ merged o false false
unfolding merged
merged-same none = refl
merged-same (some kind_none) = refl
merged-same (some kind_dir) = refl
merged-same (some kind_file) = refl

lookup-claim :
    (k name : Str) (kind : Kind) (m : Map Str Kind)
    → lookup name (claim k kind m) ≡ (
        if str_eq k name
        then some (elim (lookup name m) [
          | none ↦ kind
          | some prev ↦ if same_kind prev kind then kind else kind_dir
        ])
        else lookup name m)
unfolding claim
lookup-claim k name kind m =
    ground (arith, str_eq_iff k name, lookup-insert k name kind m, lookup-insert k name kind_dir m)

-- One claim more.
merged-claim :
    (k name : Str) (kind : Kind) (m : Map Str Kind) (as_dir as_file : Bool)
    → same_kind kind kind_dir || same_kind kind kind_file ≡ true
    → merged (lookup name (claim k kind m)) as_dir as_file
      ≡ merged
          (lookup name m)
          (if str_eq k name && same_kind kind kind_dir then true else as_dir)
          (if str_eq k name && same_kind kind kind_file then true else as_file)
unfolding merged
merged-claim k name kind_none m as_dir as_file h = cc
merged-claim k name kind_dir m as_dir as_file h = ground (arith, lookup-claim k name kind_dir m)
merged-claim k name kind_file m as_dir as_file h = ground (arith, lookup-claim k name kind_file m)

module _ {Data S : Type 0} (env : Env Data S) (dir : Str) where
  shown_as-kind :
      (raw : Str) {n : Str} {k : Kind}
      → shown_as env dir raw ≡ some (n, k)
      → same_kind k kind_dir || same_kind k kind_file ≡ true
  unfolding shown_as
  shown_as-kind raw e = ground (arith, e)

  lookup-fold_names :
      (raws : List Str) (m : Map Str Kind) (name : Str)
      → lookup name (fold_names env dir raws m)
        ≡ merged
            (lookup name m)
            (claimed env dir kind_dir raws name)
            (claimed env dir kind_file raws name)
  unfolding fold_names claimed
  lookup-fold_names [] m name = merged-same (lookup name m)
  lookup-fold_names (raw ∷ raws) m name = elim (Option-cases (shown_as env dir raw)) [
    | inl dropped ↦ rw (dropped, fold_names, claimed) (lookup-fold_names raws m name)
    | inr ((n, k), shown) ↦
        rw (shown, fold_names, claimed)
          (lookup-fold_names raws (claim n k m) name
            ∙ merged-claim n name k m (claimed env dir kind_dir raws name)
                (claimed env dir kind_file raws name) (shown_as-kind raw shown))
  ]

  -- What the fold and the certificates make of a name, in terms of what the listing claims.
  pub lookup-fold_names-add_certs :
      (raws : List Str) (name : Str)
      → lookup name (add_certs env dir (fold_names env dir raws [])) ≡ (
          if is_empty dir && serves_client_cert env name
          then some kind_file
          else if claimed env dir kind_dir raws name
          then some kind_dir
          else if claimed env dir kind_file raws name
          then some kind_file
          else none)
  unfolding add_certs serves_client_cert is_client_cert_path
  lookup-fold_names-add_certs raws name =
      let crt = codes "client.crt" in
      let key = codes "client.key" in
      let pem = codes "client.pem" in
      let m = fold_names env dir raws [] in
      unfold merged lookup in
      ground (
        arith,
        lookup-fold_names raws [] name,
        lookup-insert crt name kind_file m,
        lookup-insert key name kind_file (insert crt kind_file m),
        lookup-insert pem name kind_file (insert key kind_file (insert crt kind_file m)),
        str_eq_iff crt name,
        str_eq_iff name crt,
        str_eq_iff key name,
        str_eq_iff name key,
        str_eq_iff pem name,
        str_eq_iff name pem,
      )
