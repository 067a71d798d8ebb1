-- ===== src/DockerVol/Render/Shape.antt =====
-- internal/dockervol/materialise.go: the shape of what render returns, its files and directories.
use dotvault.Prelude.{
  ℕ, zero, suc, ◌+◌, Str, codes, Map, Bool, true, false, not, ◌&&◌, List, [], ◌∷◌, ◌++◌, Option,
  none, some, Result, ok, err, ◌≡◌, refl, inl, inr, lookup, str_has_eq, str_eq, has_suffix,
  cut_suffix, if◌then◌else◌, arith, Option-cases, Result-cases,
}
use dotvault.VaultFs.Names.{file_extension}
use dotvault.VaultFs.Tree.{Secret, Env, render_document}
use dotvault.DockerVol.Spec.{Spec, client_cert_only, layout_fields}
use dotvault.DockerVol.Render.{
  FileEntry, Rendered, RenderError, CertFiles, Value, is_dir, valid_component, join_rel,
  add_client_cert, fold_collisions, entry_name, emit_secret, emit_path, walk_names, walk,
  render_selection, no_files, render_secrets, render,
}
use dotvault.DockerVol.Render.Paths.{under}
use dotvault.DockerVol.Render.Trees.{
  IsTree, add_dir-IsTree, add_file-IsTree, add_fields-IsTree, fold_collisions-IsTree, with_cert,
}

-- A file lies under a directory and is none itself; a directory lies under one.
unfoldable pub is_placed : Rendered → Str → Bool
is_placed r p = elim (lookup p r.files) [
  | some e ↦ under r.dirs p && not (is_dir r.dirs p)
  | none ↦ if is_dir r.dirs p then under r.dirs p else true
]

-- What the walk returns, if it returns a rendering.
abbrev Returns : Result RenderError Rendered → Type 0
Returns (err e) = Unit
Returns (ok r) = IsTree r

returned : (m : Result RenderError Rendered) {r : Rendered} → Returns m → m ≡ ok r → IsTree r
returned (ok r') {r} t e = let same : r' ≡ r = cc e in rw (← same) t
returned (err x) t e = cc

if-Returns :
    (b : Bool) (x y : Result RenderError Rendered)
    → Returns x
    → Returns y
    → Returns (if b then x else y)
if-Returns true x y t u = t
if-Returns false x y t u = u

module _ {S : Type 0} (env : Env (Map Str Value) S) (list : Str → S → Option (List Str)) (store : S)
    (spec : Spec) where
  emit_secret-IsTree :
      (kv_path : Str) (secret : Secret (Map Str Value)) (r : Rendered)
      → IsTree r
      → Returns (emit_secret env list store spec kv_path secret r)
  unfolding emit_secret
  emit_secret-IsTree kv_path secret r t =
      let counted : IsTree (record r { secrets = r.secrets + 1 }) = record {
        files_in = t.files_in;
        dirs_in = t.dirs_in;
        root = t.root;
      } in
      if-Returns (str_eq spec.layout layout_fields) _ _
        (add_dir-IsTree kv_path _ (add_fields-IsTree kv_path secret.created_time _ _ counted))
        (elim (Option-cases (render_document env secret)) [
          | inl bad ↦ rw bad tt
          | inr (doc, good) ↦ rw good (add_file-IsTree (kv_path ++ file_extension) _ _ counted)
        ])

  emit_path-IsTree :
      (kv_path : Str) (r : Rendered) → IsTree r → Returns (emit_path env list store spec kv_path r)
  unfolding emit_path
  emit_path-IsTree kv_path r t = elim (Option-cases (env.read kv_path store)) [
    | inl failed ↦ rw (failed, emit_path) tt
    | inr (o, read) ↦ elim (Option-cases o) [
      | inl absent ↦ rw (read, emit_path, absent) t
      | inr (secret, present) ↦
          rw (read, emit_path, present) (emit_secret-IsTree kv_path secret r t)
    ]
  ]

  walk_names-IsTree :
      (walk : Str → Rendered → Result RenderError Rendered)
      → ((dir : Str) (r : Rendered) → IsTree r → Returns (walk dir r))
      → (dir : Str) (names : List Str) (r : Rendered) → IsTree r
      → Returns (walk_names env list store spec walk dir names r)
  unfolding walk_names
  walk_names-IsTree walk keeps dir [] r t = t
  walk_names-IsTree walk keeps dir (entry ∷ names) r t =
      let name = entry_name entry in
      let m =
        if has_suffix entry (codes "/")
        then walk (join_rel dir name) r
        else emit_path env list store spec (join_rel dir name) r in
      let got : Returns m =
        if-Returns (has_suffix entry (codes "/")) _ _ (keeps (join_rel dir name) r t)
          (emit_path-IsTree (join_rel dir name) r t) in
      if-Returns (not (valid_component name)) _ _ (walk_names-IsTree walk keeps dir names r t)
        (elim (Result-cases m) [
          | inl (e, bad) ↦ rw bad tt
          | inr (r', good) ↦
              rw good (walk_names-IsTree walk keeps dir names r' (returned m got good))
        ])

  walk-IsTree :
      (depth : ℕ) (dir : Str) (r : Rendered)
      → IsTree r
      → Returns (walk env list store spec depth dir r)
  unfolding walk
  walk-IsTree zero dir r t = tt
  walk-IsTree (suc depth) dir r t = elim (Option-cases (list dir store)) [
    | inl failed ↦ rw (failed, walk) tt
    | inr (names, listed) ↦
        rw (listed, walk)
          (walk_names-IsTree (walk env list store spec depth) (λ d q. walk-IsTree depth d q) dir
            names r t)
  ]

  render_selection-IsTree :
      (depth : ℕ) (sels : List Str) (r : Rendered)
      → IsTree r
      → Returns (render_selection env list store spec depth sels r)
  unfolding render_selection
  render_selection-IsTree depth [] r t = t
  render_selection-IsTree depth (sel ∷ sels) r t =
      go (cut_suffix sel (codes "/")) (render_selection-IsTree depth sels)
    where
      next :
          (m : Result RenderError Rendered)
          → Returns m
          → ((r : Rendered)
              → IsTree r
              → Returns (render_selection env list store spec depth sels r))
          → Returns (elim m [
            | err e ↦ err e
            | ok r' ↦ render_selection env list store spec depth sels r'
          ])
      next (ok r') u ih = ih r' u
      next (err e) u ih = tt

      go :
          (o : Option Str)
          → ((r : Rendered)
              → IsTree r
              → Returns (render_selection env list store spec depth sels r))
          → Returns
              (elim (elim o as (λ x. Result RenderError Rendered) [
                | none ↦ emit_path env list store spec sel r
                | some folder ↦ walk env list store spec depth folder r
              ]) [ err e ↦ err e | ok r' ↦ render_selection env list store spec depth sels r' ])
      go none ih = next _ (emit_path-IsTree sel r t) ih
      go (some folder) ih = next _ (walk-IsTree depth folder r t) ih

  render_secrets-IsTree : (depth : ℕ) → Returns (render_secrets env list store spec depth)
  unfolding render_secrets
  render_secrets-IsTree depth = selected spec.secrets
    where
      blank : IsTree no_files
      blank = record {
        files_in = λ p e f. unfold lookup in cc f;
        dirs_in = λ p h. unfold lookup in cc h;
        root = unfold lookup in refl;
      }

      selected :
          (sels : List Str)
          → Returns (elim sels as (λ x. Result RenderError Rendered) [
            | [] ↦
                if str_eq spec.client_cert client_cert_only
                then ok no_files
                else walk env list store spec depth [] no_files
            | sel ∷ rest ↦ render_selection env list store spec depth (sel ∷ rest) no_files
          ])
      selected [] =
          if-Returns (str_eq spec.client_cert client_cert_only) _ _ blank
            (walk-IsTree depth [] no_files blank)
      selected (sel ∷ rest) = render_selection-IsTree depth (sel ∷ rest) no_files blank

  render-IsTree :
      (depth : ℕ) (cert : Option CertFiles) (r : Rendered)
      → render env list store spec depth cert ≡ ok r
      → IsTree r × ((p : Str) (e : FileEntry) → lookup p r.files ≡ some e → is_dir r.dirs p ≡ false)
  unfolding render
  render-IsTree depth cert r e = elim (Result-cases (render_secrets env list store spec depth)) [
    | inl (x, bad) ↦ absurd (cc (rw (bad, render) at e))
    | inr (s, good) ↦
        let t : IsTree s = returned _ (render_secrets-IsTree depth) good in
        let whole : Rendered = elim cert [ none ↦ s | some c ↦ add_client_cert c s ] in
        let u : IsTree whole = with_cert s t cert in
        let same : fold_collisions whole ≡ r = cc (rw (good, render) at e) in
        rw (← same) (fold_collisions-IsTree whole u)
  ]

  -- What render returns can be written: the root is not among its directories, every file and every
  -- directory lies in the root or in one of the directories, and no file has a directory's path.
  pub render-is_placed :
      (depth : ℕ) (cert : Option CertFiles) (r : Rendered) (p : Str)
      → render env list store spec depth cert ≡ ok r
      → (is_dir r.dirs [] ≡ false) × (is_placed r p ≡ true)
  render-is_placed depth cert r p e =
      let (t, apart) = render-IsTree depth cert r e in
      (
        t.root,
        elim (Option-cases (lookup p r.files)) [
          | inl no_file ↦ unfold is_placed in ground (arith, no_file, t.dirs_in p)
          | inr (f, file) ↦ unfold is_placed in ground (arith, file, t.files_in p f, apart p f)
        ],
      )
