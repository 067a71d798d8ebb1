-- ===== src/DockerVol/Render/Trees.antt =====
-- internal/dockervol/materialise.go: renderings that are trees, and the steps of render on them.
use dotvault.Prelude.{
  ℕ, Str, codes, Map, Bool, true, false, not, ◌||◌, [], ◌∷◌, ◌++◌, Option, none, some, ◌≡◌, ◌≢◌,
  refl, inl, inr, lookup, insert, lookup-insert, str_has_eq, str_eq, str_eq_iff, is_empty,
  has_prefix, length, if◌then◌else◌, arith, Option-cases,
}
use dotvault.VaultFs.Names.{last_slash}
use dotvault.DockerVol.Render.{
  FileEntry, Rendered, CertFiles, Value, is_dir, valid_component, join_rel, parent_rel, add_dirs,
  add_dir, add_file, drop_dir, add_cert_file, add_client_cert, fold_collisions, field_bytes,
  add_fields,
}
use dotvault.DockerVol.Render.Paths.{
  under, add_dirs_mono, add_dirs-root, add_dirs-IsClosed, has_prefix-parent_rel, parent_rel-prefix,
  lookup-delete_where,
}

-- Files and directories lie under directories, and the root is not listed.
pub record IsTree (r : Rendered) : Type 0 where
  pub files_in : (p : Str) (e : FileEntry) → lookup p r.files ≡ some e → under r.dirs p ≡ true
  pub dirs_in : (p : Str) → is_dir r.dirs p ≡ true → under r.dirs p ≡ true
  pub root : is_dir r.dirs [] ≡ false

under-add_dirs :
    (n : ℕ) (d : Str) (dirs : Map Str (Unit {0})) (p : Str)
    → under dirs p ≡ true
    → under (add_dirs n d dirs) p ≡ true
under-add_dirs n d dirs p h = ground (arith, h, add_dirs_mono n d dirs (parent_rel p))

pub add_dir-IsTree : (d : Str) (r : Rendered) → IsTree r → IsTree (add_dir d r)
unfolding add_dir
add_dir-IsTree d r t = record {
  files_in = λ p e f. under-add_dirs (length d) d r.dirs p (t.files_in p e f);
  dirs_in =
      (add_dirs-IsClosed (length d) d r.dirs (omega arith)
        (λ p h. ground (arith, t.dirs_in p, h))).0;
  root = add_dirs-root (length d) d r.dirs t.root;
}

pub add_file-IsTree : (p : Str) (e : FileEntry) (r : Rendered) → IsTree r → IsTree (add_file p e r)
unfolding add_file add_dir
add_file-IsTree p e r t =
    let d = parent_rel p in
    let (all, last) =
      add_dirs-IsClosed (length d) d r.dirs (omega arith) (λ q h. ground (arith, t.dirs_in q, h)) in
    record {
      files_in = λ q f found. ground (
        arith,
        found,
        lookup-insert p q e r.files,
        str_eq_iff p q,
        last,
        t.files_in q f,
        under-add_dirs (length d) d r.dirs q,
      );
      dirs_in = all;
      root = add_dirs-root (length d) d r.dirs t.root;
    }

-- What lies under a path that is kept has a parent that is kept.
kept-parent :
    (name p : Str)
    → name ≢ []
    → has_prefix p (name ++ codes "/") ≡ false
    → str_eq (parent_rel p) name || has_prefix (parent_rel p) (name ++ codes "/") ≡ false
kept-parent name p n k = ground (
  arith,
  k,
  str_eq_iff (parent_rel p) name,
  parent_rel-prefix p name,
  n,
  has_prefix-parent_rel p (name ++ codes "/"),
  ends name,
)
  where
    ends : (s : Str) → s ++ codes "/" ≢ []
    ends [] e = cc
    ends (x ∷ s) e = cc

drop_dir-IsTree : (name : Str) (r : Rendered) → name ≢ [] → IsTree r → IsTree (drop_dir name r)
unfolding drop_dir
drop_dir-IsTree name r n t =
    let prefix = name ++ codes "/" in
    let gone : Str → Bool = λ (q : Str). str_eq q name || has_prefix q prefix in
    let dirs = λ (q : Str). lookup-delete_where gone q r.dirs in
    record {
      files_in = λ p e found. ground (
        arith,
        found,
        lookup-delete_where (λ (q : Str). has_prefix q prefix) p r.files,
        t.files_in p e,
        dirs (parent_rel p),
        kept-parent name p n,
      );
      dirs_in =
          λ p h. ground (arith, h, dirs p, t.dirs_in p, dirs (parent_rel p), kept-parent name p n);
      root = ground (arith, dirs [], t.root);
    }

-- A file at the root.
insert_file-IsTree :
    (name : Str) (e : FileEntry) (r : Rendered)
    → parent_rel name ≡ []
    → IsTree r
    → IsTree (record r { files = insert name e r.files })
insert_file-IsTree name e r flat t = record {
  files_in = λ p f found.
      unfold is_empty in
      ground
        (arith, found, lookup-insert name p e r.files, str_eq_iff name p, flat, t.files_in p f);
  dirs_in = t.dirs_in;
  root = t.root;
}

add_cert_file-IsTree :
    (name content : Str) (time : ℕ) (r : Rendered)
    → name ≢ []
    → parent_rel name ≡ []
    → IsTree r
    → IsTree (add_cert_file name content time r)
unfolding add_cert_file
add_cert_file-IsTree name content time r n flat t = elim (Option-cases (lookup name r.dirs)) [
  | inl free ↦ rw (free, add_cert_file) (insert_file-IsTree name _ r flat t)
  | inr (u, taken) ↦
      rw (taken, add_cert_file)
        (insert_file-IsTree name _ (drop_dir name r) flat (drop_dir-IsTree name r n t))
]

add_client_cert-IsTree : (c : CertFiles) (r : Rendered) → IsTree r → IsTree (add_client_cert c r)
unfolding add_client_cert parent_rel last_slash
add_client_cert-IsTree c r t =
    add_cert_file-IsTree _ _ _ _ (λ e. cc e) refl
      (add_cert_file-IsTree _ _ _ _ (λ e. cc e) refl
        (add_cert_file-IsTree _ _ _ _ (λ e. cc e) refl t))

pub add_fields-IsTree :
    (kv_path : Str) (created : ℕ) (fields : Map Str Value) (r : Rendered)
    → IsTree r
    → IsTree (add_fields kv_path created fields r)
unfolding add_fields
add_fields-IsTree kv_path created [] r t = t
add_fields-IsTree kv_path created ((field, value) ∷ fields) r t =
    add_fields-IsTree kv_path created fields _ (one (valid_component field) (field_bytes value))
  where
    one :
        (valid : Bool) (bytes : Option Str)
        → IsTree (
            if not valid then r else elim bytes [
              | none ↦ r
              | some content ↦
                  add_file
                    (join_rel kv_path field)
                    (record { content = content; mod_time = created })
                    r
            ])
    one false bytes = t
    one true none = t
    one true (some content) = add_file-IsTree (join_rel kv_path field) _ r t

pub with_cert :
    (s : Rendered)
    → IsTree s
    → (cert : Option CertFiles)
    → IsTree (elim cert as (λ x. Rendered) [ none ↦ s | some c ↦ add_client_cert c s ])
with_cert s t none = t
with_cert s t (some c) = add_client_cert-IsTree c s t

pub fold_collisions-IsTree :
    (r : Rendered)
    → IsTree r
    → IsTree (fold_collisions r)
      × ((p : Str) (e : FileEntry)
          → lookup p (fold_collisions r).files ≡ some e
          → is_dir (fold_collisions r).dirs p ≡ false)
unfolding fold_collisions
fold_collisions-IsTree r t = (
  record {
    files_in =
        λ p e f. ground (arith, f, lookup-delete_where (is_dir r.dirs) p r.files, t.files_in p e);
    dirs_in = t.dirs_in;
    root = t.root;
  },
  λ p e f. ground (arith, f, lookup-delete_where (is_dir r.dirs) p r.files),
)
