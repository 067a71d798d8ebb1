-- ===== src/DockerVol/RenderTests.antt =====
-- Runs and instances for the rendering of internal/dockervol/materialise.go.
use dotvault.Prelude.{
  ℕ, ◌<◌, Str, codes, Map, true, false, List, [], ◌∷◌, Option, none, some, ok, err, pos, ◌≡◌, ◌≢◌,
  refl, lookup, insert, str_has_eq, str_eq, str_eq_iff, is_empty, contains_byte, trim, split,
  cut_suffix, has_suffix, any_equal, if◌then◌else◌, arith, Bool-cases, inl, inr,
}
use dotvault.KvPath.{clean, validate_names}
use dotvault.KvPath as KvPath
use dotvault.VaultFs.Names.{last_slash}
use dotvault.VaultFs.Tree.{Env}
use dotvault.DockerVol.Spec.{Spec, initial, layout_fields}
use dotvault.DockerVol.Render.{
  FileEntry, Rendered, too_deep, Value, is_dir, no_files, valid_component, join_rel, parent_rel,
  add_dirs, add_dir, add_file, delete_where, fold_collisions, field_bytes, add_fields, entry_name,
  emit_secret, emit_path, walk_names, walk, render_secrets, render,
}
use dotvault.DockerVol.Render.Shape.{is_placed, render-is_placed}
use dotvault.DockerVol.Render.Depth.{walk-ne-too_deep}

abbrev text : Str → Value
text s = record { as_string = some s; as_json = none }

-- The secret `k` of the folder `a`, with one field, and nothing else.
abbrev env : Env (Map Str Value) (Unit {0})
env = record {
  read = λ p s.
      if str_eq p (codes "a/k")
      then some (
          some (record {
            data_map = some ((codes "user", text (codes "gary")) ∷ []);
            version = 1;
            created_time = 7;
          }))
      else some none;
  write = λ p m s. (false, s);
  delete = λ p s. (false, s);
  empty_map = [];
  has_no_entries = λ m. false;
  marshal = λ m. some (codes "{}");
  decode = λ s. none;
  trim_space = λ s. s;
  read_write = false;
  client_cert = none;
}

abbrev list : Str → Unit {0} → Option (List Str)
list dir s =
    if str_eq dir []
    then some (codes "a/" ∷ codes "b" ∷ [])
    else if str_eq dir (codes "a")
    then some (codes "k" ∷ [])
    else none

abbrev fields_spec : Spec
fields_spec = record (initial (pos 60_000_000_000)) { layout = layout_fields }

abbrev user_file : FileEntry
user_file = record { content = codes "gary"; mod_time = 7 }

abbrev volume : Rendered
volume = record {
  files = (codes "a/k/user", user_file) ∷ [];
  dirs = (codes "a/k", tt) ∷ (codes "a", tt) ∷ [];
  secrets = 1;
}

renders : render env list tt fields_spec 2 none ≡ ok volume
unfolding render render_secrets walk walk_names entry_name emit_path emit_secret add_fields
    field_bytes valid_component join_rel add_file add_dir add_dirs parent_rel last_slash
    fold_collisions delete_where clean KvPath.validate_name validate_names trim split contains_byte
    is_empty has_suffix cut_suffix lookup insert str_eq
renders = refl

render-is_placed_example :
    (is_dir volume.dirs [] ≡ false) × (is_placed volume (codes "a/k/user") ≡ true)
render-is_placed_example =
    render-is_placed env list tt fields_spec 2 none volume (codes "a/k/user") renders

abbrev height : Str → ℕ
height dir = if str_eq dir [] then 2 else if str_eq dir (codes "a") then 1 else 0

falls :
    (dir entry : Str) (names : List Str)
    → list dir tt ≡ some names
    → any_equal names entry ≡ true
    → height (join_rel dir (entry_name entry)) < height dir
unfolding join_rel entry_name cut_suffix is_empty any_equal str_eq
falls dir entry names listed m = elim (Bool-cases (str_eq dir [])) [
  | inl root ↦
      let top : dir ≡ [] = (str_eq_iff dir []).0 root in
      let both : (codes "a/" ∷ codes "b" ∷ []) ≡ names = ground (arith, top, listed) in
      elim (Bool-cases (str_eq entry (codes "a/"))) [
        | inl folder ↦ rw (top, (str_eq_iff entry (codes "a/")).0 folder) (omega arith)
        | inr other ↦
            let leaf : entry ≡ codes "b" =
              (str_eq_iff entry (codes "b")).0 (ground (arith, rw (← both) at m, other)) in
            rw (top, leaf) (omega arith)
      ]
  | inr below ↦ elim (Bool-cases (str_eq dir (codes "a"))) [
    | inr elsewhere ↦ absurd (ground (arith, below, elsewhere, listed))
    | inl in_a ↦ let a : dir ≡ codes "a" = (str_eq_iff dir (codes "a")).0 in_a in rw a (omega arith)
  ]
]

walk-ne-too_deep_example : walk env list tt fields_spec 3 [] no_files ≢ err too_deep
walk-ne-too_deep_example =
    walk-ne-too_deep env list tt fields_spec height falls 3 [] no_files
      (unfold str_eq in omega arith)
