-- ===== src/VaultFs/Names.antt =====
-- File names and KV paths (internal/vaultfs/tree.go).
use dotvault.Prelude.{
  cut_suffix, cut_suffix-append, cut_suffix-some, ◌==◌, Str, codes, slash, [], ◌∷◌, ◌++◌, Option,
  none, some, Result, ok, err, ◌>>=◌, ◌≡◌, ◌≢◌, ◌↔◌, is_empty, inl, inr, ◌⊎◌, Option-cases, arith,
  if◌then◌else◌,
}
use dotvault.KvPath.{KvError, invalid_name, clean}

abbrev pub file_extension : Str
file_extension = codes ".json"

unfoldable pub file_display_name : Str → Str
file_display_name kv_name = kv_name ++ file_extension

unfoldable pub secret_kv_name : Str → Option Str
secret_kv_name display = elim (cut_suffix display file_extension) [
  | none ↦ none
  | some stem ↦ if is_empty stem then none else some stem
]

-- strings.LastIndex(p, "/"): what stands before it and after it.
unfoldable pub last_slash : Str → Option (Str × Str)
last_slash [] = none
last_slash (x ∷ s) = elim (last_slash s) [
  | some (dir, leaf) ↦ some (x ∷ dir, leaf)
  | none ↦ if x == slash then some ([], s) else none
]

unfoldable pub leaf_name : Str → Str
leaf_name p = elim (last_slash p) [ none ↦ p | some (dir, leaf) ↦ leaf ]

unfoldable pub parent_path : Str → Str
parent_path p = elim (last_slash p) [ none ↦ [] | some (dir, leaf) ↦ dir ]

unfoldable pub join_path : Str → Str → Str
join_path dir name = if is_empty dir then name else dir ++ (slash ∷ name)

unfoldable pub kv_path_for_file : Str → Result KvError Str
kv_path_for_file display_path = do
  p ← clean display_path
  if is_empty p then err invalid_name else elim (secret_kv_name (leaf_name p)) [
    | none ↦ err invalid_name
    | some stem ↦ ok (join_path (parent_path p) stem)
  ]

-- File names and the names of secrets determine each other: a file name stands for the secret of
-- this name exactly if it is what the secret is shown as, and no secret has the empty name.
pub secret_kv_name_iff :
    (s name : Str) → (secret_kv_name s ≡ some name) ↔ ((s ≡ file_display_name name) × (name ≢ []))
unfolding secret_kv_name file_display_name is_empty
secret_kv_name_iff s name = (
  λ e. named e (Option-cases (cut_suffix s file_extension)),
  λ (e, n).
      rw e (ground (arith, n, cut_suffix-append name file_extension (λ h. ground (arith, h)))),
)
  where
    named :
        secret_kv_name s ≡ some name
        → (cut_suffix s file_extension ≡ none)
          ⊎ ((stem : Str) × (cut_suffix s file_extension ≡ some stem))
        → (s ≡ file_display_name name) × (name ≢ [])
    named e (inl absent) = absurd (ground (arith, e, absent))
    named e (inr (stem, found)) =
        ground (arith, e, found, cut_suffix-some s file_extension stem found)
