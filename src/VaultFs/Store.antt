-- ===== src/VaultFs/Store.antt =====
-- internal/vaultfs/store.go: the KV paths under which a mount reads and writes.
use dotvault.Prelude.{
  ◌==◌, Str, slash, Bool, false, not, ◌||◌, [], ◌∷◌, ◌++◌, Option, none, some, Result, ok, err, ◌≡◌,
  refl, sym, ap, ◌∙◌, is_empty, contains_byte, arith, if◌then◌else◌,
}
use dotvault.KvPath.{KvError, validate_name, clean}
use dotvault.KvPath.Grammar.{validate_name-none}

pub data StoreError : Type 0 where
  nil_client empty_mount : StoreError
  invalid_username invalid_prefix : KvError → StoreError

pub record VaultStore : Type 0 where
  pub kv_mount : Str
  pub prefix : Str

-- strings.HasSuffix(s, "/")
unfoldable pub ends_in_slash : Str → Bool
ends_in_slash [] = false
ends_in_slash (x ∷ s) = let rest = ends_in_slash s in if is_empty s then x == slash else rest

unfoldable pub user_root : Str → Str → Str
user_root user_prefix username =
    (if is_empty user_prefix || ends_in_slash user_prefix
      then user_prefix
      else user_prefix ++ (slash ∷ []))
    ++ (username ++ (slash ∷ []))

-- Clean of a prefix that is set.
unfoldable pub check_prefix : Str → Option KvError
check_prefix user_prefix =
    if is_empty user_prefix then none else elim (clean user_prefix) [ err e ↦ some e | ok p ↦ none ]

unfoldable pub new_store : Bool → Str → Str → Str → Result StoreError VaultStore
new_store has_client kv_mount user_prefix username =
    if not has_client
    then err nil_client
    else if is_empty kv_mount
    then err empty_mount
    else elim (validate_name username) [
      | some e ↦ err (invalid_username e)
      | none ↦ elim (check_prefix user_prefix) [
        | some e ↦ err (invalid_prefix e)
        | none ↦ ok (record { kv_mount = kv_mount; prefix = user_root user_prefix username })
      ]
    ]

unfoldable pub store_path : VaultStore → Str → Str
store_path s rel_path = s.prefix ++ rel_path

unfoldable pub list_path : VaultStore → Str → Str
list_path s rel_path = if is_empty rel_path then s.prefix else store_path s rel_path ++ (slash ∷ [])

append_cancel : (xs a b : Str) → xs ++ a ≡ xs ++ b → a ≡ b
append_cancel [] a b e = e
append_cancel (x ∷ xs) a b e = append_cancel xs a b (ground (arith, e))

append_assoc : (xs ys zs : Str) → (xs ++ ys) ++ zs ≡ xs ++ (ys ++ zs)
append_assoc [] ys zs = refl
append_assoc (x ∷ xs) ys zs = ap (λ (s : Str). x ∷ s) (append_assoc xs ys zs)

first_slash :
    (u v a b : Str)
    → contains_byte slash u ≡ false
    → contains_byte slash v ≡ false
    → u ++ (slash ∷ a) ≡ v ++ (slash ∷ b)
    → u ≡ v
unfolding contains_byte
first_slash [] [] a b m n e = refl
first_slash [] (y ∷ v) a b m n e = ground (arith, n, e)
first_slash (x ∷ u) [] a b m n e = ground (arith, m, e)
first_slash (x ∷ u) (y ∷ v) a b m n e = ground (arith, m, n, e, first_slash u v a b)

new_store-ok :
    (has_client : Bool) (kv_mount user_prefix username : Str) (s : VaultStore)
    → new_store has_client kv_mount user_prefix username ≡ ok s
    → (validate_name username ≡ none) × (s.prefix ≡ user_root user_prefix username)
unfolding new_store
new_store-ok has_client kv_mount user_prefix username s e = ground (arith, e)

-- Two stores made for the same user prefix never read or write the same path, unless they are the
-- same user's, whatever the relative paths.
pub store_path-new_store :
    (c d : Bool) (kv_mount other_mount user_prefix u v : Str) (s t : VaultStore) (a b : Str)
    → new_store c kv_mount user_prefix u ≡ ok s
    → new_store d other_mount user_prefix v ≡ ok t
    → store_path s a ≡ store_path t b
    → u ≡ v
store_path-new_store c d kv_mount other_mount user_prefix u v s t a b e f same =
    let (m, p) = new_store-ok c kv_mount user_prefix u s e in
    let (n, q) = new_store-ok d other_mount user_prefix v t f in
    first_slash u v a b (validate_name-none u m).no_slash (validate_name-none v n).no_slash
      (rest p q)
  where
    base : Str
    base =
        if is_empty user_prefix || ends_in_slash user_prefix
        then user_prefix
        else user_prefix ++ (slash ∷ [])

    spelled :
        (w : Str) (r : VaultStore) (c : Str)
        → r.prefix ≡ user_root user_prefix w
        → store_path r c ≡ base ++ (w ++ (slash ∷ c))
    spelled w r c p =
        unfold store_path user_root in
        rw (p, append_assoc base (w ++ (slash ∷ [])) c, append_assoc w (slash ∷ []) c) refl

    rest :
        s.prefix ≡ user_root user_prefix u
        → t.prefix ≡ user_root user_prefix v
        → u ++ (slash ∷ a) ≡ v ++ (slash ∷ b)
    rest p q =
        append_cancel base (u ++ (slash ∷ a)) (v ++ (slash ∷ b))
          (sym (spelled u s a p) ∙ same ∙ spelled v t b q)
