-- ===== src/Handlers/SshConfig/Keys.antt =====
-- internal/handlers/ssh_config.go: directiveKey, and the line that has a key when it is merged.
use dotvault.Prelude.{
  Str, true, false, List, [], ◌∷◌, ◌++◌, ◌≡◌, refl, inl, inr, ◌∙◌, sym, ap, str_eq_iff,
  contains_byte, any_equal, Bool-cases, All, arith, to_lower,
}
use dotvault.Handlers.SshConfig.{
  Line, key_of, multi_valued, is_multi_valued, discriminator, fresh, directive_key, has_key,
}

-- A text with no NUL.
abbrev pub IsPlain : Str → Type 0
IsPlain s = contains_byte 0 s ≡ false

any_equal-IsPlain : (ys : List Str) (x : Str) → any_equal ys x ≡ true → All IsPlain ys → IsPlain x
unfolding any_equal
any_equal-IsPlain [] x e h = cc
any_equal-IsPlain (y ∷ ys) x e h =
    ground (arith, e, h.0, any_equal-IsPlain ys x, str_eq_iff y x, str_eq_iff x y)

is_multi_valued-IsPlain : (kw : Str) → is_multi_valued kw ≡ true → IsPlain kw
unfolding is_multi_valued contains_byte
is_multi_valued-IsPlain kw e =
    any_equal-IsPlain multi_valued kw e
      (refl, (refl, (refl, (refl, (refl, (refl, (refl, (refl, (refl, tt)))))))))

has_nul : (p x : Str) → contains_byte 0 (p ++ (0 ∷ x)) ≡ true
unfolding contains_byte
has_nul [] x = refl
has_nul (c ∷ p) x = ground (arith, has_nul p x)

same_keyword : (p q x y : Str) → IsPlain p → IsPlain q → p ++ (0 ∷ x) ≡ q ++ (0 ∷ y) → p ≡ q
unfolding contains_byte
same_keyword [] [] x y h k e = refl
same_keyword [] (d ∷ q) x y h k e = ground (arith, e)
same_keyword (c ∷ p) [] x y h k e = ground (arith, e)
same_keyword (c ∷ p) (d ∷ q) x y h k e = ground (arith, e, same_keyword p q x y)

key_of-single : (kw args : Str) → is_multi_valued kw ≡ false → key_of kw args ≡ kw
unfolding key_of
key_of-single kw args e = rw e refl

key_of-multi :
    (kw args : Str) → is_multi_valued kw ≡ true → key_of kw args ≡ kw ++ (0 ∷ discriminator kw args)
unfolding key_of
key_of-multi kw args e = rw e refl

-- The key of a line is the incoming line's still when it is given that line's arguments.
key_of-args :
    (kw kw' args args' : Str)
    → IsPlain kw'
    → key_of kw args ≡ key_of kw' args'
    → key_of kw args' ≡ key_of kw' args'
key_of-args kw kw' args args' h e = elim (Bool-cases (is_multi_valued kw)) [
  | inr single ↦ ground (arith, e, key_of-single kw args single, key_of-single kw args' single)
  | inl multi ↦ elim (Bool-cases (is_multi_valued kw')) [
    | inl multi' ↦
        let same : kw ≡ kw' =
          same_keyword kw kw' (discriminator kw args) (discriminator kw' args')
            (is_multi_valued-IsPlain kw multi) h
            (sym (key_of-multi kw args multi) ∙ (e ∙ key_of-multi kw' args' multi')) in
        rw same refl
    | inr single' ↦
        let whole : kw ++ (0 ∷ discriminator kw args) ≡ kw' =
          sym (key_of-multi kw args multi) ∙ (e ∙ key_of-single kw' args' single') in
        absurd (ground (arith, h, ap (contains_byte 0) whole, has_nul kw (discriminator kw args)))
  ]
]

module _ (unicode : Str → Str) where
  -- A line that may be merged: its keyword holds no NUL.
  abbrev pub IsPlainLine : Line → Type 0
  IsPlainLine l = IsPlain (to_lower unicode l.keyword)

  -- A line that is merged into one with its key has that key still.
  pub has_key-args :
      (src l : Line)
      → IsPlainLine src
      → has_key unicode (directive_key unicode src) l ≡ true
      → has_key unicode (directive_key unicode src) (record l { args = src.args; dirty = true })
        ≡ true
  unfolding directive_key
  has_key-args src l plain h = ground (
    arith,
    h,
    key_of-args (to_lower unicode l.keyword) (to_lower unicode src.keyword) l.args src.args plain,
    str_eq_iff (key_of (to_lower unicode l.keyword) l.args)
        (key_of (to_lower unicode src.keyword) src.args),
    str_eq_iff (key_of (to_lower unicode l.keyword) src.args)
        (key_of (to_lower unicode src.keyword) src.args),
  )

  pub directive_key-fresh :
      (indent : Str) (src : Line)
      → directive_key unicode (fresh indent src) ≡ directive_key unicode src
  unfolding directive_key
  directive_key-fresh indent src = refl
