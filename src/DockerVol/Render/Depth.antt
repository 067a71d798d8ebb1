-- ===== src/DockerVol/Render/Depth.antt =====
-- The recursion of render of internal/dockervol/materialise.go ends where the folders do.
use dotvault.Prelude.{
  ℕ, zero, suc, ◌<◌, Str, codes, Map, Bool, true, false, not, List, [], ◌∷◌, Option, some, Result,
  ok, err, ◌≡◌, ◌≢◌, inl, inr, any_equal, str_eq_refl, has_suffix, if◌then◌else◌, arith,
  Option-cases,
}
use dotvault.VaultFs.Tree.{Env}
use dotvault.DockerVol.Spec.{Spec}
use dotvault.DockerVol.Render.{
  Rendered, RenderError, too_deep, Value, valid_component, join_rel, entry_name, emit_secret,
  emit_path, walk_names, walk,
}

if-ne :
    (b : Bool) (x y : Result RenderError Rendered)
    → x ≢ err too_deep
    → y ≢ err too_deep
    → (if b then x else y) ≢ err too_deep
if-ne true x y m n = m
if-ne false x y m n = n

module _ {S : Type 0} (env : Env (Map Str Value) S) (list : Str → S → Option (List Str)) (store : S)
    (spec : Spec) where
  emit_path-ne-too_deep :
      (kv_path : Str) (r : Rendered) → emit_path env list store spec kv_path r ≢ err too_deep
  unfolding emit_path emit_secret
  emit_path-ne-too_deep kv_path r e = ground (arith, e)

  walk_names-ne-too_deep :
      (walk : Str → Rendered → Result RenderError Rendered) (dir : Str) (names : List Str)
      → ((entry : Str)
          → any_equal names entry ≡ true
          → (r : Rendered) → walk (join_rel dir (entry_name entry)) r ≢ err too_deep)
      → (r : Rendered) → walk_names env list store spec walk dir names r ≢ err too_deep
  unfolding walk_names
  walk_names-ne-too_deep walk dir [] h r = λ e. cc e
  walk_names-ne-too_deep walk dir (entry ∷ names) h r = go (
      walk_names-ne-too_deep walk dir names
        (λ x m q. h x (unfold any_equal in ground (arith, m)) q))
    where
      path : Str
      path = join_rel dir (entry_name entry)

      one :
          (if has_suffix entry (codes "/")
            then walk path r
            else emit_path env list store spec path r)
          ≢ err too_deep
      one =
          if-ne (has_suffix entry (codes "/")) _ _
            (h entry (unfold any_equal in ground (arith, str_eq_refl entry)) r)
            (emit_path-ne-too_deep path r)

      next :
          (m : Result RenderError Rendered)
          → m ≢ err too_deep
          → ((q : Rendered) → walk_names env list store spec walk dir names q ≢ err too_deep)
          → elim m as (λ x. Result RenderError Rendered) [
            | err x ↦ err x
            | ok q ↦ walk_names env list store spec walk dir names q
          ]
            ≢ err too_deep
      next (err x) n ih = n
      next (ok q) n ih = ih q

      go :
          ((q : Rendered) → walk_names env list store spec walk dir names q ≢ err too_deep)
          → walk_names env list store spec walk dir (entry ∷ names) r ≢ err too_deep
      go ih = if-ne (not (valid_component (entry_name entry))) _ _ (ih r) (next _ one ih)

  -- A walk does not run out of depth where every entry of a listing lies lower than the folder that
  -- lists it, and the folder lies lower than the depth given.
  pub walk-ne-too_deep :
      (height : Str → ℕ)
      → ((dir entry : Str) (names : List Str)
          → list dir store ≡ some names
          → any_equal names entry ≡ true
          → height (join_rel dir (entry_name entry)) < height dir)
      → (depth : ℕ) (dir : Str) (r : Rendered) → height dir < depth
      → walk env list store spec depth dir r ≢ err too_deep
  unfolding walk
  walk-ne-too_deep height falls zero dir r low = λ e. elim low [ ]
  walk-ne-too_deep height falls (suc depth) dir r low = elim (Option-cases (list dir store)) [
    | inl failed ↦ rw (failed, walk) (λ e. cc e)
    | inr (names, listed) ↦
        rw (listed, walk)
          (walk_names-ne-too_deep (walk env list store spec depth) dir names
            (λ entry m q.
              walk-ne-too_deep height falls depth (join_rel dir (entry_name entry)) q
                (omega (arith, falls dir entry names listed m, low)))
            r)
  ]
