-- ===== src/Sync/Cycle/Isolation.antt =====
-- Rules are isolated in a cycle of internal/sync/engine.go, and its label says what happened.
use dotvault.Prelude.{
  ℕ, zero, suc, ◌+◌, ◌≤◌, Bool, true, false, List, [], ◌∷◌, Option, none, some, Result, ok, err,
  ◌≡◌, length, take, if◌then◌else◌, arith, Bool-cases, Result-cases, inl, inr,
}
use dotvault.Sync.{Rule, World, Env, SyncError}
use dotvault.Sync.SyncRule.{sync_rule}
use dotvault.Sync.Cycle.{RunError, rule_failed, interrupted, Tally, tally, interrupt, run_rules}

unfoldable pub select : (Rule → Bool) → List Rule → List Rule
select include [] = []
select include (rule ∷ rules) =
    let rest = select include rules in if include rule then rule ∷ rest else rest

-- How many of n rules run, from the first at which the context is cancelled on.
unfoldable pub reached : (ℕ → Bool) → ℕ → ℕ → ℕ
reached cancelled from zero = 0
reached cancelled from (suc n) =
    let more = suc (reached cancelled (from + 1) n) in if cancelled from then 0 else more

module _ {Data Doc : Type 0} (env : Env Data Doc) where
  -- The rules one after the other, each on the world that the ones before it left.
  unfoldable pub world_after : List Rule → World → World
  world_after [] w = w
  world_after (rule ∷ rules) w = world_after rules (sync_rule env rule w).1

  unfoldable pub failures : List Rule → World → ℕ
  failures [] w = 0
  failures (rule ∷ rules) w =
      let rest = failures rules (sync_rule env rule w).1 in
      elim (sync_rule env rule w).0 [ ok u ↦ rest | err e ↦ suc rest ]

  unfoldable pub last_failure : Option RunError → List Rule → World → Option RunError
  last_failure seen [] w = seen
  last_failure seen (rule ∷ rules) w = elim (sync_rule env rule w).0 [
    | ok u ↦ last_failure seen rules (sync_rule env rule w).1
    | err e ↦ last_failure (some (rule_failed e)) rules (sync_rule env rule w).1
  ]

unfoldable pub or_else {ℓ} : {A : Type ℓ} → Option A → A → Option A
or_else none a = some a
or_else (some b) a = some b

-- What a run over the selected rules amounts to, from a tally on.
module _ {Data Doc : Type 0} (env : Env Data Doc) (cancelled : ℕ → Bool) where
  pub record Ran (rules : List Rule) (t : Tally) (w : World) (n : ℕ) (t' : Tally) (w' : World)
      : Type 0 where
    pub count : t'.synced + t'.failed ≡ t.synced + t.failed + n
    pub failed : t'.failed ≡ t.failed + failures env (take n rules) w
    pub world : w' ≡ world_after env (take n rules) w
    pub complete : n ≡ length rules → t'.last_error ≡ last_failure env t.last_error (take n rules) w
    pub stopped :
        suc n ≤ length rules
        → t'.last_error
          ≡ or_else
              (last_failure env t.last_error (take n rules) w)
              (interrupted (t'.synced + t'.failed))

  Ran-interrupt :
      (rule : Rule) (rules : List Rule) (t : Tally) (w : World)
      → Ran (rule ∷ rules) t w 0 (interrupt t) w
  unfolding interrupt failures world_after last_failure or_else
  Ran-interrupt rule rules t w = ground arith

  Ran-step :
      (rule : Rule) (rules : List Rule) (t : Tally) (w : World) (n : ℕ) (t' : Tally) (w' : World)
      → Ran rules (tally (sync_rule env rule w).0 t) (sync_rule env rule w).1 n t' w'
      → Ran (rule ∷ rules) t w (suc n) t' w'
  Ran-step rule rules t w n t' w' r = elim (Result-cases (sync_rule env rule w).0) [
    | inl (e, eq) ↦ failing e eq r
    | inr (u, eq) ↦ passing u eq r
  ]
    where
      passing :
          (u : Unit {0})
          → (sync_rule env rule w).0 ≡ ok u
          → Ran rules (tally (sync_rule env rule w).0 t) (sync_rule env rule w).1 n t' w'
          → Ran (rule ∷ rules) t w (suc n) t' w'
      passing u eq r = unfold tally failures world_after last_failure in ground (arith, eq, r)

      failing :
          (e : SyncError)
          → (sync_rule env rule w).0 ≡ err e
          → Ran rules (tally (sync_rule env rule w).0 t) (sync_rule env rule w).1 n t' w'
          → Ran (rule ∷ rules) t w (suc n) t' w'
      failing e eq r = unfold tally failures world_after last_failure in ground (arith, eq, r)

  tally_count :
      (r : Result SyncError (Unit {0})) (t : Tally)
      → (tally r t).synced + (tally r t).failed ≡ t.synced + t.failed + 1
  unfolding tally
  tally_count (ok u) t = omega arith
  tally_count (err e) t = omega arith

  reached-stop : (from n : ℕ) → cancelled from ≡ true → reached cancelled from (suc n) ≡ 0
  unfolding reached
  reached-stop from n h = rw h

  reached-live :
      (from to n : ℕ)
      → cancelled from ≡ false
      → to ≡ from + 1
      → reached cancelled from (suc n) ≡ suc (reached cancelled to n)
  unfolding reached
  reached-live from to n h e = rw (h, e)

  -- What `Ran` says of a call of the loop.
  abbrev pub LoopRan : (Rule → Bool) → List Rule → Tally → World → Type 0
  LoopRan include rules t w =
      Ran (select include rules) t w
        (reached cancelled (t.synced + t.failed) (length (select include rules)))
        (run_rules env cancelled include rules t w).0 (run_rules env cancelled include rules t w).1

  module _ (include : Rule → Bool) (rule : Rule) (rules : List Rule) (t : Tally) (w : World) where
    LoopRan-skip :
        include rule ≡ false → LoopRan include rules t w → LoopRan include (rule ∷ rules) t w
    unfolding run_rules select
    LoopRan-skip out r = rw (out, run_rules, select) r

    LoopRan-stop :
        include rule ≡ true
        → cancelled (t.synced + t.failed) ≡ true
        → LoopRan include (rule ∷ rules) t w
    unfolding run_rules select
    LoopRan-stop taken stop =
        rw
          (
            taken,
            run_rules,
            select,
            stop,
            reached-stop (t.synced + t.failed) (length (select include rules)) stop,
          )
          (Ran-interrupt rule (select include rules) t w)

    LoopRan-next :
        include rule ≡ true
        → cancelled (t.synced + t.failed) ≡ false
        → LoopRan include rules (tally (sync_rule env rule w).0 t) (sync_rule env rule w).1
        → LoopRan include (rule ∷ rules) t w
    unfolding run_rules select
    LoopRan-next taken live r =
        rw
          (
            taken,
            run_rules,
            select,
            live,
            reached-live (t.synced + t.failed)
                ((tally (sync_rule env rule w).0 t).synced
                  + (tally (sync_rule env rule w).0 t).failed)
                (length (select include rules)) live (tally_count (sync_rule env rule w).0 t),
          )
          (Ran-step rule (select include rules) t w _ _ _ r)

  -- Every call of the loop is such a run.
  pub run_rules-Ran :
      (include : Rule → Bool) (rules : List Rule) (t : Tally) (w : World)
      → LoopRan include rules t w
  run_rules-Ran include [] t w =
      unfold run_rules select reached failures world_after last_failure in ground arith
  run_rules-Ran include (rule ∷ rules) t w = elim (Bool-cases (include rule)) [
    | inr out ↦ LoopRan-skip include rule rules t w out (run_rules-Ran include rules t w)
    | inl taken ↦ elim (Bool-cases (cancelled (t.synced + t.failed))) [
      | inl stop ↦ LoopRan-stop include rule rules t w taken stop
      | inr live ↦
          LoopRan-next include rule rules t w taken live (
            run_rules-Ran include rules (tally (sync_rule env rule w).0 t) (sync_rule env rule w).1)
    ]
  ]
