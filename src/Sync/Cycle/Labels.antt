-- ===== src/Sync/Cycle/Labels.antt =====
-- The label that RunOnce of internal/sync/engine.go records for a cycle.
use dotvault.Prelude.{
  ℕ, zero, suc, ◌+◌, ◌≤◌, ltb, ◌==◌, Bool, List, [], ◌∷◌, Option, none, ◌≡◌, refl, ap, length, take,
  if◌then◌else◌, arith,
}
use dotvault.Sync.{Rule, World, Env}
use dotvault.Sync.SyncRule.{sync_rule}
use dotvault.Sync.Cycle.{
  RunError, start, run_rules, Outcome, all_ok, failed_rule, cut_short, sync_outcome, every,
  run_once,
}
use dotvault.Sync.Cycle.Isolation.{
  select, reached, world_after, failures, last_failure, or_else, Ran, run_rules-Ran,
}

select-every : (rules : List Rule) → select every rules ≡ rules
unfolding select
select-every [] = refl
select-every (rule ∷ rules) = ap (λ (rs : List Rule). rule ∷ rs) (select-every rules)

pub reached-le : (cancelled : ℕ → Bool) (from n : ℕ) → reached cancelled from n ≤ n
unfolding reached
reached-le cancelled from zero = omega arith
reached-le cancelled from (suc n) = ground (arith, reached-le cancelled (from + 1) n)

-- The label from what happened: the rules that ran, the failures among them, the number of rules.
abbrev pub label : ℕ → ℕ → ℕ → Outcome
label ran failed total =
    if ltb 0 failed then failed_rule else if ran == total then all_ok else cut_short

module _ {Data Doc : Type 0} (env : Env Data Doc) where
  last_failure-none :
      (seen : Option RunError) (rules : List Rule) (w : World)
      → failures env rules w ≡ 0
      → last_failure env seen rules w ≡ seen
  unfolding failures last_failure
  last_failure-none seen [] w h = refl
  last_failure-none seen (rule ∷ rules) w h =
      ground (arith, last_failure-none seen rules (sync_rule env rule w).1)

  -- A cycle is labelled as failed exactly when a rule that it ran failed, as cut short when none did
  -- and the context was cancelled before the last rule, and as ok when every rule ran and none
  -- failed; and it leaves the world that the rules it ran make, one after the other.
  pub run_once-label :
      (cancelled : ℕ → Bool) (rules : List Rule) (w : World)
      → ((run_once env cancelled rules w).0
          ≡ label
              (reached cancelled 0 (length rules))
              (failures env (take (reached cancelled 0 (length rules)) rules) w)
              (length rules))
        × ((run_once env cancelled rules w).2
            ≡ world_after env (take (reached cancelled 0 (length rules)) rules) w)
  run_once-label cancelled rules w =
      judge (rw select-every at (run_rules-Ran env cancelled every rules start w))
    where
      n : ℕ
      n = reached cancelled 0 (length rules)

      judge :
          Ran env cancelled rules start w n
            (run_rules env cancelled every rules start w).0
            (run_rules env cancelled every rules start w).1
          → ((run_once env cancelled rules w).0
              ≡ label n (failures env (take n rules) w) (length rules))
            × ((run_once env cancelled rules w).2 ≡ world_after env (take n rules) w)
      judge r =
          unfold run_once sync_outcome or_else in
          ground (
            arith,
            r,
            reached-le cancelled 0 (length rules),
            last_failure-none none (take n rules) w,
          )
