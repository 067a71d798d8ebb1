-- ===== src/Sync/Cycle/Loop.antt =====
-- What runRulesLocked of internal/sync/engine.go amounts to, in equations.
use dotvault.Prelude.{
  ℕ, ◌+◌, ◌==◌, Bool, List, ◌≡◌, inl, inr, length, take, arith, Bool-cases, if◌then◌else◌,
}
use dotvault.Sync.{Rule, World, Env}
use dotvault.Sync.Cycle.{interrupted, Tally, run_rules}
use dotvault.Sync.Cycle.Isolation.{
  select, reached, world_after, failures, last_failure, or_else, run_rules-Ran,
}
use dotvault.Sync.Cycle.Labels.{reached-le}

module _ {Data Doc : Type 0} (env : Env Data Doc) where
  -- The first n of the rules have run, from a tally and a world on to those that follow.
  pub record IsRunOf (rules : List Rule) (n : ℕ) (t : Tally) (w : World) (t' : Tally) (w' : World)
      : Type 0 where
    pub count : t'.synced + t'.failed ≡ t.synced + t.failed + n
    pub failed : t'.failed ≡ t.failed + failures env (take n rules) w
    pub world : w' ≡ world_after env (take n rules) w
    pub last : t'.last_error ≡ (
        if n == length rules
        then last_failure env t.last_error (take n rules) w
        else or_else
            (last_failure env t.last_error (take n rules) w)
            (interrupted (t'.synced + t'.failed)))

  -- The loop runs the selected rules in order, each on the world the one before left, whatever
  -- fails, up to the first at which the context is cancelled; it counts what ran and what failed;
  -- its error is the last failure, or the interruption where it stopped before the end and none
  -- of the rules failed.
  pub run_rules-IsRunOf :
      (cancelled : ℕ → Bool) (include : Rule → Bool) (rules : List Rule) (t : Tally) (w : World)
      → IsRunOf
          (select include rules)
          (reached cancelled (t.synced + t.failed) (length (select include rules)))
          t
          w
          (run_rules env cancelled include rules t w).0
          (run_rules env cancelled include rules t w).1
  run_rules-IsRunOf cancelled include rules t w =
      let r = run_rules-Ran env cancelled include rules t w in
      let le = reached-le cancelled (t.synced + t.failed) (length (select include rules)) in
      record {
        count = r.count;
        failed = r.failed;
        world = r.world;
        last =
            elim (Bool-cases (
              reached cancelled (t.synced + t.failed) (length (select include rules))
              == length (select include rules))) [
                | inl all ↦ rw all (r.complete (ground (arith, all)))
                | inr part ↦ rw part (r.stopped (ground (arith, part, le)))
              ];
      }
