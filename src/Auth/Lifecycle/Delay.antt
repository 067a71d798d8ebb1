-- ===== src/Auth/Lifecycle/Delay.antt =====
-- internal/auth/lifecycle.go: the bounds of the delay between checks.
use dotvault.Prelude.{
  ℕ, ◌+◌, ◌≤◌, ltb, Str, Bool, true, false, List, [], ◌∷◌, Option, arith, if◌then◌else◌,
}
use dotvault.Auth.Denylist.{AuthError, TokenDenylist, clear}
use dotvault.Auth.Lifecycle.{
  World, Config, Manager, new_config, new_manager, reload, notify_rejected, clear_reauth,
  reset_recovery_backoff, drain_reject, backoff_from, arm_after_cycle,
}
use dotvault.Auth.Lifecycle.Cycle.{settled, run_check_cycle, on_reload, on_tick, on_reject}
use dotvault.Auth.Lifecycle.Schedule.{run_check_cycle-cases, try_reload-timer}

-- The longer of the check interval and the greatest delay.
abbrev pub longest : Config → ℕ
longest cfg = if ltb cfg.check_interval cfg.max_delay then cfg.max_delay else cfg.check_interval

-- The recovery interval is the shortest of the three.
pub record IsTimed (cfg : Config) : Type 0 where
  pub checks : cfg.recovery_interval ≤ cfg.check_interval
  pub caps : cfg.recovery_interval ≤ cfg.max_delay

pub record InTime (cfg : Config) (m : Manager) : Type 0 where
  pub low : cfg.recovery_interval ≤ m.current_delay
  pub high : m.current_delay ≤ longest cfg

arm_after_cycle_le :
    (now : ℕ) (scheduled healthy : Bool) (deadline : ℕ) (m : Manager)
    → arm_after_cycle now scheduled healthy deadline m ≤ m.current_delay
unfolding arm_after_cycle
arm_after_cycle_le now scheduled healthy deadline m = ground arith

backoff_from_bounds :
    (cfg : Config) (current : ℕ) (scheduled : Bool)
    → IsTimed cfg
    → cfg.recovery_interval ≤ current
    → current ≤ longest cfg
    → (cfg.recovery_interval ≤ backoff_from cfg current scheduled)
      × (backoff_from cfg current scheduled ≤ longest cfg)
unfolding backoff_from
backoff_from_bounds cfg current scheduled t l h = ground arith

settled-InTime : (cfg : Config) (m : Manager) → IsTimed cfg → InTime cfg (settled cfg m)
unfolding drain_reject clear_reauth reset_recovery_backoff
settled-InTime cfg m t = record { low = t.checks; high = ground arith }

module _ (digest : Str → Str) where
  run_check_cycle-InTime :
      (cfg : Config) (w : World) (now : ℕ) (scheduled : Bool) (deadline : ℕ) (m : Manager)
      → IsTimed cfg
      → InTime cfg m
      → ((run_check_cycle digest cfg w now scheduled deadline m).0 ≤ longest cfg)
        × InTime cfg (run_check_cycle digest cfg w now scheduled deadline m).1
  run_check_cycle-InTime cfg w now scheduled deadline m t i =
      run_check_cycle-cases digest (λ r. (r.0 ≤ longest cfg) × InTime cfg r.1) cfg w now scheduled
        deadline m (λ m1 works. armed true (settled cfg m1) (settled-InTime cfg m1 t))
        (λ m2 works. (ground arith, settled-InTime cfg m2 t))
        (λ e m2 failed.
          armed false _ (record { low = omega arith; high = ground (arith, t.checks) }))
        (λ e m2 failed transient same.
          let (l, h) =
            backoff_from_bounds cfg m2.current_delay scheduled t (omega (arith, same, i.low))
              (omega (arith, same, i.high)) in
          armed false _ (record { low = l; high = h }))
    where
      armed :
          (healthy : Bool) (m' : Manager)
          → InTime cfg m'
          → (arm_after_cycle now scheduled healthy deadline m' ≤ longest cfg) × InTime cfg m'
      armed healthy m' j =
          (omega (arith, arm_after_cycle_le now scheduled healthy deadline m', j.high), j)

  -- A pass of the goroutine, or a call from outside, and its time.
  pub data Pass : Type 0 where
    reloads : Pass
    reports : ℕ → AuthError → Pass
    reloaded ticked rejected : World → ℕ → Pass

  unfoldable pub perform : Config → Pass → Manager → Manager
  unfolding reload notify_rejected
  perform cfg reloads m = reload m
  perform cfg (reports since e) m = notify_rejected cfg since e m
  perform cfg (reloaded w now) m = on_reload digest cfg w now m
  perform cfg (ticked w now) m = on_tick digest cfg w now m
  perform cfg (rejected w now) m = on_reject digest cfg w now m

  unfoldable pub perform_all : Config → List Pass → Manager → Manager
  perform_all cfg [] m = m
  perform_all cfg (p ∷ ps) m = perform_all cfg ps (perform cfg p m)

  -- The latest time of a pass, from a time on.
  abbrev pub later : ℕ → ℕ → ℕ
  later a b = if ltb a b then b else a

  abbrev pub clock : ℕ → Pass → ℕ
  clock t reloads = t
  clock t (reports since e) = t
  clock t (reloaded w now) = later t now
  clock t (ticked w now) = later t now
  clock t (rejected w now) = later t now

  unfoldable pub latest : ℕ → List Pass → ℕ
  latest t [] = t
  latest t (p ∷ ps) = latest (clock t p) ps

  -- The delay is in its bounds, and the next check no further off than the longest one.
  pub record IsTimely (cfg : Config) (t : ℕ) (m : Manager) : Type 0 where
    pub delay : InTime cfg m
    pub soon : m.due ≤ t + longest cfg

  notify_rejected-IsTimely :
      (cfg : Config) (t since : ℕ) (e : AuthError) (m : Manager)
      → IsTimely cfg t m
      → IsTimely cfg t (notify_rejected cfg since e m)
  unfolding notify_rejected
  notify_rejected-IsTimely cfg t since e m i = record {
    delay = record { low = ground (arith, i.delay.low); high = ground (arith, i.delay.high) };
    soon = ground (arith, i.soon);
  }

  on_reload-IsTimely :
      (cfg : Config) (t now : ℕ) (w : World) (m : Manager)
      → IsTimed cfg
      → IsTimely cfg t m
      → IsTimely cfg (later t now) (on_reload digest cfg w now m)
  unfolding on_reload
  on_reload-IsTimely cfg t now w m timed i =
      let cleared = record m { reload_ch = false; denied = (clear m.denied).1 } in
      let (delay, due) = try_reload-timer digest cfg w now cleared in
      unfold clear_reauth reset_recovery_backoff in
      record {
        delay = record {
          low = ground (arith, delay, i.delay.low, timed.checks);
          high = ground (arith, delay, i.delay.high);
        };
        soon = ground (arith, due, i.soon);
      }

  run-IsTimely :
      (cfg : Config) (t now : ℕ) (w : World) (scheduled : Bool) (deadline : ℕ) (m : Manager)
      → IsTimed cfg
      → InTime cfg m
      → (let (delay, m') = run_check_cycle digest cfg w now scheduled deadline m in
          IsTimely cfg (later t now) (record m' { due = now + delay }))
  run-IsTimely cfg t now w scheduled deadline m timed i =
      let (short, j) = run_check_cycle-InTime cfg w now scheduled deadline m timed i in
      record { delay = record { low = j.low; high = j.high }; soon = ground (arith, short) }

  perform-IsTimely :
      (cfg : Config) (t : ℕ) (p : Pass) (m : Manager)
      → IsTimed cfg
      → IsTimely cfg t m
      → IsTimely cfg (clock t p) (perform cfg p m)
  unfolding perform on_tick on_reject
  perform-IsTimely cfg t reloads m timed i =
      unfold reload in
      record { delay = record { low = i.delay.low; high = i.delay.high }; soon = i.soon }
  perform-IsTimely cfg t (reports since e) m timed i = notify_rejected-IsTimely cfg t since e m i
  perform-IsTimely cfg t (reloaded w now) m timed i = on_reload-IsTimely cfg t now w m timed i
  perform-IsTimely cfg t (ticked w now) m timed i = run-IsTimely cfg t now w true 0 m timed i.delay
  perform-IsTimely cfg t (rejected w now) m timed i =
      run-IsTimely cfg t now w false m.due (record m { reject_ch = false }) timed
        (record { low = i.delay.low; high = i.delay.high })

  perform_all-keeps :
      (cfg : Config) (t : ℕ) (ps : List Pass) (m : Manager)
      → IsTimed cfg
      → IsTimely cfg t m
      → IsTimely cfg (latest t ps) (perform_all cfg ps m)
  unfolding perform_all latest
  perform_all-keeps cfg t [] m timed i = i
  perform_all-keeps cfg t (p ∷ ps) m timed i =
      perform_all-keeps cfg (clock t p) ps (perform cfg p m) timed
        (perform-IsTimely cfg t p m timed i)

  -- Whatever Vault and the other sources answer and whatever calls and passes there are, in any
  -- order, the delay stays between the recovery interval and the longer of the check interval and
  -- the greatest delay, and the next check is due no later than that long after the latest pass, if
  -- the recovery interval is not above the other two.
  pub perform_all-IsTimely :
      (cfg : Config) (token : Str) (denied : Option TokenDenylist) (start : ℕ) (ps : List Pass)
      → IsTimed cfg
      → IsTimely cfg (latest start ps) (perform_all cfg ps (new_manager cfg token denied start))
  perform_all-IsTimely cfg token denied start ps timed =
      perform_all-keeps cfg start ps (new_manager cfg token denied start) timed (
        unfold new_manager in
        record { delay = record { low = timed.checks; high = ground arith }; soon = ground arith })

-- The configuration that NewLifecycleManager builds.
pub new_config-IsTimed :
    (check_interval : ℕ) (disable : Bool) → IsTimed (new_config check_interval disable)
unfolding new_config
new_config-IsTimed check_interval disable = record { checks = ground arith; caps = ground arith }
