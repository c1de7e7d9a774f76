-- ===== src/Reconcile/Ticks.antt =====
-- What holds over any number of ticks of src/reconcile/mod.rs.
use kube_shim.Prelude.{
  ℕ, suc, ◌+◌, ◌<◌, ◌≡◌, Bool, true, false, Option, String, List, [], ◌∷◌, arith,
}
use kube_shim.Prelude.Int.{ℤ}
use kube_shim.Db.{Db}
use kube_shim.Program.{Result, ok, err, World, M, Call, pure, continue, ◌>>=◌}
use kube_shim.Program.NoFault.{NoFault}
use kube_shim.Context.{JobContext}
use kube_shim.Job.Advance.{advance_all_until}
use kube_shim.Job.Advance.Events.{FailuresRecorded, advance_all_until-FailuresRecorded}
use kube_shim.Schedule.Parse.{Cron}
use kube_shim.Schedule.Due.{Chrono}
use kube_shim.Schedule.{schedule_due_jobs}
use kube_shim.Schedule.Runs.Held.{schedule_due_jobs-FailuresRecorded}
use kube_shim.Reconcile.{
  LoopStats, TickHealth, Wake, shutdown_requested, due, u64_bound, record_pass, tick_until,
  measured, job_pass, run_with_interval, is_ok,
}

-- the passes that a sequence of wakes leads to
abbrev pub passes : List Wake → ℕ
passes [] = 0
passes (shutdown_requested ∷ wakes) = 0
passes (due ∷ wakes) = suc (passes wakes)

module _ {C F A B : Type 0} (P : Db F → Type 0) where
  continue_keeps :
      (r : Result String A) (f : A → M C F B) (w : World C F)
      → P w.db
      → ((a : A) → P (f a w).1.db)
      → P (continue r f w).1.db
  continue_keeps (ok a) f w h k = k a
  continue_keeps (err e) f w h k = h

module _ {C V F S : Type 0} (ctx : JobContext C V F) (cron : Cron S) (chrono : Chrono)
    (show_cost : Option F → String) (is_requested : Call C Bool) (elapsed_micros : Call C ℕ) where
  abbrev tick : M C F Unit
  tick = tick_until ctx cron chrono show_cost is_requested elapsed_micros

  abbrev loop : List Wake → TickHealth → World C F → TickHealth × World C F
  loop = run_with_interval ctx cron chrono show_cost is_requested elapsed_micros

  module _ (safe : NoFault ctx.system) where
    advanced-FailuresRecorded :
        (w : World C F)
        → FailuresRecorded w.db
        → FailuresRecorded
            ((advance_all_until ctx is_requested >>= λ advanced. pure {C = C} {F = F} tt) w).1.db
    unfolding ◌>>=◌ pure
    advanced-FailuresRecorded w h =
        let recorded = advance_all_until-FailuresRecorded ctx safe is_requested w h in
        continue_keeps {B = Unit} FailuresRecorded (advance_all_until ctx is_requested w).0
          (λ _. pure tt) (advance_all_until ctx is_requested w).1 recorded (λ _. recorded)

    tick_until-FailuresRecorded :
        (w : World C F) → FailuresRecorded w.db → FailuresRecorded (tick w).1.db
    unfolding tick_until ◌>>=◌
    tick_until-FailuresRecorded w h =
        let r = schedule_due_jobs ctx cron chrono show_cost w in
        let recorded = schedule_due_jobs-FailuresRecorded ctx cron chrono show_cost w h in
        continue_keeps FailuresRecorded r.0
          (λ _. advance_all_until ctx is_requested >>= λ advanced. pure tt) r.1 recorded
          (λ _. advanced-FailuresRecorded r.1 recorded)

    -- While the database refuses no statement, the reconciliation loop, however often it is woken and
    -- whatever its ticks schedule, leaves no job in `Failed` without its `Failed` event, if there was
    -- none before.
    pub run_with_interval-FailuresRecorded :
        (wakes : List Wake) (health : TickHealth) (w : World C F)
        → FailuresRecorded w.db
        → FailuresRecorded (loop wakes health w).1.db
    unfolding run_with_interval job_pass measured
    run_with_interval-FailuresRecorded [] health w h = h
    run_with_interval-FailuresRecorded (shutdown_requested ∷ wakes) health w h = h
    run_with_interval-FailuresRecorded (due ∷ wakes) health w h =
        run_with_interval-FailuresRecorded wakes _ _ (tick_until-FailuresRecorded w h)

  record_pass-sum :
      (now : ℤ) (success : Bool) (elapsed : ℕ) (stats : LoopStats)
      → stats.successes + stats.failures + 1 < u64_bound
      → let after = record_pass now success elapsed stats in
        after.successes + after.failures ≡ stats.successes + stats.failures + 1
  unfolding record_pass
  record_pass-sum now true elapsed stats h = omega arith
  record_pass-sum now false elapsed stats h = omega arith

  job_pass-sum :
      (health : TickHealth) (w : World C F)
      → health.tick.successes + health.tick.failures + 1 < u64_bound
      → let after = (job_pass ctx cron chrono show_cost is_requested elapsed_micros health w).0 in
        after.tick.successes + after.tick.failures
        ≡ health.tick.successes + health.tick.failures + 1
  unfolding job_pass measured
  job_pass-sum health w h =
      let (elapsed, c) = elapsed_micros (tick w).1.cloud in
      record_pass-sum (ctx.system.now c).0 (is_ok (tick w).0) elapsed health.tick h

  -- Every pass of the loop is counted once, as a success or as a failure, while the counters do not
  -- overflow.
  pub run_with_interval-passes :
      (wakes : List Wake) (health : TickHealth) (w : World C F)
      → health.tick.successes + health.tick.failures + passes wakes < u64_bound
      → let after = (loop wakes health w).0 in
        after.tick.successes + after.tick.failures
        ≡ health.tick.successes + health.tick.failures + passes wakes
  unfolding run_with_interval
  run_with_interval-passes [] health w h = omega arith
  run_with_interval-passes (shutdown_requested ∷ wakes) health w h = omega arith
  run_with_interval-passes (due ∷ wakes) health w h =
      let next = job_pass ctx cron chrono show_cost is_requested elapsed_micros health w in
      let one = job_pass-sum health w (omega arith) in
      omega (arith, one, run_with_interval-passes wakes next.0 next.1 (omega (arith, one)))
