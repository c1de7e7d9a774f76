-- ===== src/Reconcile.antt =====
-- src/reconcile/mod.rs: a tick, the loop that runs ticks until shutdown, the loop of orphan scans, and
-- the counters by which the program's health is judged; src/reconcile/startup.rs: recovery.
pub mod Ticks
use kube_shim.Prelude.{
  ℕ, suc, ◌+◌, ◌-◌, ◌%◌, ◌^◌, Bool, true, false, not, ◌&&◌, leb, Option, String, List, [], ◌∷◌,
  length, if◌then◌else◌,
}
use kube_shim.Prelude.Int.{ℤ, pos, ◌-ℤ◌, ltb_ℤ, eqb_ℤ}
use kube_shim.Program.{Result, ok, err, World, M, Call, pure, call, query, ◌>>=◌}
use kube_shim.Context.{JobContext}
use kube_shim.Job.Advance.{live_jobs, advance_all_until}
use kube_shim.Orphans.{scan_and_clean}
use kube_shim.Schedule.Parse.{Cron}
use kube_shim.Schedule.Due.{Chrono}
use kube_shim.Schedule.{schedule_due_jobs}

abbrev pub tick_stale_threshold_secs : ℕ
tick_stale_threshold_secs = 60

abbrev pub u64_bound : ℕ
u64_bound = 2 ^ 64

pub record LoopStats : Type 0 where
  pub last_run_at : ℤ
  pub successes : ℕ
  pub failures : ℕ
  pub duration_micros_total : ℕ

abbrev pub no_stats : LoopStats
no_stats = record { last_run_at = pos 0; successes = 0; failures = 0; duration_micros_total = 0 }

-- `fetch_add` of an AtomicU64 wraps; a duration that is too long counts as the largest u64.
unfoldable pub record_pass : ℤ → Bool → ℕ → LoopStats → LoopStats
record_pass now success elapsed_micros stats =
    let micros = if leb u64_bound elapsed_micros then u64_bound - 1 else elapsed_micros in
    record {
      last_run_at = now;
      successes = if success then (stats.successes + 1) % u64_bound else stats.successes;
      failures = if success then stats.failures else (stats.failures + 1) % u64_bound;
      duration_micros_total = (stats.duration_micros_total + micros) % u64_bound;
    }

pub record TickHealth : Type 0 where
  pub started_at : ℤ
  pub tick : LoopStats
  pub orphan_scan : LoopStats
  pub metrics_poll : LoopStats
  pub pricing_sync : LoopStats

-- `TickHealth::new`, at a time
unfoldable pub new_tick_health : ℤ → TickHealth
new_tick_health now = record {
  started_at = now;
  tick = no_stats;
  orphan_scan = no_stats;
  metrics_poll = no_stats;
  pricing_sync = no_stats;
}

unfoldable pub is_healthy : TickHealth → ℤ → Bool
is_healthy health now =
    let last = health.tick.last_run_at in
    not (eqb_ℤ last (pos 0)) && ltb_ℤ (now -ℤ last) (pos tick_stale_threshold_secs)

-- What ends the wait of a loop; shutdown is asked for first.
pub data Wake : Type 0 where
  shutdown_requested due : Wake

abbrev pub is_ok : {A : Type 0} → Result String A → Bool
is_ok (ok a) = true
is_ok (err e) = false

module _ {C V F S : Type 0} (ctx : JobContext C V F) (cron : Cron S) (chrono : Chrono)
    (show_cost : Option F → String) (is_requested : Call C Bool) (elapsed_micros : Call C ℕ) where
  open ctx use {system}

  unfoldable pub tick_until : M C F Unit
  tick_until = do
    scheduled ← schedule_due_jobs ctx cron chrono show_cost
    advanced ← advance_all_until ctx is_requested
    pure tt

  -- src/reconcile/startup.rs: the number of the jobs that go on; what it says of each is only logged.
  unfoldable pub recover : M C F ℕ
  recover = do rows ← query system live_jobs; now ← call system.now; pure (length rows)

  -- what follows a pass of a loop, whether it returned or ended in an error
  unfoldable pub measured : Bool → LoopStats → World C F → LoopStats × World C F
  unfolding record_pass
  measured success stats w =
      let (elapsed, c) = elapsed_micros w.cloud in
      let (now, c') = system.now c in
      (record_pass now success elapsed stats, record w { cloud = c' })

  unfoldable pub job_pass : TickHealth → World C F → TickHealth × World C F
  unfolding tick_until measured
  job_pass health w =
      let (result, w') = tick_until w in
      let (stats, w'') = measured (is_ok result) health.tick w' in
      (record health { tick = stats }, w'')

  unfoldable pub run_with_interval : List Wake → TickHealth → World C F → TickHealth × World C F
  unfolding job_pass
  run_with_interval [] health w = (health, w)
  run_with_interval (shutdown_requested ∷ wakes) health w = (health, w)
  run_with_interval (due ∷ wakes) health w =
      let (health', w') = job_pass health w in run_with_interval wakes health' w'

  unfoldable pub orphan_pass : TickHealth → World C F → TickHealth × World C F
  unfolding measured
  orphan_pass health w =
      let (result, w') = scan_and_clean ctx w in
      let (stats, w'') = measured (is_ok result) health.orphan_scan w' in
      (record health { orphan_scan = stats }, w'')

  unfoldable pub run_orphan_scan_loop : List Wake → TickHealth → World C F → TickHealth × World C F
  unfolding orphan_pass
  run_orphan_scan_loop [] health w = (health, w)
  run_orphan_scan_loop (shutdown_requested ∷ wakes) health w = (health, w)
  run_orphan_scan_loop (due ∷ wakes) health w =
      let (health', w') = orphan_pass health w in run_orphan_scan_loop wakes health' w'
