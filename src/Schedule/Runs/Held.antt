-- ===== src/Schedule/Runs/Held.antt =====
-- CronJobs that are held back, and the failures that are recorded, through a tick of
-- src/reconcile/schedule.rs.

use kube_shim.Prelude.{
  ◌≡◌, refl, ap, ◌∙◌, ◌⊎◌, inl, inr, true, Option, none, some, String, List, All-snoc, any,
}
use kube_shim.Prelude.Int.{ℤ}
use kube_shim.Db.{Db, JobRow, CronJobRow, insert_event, insert_job}
use kube_shim.Db.Rows.{All-mono}
use kube_shim.Program.{World, M, System, continue, query, answer, ◌>>=◌}
use kube_shim.Program.Keeps.{Keeps, OnDb, table_rules}
use kube_shim.Context.{JobContext}
use kube_shim.Job.Advance.Events.{FailuresRecorded, has_failed_event-append}
use kube_shim.Schedule.Parse.{Cron}
use kube_shim.Schedule.Due.{Chrono}
use kube_shim.Schedule.Runs.{Growing, Keeps-schedule_due_jobs}
use kube_shim.Schedule.{
  is_active_run, forbids_overlap, is_suspended, has_active_run, last_scheduled_time, run_if_free,
  run_if_due, schedule_row, schedule_due_jobs,
}

known-answer :
    {C F A B : Type 0} {Q : Db F → Type 0} (o : Option String) (f : Db F → A) (a : A)
    (rest : A → M C F B) (w : World C F)
    → f w.db ≡ a
    → Keeps (OnDb Q) (rest a)
    → OnDb Q w
    → OnDb Q (continue (answer o f w).0 rest (answer o f w).1).1
unfolding answer
known-answer none f a rest w e k h = rw e (k.at w h)
known-answer (some error) f a rest w e k h = h

-- A query whose answer is known from the invariant.
Keeps-known :
    {C F A B : Type 0} {Q : Db F → Type 0} (sys : System C) (f : Db F → A) (a : A)
    (rest : A → M C F B)
    → ((db : Db F) → Q db → f db ≡ a)
    → Keeps (OnDb Q) (rest a)
    → Keeps (OnDb Q) (query sys f >>= rest)
unfolding query ◌>>=◌
Keeps-known sys f a rest known k = record {
  at = λ w h.
      known-answer (sys.fault w.cloud).0 f a rest (record w { cloud = (sys.fault w.cloud).1 })
        (known w.db h.holds) k (record { holds = h.holds });
}

module _ {C V F S : Type 0} (ctx : JobContext C V F) (cron : Cron S) (chrono : Chrono)
    (show_cost : Option F → String) (js : List (JobRow F)) (row : CronJobRow) where
  -- The tables have these rows of jobs.
  abbrev HasJobs : Db F → Type 0
  HasJobs db = db.jobs ≡ js

  Held-run_if_free :
      (now : ℤ)
      → forbids_overlap ctx cron chrono show_cost row ≡ true
      → any (is_active_run row.name row.namespace) js ≡ true
      → Keeps (OnDb {C = C} HasJobs) (run_if_free ctx cron chrono show_cost row now)
  unfolding run_if_free has_active_run
  Held-run_if_free now forbids active = rw forbids (
      Keeps-known ctx.system _ true _
        (λ db h. ap (any (is_active_run row.name row.namespace)) h ∙ active) (search table_rules))

  Held-last_scheduled_time :
      (name namespace : String) (created_at : ℤ)
      → Keeps
          (OnDb {C = C} HasJobs)
          (last_scheduled_time ctx cron chrono show_cost name namespace created_at)
  unfolding last_scheduled_time
  Held-last_scheduled_time name namespace created_at = search table_rules

  -- held back
  abbrev pub IsHeld : Type 0
  IsHeld =
      (is_suspended ctx cron chrono show_cost row ≡ true)
      ⊎ ((forbids_overlap ctx cron chrono show_cost row ≡ true)
          × (any (is_active_run row.name row.namespace) js ≡ true))

  Held-run_if_due :
      (now : ℤ)
      → IsHeld
      → (parts : List S)
      → Keeps (OnDb {C = C} HasJobs) (run_if_due ctx cron chrono show_cost row now parts)
  unfolding run_if_due
  Held-run_if_due now (inl suspended) parts = rw suspended (search table_rules)
  Held-run_if_due now (inr (forbids, active)) parts =
      search (table_rules, Held-last_scheduled_time, Held-run_if_free) depth 9

  Held-schedule_row :
      (now : ℤ)
      → IsHeld
      → Keeps (OnDb {C = C} HasJobs) (schedule_row ctx cron chrono show_cost row now)
  unfolding schedule_row
  Held-schedule_row now held = search (table_rules, Held-run_if_due now held)

-- Where a CronJob is suspended, or forbids that its runs overlap and has one that is before
-- completion, the tick leaves the rows of `jobs` as they are when it comes to this CronJob, due or
-- not.
pub schedule_row-held :
    {C V F S : Type 0} (ctx : JobContext C V F) (cron : Cron S) (chrono : Chrono)
    (show_cost : Option F → String) (row : CronJobRow) (now : ℤ) (w : World C F)
    → IsHeld ctx cron chrono show_cost w.db.jobs row
    → (schedule_row ctx cron chrono show_cost row now w).1.db.jobs ≡ w.db.jobs
schedule_row-held ctx cron chrono show_cost row now w held =
    ((Held-schedule_row ctx cron chrono show_cost w.db.jobs row now held).at w
      (record { holds = refl })).holds

FailuresRecorded-Growing : {F : Type 0} → Growing (FailuresRecorded {F = F})
unfolding insert_event insert_job
FailuresRecorded-Growing = record {
  on_event = λ e db h. All-mono db.jobs (λ a p f. has_failed_event-append a.id db.events _ (p f)) h;
  on_run = λ r is_new db h. All-snoc _ db.jobs r h (λ e. cc (is_new.0));
}

-- A tick of the scheduler keeps what the passes over the jobs keep: no job in `Failed` is without its
-- `Failed` event, if there was none before.
pub schedule_due_jobs-FailuresRecorded :
    {C V F S : Type 0} (ctx : JobContext C V F) (cron : Cron S) (chrono : Chrono)
    (show_cost : Option F → String) (w : World C F)
    → FailuresRecorded w.db
    → FailuresRecorded (schedule_due_jobs ctx cron chrono show_cost w).1.db
schedule_due_jobs-FailuresRecorded ctx cron chrono show_cost w h =
    ((Keeps-schedule_due_jobs ctx cron chrono show_cost FailuresRecorded-Growing).at w
      (record { holds = h })).holds
