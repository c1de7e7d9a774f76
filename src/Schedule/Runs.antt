-- ===== src/Schedule/Runs.antt =====
-- What a tick of src/reconcile/schedule.rs adds to the tables.
pub mod Held
use mathlib.Core.List.{append_assoc, append-nil}
use kube_shim.Prelude.{
  ℕ, zero, suc, ◌≡◌, refl, ap, sym, ◌∙◌, ◌⊎◌, inl, inr, Bool, true, false, Option, none, some,
  String, List, [], ◌∷◌, ◌++◌, All, All-snoc, any, Bool-cases, if◌then◌else◌,
}
use kube_shim.Prelude.Int.{ℤ}
use kube_shim.Status.{Status, failed}
use kube_shim.Db.{Db, JobRow, CronJobRow, Event, EventType, insert_event, insert_job}
use kube_shim.Program.{World, M, execute}
use kube_shim.Program.Keeps.{Keeps, OnDb, Keeps-execute, table_rules}
use kube_shim.Context.{JobContext}
use kube_shim.Job.Records.{record_event}
use kube_shim.Schedule.Parse.{Cron}
use kube_shim.Schedule.Due.{Chrono}
use kube_shim.Schedule.{
  run_row, insert_run, skip_run, run_in_budget, create_job_run, has_active_run, last_scheduled_time,
  run_if_free, run_if_due, schedule_row, schedule_rows, schedule_due_jobs,
}

-- a row that no pass has seen yet
abbrev pub IsNewRun : {F : Type 0} → JobRow F → Type 0
IsNewRun r = (r.status ≡ Status.created) × (r.version ≡ 1) × (r.worker_vm_id ≡ none)

-- `Q` withstands an event and a new run.
pub record Growing {F : Type 0} (Q : Db F → Type 0) : Type 0 where
  pub on_event : (e : Event) (db : Db F) → Q db → Q (insert_event e db)
  pub on_run : (r : JobRow F) → IsNewRun r → (db : Db F) → Q db → Q (insert_job r db)

module _ {C V F S : Type 0} (ctx : JobContext C V F) (cron : Cron S) (chrono : Chrono)
    (show_cost : Option F → String) {Q : Db F → Type 0} (growing : Growing Q) where
  abbrev Kept : {A : Type 0} → M C F A → Type 0
  Kept m = Keeps (OnDb {C = C} Q) m

  Keeps-inserted :
      (name namespace : String) (template : V) (now : ℤ) (cost : Option F) (id : String)
      → Kept (
          execute ctx.system
            (insert_job (run_row ctx cron chrono show_cost id name namespace template now cost)))
  Keeps-inserted name namespace template now cost id =
      Keeps-execute ctx.system
        (insert_job (run_row ctx cron chrono show_cost id name namespace template now cost))
        (growing.on_run _ (refl, refl, refl))

  Keeps-insert_run :
      (name namespace : String) (template : V) (now : ℤ) (cost : Option F)
      → Kept (insert_run ctx cron chrono show_cost name namespace template now cost)
  unfolding insert_run
  Keeps-insert_run name namespace template now cost =
      search (table_rules, Keeps-inserted name namespace template now cost)

  Keeps-skip_run :
      (name namespace : String) (cost : Option F) (currency : String)
      → Kept (skip_run ctx cron chrono show_cost name namespace cost currency)
  unfolding skip_run record_event
  Keeps-skip_run name namespace cost currency =
      search (table_rules, Keeps-execute, growing.on_event)

  Keeps-create_job_run :
      (name namespace spec : String) (now : ℤ)
      → Kept (create_job_run ctx cron chrono show_cost name namespace spec now)
  unfolding create_job_run run_in_budget
  Keeps-create_job_run name namespace spec now =
      search (table_rules, Keeps-insert_run, Keeps-skip_run)

  Keeps-run_if_free :
      (row : CronJobRow) (now : ℤ) → Kept (run_if_free ctx cron chrono show_cost row now)
  unfolding run_if_free has_active_run
  Keeps-run_if_free row now = search (table_rules, Keeps-create_job_run)

  Keeps-last_scheduled_time :
      (name namespace : String) (created_at : ℤ)
      → Kept (last_scheduled_time ctx cron chrono show_cost name namespace created_at)
  unfolding last_scheduled_time
  Keeps-last_scheduled_time name namespace created_at = search table_rules

  Keeps-run_if_due :
      (row : CronJobRow) (now : ℤ) (parts : List S)
      → Kept (run_if_due ctx cron chrono show_cost row now parts)
  unfolding run_if_due
  Keeps-run_if_due row now parts =
      search (table_rules, Keeps-run_if_free, Keeps-last_scheduled_time)

  Keeps-schedule_row :
      (row : CronJobRow) (now : ℤ) → Kept (schedule_row ctx cron chrono show_cost row now)
  unfolding schedule_row
  Keeps-schedule_row row now = search (table_rules, Keeps-run_if_due)

  Keeps-schedule_rows :
      (rows : List CronJobRow) (now : ℤ) (scheduled : ℕ)
      → Kept (schedule_rows ctx cron chrono show_cost rows now scheduled)
  unfolding schedule_rows
  Keeps-schedule_rows [] now scheduled = search table_rules
  Keeps-schedule_rows (row ∷ rows) now scheduled =
      search (table_rules, Keeps-schedule_row, Keeps-schedule_rows rows now)

  pub Keeps-schedule_due_jobs : Kept (schedule_due_jobs ctx cron chrono show_cost)
  unfolding schedule_due_jobs
  Keeps-schedule_due_jobs = search (table_rules, Keeps-schedule_rows)

-- the rows of `js`, with new runs after them
abbrev pub Grown : {F : Type 0} → List (JobRow F) → Db F → Type 0
Grown {F} js db = (new : List (JobRow F)) × (db.jobs ≡ js ++ new) × All IsNewRun new

Grown-Growing : {F : Type 0} (js : List (JobRow F)) → Growing (Grown js)
unfolding insert_event insert_job
Grown-Growing js = record {
  on_event = λ e db h. h;
  on_run = λ r is_new db (new, e, all). (
    new ++ r ∷ [],
    ap (λ rows. rows ++ r ∷ []) e ∙ append_assoc js new (r ∷ []),
    All-snoc IsNewRun new r all is_new,
  );
}

-- A tick of the scheduler changes no row of `jobs`: it only adds rows after those that there are,
-- each in `Created`, with version 1 and without a worker VM, whatever the clock, the budget and the
-- database answer.
pub schedule_due_jobs-Grown :
    {C V F S : Type 0} (ctx : JobContext C V F) (cron : Cron S) (chrono : Chrono)
    (show_cost : Option F → String) (w : World C F)
    → Grown w.db.jobs (schedule_due_jobs ctx cron chrono show_cost w).1.db
schedule_due_jobs-Grown ctx cron chrono show_cost w =
    ((Keeps-schedule_due_jobs ctx cron chrono show_cost (Grown-Growing w.db.jobs)).at w
      (record { holds = ([], sym (append-nil w.db.jobs), tt) })).holds
