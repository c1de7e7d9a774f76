-- ===== src/Schedule.antt =====
-- src/reconcile/schedule.rs: the runs of CronJobs that are due.
pub mod Parse
pub mod Due
pub mod Runs
use kube_shim.Prelude.{
  is_text, ℕ, suc, ◌+◌, Bool, true, false, ◌&&◌, Option, none, some, String, List, [], ◌∷◌, ◌<>◌,
  str_eq, is_empty, trim, any, show_ℤ, if◌then◌else◌,
}
use kube_shim.Prelude.Int.{ℤ, ltb_ℤ}
use kube_shim.Status.{Status, is_pre_completion_state}
use kube_shim.Db.{Db, JobRow, CronJobRow, warning, insert_job}
use kube_shim.Program.{
  Result, ok, err, M, pure, call, try_call, query, execute, ◌>>=◌, ◌>>◌, let_some, on_result,
}
use kube_shim.Context.{JobContext}
use kube_shim.Job.Spec.{parse_spec, active_deadline_seconds, and_then, unwrap_or_else}
use kube_shim.Job.Records.{record_event}
use kube_shim.Schedule.Parse.{Cron, parse_schedule}
use kube_shim.Schedule.Due.{Chrono, is_due}

abbrev is_name : Option String → String → Bool
is_name none name = false
is_name (some n) name = str_eq n name

-- `WHERE cronjob_name = ? AND namespace = ?`
abbrev pub is_run_of : {F : Type 0} → String → String → JobRow F → Bool
is_run_of name namespace r = is_name r.cronjob_name name && str_eq r.namespace namespace

abbrev pub is_active_run : {F : Type 0} → String → String → JobRow F → Bool
is_active_run name namespace r = is_run_of name namespace r && is_pre_completion_state r.status

abbrev later_option : ℤ → Option ℤ → Option ℤ
later_option a none = some a
later_option a (some b) = if ltb_ℤ a b then some b else some a

-- SELECT MAX(created_at)
last_created : {F : Type 0} → String → String → List (JobRow F) → Option ℤ
last_created name namespace [] = none
last_created name namespace (r ∷ rs) =
    let rest = last_created name namespace rs in
    if is_run_of name namespace r then later_option r.created_at rest else rest

abbrev is_true : Option Bool → Bool
is_true none = false
is_true (some b) = b

module _ {C V F S : Type 0} (ctx : JobContext C V F) (cron : Cron S) (chrono : Chrono)
    (show_cost : Option F → String) where
  open ctx use {system, json, tables, zone, main_currency}

  -- the run's row; the columns that the statement leaves out have their defaults
  abbrev run_row : String → String → String → V → ℤ → Option F → JobRow F
  run_row id name namespace template now cost = record {
    id = id;
    name = name <> "-" <> show_ℤ now;
    namespace = namespace;
    cronjob_name = some name;
    spec = json.to_text template;
    status = Status.created;
    retry_count = 0;
    last_error = none;
    worker_vm_id = none;
    worker_vm_name = none;
    worker_plan = none;
    worker_ssh_ip = none;
    exit_code = none;
    cached_logs = none;
    cached_logs_timestamped = false;
    estimated_cost = cost;
    actual_cost = none;
    created_at = now;
    updated_at = now;
    last_transition_time = none;
    completed_at = none;
    version = 1;
  }

  insert_run : String → String → V → ℤ → Option F → M C F Bool
  insert_run name namespace template now cost = do
    id ← call system.new_uuid
    execute system (insert_job (run_row id name namespace template now cost))
    pure true

  skip_run : String → String → Option F → String → M C F Bool
  skip_run name namespace cost currency = do
    record_event system none "BudgetSkip"
        ("CronJob "
          <> namespace
          <> "/"
          <> name
          <> ": skipping this run, estimated cost ("
          <> show_cost cost
          <> " "
          <> currency
          <> ") exceeds the current budget balance -- will retry next tick")
        warning
    pure false

  run_in_budget : String → String → V → ℤ → ℤ → M C F Bool
  unfolding insert_run skip_run
  run_in_budget name namespace template now deadline = do
    currency ← try_call (tables.effective_main_currency main_currency)
    budget ← try_call (tables.check_budget zone template deadline currency)
    if budget.1
        then insert_run name namespace template now budget.0
        else skip_run name namespace budget.0 currency

  unfoldable pub create_job_run : String → String → String → ℤ → M C F Bool
  unfolding run_in_budget
  create_job_run name namespace spec_str now =
      let template =
        unwrap_or_else (json.pointer (parse_spec json spec_str) "/jobTemplate/spec") json.null in
      let_some (active_deadline_seconds json template) (insert_run name namespace template now none)
        (run_in_budget name namespace template now)

  has_active_run : String → String → M C F Bool
  has_active_run name namespace = query system (λ db. any (is_active_run name namespace) db.jobs)

  last_scheduled_time : String → String → ℤ → M C F ℤ
  unfolding last_created
  last_scheduled_time name namespace cronjob_created_at = do
    last ← query system (λ db. last_created name namespace db.jobs)
    let timestamp = unwrap_or_else last cronjob_created_at
    if chrono.is_in_range timestamp then pure timestamp else call system.now

  abbrev pub forbids_overlap : CronJobRow → Bool
  forbids_overlap row =
      is_text (and_then (json.get (parse_spec json row.spec) "concurrencyPolicy") json.as_str)
        "Forbid"

  abbrev pub is_suspended : CronJobRow → Bool
  is_suspended row = is_true (and_then (json.get (parse_spec json row.spec) "suspend") json.as_bool)

  -- a run that is due
  run_if_free : CronJobRow → ℤ → M C F Bool
  unfolding create_job_run has_active_run
  run_if_free row now =
      if forbids_overlap row
      then (do
        active ← has_active_run row.name row.namespace
        if active then pure false else create_job_run row.name row.namespace row.spec now)
      else create_job_run row.name row.namespace row.spec now

  run_if_due : CronJobRow → ℤ → List S → M C F Bool
  unfolding run_if_free last_scheduled_time
  run_if_due row now schedule = if is_suspended row then pure false else (do
    last ← last_scheduled_time row.name row.namespace row.created_at
    let starting_deadline =
        and_then (json.get (parse_spec json row.spec) "startingDeadlineSeconds") json.as_i64
    if is_due cron chrono schedule last now starting_deadline
        then run_if_free row now
        else pure false)

  -- the body of the loop: whether a run was created
  unfoldable pub schedule_row : CronJobRow → ℤ → M C F Bool
  unfolding run_if_due
  schedule_row row now =
      if is_empty (trim row.schedule)
      then pure false
      else on_result (parse_schedule cron row.schedule) (run_if_due row now) (λ e. pure false)

  schedule_rows : List CronJobRow → ℤ → ℕ → M C F ℕ
  unfolding schedule_row
  schedule_rows [] now scheduled = pure scheduled
  schedule_rows (row ∷ rows) now scheduled = do
    created ← schedule_row row now
    schedule_rows rows now (if created then suc scheduled else scheduled)

  unfoldable pub schedule_due_jobs : M C F ℕ
  unfolding schedule_rows
  schedule_due_jobs = do
    cronjobs ← query system (λ db. db.cronjobs)
    now ← call system.now
    schedule_rows cronjobs now 0
