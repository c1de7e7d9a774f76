-- ===== src/Lib.antt =====
-- kube-shim runs Kubernetes jobs, each on a worker VM of its own that it rents from a cloud provider
-- for the run. Its core is the reconciliation of jobs, src/reconcile/job.rs: a job run is a row of
-- the table `jobs` with a status; a pass over all rows (`advance_all_until`) calls the handler of
-- each row's status, which creates, awaits or deletes what the state is about (a scratch volume, the
-- worker VM, its firewall, the container on it), and moves the row to the next state when the
-- handler says so. A job that takes too long is forced to `Failed`, from where it is cleaned up like
-- any other. This library models that pipeline whole, with the parts that it calls.
--
-- The parts, and where they are modelled:
-- - Status: STATE_SEQUENCE, next_state and is_pre_completion_state of src/reconcile/job.rs; Order has
--   the order of the states and the steps of the state machine.
-- - Db: the tables (src/db/schema.sql, src/db/migrations.rs) as lists of rows, with the statements as
--   functions; Quiet and Rows have what an UPDATE keeps. Tariff: the rows of the tables of plans,
--   prices, exchange rates and the budget.
-- - Program: how an `async fn` that returns a `Result` is written: a function of a world (the
--   tables, and the state `C` of all outside), that returns a result and the world after it, also
--   where the result is an error; its children have the rules by which properties of actions are
--   composed from those of their parts (Keeps, Yields, WhenTrue, At, NoFault, Triple).
-- - Provider: the types and the trait CloudProvider of src/providers/mod.rs, as an interface.
-- - Naming: src/naming.rs. Quantity: storage quantities of src/volumes.rs, and requests and CPU
--   quantities of src/workload.rs.
-- - Logs: src/api/log_filter.rs: split_timestamp and merge_by_timestamp; Filter has LogFilter with
--   apply and normalize_timestamps; Stream has StreamMerger and the loop of apply_stream, as a step
--   for each event that its task waits for.
-- - Env: src/container_env.rs: Validate, Expand, Resolve (resolve_with_secrets) and Secrets (resolve).
--   CloudInit: first_container and container_config of src/cloud_init.rs; the helpers that are
--   nested in the source's loops have names of their own. CloudInit.Podman is what podman documents
--   of the reader of --env-file, but for its limit on the length of a line.
-- - Context: JobContext of src/reconcile/job.rs, with the other parts that the pipeline calls as
--   interfaces.
-- - Job.Records: the functions of src/reconcile/job.rs that write rows and events (record_event,
--   force_failed, record_failed_attempt, record_completion and the small ones at its end).
-- - Job.Spec: what is read from a job's spec. Job.Volumes, Job.Servers, Job.Firewall,
--   Job.Containers: the handlers, under the names of the source; a handler's `match` arms and early
--   returns are helpers of their own where they nest. Job.Advance: advance_all_until; advance_job is
--   the body of its loop, handle the `match` on the status, transition the UPDATE with its event.
--   Job.DryRun: a pass in a dry run.
-- - Orphans: the scan of src/reconcile/orphan_scan.rs for volumes and VMs that no row names.
-- - Schedule: src/reconcile/schedule.rs: Parse has the texts of schedules, Due is_due, and the parent
--   schedule_due_jobs; schedule_row is the body of its loop.
-- - Catalog: the catalog of server plans in src/workload.rs: PlanFilter, store_plans and
--   cheapest_fitting_server_plan, whose columns of ORDER BY are functions of a plan.
-- - Real: the arithmetic of f64 as a parameter, with the laws that f64 has as Real.Laws. Currency:
--   src/currency.rs. Pricing: the charges and the check against the budget in src/pricing/mod.rs;
--   Budget: the rolling budget of the same file, Patch its patch_settings; the variant Internal of
--   BudgetError is the error of the action itself. Operations: the calls that touch the budget, in
--   any order.
-- - RunOptions: src/run_options.rs; Fields has id_field, bool_field, scratch_mount and
--   reject_unknown_fields, Parse has parse and validate.
-- - Admission: src/admission.rs; Admit also has the order of the checks in src/api/job.rs (create_job)
--   and src/api/cronjob.rs (admit_cronjob).
-- - Reconcile: src/reconcile/mod.rs: tick_until, the loop of ticks (run_with_interval) and that of
--   orphan scans, each a run over the list of what ends its waits, and the counters behind
--   is_healthy; recover of src/reconcile/startup.rs.
-- - BudgetApi: the handlers of src/api/budget.rs; an answer is a status with a text, or a record.
-- - Http: how a handler of the API is written. JobApi: status_for, list_jobs, get_job and delete_job
--   of src/api/job.rs, and phase_for of src/api/pods.rs. Auth: src/auth.rs, and the tokens of
--   src/config.rs.
-- - Prelude: shared names, lists, texts (trim, parsing and printing of numbers) and integers.
-- - Tests: a small world to run the pipeline in, and the theorems at concrete inputs.
--
-- Numbers are the native ℕ. i64 values (times, exit codes, deadlines) are integers ℤ without a
-- bound, as they come from a clock in seconds; an exit code that does not fit in an i64 is refused
-- by parse_i64. The counters of Reconcile wrap at 2^64. Counters of retries and versions are ℕ. A
-- status outside the pipeline's names is `other`. The loop of `expand` runs on fuel, one step for each `$`, and is given the number of
-- characters; that of `ready`, one step for each waiting line, and is given their number. show_ℕ
-- runs on fuel, one step for each digit, and is given `suc n`, which is more than the digits of n;
-- set_days is given seven steps, as a range within a week has at most seven days.
-- The loops are structural recursion on the rows and on the uploads.
--
-- Parameters, since their code is not here or is I/O: the provider behind the trait; the clock,
-- new ids and the errors of SQLite (any statement may be refused, with no effect); serde_json;
-- f64; the execution of commands over SSH (src/ssh.rs, russh); UTF-8 and base64 decoding; the texts and the
-- ranges of times (chrono), the instants of a schedule (cron). The feed of the
-- ECB is fetched and parsed by crates. Left to interfaces so far: the user data of
-- src/cloud_init.rs (generate), and, for the pipeline and the scheduler, the tables of Secrets,
-- plans and prices and the check of the budget, which they reach through calls. Logging is not
-- modelled, and neither are the columns volume_id, volume_device and mount_point of jobs, which
-- nothing writes. Each loop of Reconcile runs alone: their passes
-- are not interleaved. The other parts of the program (metrics, the refresh of prices, and of the
-- API the handlers beside those named above) are not modelled.
mod Prelude
pub mod Status
pub mod Tariff
pub mod Db
pub mod Program
pub mod Provider
pub mod Naming
pub mod Quantity
pub mod Logs
pub mod Env
pub mod CloudInit
pub mod Context
pub mod Job
pub mod Orphans
pub mod Schedule
pub mod Catalog
pub mod Real
pub mod Currency
pub mod Budget
pub mod Pricing
pub mod RunOptions
pub mod Admission
pub mod Http
pub mod JobApi
pub mod Auth
pub mod Reconcile
pub mod BudgetApi
mod Tests
