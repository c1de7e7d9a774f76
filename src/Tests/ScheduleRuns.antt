-- ===== src/Tests/ScheduleRuns.antt =====
-- The theorems on schedules at concrete inputs: a schedule is its only
-- instant.
use kube_shim.Tests.Setup.{Log, context, job, world, never}
use kube_shim.Prelude.{
  ℕ, any, ◌≡◌, ◌↔◌, refl, inl, inr, true, false, Option, none, some, String, [], ◌∷◌, arith,
  Bool-cases, trim, is_empty, parse_usize, if◌then◌else◌,
}
use kube_shim.Prelude.Int.{ℤ, pos, ltb_ℤ, ◌<ℤ◌}
use kube_shim.Status.{Status, is_pre_completion_state}
use kube_shim.Db.{CronJobRow, has_failed_event}
use kube_shim.Program.{World, ok, ◌>>=◌, on_result, let_some}
use kube_shim.Job.Advance.Events.{FailuresRecorded}
use kube_shim.Schedule.Parse.{
  Cron, to_six_field, day_of_week_to_names, is_restricted, split_whitespace, day, parse_schedule,
}
use kube_shim.Env.{split_at}
use kube_shim.Schedule.Due.{Chrono, is_due, window_start}
use kube_shim.Schedule.Due.Window.{Instants, Fires, IsNoLater, is_due_iff}
use kube_shim.Job.Spec.{parse_spec, active_deadline_seconds}
use kube_shim.Context.{JobContext}
use kube_shim.Schedule.{
  is_suspended, is_active_run, forbids_overlap, schedule_row, schedule_due_jobs,
}
use kube_shim.Schedule.Runs.{Grown, schedule_due_jobs-Grown}
use kube_shim.Schedule.Runs.Held.{schedule_row-held}
use kube_shim.Program.NoFault.{NoFault}
use kube_shim.Reconcile.{due, new_tick_health, run_with_interval}
use kube_shim.Reconcile.Ticks.{run_with_interval-FailuresRecorded}

sunday_to_thursday : day_of_week_to_names "0-4" ≡ "SUN,MON,TUE,WED,THU"
unfolding day_of_week_to_names split_at day parse_usize
sunday_to_thursday = refl

wrapped : to_six_field " 5 4 * * fri-MON " ≡ "0 5 4 * * SUN,MON,FRI,SAT"
unfolding to_six_field trim split_whitespace day_of_week_to_names split_at day parse_usize
wrapped = refl

some_is : (a b : ℤ) → ◌≡◌ {A = Option ℤ} (some a) (some b) → b ≡ a
some_is a b h = cc

abbrev cron : Cron ℕ
cron = record {
  from_str = λ s. ok 960;
  after = λ s t. if ltb_ℤ t (pos s) then some (pos s) else none;
}

after_some :
    (s : ℕ) (t next : ℤ)
    → cron.after s t ≡ some next
    → (next ≡ pos s) × (t <ℤ next) × ((u : ℤ) → u ≡ pos s → t <ℤ u → IsNoLater next u)
after_some s t next h = elim (Bool-cases (ltb_ℤ t (pos s))) [
  | inl e ↦
      let found = some_is (pos s) next (rw e at h) in
      rw found (refl, ground arith, λ u at_s later. rw at_s (omega arith))
  | inr e ↦ cc (rw e at h)
]

after_none : (s : ℕ) (t u : ℤ) → cron.after s t ≡ none → u ≡ pos s → IsNoLater u t
after_none s t u h at_s = elim (Bool-cases (ltb_ℤ t (pos s))) [
  | inl e ↦ cc (rw e at h)
  | inr e ↦ rw at_s (ground arith)
]

instants : Instants cron
instants = record { IsInstant = λ s u. u ≡ pos s; after-some = after_some; after-none = after_none }

abbrev chrono : Chrono
chrono = record { checked_sub_seconds = λ now d. none; is_in_range = λ t. true }

is_due_iff_example : (is_due cron chrono (960 ∷ []) (pos 500) (pos 1000) none ≡ true) ↔ (
    (u : ℤ) × Fires cron instants (960 ∷ []) u
    × (window_start chrono (pos 500) (pos 1000) none <ℤ u)
    × IsNoLater u (pos 1000))
is_due_iff_example = is_due_iff cron instants chrono (960 ∷ []) (pos 500) (pos 1000) none

is_due_now : is_due cron chrono (960 ∷ []) (pos 500) (pos 1000) none ≡ true
unfolding is_due
is_due_now = refl

abbrev cronjob : CronJobRow
cronjob = record {
  id = "c1";
  name = "nightly";
  namespace = "ns";
  spec = "{}";
  schedule = "16 0 * * *";
  created_at = pos 500;
}

abbrev start : World Log ℕ
start =
    let w = world Status.vm_creating in record w { db = record w.db { cronjobs = cronjob ∷ [] } }

abbrev show_cost : Option ℕ → String
show_cost cost = ""

one_run : (schedule_due_jobs (context false) cron chrono show_cost start).0 ≡ ok 1
unfolding schedule_due_jobs ◌>>=◌ is_empty trim on_result parse_schedule split_whitespace
    is_restricted split_at is_due let_some active_deadline_seconds
one_run = refl

schedule_due_jobs-Grown_example :
    Grown start.db.jobs (schedule_due_jobs (context false) cron chrono show_cost start).1.db
schedule_due_jobs-Grown_example =
    schedule_due_jobs-Grown (context false) cron chrono show_cost start

failure_recorded : FailuresRecorded start.db
unfolding has_failed_event
failure_recorded = ((λ f. cc f), ((λ f. refl), tt))

-- The clock refuses no statement.
safe : NoFault (context false).system
safe = record { never = λ c. refl }

abbrev five_micros : Log → ℕ × Log
five_micros c = (5, c)

run_with_interval-FailuresRecorded_example :
    FailuresRecorded
      (run_with_interval
        (context false)
        cron
        chrono
        show_cost
        never
        five_micros
        (due ∷ due ∷ [])
        (new_tick_health (pos 0))
        start).1.db
run_with_interval-FailuresRecorded_example =
    run_with_interval-FailuresRecorded (context false) cron chrono show_cost never five_micros safe
      (due ∷ due ∷ []) (new_tick_health (pos 0)) start failure_recorded

-- every member is there, and true
abbrev suspending : JobContext Log String ℕ
suspending = record (context false) {
  json = record (context false).json { get = λ v key. some key; as_bool = λ v. some true };
}

suspended : is_suspended suspending cron chrono show_cost cronjob ≡ true
unfolding parse_spec
suspended = refl

-- Every text says `Forbid`, and the run of the CronJob is in `VMCreating`, since before the instant at
-- which the next one is due.
abbrev forbidding : JobContext Log String ℕ
forbidding = record (context false) {
  json = record (context false).json { get = λ v key. some "Forbid" };
}

abbrev busy : World Log ℕ
busy = record start {
  db = record start.db {
    jobs = record (job "j1" Status.vm_creating) { cronjob_name = some "nightly" } ∷ [];
  };
}

overlaps : any (is_active_run "nightly" "ns") busy.db.jobs ≡ true
unfolding is_pre_completion_state
overlaps = refl

forbids : forbids_overlap forbidding cron chrono show_cost cronjob ≡ true
unfolding parse_spec
forbids = refl

schedule_row-held_example :
    (schedule_row forbidding cron chrono show_cost cronjob (pos 1000) busy).1.db.jobs ≡ busy.db.jobs
schedule_row-held_example =
    schedule_row-held forbidding cron chrono show_cost cronjob (pos 1000) busy
      (inr (forbids, overlaps))
