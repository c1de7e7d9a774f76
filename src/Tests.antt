-- ===== src/Tests.antt =====
-- The theorems at concrete inputs, and runs of the definitions.
mod Setup
mod LogRuns
mod CatalogRuns
mod ScheduleRuns
mod ApiRuns
mod BudgetRuns
mod AdmissionRuns
mod EnvRuns
use mathlib.Core.List.{Forall₂}
use kube_shim.Prelude.{
  ℕ, ◌≡◌, ◌↔◌, ◌≢◌, ◌⊎◌, inr, ◌+◌, ◌*◌, ◌<◌, ◌≤◌, refl, Bool, true, false, Option, none, some,
  String, List, [], ◌∷◌, ◌++◌, All, all, any, take, length, str_eq, str_eq_iff, if◌then◌else◌,
  arith, map_option, show_ℕ, trim, is_empty, parse_i64,
}
use kube_shim.Prelude.Int.{ℤ, pos, negsuc, ◌-ℤ◌, ◌<ℤ◌}
use kube_shim.Status.{Status, is_pre_completion_state, next_state, is_state, status_text}
use kube_shim.Status.Order.{Step, rank, rank-Step, is_pre_completion_state_lem}
use kube_shim.Db.{JobRow, has_failed_event, find_job, find_volume}
use kube_shim.Db.Rows.{UniqueIds}
use kube_shim.Program.{ok, World, ◌>>=◌, let_some, on_result}
use kube_shim.Program.NoFault.{NoFault}
use kube_shim.Program.WhenTrue.{Achieves}
use kube_shim.Provider.{Server}
use kube_shim.Naming.{volume_title, worker_title}
use kube_shim.Naming.Titles.{joined, titles-collide}
use kube_shim.Quantity.{whole_units_for_requests}
use kube_shim.Quantity.Units.{whole_units_for_requests-least}
use kube_shim.Context.{JobContext}
use kube_shim.Tariff.{ServerPlan}
use kube_shim.Env.{array_at}
use kube_shim.Env.Secrets.{resolve}
use kube_shim.Env.Resolve.{resolve_with_secrets}
use kube_shim.CloudInit.{first_container, container_config, string_array}
use kube_shim.Job.Spec.{active_deadline_seconds, parse_spec}
use kube_shim.Job.Records.{
  fail_row, worker_vm_of, volume_id_of, worker_vm_id, worker_ssh_ip, job_volume_id,
  delete_job_volume, move_to, record_event,
}
use kube_shim.Job.Records.Local.{Local}
use kube_shim.Job.Volumes.{volume_titled, handle_volume_pending, handle_volume_detaching}
use kube_shim.Job.Volumes.Reuse.{handle_volume_pending-reuses}
use kube_shim.Job.Volumes.Deletion.{handle_volume_detaching-deletes}
use kube_shim.Job.Servers.{
  resolve_container_config, server_titled, handle_vm_pending, handle_vm_terminating,
}
use kube_shim.Job.Servers.Reuse.{handle_vm_pending-reuses}
use kube_shim.Job.Servers.Deletion.{handle_vm_terminating-deletes}
use kube_shim.Job.Containers.{handle_container_configuring}
use kube_shim.Job.Containers.Delivery.{Writes, Delivered, handle_container_configuring-delivers}
use kube_shim.Job.Firewall.{base_rules, worker_rules, rules_verified}
use kube_shim.Job.Firewall.Rules.{permitted, worker_rules-permitted}
use kube_shim.Job.Advance.{overdue, handle, transition, run_handler, advance_job, advance_all_until}
use kube_shim.Job.Advance.Moves.{RowMove, advance_all_until-moves}
use kube_shim.Job.Advance.Passes.{History, Later, History-Later}
use kube_shim.Job.Advance.Events.{
  FailuresRecorded, advance_all_until-FailuresRecorded, advance_all_until-has_failed_event,
}
use kube_shim.Job.Advance.Deadlines.{
  deadline_of, IsPast, Explains, IsGivenUp, overdue_iff, advance_job-fails_overdue,
}
use kube_shim.Job.Advance.Archive.{
  status_of, advance_job-archives_deleted, advance_job-leaves_no_volume,
}
use kube_shim.Orphans.{volume_ids, worker_ids, scan_and_clean}
use kube_shim.Orphans.Spared.{Touches, scan_and_clean-spares}
use kube_shim.Job.DryRun.{advance_all_until-dry_run}
use Setup.{Log, clock, cloud, context, job, world, never, scratch, stopped_server}

unique : (s : Status) → UniqueIds (world s).db.jobs
unique s = (((λ e. cc ((str_eq_iff "j2" "j1").1 e)), tt), (tt, tt))

advance_all_until-moves_example :
    Forall₂ RowMove
      (world Status.vm_creating).db.jobs
      (advance_all_until (context false) never (world Status.vm_creating)).1.db.jobs
advance_all_until-moves_example =
    advance_all_until-moves (context false) never (world Status.vm_creating)
      (unique Status.vm_creating)

two_passes :
    History
      (context false)
      (world Status.vm_terminating)
      (advance_all_until
        (context false)
        never
        (advance_all_until (context false) never (world Status.vm_terminating)).1).1
two_passes = History.pass never (History.pass never History.here refl) refl

History-Later_example :
    Forall₂ Later
      (world Status.vm_terminating).db.jobs
      (advance_all_until
        (context false)
        never
        (advance_all_until (context false) never (world Status.vm_terminating)).1).1.db.jobs
History-Later_example = History-Later (context false) (unique Status.vm_terminating) two_passes

clock-NoFault : NoFault clock
clock-NoFault = record { never = λ c. refl }

recorded : (s : Status) → s ≡ Status.vm_creating → FailuresRecorded (world s).db
unfolding has_failed_event
recorded s e = ((λ f. cc (e, f)), ((λ f. refl), tt))

advance_all_until-FailuresRecorded_example :
    FailuresRecorded (advance_all_until (context false) never (world Status.vm_creating)).1.db
advance_all_until-FailuresRecorded_example =
    advance_all_until-FailuresRecorded (context false) clock-NoFault never
      (world Status.vm_creating) (recorded Status.vm_creating refl)

already_failed : has_failed_event "j2" (world Status.vm_creating).db.events ≡ true
unfolding has_failed_event
already_failed = refl

abbrev timeout : String
timeout = "StateTimeout: stuck in VMCreating for over 300s"

stuck :
    overdue
      (deadline_of (context false) (job "j1" Status.vm_creating))
      (job "j1" Status.vm_creating)
      (pos 1000)
    ≡ some timeout
unfolding overdue is_pre_completion_state ◌-ℤ◌ status_text show_ℕ active_deadline_seconds parse_spec
stuck = refl

abbrev Untouched : Log → Type 0
Untouched c = c ≡ []

early : is_pre_completion_state Status.vm_creating ≡ true
unfolding is_pre_completion_state
early = refl

abbrev given_up_on : World Log ℕ
given_up_on =
    (advance_job (context false) (pos 1000) (job "j1" Status.vm_creating)
      (world Status.vm_creating)).1

advance_job-fails_overdue_example :
    ((advance_job
        (context false)
        (pos 1000)
        (job "j1" Status.vm_creating)
        (world Status.vm_creating)).0
      ≡ ok true)
    × (given_up_on.cloud ≡ [])
    × ((reason : String) × Explains
          (deadline_of (context false) (job "j1" Status.vm_creating))
          (job "j1" Status.vm_creating)
          (pos 1000)
          reason
        × IsGivenUp
            (context false)
            (pos 1000)
            (job "j1" Status.vm_creating)
            reason
            (world Status.vm_creating)
            given_up_on)
unfolding is_state ◌-ℤ◌
advance_job-fails_overdue_example =
    advance_job-fails_overdue (context false) Untouched (record { at = λ c h. h })
      (record { at = λ c h. h }) (record { at = λ c h. h }) clock-NoFault (pos 1000)
      (job "j1" Status.vm_creating) (world Status.vm_creating) refl early (inr (refl, omega arith))

overdue_iff_example :
    (overdue (some (pos 400)) (job "j1" Status.container_running) (pos 1000) ≢ none) ↔ (
      (is_pre_completion_state Status.container_running ≡ true)
      × (IsPast (some (pos 400)) (pos 1000 -ℤ pos 500)
          ⊎ (is_state Status.container_running Status.container_running ≡ false)
            × (pos 300 <ℤ pos 1000 -ℤ pos 600)))
overdue_iff_example = overdue_iff (some (pos 400)) (job "j1" Status.container_running) (pos 1000)

local : (dry : Bool) (P : Log → Type 0) → Local (context dry) P
local dry P = record {
  now = record { at = λ c h. h };
  new_uuid = record { at = λ c h. h };
  fault = record { at = λ c h. h };
  secret = λ _ _. record { at = λ c h. h };
  cheapest_fitting_server_plan = λ _ _ _. record { at = λ c h. h };
  has_cached_plans = record { at = λ c h. h };
}

advance_all_until-dry_run_example :
    (advance_all_until (context true) never (world Status.vm_terminating)).1.cloud ≡ []
advance_all_until-dry_run_example =
    advance_all_until-dry_run (context true) (local true Untouched) refl never
      (world Status.vm_terminating) (record { at = λ c h. h }) refl

abbrev HasLogged : String → Log → Type 0
HasLogged name c = any (λ s. str_eq s name) c ≡ true

deletes_server :
    Achieves (HasLogged "delete_server") ((context false).provider.delete_server "vm-1")
deletes_server = record { at = λ c a h. refl }

terminated : (handle_vm_terminating (context false) "j1" (world Status.vm_terminating)).0 ≡ ok true
unfolding handle_vm_terminating ◌>>=◌ worker_vm_id find_job let_some on_result
terminated = refl

row_vm : worker_vm_of (find_job "j1" (world Status.vm_terminating).db) ≡ some (some "vm-1")
unfolding find_job
row_vm = refl

deletes_volume :
    Achieves (HasLogged "delete_volume") ((context false).provider.delete_volume "vol-1")
deletes_volume = record { at = λ c a h. refl }

detached :
    (handle_volume_detaching (context false) "j1" (world Status.volume_detaching)).0 ≡ ok true
unfolding handle_volume_detaching ◌>>=◌ job_volume_id worker_vm_id find_job find_volume let_some
    on_result delete_job_volume
detached = refl

row_volume : volume_id_of (find_volume "j1" (world Status.volume_detaching).db) ≡ some "vol-1"
unfolding find_volume
row_volume = refl

listed_volume : volume_titled (volume_title "shim" "ns" "job") (ok (scratch ∷ [])) ≡ some scratch
unfolding volume_title
listed_volume = refl

handle_volume_pending-reuses_example :
    (handle_volume_pending
      (context false)
      "j1"
      "ns"
      "job"
      "{}"
      (world Status.volume_pending)).1.cloud
    ≡ []
handle_volume_pending-reuses_example =
    handle_volume_pending-reuses (context false) (local false Untouched) (record { at = λ c h. h })
      "j1" "ns" "job" "{}" (world Status.volume_pending) scratch listed_volume refl

listed_server :
    (c : Log)
    → c ≡ []
    → (found : Server) × (server_titled
          (worker_title "shim" "ns" "job")
          (cloud.list_servers "fi-hel1" c).0
        ≡ some found)
unfolding worker_title
listed_server c h = (stopped_server, refl)

abbrev small_plan : ServerPlan
small_plan = record {
  name = "1xCPU-1GB";
  cpu_cores = 1;
  memory_mb = 1024;
  storage_gb = 10;
  storage_tier = none;
}

-- The catalogue has a plan for every job.
abbrev planned : JobContext Log String ℕ
planned = record (context false) {
  tables = record (context false).tables {
    cheapest_fitting_server_plan = λ _ _ _ c. (ok (some small_plan), c);
  };
}

planned_local : Local planned Untouched
planned_local = record {
  now = record { at = λ c h. h };
  new_uuid = record { at = λ c h. h };
  fault = record { at = λ c h. h };
  secret = λ namespace name. record { at = λ c h. h };
  cheapest_fitting_server_plan = λ zone cores memory. record { at = λ c h. h };
  has_cached_plans = record { at = λ c h. h };
}

handle_vm_pending-reuses_example :
    (handle_vm_pending planned "j1" "ns" "job" "{}" (world Status.vm_pending)).1.cloud ≡ []
handle_vm_pending-reuses_example =
    handle_vm_pending-reuses planned planned_local (record { at = λ c h. h }) "j1" "ns" "job" "{}"
      (world Status.vm_pending) listed_server refl

worker_rules-permitted_example :
    all (permitted (some "192.0.2.1")) (worker_rules (some "192.0.2.1")) ≡ true
worker_rules-permitted_example = worker_rules-permitted (some "192.0.2.1")

cleanup : Step Status.failed Status.volume_detaching
unfolding next_state
cleanup = Step.forward refl

titles-collide_example :
    ((volume_title "shim" "foo-bar" "baz" ≡ volume_title "shim" "foo" "bar-baz")
      ↔ (joined "foo-bar" "baz" ≡ joined "foo" "bar-baz"))
    × ((worker_title "shim" "foo-bar" "baz" ≡ worker_title "shim" "foo" "bar-baz")
        ↔ (joined "foo-bar" "baz" ≡ joined "foo" "bar-baz"))
titles-collide_example = titles-collide "shim" "foo-bar" "baz" "foo" "bar-baz"

stands : (s : Status) → status_of (find_job "j1" (world s).db) ≡ some s
unfolding find_job
stands s = refl

archived_run :
    (advance_job
      (context false)
      (pos 1000)
      (job "j1" Status.vm_terminating)
      (world Status.vm_terminating)).0
    ≡ ok true
unfolding advance_job let_some next_state overdue is_pre_completion_state run_handler ◌>>=◌ handle
    handle_vm_terminating worker_vm_id find_job on_result transition move_to record_event
archived_run = refl

advance_job-archives_deleted_example :
    let after =
      (advance_job
        (context false)
        (pos 1000)
        (job "j1" Status.vm_terminating)
        (world Status.vm_terminating)).1 in
    (status_of (find_job "j1" after.db) ≡ some Status.vm_terminating)
    ⊎ HasLogged "delete_server" after.cloud
advance_job-archives_deleted_example =
    advance_job-archives_deleted (context false) (local false (HasLogged "delete_server"))
      (pos 1000) (job "j1" Status.vm_terminating) "vm-1" deletes_server
      (world Status.vm_terminating) refl refl (stands Status.vm_terminating) row_vm

volume_left :
    (advance_job
      (context false)
      (pos 1000)
      (job "j1" Status.volume_detaching)
      (world Status.volume_detaching)).0
    ≡ ok true
unfolding advance_job let_some next_state overdue is_pre_completion_state run_handler ◌>>=◌ handle
    handle_volume_detaching job_volume_id find_volume worker_vm_id delete_job_volume find_job
    on_result transition move_to record_event
volume_left = refl

advance_job-leaves_no_volume_example :
    let after =
      (advance_job
        (context false)
        (pos 1000)
        (job "j1" Status.volume_detaching)
        (world Status.volume_detaching)).1 in
    (status_of (find_job "j1" after.db) ≡ some Status.volume_detaching)
    ⊎ HasLogged "delete_volume" after.cloud
advance_job-leaves_no_volume_example =
    advance_job-leaves_no_volume (context false) (local false (HasLogged "delete_volume"))
      (pos 1000) (job "j1" Status.volume_detaching) "vol-1" deletes_volume
      (world Status.volume_detaching) refl refl (stands Status.volume_detaching) row_volume

abbrev after_writes : List (String × List ℕ) → Log → Log
after_writes [] old = old
after_writes ((command, contents) ∷ files) old = after_writes files (command ∷ old)

after_writes-append :
    (files : List (String × List ℕ)) (command : String) (contents : List ℕ) (old : Log)
    → after_writes (files ++ (command, contents) ∷ []) old ≡ command ∷ after_writes files old
after_writes-append [] command contents old = refl
after_writes-append ((c, x) ∷ files) command contents old =
    after_writes-append files command contents (c ∷ old)

abbrev Logged : String → List (String × List ℕ) → Log → Type 0
Logged ip files c = (old : Log) × (c ≡ after_writes files old)

logged_writes : Writes (context false) Logged
logged_writes = record {
  start = λ ip c. (c, refl);
  next = λ ip command contents files c out (old, e) answered zero.
      (old, rw (after_writes-append files command contents old, e) refl);
}

delivered :
    (handle_container_configuring
      (context false)
      "j1"
      "ns"
      "job"
      "{}"
      (world Status.container_configuring)).0
    ≡ ok true
unfolding handle_container_configuring ◌>>=◌ resolve_container_config on_result let_some
    worker_ssh_ip find_job is_empty first_container resolve array_at resolve_with_secrets
    container_config string_array
delivered = refl

handle_container_configuring-delivers_example :
    Delivered
      (context false)
      logged_writes
      "j1"
      "ns"
      "job"
      "{}"
      (world Status.container_configuring)
      (handle_container_configuring
        (context false)
        "j1"
        "ns"
        "job"
        "{}"
        (world Status.container_configuring)).1.cloud
handle_container_configuring-delivers_example =
    handle_container_configuring-delivers (context false) logged_writes "j1" "ns" "job" "{}"
      (world Status.container_configuring) refl delivered

-- A cloud that notes when a tracked volume or server is stopped or deleted.
abbrev guarded : JobContext Log String ℕ
guarded = record (context false) {
  provider = record cloud {
    delete_volume = λ id c. (ok tt, if str_eq "vol-1" id then "lost" ∷ c else c);
    stop_server = λ id c. (ok stopped_server, if str_eq "vm-1" id then "lost" ∷ c else c);
    delete_server = λ id c. (ok tt, if str_eq "vm-1" id then "lost" ∷ c else c);
  };
}

guarded_touches : Touches guarded (world Status.vm_creating).db Untouched
unfolding volume_ids worker_ids
guarded_touches = record {
  list_volumes = record { at = λ c h. h };
  list_servers = record { at = λ c h. h };
  fault = record { at = λ c h. h };
  delete_volume = λ id fresh. record { at = λ c h. ground arith };
  stop_server = λ id fresh. record { at = λ c h. ground arith };
  delete_server = λ id fresh. record { at = λ c h. ground arith };
}

scan_and_clean-spares_example :
    ((scan_and_clean guarded (world Status.vm_creating)).1.db ≡ (world Status.vm_creating).db)
    × ((scan_and_clean guarded (world Status.vm_creating)).1.cloud ≡ [])
scan_and_clean-spares_example =
    scan_and_clean-spares guarded guarded_touches (world Status.vm_creating) refl refl

-- Runs of the printers and parsers.
show_ℕ_run : show_ℕ 1203 ≡ "1203"
unfolding show_ℕ
show_ℕ_run = refl

parse_i64_run : parse_i64 "-42" ≡ some (negsuc 41)
unfolding parse_i64
parse_i64_run = refl

trim_run : trim " 0\n" ≡ "0"
unfolding trim
trim_run = refl
