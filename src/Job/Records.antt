-- ===== src/Job/Records.antt =====
-- src/reconcile/job.rs: the functions that write events, failures, volumes, worker VMs and
-- completions to the tables.
pub mod Tables
pub mod NoFault
pub mod Local
use kube_shim.Prelude.{ℕ, suc, ◌*◌, Bool, true, false, Option, none, some, String, List}
use kube_shim.Prelude.Int.{ℤ}
use kube_shim.Db.{
  JobRow, VolumeRow, Event, EventType, warning, Db, update_job, find_job, insert_event,
  insert_volume, delete_volumes, find_volume,
}
use kube_shim.Program.{M, System, pure, call, query, or_no_row, execute, ◌>>=◌, ◌>>◌}
use kube_shim.Status.{Status, failed}
use kube_shim.Quantity.{StorageTier, class_name}

abbrev pub retry_escalation_threshold : ℕ
retry_escalation_threshold = 5 * 60

abbrev pub container_start_timeout : ℕ
container_start_timeout = 30 * 60

abbrev pub worker_vm_of : {F : Type 0} → Option (JobRow F) → Option (Option String)
worker_vm_of none = none
worker_vm_of (some r) = some r.worker_vm_id

abbrev pub worker_ip_of : {F : Type 0} → Option (JobRow F) → Option (Option String)
worker_ip_of none = none
worker_ip_of (some r) = some r.worker_ssh_ip

abbrev pub last_error_of : {F : Type 0} → Option (JobRow F) → Option (Option String)
last_error_of none = none
last_error_of (some r) = some r.last_error

abbrev pub worker_plan_of : {F : Type 0} → Option (JobRow F) → Option (Option String)
worker_plan_of none = none
worker_plan_of (some r) = some r.worker_plan

abbrev pub retry_count_of : {F : Type 0} → Option (JobRow F) → Option ℕ
retry_count_of none = none
retry_count_of (some r) = some r.retry_count

abbrev pub volume_id_of : Option VolumeRow → Option String
volume_id_of none = none
volume_id_of (some v) = v.provider_volume_id

-- the SET clauses
abbrev pub fail_row : {F : Type 0} → String → ℤ → JobRow F → JobRow F
fail_row reason now r = record r {
  status = failed;
  last_error = some reason;
  last_transition_time = some now;
  updated_at = now;
  version = suc r.version;
}

abbrev pub move_row : {F : Type 0} → Status → ℤ → JobRow F → JobRow F
move_row target now r = record r {
  status = target;
  last_transition_time = some now;
  updated_at = now;
  version = suc r.version;
}

abbrev pub attempt_row : {F : Type 0} → String → ℤ → JobRow F → JobRow F
attempt_row error now r = record r {
  retry_count = suc r.retry_count;
  last_error = some error;
  updated_at = now;
}

abbrev pub vm_row : {F : Type 0} → String → String → String → JobRow F → JobRow F
vm_row vm_id vm_name plan r = record r {
  worker_vm_id = some vm_id;
  worker_vm_name = some vm_name;
  worker_plan = some plan;
}

abbrev pub ip_row : {F : Type 0} → String → JobRow F → JobRow F
ip_row ip r = record r { worker_ssh_ip = some ip }

abbrev pub completion_row : {F : Type 0} → ℤ → String → Bool → Option F → ℤ → JobRow F → JobRow F
completion_row exit_code logs logs_timestamped actual_cost now r = record r {
  exit_code = some exit_code;
  cached_logs = some logs;
  cached_logs_timestamped = logs_timestamped;
  actual_cost = actual_cost;
  completed_at = some now;
}

module _ {C F : Type 0} (sys : System C) where
  unfoldable pub record_event : Option String → String → String → EventType → M C F Unit
  record_event job_id reason message event_type = do
    id ← call sys.new_uuid
    now ← call sys.now
    execute sys (
        insert_event (record {
          id = id;
          job_id = job_id;
          reason = reason;
          message = message;
          timestamp = now;
          event_type = event_type;
        }))

  -- Namespace and name are only logged.
  unfoldable pub force_failed : String → String → ℤ → M C F Unit
  unfolding record_event
  force_failed job_id reason now = do
    execute sys (update_job job_id (fail_row reason now))
    record_event (some job_id) "Failed" reason warning

  unfoldable pub move_to : String → Status → ℤ → M C F Unit
  move_to job_id target now = execute sys (update_job job_id (move_row target now))

  unfoldable pub insert_job_volume : String → ℕ → StorageTier → String → String → M C F Unit
  insert_job_volume job_id size_gb tier provider_volume_id provider_volume_name = do
    id ← call sys.new_uuid
    now ← call sys.now
    execute sys (
        insert_volume (record {
          id = id;
          job_id = job_id;
          size_gb = size_gb;
          storage_class_name = class_name tier;
          provider_volume_id = some provider_volume_id;
          provider_volume_name = some provider_volume_name;
          mount_point = none;
          created_at = now;
        }))

  -- `fetch_optional`: no row is no volume.
  unfoldable pub job_volume_id : String → M C F (Option String)
  job_volume_id job_id = query sys (λ db. volume_id_of (find_volume job_id db))

  unfoldable pub delete_job_volume : String → M C F Unit
  delete_job_volume job_id = execute sys (delete_volumes job_id)

  unfoldable pub set_worker_vm : String → String → String → String → M C F Unit
  set_worker_vm job_id vm_id vm_name plan =
      execute sys (update_job job_id (vm_row vm_id vm_name plan))

  unfoldable pub worker_vm_id : String → M C F (Option String)
  worker_vm_id job_id = do row ← query sys (λ db. worker_vm_of (find_job job_id db)); or_no_row row

  unfoldable pub set_worker_ssh_ip : String → String → M C F Unit
  set_worker_ssh_ip job_id ip = execute sys (update_job job_id (ip_row ip))

  unfoldable pub worker_ssh_ip : String → M C F (Option String)
  worker_ssh_ip job_id = do row ← query sys (λ db. worker_ip_of (find_job job_id db)); or_no_row row

  unfoldable pub last_error : String → M C F (Option String)
  last_error job_id = do row ← query sys (λ db. last_error_of (find_job job_id db)); or_no_row row

  unfoldable pub worker_plan : String → M C F (Option String)
  worker_plan job_id = do row ← query sys (λ db. worker_plan_of (find_job job_id db)); or_no_row row

  unfoldable pub record_completion : String → ℤ → String → Bool → Option F → M C F Unit
  record_completion job_id exit_code logs logs_timestamped actual_cost = do
    now ← call sys.now
    execute sys (update_job job_id (completion_row exit_code logs logs_timestamped actual_cost now))

  -- The retry count is read back for the log line, whose level depends on the time of the last
  -- transition; the log itself is not modelled.
  unfoldable pub record_failed_attempt : String → String → M C F Unit
  record_failed_attempt job_id error = do
    now ← call sys.now
    execute sys (update_job job_id (attempt_row error now))
    row ← query sys (λ db. retry_count_of (find_job job_id db))
    or_no_row row
    pure tt
