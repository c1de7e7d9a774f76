-- ===== src/Db.antt =====
-- The tables (src/db/schema.sql and migrations.rs) `jobs`, `job_volumes`, `events`, `cronjobs`,
-- `provider_plans`, `provider_pricing`, `exchange_rates` and `budget_state`. A table is the list of its
-- rows; that of the budget has at most one. A REAL column holds an `F`.
pub mod Quiet
pub mod Rows
use kube_shim.Prelude.{
  ℕ, Bool, Option, none, some, String, List, [], ◌∷◌, ◌++◌, map, ◌||◌, not, ◌&&◌, str_eq, find,
  select, any, if◌then◌else◌,
}
use kube_shim.Prelude.Int.{ℤ, pos, eqb_ℤ}
use kube_shim.Status.{Status}
use kube_shim.Tariff.{PlanRow, PriceRow, RateRow, BudgetRow}

pub record JobRow (F : Type 0) : Type 0 where
  pub id : String
  pub name : String
  pub namespace : String
  pub cronjob_name : Option String
  pub spec : String
  pub status : Status
  pub retry_count : ℕ
  pub last_error : Option String
  pub worker_vm_id : Option String
  pub worker_vm_name : Option String
  pub worker_plan : Option String
  pub worker_ssh_ip : Option String
  pub exit_code : Option ℤ
  pub cached_logs : Option String
  pub cached_logs_timestamped : Bool
  pub estimated_cost : Option F
  pub actual_cost : Option F
  pub created_at : ℤ
  pub updated_at : ℤ
  pub last_transition_time : Option ℤ
  pub completed_at : Option ℤ
  pub version : ℕ

pub record VolumeRow : Type 0 where
  pub id : String
  pub job_id : String
  pub size_gb : ℕ
  pub storage_class_name : String
  pub provider_volume_id : Option String
  pub provider_volume_name : Option String
  pub mount_point : Option String
  pub created_at : ℤ

pub record CronJobRow : Type 0 where
  pub id : String
  pub name : String
  pub namespace : String
  pub spec : String
  pub schedule : String
  pub created_at : ℤ

pub data EventType : Type 0 where
  normal warning : EventType

pub record Event : Type 0 where
  pub id : String
  pub job_id : Option String
  pub reason : String
  pub message : String
  pub timestamp : ℤ
  pub event_type : EventType

pub record Db (F : Type 0) : Type 0 where
  pub jobs : List (JobRow F)
  pub job_volumes : List VolumeRow
  pub events : List Event
  pub cronjobs : List CronJobRow
  pub provider_plans : List PlanRow
  pub provider_pricing : List (PriceRow F)
  pub exchange_rates : List (RateRow F)
  pub budget_state : Option (BudgetRow F)

module _ {F : Type 0} where
  -- UPDATE jobs SET … WHERE id = ?
  pub update_where : String → (JobRow F → JobRow F) → List (JobRow F) → List (JobRow F)
  update_where id f [] = []
  update_where id f (r ∷ rs) = (if str_eq r.id id then f r else r) ∷ update_where id f rs

  unfoldable pub update_job : String → (JobRow F → JobRow F) → Db F → Db F
  unfolding update_where
  update_job id f db = record db { jobs = update_where id f db.jobs }

  -- SELECT … FROM jobs WHERE id = ?
  unfoldable pub find_job : String → Db F → Option (JobRow F)
  find_job id db = find (λ r. str_eq r.id id) db.jobs

  unfoldable pub insert_event : Event → Db F → Db F
  insert_event e db = record db { events = db.events ++ e ∷ [] }

  unfoldable pub insert_job : JobRow F → Db F → Db F
  insert_job r db = record db { jobs = db.jobs ++ r ∷ [] }

  unfoldable pub insert_volume : VolumeRow → Db F → Db F
  insert_volume v db = record db { job_volumes = db.job_volumes ++ v ∷ [] }

  -- DELETE FROM job_volumes WHERE job_id = ?
  unfoldable pub delete_volumes : String → Db F → Db F
  delete_volumes id db = record db {
    job_volumes = select (λ v. not (str_eq v.job_id id)) db.job_volumes;
  }

  -- SELECT … FROM job_volumes WHERE job_id = ?
  unfoldable pub find_volume : String → Db F → Option VolumeRow
  find_volume id db = find (λ v. str_eq v.job_id id) db.job_volumes

abbrev is_event_of : String → Option String → Bool
is_event_of id none = Bool.false
is_event_of id (some j) = str_eq j id

abbrev nonzero : Option ℤ → Bool
nonzero none = Bool.false
nonzero (some code) = not (eqb_ℤ code (pos 0))

-- RUN_FAILED_SQL: a nonzero exit code, or a `Failed` event of the job.
unfoldable pub has_failed_event : String → List Event → Bool
has_failed_event id events = any (λ e. is_event_of id e.job_id && str_eq e.reason "Failed") events

unfoldable pub run_failed : {F : Type 0} → JobRow F → List Event → Bool
run_failed r events = nonzero r.exit_code || has_failed_event r.id events
