-- ===== src/JobApi.antt =====
-- src/api/job.rs: list_jobs, get_job and delete_job, with phase_for of src/api/pods.rs. What axum and
-- serde do of requests and responses is left out.
pub mod Deletion
use kube_shim.Prelude.{
  ℕ, Bool, true, false, ◌&&◌, not, Option, none, some, String, List, [], ◌∷◌, map, find, select,
  str_eq, if◌then◌else◌,
}
use kube_shim.Status.{
  Status, container_running, succeeded, volume_detaching, volume_deleted, vm_terminating, archived,
  failed, is_pre_completion_state,
}
use kube_shim.Db.{JobRow, Db, run_failed}
use kube_shim.Context.{Json}
use kube_shim.Program.{Result, ok, err, World, M, System, call, query, execute, ◌>>=◌}
use kube_shim.Http.{ErrorResponse, Handler, of_action, next}
use kube_shim.Job.Spec.{parse_spec}
use kube_shim.Job.Records.{force_failed}

unfoldable pub phase_for : Status → Bool → String
phase_for Status.container_running has_failed = "Running"
phase_for Status.succeeded has_failed = "Succeeded"
phase_for Status.failed has_failed = "Failed"
phase_for Status.volume_detaching has_failed = if has_failed then "Failed" else "Succeeded"
phase_for Status.volume_deleted has_failed = if has_failed then "Failed" else "Succeeded"
phase_for Status.vm_terminating has_failed = if has_failed then "Failed" else "Succeeded"
phase_for Status.archived has_failed = if has_failed then "Failed" else "Succeeded"
phase_for _ has_failed = "Pending"

pub record JobCondition : Type 0 where
  pub condition_type : String
  pub status : String

pub record JobStatus : Type 0 where
  pub active : ℕ
  pub succeeded : ℕ
  pub failed : ℕ
  pub conditions : List JobCondition

abbrev condition_of : String → List JobCondition
condition_of t = record { condition_type = t; status = "True" } ∷ []

unfoldable pub status_for : Status → Bool → JobStatus
unfolding phase_for
status_for status has_failed =
    let phase = phase_for status has_failed in
    if str_eq phase "Succeeded"
    then record { active = 0; succeeded = 1; failed = 0; conditions = condition_of "Complete" }
    else if str_eq phase "Failed"
    then record { active = 0; succeeded = 0; failed = 1; conditions = condition_of "Failed" }
    else record { active = 1; succeeded = 0; failed = 0; conditions = [] }

-- with the fields of its metadata
pub record JobObject (V : Type 0) : Type 0 where
  pub name : String
  pub namespace : String
  pub uid : String
  pub spec : V
  pub status : JobStatus

abbrev pub deleted_reason : String
deleted_reason = "Deleted: job was explicitly deleted while still running"

abbrev pub job_not_found : ErrorResponse
job_not_found = (404, "Job not found")

module _ {F : Type 0} where
  abbrev pub is_named : String → String → JobRow F → Bool
  is_named namespace name r = str_eq r.namespace namespace && str_eq r.name name

  -- SELECT … FROM jobs WHERE namespace = ? AND name = ?
  unfoldable pub find_named : String → String → Db F → Option (JobRow F)
  find_named namespace name db = find (is_named namespace name) db.jobs

  -- DELETE FROM jobs WHERE id = ?
  unfoldable pub delete_row : String → Db F → Db F
  delete_row id db = record db { jobs = select (λ r. not (str_eq r.id id)) db.jobs }

module _ {C V F : Type 0} (system : System C) (json : Json V) where
  unfoldable pub row_to_job : Db F → JobRow F → JobObject V
  unfolding status_for run_failed
  row_to_job db r = record {
    name = r.name;
    namespace = r.namespace;
    uid = r.id;
    spec = parse_spec json r.spec;
    status = status_for r.status (run_failed r db.events);
  }

  unfoldable pub list_jobs : String → Handler C F (List (JobObject V))
  unfolding row_to_job
  list_jobs namespace = of_action (
      query system (λ db. map (row_to_job db) (select (λ r. str_eq r.namespace namespace) db.jobs)))

  found_job : Option (JobObject V) → Handler C F (JobObject V)
  found_job none w = (err job_not_found, w)
  found_job (some job) w = (ok job, w)

  object_of : Db F → Option (JobRow F) → Option (JobObject V)
  object_of db none = none
  object_of db (some r) = some (row_to_job db r)

  unfoldable pub get_job : String → String → Handler C F (JobObject V)
  unfolding found_job object_of find_named
  get_job namespace name =
      next (of_action (query system (λ db. object_of db (find_named namespace name db)))) found_job

module _ {C F : Type 0} (system : System C) where
  unfoldable pub remove : JobRow F → M C F Unit
  unfolding delete_row
  remove r =
      if is_pre_completion_state r.status
      then call system.now >>= (λ now. force_failed system r.id deleted_reason now)
      else execute system (delete_row r.id)

  unfoldable pub delete_found : Option (JobRow F) → Handler C F ℕ
  unfolding remove
  delete_found none w = (err job_not_found, w)
  delete_found (some r) w = next (of_action (remove r)) (λ _ w'. (ok 204, w')) w

  unfoldable pub delete_job : String → String → Handler C F ℕ
  unfolding delete_found find_named
  delete_job namespace name =
      next (of_action (query system (find_named namespace name))) delete_found
