-- ===== src/Job/Records/Local.antt =====
-- What the writers of src/reconcile/job.rs call outside: the clock, the generator of ids and the
-- database.
use kube_shim.Prelude.{ℕ, Option, String}
use kube_shim.Prelude.Int.{ℤ}
use kube_shim.Db.{EventType}
use kube_shim.Status.{Status}
use kube_shim.Program.{M}
use kube_shim.Program.Keeps.{
  Keeps, OnCloud, CallKeeps, keeps_rules, CloudKeeps-call, CloudKeeps-try_call, CloudKeeps-query,
  CloudKeeps-execute,
}
use kube_shim.Context.{JobContext}
use kube_shim.Job.Records.{
  record_event, force_failed, move_to, job_volume_id, worker_vm_id, last_error,
  record_failed_attempt,
}

-- `P` withstands whatever the shim calls that is neither the cloud provider nor a worker.
pub record Local {C V F : Type 0} (ctx : JobContext C V F) (P : C → Type 0) : Type 0 where
  pub now : CallKeeps P ctx.system.now
  pub new_uuid : CallKeeps P ctx.system.new_uuid
  pub fault : CallKeeps P ctx.system.fault
  pub secret : (namespace name : String) → CallKeeps P (ctx.tables.secret namespace name)
  pub cheapest_fitting_server_plan :
      (zone : String) (cores memory : ℕ)
      → CallKeeps P (ctx.tables.cheapest_fitting_server_plan zone cores memory)
  pub has_cached_plans : CallKeeps P ctx.tables.has_cached_plans

pub ruleset cloud_rules =
    (keeps_rules, CloudKeeps-call, CloudKeeps-try_call, CloudKeeps-query, CloudKeeps-execute)

module _ {C V F : Type 0} {ctx : JobContext C V F} {P : C → Type 0} (local : Local ctx P) where
  abbrev Kept : {A : Type 0} → M C F A → Type 0
  Kept m = Keeps (OnCloud P) m

  pub Local-record_event :
      (job_id : Option String) (reason message : String) (t : EventType)
      → Kept (record_event ctx.system job_id reason message t)
  unfolding record_event
  Local-record_event job_id reason message t =
      search (cloud_rules, local.now, local.new_uuid, local.fault)

  pub Local-force_failed :
      (id reason : String) (now : ℤ) → Kept (force_failed ctx.system id reason now)
  unfolding force_failed
  Local-force_failed id reason now = search (cloud_rules, local.fault, Local-record_event)

  pub Local-move_to :
      (id : String) (target : Status) (now : ℤ) → Kept (move_to ctx.system id target now)
  unfolding move_to
  Local-move_to id target now = search (cloud_rules, local.fault)

  pub Local-job_volume_id : (id : String) → Kept (job_volume_id ctx.system id)
  unfolding job_volume_id
  Local-job_volume_id id = search (cloud_rules, local.fault)

  pub Local-worker_vm_id : (id : String) → Kept (worker_vm_id ctx.system id)
  unfolding worker_vm_id
  Local-worker_vm_id id = search (cloud_rules, local.fault)

  pub Local-last_error : (id : String) → Kept (last_error ctx.system id)
  unfolding last_error
  Local-last_error id = search (cloud_rules, local.fault)

  pub Local-record_failed_attempt :
      (id error : String) → Kept (record_failed_attempt ctx.system id error)
  unfolding record_failed_attempt
  Local-record_failed_attempt id error = search (cloud_rules, local.now, local.fault) depth 8

pub ruleset local_rules = (
  cloud_rules, Local-record_event, Local-force_failed, Local-move_to, Local-job_volume_id,
  Local-worker_vm_id, Local-last_error, Local-record_failed_attempt,
)
