-- ===== src/Job/Records/Tables.antt =====
-- What the writers of src/reconcile/job.rs leave alone in the tables.
use kube_shim.Prelude.{ℕ, Bool, Option, String}
use kube_shim.Prelude.Int.{ℤ}
use kube_shim.Db.{EventType, Db, update_job}
use kube_shim.Db.Quiet.{Quiet}
use kube_shim.Program.{System}
use kube_shim.Program.Keeps.{Keeps, OnDb, Keeps-execute, keeps_rules, table_rules}
use kube_shim.Status.{Status}
use kube_shim.Quantity.{StorageTier}
use kube_shim.Job.Records.{
  fail_row, move_row, move_to, record_event, force_failed, insert_job_volume, job_volume_id,
  delete_job_volume, set_worker_vm, worker_vm_id, set_worker_ssh_ip, worker_ssh_ip, last_error,
  worker_plan, record_completion, record_failed_attempt,
}

module _ {C F : Type 0} (sys : System C) {id : String} {Q : Db F → Type 0}
    (quiet : Quiet id Q) where
  pub Keeps-record_event :
      (job_id : Option String) (reason message : String) (t : EventType)
      → Keeps (OnDb Q) (record_event sys job_id reason message t)
  unfolding record_event
  Keeps-record_event job_id reason message t = search (table_rules, Keeps-execute, quiet.on_event)

  -- Giving up is not quiet.
  pub Keeps-force_failed :
      (reason : String) (now : ℤ)
      → ((db : Db F) → Q db → Q (update_job id (fail_row reason now) db))
      → Keeps (OnDb Q) (force_failed sys id reason now)
  unfolding force_failed
  Keeps-force_failed reason now fails =
      search (table_rules, Keeps-execute, Keeps-record_event, fails)

  pub Keeps-move_to :
      (target : Status) (now : ℤ)
      → ((db : Db F) → Q db → Q (update_job id (move_row target now) db))
      → Keeps (OnDb Q) (move_to sys id target now)
  unfolding move_to
  Keeps-move_to target now moves = Keeps-execute sys _ moves

  pub Keeps-insert_job_volume :
      (size_gb : ℕ) (tier : StorageTier) (volume_id title : String)
      → Keeps (OnDb Q) (insert_job_volume sys id size_gb tier volume_id title)
  unfolding insert_job_volume
  Keeps-insert_job_volume size_gb tier volume_id title =
      search (table_rules, Keeps-execute, quiet.on_volume)

  pub Keeps-delete_job_volume : Keeps (OnDb Q) (delete_job_volume sys id)
  unfolding delete_job_volume
  Keeps-delete_job_volume = search (Keeps-execute, quiet.on_delete)

  pub Keeps-set_worker_vm :
      (vm_id name plan : String) → Keeps (OnDb Q) (set_worker_vm sys id vm_id name plan)
  unfolding set_worker_vm
  Keeps-set_worker_vm vm_id name plan = search (Keeps-execute, quiet.on_row)

  pub Keeps-set_worker_ssh_ip : (ip : String) → Keeps (OnDb Q) (set_worker_ssh_ip sys id ip)
  unfolding set_worker_ssh_ip
  Keeps-set_worker_ssh_ip ip = search (Keeps-execute, quiet.on_row)

  pub Keeps-record_completion :
      (code : ℤ) (logs : String) (stamped : Bool) (cost : Option F)
      → Keeps (OnDb Q) (record_completion sys id code logs stamped cost)
  unfolding record_completion
  Keeps-record_completion code logs stamped cost = search (table_rules, Keeps-execute, quiet.on_row)

  pub Keeps-record_failed_attempt :
      (error : String) → Keeps (OnDb Q) (record_failed_attempt sys id error)
  unfolding record_failed_attempt
  Keeps-record_failed_attempt error = search (table_rules, Keeps-execute, quiet.on_row) depth 8

module _ {C F : Type 0} (sys : System C) {Q : Db F → Type 0} (job_id : String) where
  pub Keeps-job_volume_id : Keeps (OnDb Q) (job_volume_id sys job_id)
  unfolding job_volume_id
  Keeps-job_volume_id = search table_rules

  pub Keeps-worker_vm_id : Keeps (OnDb Q) (worker_vm_id sys job_id)
  unfolding worker_vm_id
  Keeps-worker_vm_id = search table_rules

  pub Keeps-worker_ssh_ip : Keeps (OnDb Q) (worker_ssh_ip sys job_id)
  unfolding worker_ssh_ip
  Keeps-worker_ssh_ip = search table_rules

  pub Keeps-last_error : Keeps (OnDb Q) (last_error sys job_id)
  unfolding last_error
  Keeps-last_error = search table_rules

  pub Keeps-worker_plan : Keeps (OnDb Q) (worker_plan sys job_id)
  unfolding worker_plan
  Keeps-worker_plan = search table_rules

-- for an invariant that is quiet about the job
pub ruleset record_rules = (
  table_rules, Keeps-record_event, Keeps-insert_job_volume, Keeps-delete_job_volume,
  Keeps-set_worker_vm, Keeps-set_worker_ssh_ip, Keeps-record_completion,
  Keeps-record_failed_attempt, Keeps-job_volume_id, Keeps-worker_vm_id, Keeps-worker_ssh_ip,
  Keeps-last_error, Keeps-worker_plan,
)
