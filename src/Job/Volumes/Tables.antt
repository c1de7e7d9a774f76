-- ===== src/Job/Volumes/Tables.antt =====
-- The handlers of a job's volume, one by one: what they leave alone in the tables.
use kube_shim.Prelude.{ℕ, Option, String}
use kube_shim.Db.{Db}
use kube_shim.Db.Quiet.{Quiet}
use kube_shim.Program.Keeps.{Keeps, OnDb}
use kube_shim.Quantity.{StorageTier}
use kube_shim.Context.{JobContext}
use kube_shim.Job.Records.Tables.{record_rules}
use kube_shim.Job.Volumes.{
  attempt_failed, create_volume, reuse_or_create_volume, handle_volume_pending, attach_volume,
  handle_volume_attaching, delete_volume, detach_volume, handle_volume_detaching,
}

module _ {C V F : Type 0} (ctx : JobContext C V F) {id : String} {Q : Db F → Type 0}
    (quiet : Quiet id Q) where
  pub Keeps-attempt_failed : (error : String) → Keeps (OnDb Q) (attempt_failed ctx id error)
  unfolding attempt_failed
  Keeps-attempt_failed error = search record_rules

  Keeps-create_volume :
      (size_gb : ℕ) (tier : StorageTier) (title : String)
      → Keeps (OnDb Q) (create_volume ctx id size_gb tier title)
  unfolding create_volume
  Keeps-create_volume size_gb tier title = search (record_rules, Keeps-attempt_failed)

  Keeps-reuse_or_create_volume :
      (size_gb : ℕ) (tier : StorageTier) (title : String)
      → Keeps (OnDb Q) (reuse_or_create_volume ctx id size_gb tier title)
  unfolding reuse_or_create_volume
  Keeps-reuse_or_create_volume size_gb tier title = search (record_rules, Keeps-create_volume)

  pub Keeps-handle_volume_pending :
      (namespace name spec_str : String)
      → Keeps (OnDb Q) (handle_volume_pending ctx id namespace name spec_str)
  unfolding handle_volume_pending
  Keeps-handle_volume_pending namespace name spec_str =
      search (record_rules, Keeps-reuse_or_create_volume)

  Keeps-attach_volume :
      (vm_id volume_id : String) → Keeps (OnDb Q) (attach_volume ctx id vm_id volume_id)
  unfolding attach_volume
  Keeps-attach_volume vm_id volume_id = search (record_rules, Keeps-attempt_failed)

  pub Keeps-handle_volume_attaching : Keeps (OnDb Q) (handle_volume_attaching ctx id)
  unfolding handle_volume_attaching
  Keeps-handle_volume_attaching = search (record_rules, Keeps-attach_volume) depth 7

  Keeps-delete_volume : (volume_id : String) → Keeps (OnDb Q) (delete_volume ctx id volume_id)
  unfolding delete_volume
  Keeps-delete_volume volume_id = search (record_rules, Keeps-attempt_failed)

  Keeps-detach_volume :
      (vm : Option String) (volume_id : String) → Keeps (OnDb Q) (detach_volume ctx vm volume_id)
  unfolding detach_volume
  Keeps-detach_volume vm volume_id = search record_rules

  pub Keeps-handle_volume_detaching : Keeps (OnDb Q) (handle_volume_detaching ctx id)
  unfolding handle_volume_detaching
  Keeps-handle_volume_detaching =
      search (record_rules, Keeps-detach_volume, Keeps-delete_volume) depth 7
