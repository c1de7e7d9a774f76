-- ===== src/Job/Volumes.antt =====
-- src/reconcile/job.rs: the states in which a job's scratch volume is created, attached and deleted.
pub mod Tables
pub mod Reuse
pub mod Deletion
use kube_shim.Prelude.{
  ℕ, Bool, true, false, Option, none, some, String, List, str_eq, find, if◌then◌else◌,
}
use kube_shim.Program.{Result, ok, err, M, pure, call, ◌>>=◌, ◌>>◌, let_some, on_result}
use kube_shim.Provider.{ProviderError, error_text, CreateVolumeRequest, Volume}
use kube_shim.Naming.{volume_title}
use kube_shim.Quantity.{StorageTier, standard, parse_tier, upcloud_tier, parse_storage_quantity_gb}
use kube_shim.Context.{JobContext}
use kube_shim.Job.Spec.{and_then, to_option, unwrap_or_else, parse_spec, find_ephemeral_volume}
use kube_shim.Job.Records.{
  insert_job_volume, job_volume_id, delete_job_volume, worker_vm_id, record_failed_attempt,
}

-- the volume of the list that has this title; an answer that is an error shows none
abbrev pub volume_titled : String → Result ProviderError (List Volume) → Option Volume
volume_titled title (err e) = none
volume_titled title (ok existing) = find (λ v. str_eq v.title title) existing

module _ {C V F : Type 0} (ctx : JobContext C V F) where
  open ctx use {provider, system, json, floats, dry_run, resource_prefix, zone}

  -- `record_failed_attempt(…).await?; Ok(false)`
  unfoldable pub attempt_failed : String → String → M C F Bool
  attempt_failed job_id error = do record_failed_attempt system job_id error; pure false

  create_volume : String → ℕ → StorageTier → String → M C F Bool
  unfolding attempt_failed
  create_volume job_id size_gb tier title = do
    created ← call (
        provider.create_volume
          (record { size_gb = size_gb; tier = upcloud_tier tier; title = title; zone = zone }))
    on_result created
        (λ volume. do
          insert_job_volume system job_id size_gb tier volume.id volume.title
          pure true)
        (λ e. attempt_failed job_id (error_text e))

  -- A volume of this job's title is used instead of a second one.
  reuse_or_create_volume : String → ℕ → StorageTier → String → M C F Bool
  unfolding create_volume
  reuse_or_create_volume job_id size_gb tier title = do
    listed ← call (provider.list_volumes zone)
    let_some (volume_titled title listed) (create_volume job_id size_gb tier title)
        (λ found. do insert_job_volume system job_id size_gb tier found.id found.title; pure true)

  unfoldable pub handle_volume_pending : String → String → String → String → M C F Bool
  unfolding reuse_or_create_volume
  handle_volume_pending job_id namespace name spec_str =
      let_some (find_ephemeral_volume json (parse_spec json spec_str)) (pure true) λ volume.
        let size =
          and_then (and_then (json.pointer volume "/resources/requests/storage") json.as_str)
            (λ q. to_option (parse_storage_quantity_gb floats q)) in
        let tier =
          unwrap_or_else
            (to_option (parse_tier (and_then (json.get volume "storageClassName") json.as_str)))
            standard in
        let_some size (pure true) λ size_gb.
          if dry_run
          then pure true
          else reuse_or_create_volume job_id size_gb tier
              (volume_title resource_prefix namespace name)

  attach_volume : String → String → String → M C F Bool
  unfolding attempt_failed
  attach_volume job_id vm_id volume_id = do
    attached ← call (provider.attach_volume vm_id volume_id)
    on_result attached (λ _. pure true) (λ e. attempt_failed job_id (error_text e))

  unfoldable pub handle_volume_attaching : String → M C F Bool
  unfolding attach_volume
  handle_volume_attaching job_id = do
    volume ← job_volume_id system job_id
    let_some volume (pure true) λ volume_id. if dry_run then pure true else do
      vm ← worker_vm_id system job_id
      let_some vm (pure true) (λ vm_id. attach_volume job_id vm_id volume_id)

  delete_volume : String → String → M C F Bool
  unfolding attempt_failed
  delete_volume job_id provider_volume_id = do
    deleted ← call (provider.delete_volume provider_volume_id)
    on_result deleted (λ _. do delete_job_volume system job_id; pure true)
        (λ e. attempt_failed job_id (error_text e))

  -- A volume that cannot be detached is deleted all the same.
  detach_volume : Option String → String → M C F Unit
  detach_volume vm provider_volume_id =
      let_some vm (pure tt)
        (λ vm_id. do call (provider.detach_volume vm_id provider_volume_id); pure tt)

  unfoldable pub handle_volume_detaching : String → M C F Bool
  unfolding delete_volume detach_volume
  handle_volume_detaching job_id = do
    volume ← job_volume_id system job_id
    let_some volume (pure true) λ provider_volume_id. if dry_run then pure true else do
      vm ← worker_vm_id system job_id
      detach_volume vm provider_volume_id
      delete_volume job_id provider_volume_id
