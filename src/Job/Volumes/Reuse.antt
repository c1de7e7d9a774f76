-- ===== src/Job/Volumes/Reuse.antt =====
-- `handle_volume_pending` of src/reconcile/job.rs: a volume that is there already.
use kube_shim.Prelude.{ℕ, ◌≡◌, some, String}
use kube_shim.Program.{World}
use kube_shim.Program.Keeps.{Keeps, OnCloud, CallKeeps, Keeps-pure}
use kube_shim.Program.At.{
  KeptAt, KeptAt-Keeps, KeptAt-if, KeptAt-let_some, KeptAt-call, Keeps-found,
}
use kube_shim.Provider.{Volume}
use kube_shim.Naming.{volume_title}
use kube_shim.Quantity.{StorageTier}
use kube_shim.Context.{JobContext}
use kube_shim.Job.Records.{insert_job_volume}
use kube_shim.Job.Records.Local.{Local, local_rules}
use kube_shim.Job.Volumes.{volume_titled, reuse_or_create_volume, handle_volume_pending}

module _ {C V F : Type 0} (ctx : JobContext C V F) {P : C → Type 0} (local : Local ctx P)
    (lists : CallKeeps P (ctx.provider.list_volumes ctx.zone)) where
  Local-insert_job_volume :
      (id : String) (size : ℕ) (tier : StorageTier) (volume_id title : String)
      → Keeps (OnCloud P) (insert_job_volume {F = F} ctx.system id size tier volume_id title)
  unfolding insert_job_volume
  Local-insert_job_volume id size tier volume_id title =
      search (local_rules, local.now, local.new_uuid, local.fault)

  Reuse-volume :
      (id : String) (size : ℕ) (tier : StorageTier) (title : String) (w : World C F)
      (found : Volume)
      → volume_titled title (ctx.provider.list_volumes ctx.zone w.cloud).0 ≡ some found
      → KeptAt P w (reuse_or_create_volume ctx id size tier title)
  unfolding reuse_or_create_volume
  Reuse-volume id size tier title w found e =
      KeptAt-call _ _ lists (Keeps-found _ _ e (search (local_rules, Local-insert_job_volume)))

  -- Where the provider lists a volume with the title of this job's volume, `VolumePending` calls
  -- the provider only for this list: whatever holds outside and is kept by the list, the clock,
  -- the generator of ids, the database and the other tables holds afterwards, so that no second
  -- volume is created.
  pub handle_volume_pending-reuses :
      (id namespace name spec_str : String) (w : World C F) (found : Volume)
      → volume_titled
          (volume_title ctx.resource_prefix namespace name)
          (ctx.provider.list_volumes ctx.zone w.cloud).0
        ≡ some found
      → P w.cloud
      → P (handle_volume_pending ctx id namespace name spec_str w).1.cloud
  unfolding handle_volume_pending
  handle_volume_pending-reuses id namespace name spec_str w found e =
      (KeptAt-let_some _ (KeptAt-Keeps (Keeps-pure _)) λ volume.
        KeptAt-let_some _ (KeptAt-Keeps (Keeps-pure _)) λ size.
          KeptAt-if ctx.dry_run (KeptAt-Keeps (Keeps-pure _)) (Reuse-volume id _ _ _ w found e)).at
