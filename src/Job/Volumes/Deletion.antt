-- ===== src/Job/Volumes/Deletion.antt =====
-- `handle_volume_detaching` of src/reconcile/job.rs: what its answer `true` means.
use kube_shim.Prelude.{◌≡◌, true, false, some, String}
use kube_shim.Db.{find_volume}
use kube_shim.Program.{World, ok}
use kube_shim.Program.Keeps.{OnCloud, Keeps, CallKeeps}
use kube_shim.Program.Yields.{query_value}
use kube_shim.Program.WhenTrue.{
  WhenTrue, WhenTrue-else, WhenTrue-found, WhenTrue-call, Achieves, when_true_at, when_true_rules,
}
use kube_shim.Context.{JobContext}
use kube_shim.Job.Records.{job_volume_id, delete_job_volume, volume_id_of}
use kube_shim.Job.Records.Local.{cloud_rules}
use kube_shim.Job.Volumes.{delete_volume, handle_volume_detaching}

module _ {C V F : Type 0} (ctx : JobContext C V F) (id volume : String) {Gone : C → Type 0}
    (deletes : Achieves Gone (ctx.provider.delete_volume volume))
    (quiet : CallKeeps Gone ctx.system.fault) where
  Keeps-delete_job_volume : Keeps (OnCloud {F = F} Gone) (delete_job_volume ctx.system id)
  unfolding delete_job_volume
  Keeps-delete_job_volume = search (cloud_rules, quiet)

  Deleted-delete_volume : WhenTrue (OnCloud {F = F} Gone) (delete_volume ctx id volume)
  unfolding delete_volume
  Deleted-delete_volume =
      search (WhenTrue-call, when_true_rules, cloud_rules, Keeps-delete_job_volume)

  -- In a real run, where the job's volume row names a volume of the provider, the answer `true` of
  -- `VolumeDetaching` means that the provider's deletion of this volume succeeded, whatever came of
  -- detaching it.
  pub handle_volume_detaching-deletes :
      (w : World C F)
      → ctx.dry_run ≡ false
      → volume_id_of (find_volume id w.db) ≡ some volume
      → (handle_volume_detaching ctx id w).0 ≡ ok true
      → Gone (handle_volume_detaching ctx id w).1.cloud
  unfolding handle_volume_detaching job_volume_id
  handle_volume_detaching-deletes w wet row h =
      (when_true_at (OnCloud Gone) (job_volume_id ctx.system id) _ w h λ a got h'.
        (WhenTrue-found {R = OnCloud {F = F} Gone} {x = volume} a _ _
            (cc (query_value ctx.system (λ db. volume_id_of (find_volume id db)) w a got, row))
            (WhenTrue-else ctx.dry_run wet _ _
              (search (when_true_rules, Deleted-delete_volume)))).at
          _ h').holds
