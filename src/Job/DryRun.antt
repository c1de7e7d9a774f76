-- ===== src/Job/DryRun.antt =====
-- A dry run of the whole pass (`[upcloud] dry_run`) of src/reconcile/job.rs.
use kube_shim.Prelude.{ℕ, Bool, true, Option, String, List, [], ◌∷◌, ◌≡◌}
use kube_shim.Prelude.Int.{ℤ}
use kube_shim.Db.{JobRow}
use kube_shim.Status.{Status, container_running}
use kube_shim.Program.{World, Call}
use kube_shim.Program.Keeps.{Keeps, OnCloud, CallKeeps}
use kube_shim.Context.{JobContext}
use kube_shim.Job.Records.Local.{Local, local_rules}
use kube_shim.Job.Volumes.{handle_volume_pending, handle_volume_attaching, handle_volume_detaching}
use kube_shim.Job.Servers.DryRun.{
  not_wet, Local-resolve_container_config, Dry-handle_vm_pending, Dry-handle_vm_creating,
  Dry-handle_vm_terminating,
}
use kube_shim.Job.Firewall.{handle_firewall_applying, handle_firewall_verified}
use kube_shim.Job.Containers.{handle_container_configuring, handle_container_running}
use kube_shim.Job.Advance.{
  handle, transition, give_up_on, run_handler, advance_job, count_if, advance_rows,
  advance_all_until,
}

module _ {C V F : Type 0} (ctx : JobContext C V F) {P : C → Type 0} (local : Local ctx P)
    (dry : ctx.dry_run ≡ true) where
  Dry-handle_volume_pending :
      (id namespace name spec_str : String)
      → Keeps (OnCloud P) (handle_volume_pending ctx id namespace name spec_str)
  unfolding handle_volume_pending
  Dry-handle_volume_pending id namespace name spec_str = search (not_wet, local_rules)

  Dry-handle_volume_attaching : (id : String) → Keeps (OnCloud P) (handle_volume_attaching ctx id)
  unfolding handle_volume_attaching
  Dry-handle_volume_attaching id = search (not_wet, local_rules)

  Dry-handle_volume_detaching : (id : String) → Keeps (OnCloud P) (handle_volume_detaching ctx id)
  unfolding handle_volume_detaching
  Dry-handle_volume_detaching id = search (not_wet, local_rules)

  Dry-handle_firewall_applying : (id : String) → Keeps (OnCloud P) (handle_firewall_applying ctx id)
  unfolding handle_firewall_applying
  Dry-handle_firewall_applying id = search (not_wet, local_rules)

  Dry-handle_firewall_verified : (id : String) → Keeps (OnCloud P) (handle_firewall_verified ctx id)
  unfolding handle_firewall_verified
  Dry-handle_firewall_verified id = search (not_wet, local_rules)

  Dry-handle_container_configuring :
      (id namespace name spec_str : String)
      → Keeps (OnCloud P) (handle_container_configuring ctx id namespace name spec_str)
  unfolding handle_container_configuring
  Dry-handle_container_configuring id namespace name spec_str =
      search (not_wet, local_rules, Local-resolve_container_config)

  Dry-handle_container_running :
      (id spec_str : String) (created_at : ℤ) (last : Option ℤ)
      → Keeps (OnCloud P) (handle_container_running ctx id spec_str created_at last)
  unfolding handle_container_running
  Dry-handle_container_running id spec_str created_at last = search (not_wet, local_rules)

ruleset dry_handlers = (
  local_rules, Dry-handle_volume_pending, Dry-handle_volume_attaching, Dry-handle_volume_detaching,
  Dry-handle_firewall_applying, Dry-handle_firewall_verified, Dry-handle_container_configuring,
  Dry-handle_vm_pending, Dry-handle_vm_creating, Dry-handle_vm_terminating,
)

module _ {C V F : Type 0} (ctx : JobContext C V F) {P : C → Type 0} (local : Local ctx P)
    (dry : ctx.dry_run ≡ true) where
  Dry-handle : (s : Status) (r : JobRow F) (next : Status) → Keeps (OnCloud P) (handle ctx s r next)
  unfolding handle
  Dry-handle container_running r next = Dry-handle_container_running ctx local dry r.id _ _ _
  Dry-handle _ r next = search dry_handlers

  Dry-advance_job : (now : ℤ) (r : JobRow F) → Keeps (OnCloud P) (advance_job ctx now r)
  unfolding advance_job run_handler transition give_up_on
  Dry-advance_job now r = search (local_rules, Dry-handle) depth 9

  Dry-advance_rows :
      (is_requested : Call C Bool) (now : ℤ) (n : ℕ) (rs : List (JobRow F))
      → CallKeeps P is_requested
      → Keeps (OnCloud P) (advance_rows ctx is_requested now n rs)
  unfolding advance_rows
  Dry-advance_rows is_requested now n [] k = search local_rules
  Dry-advance_rows is_requested now n (r ∷ rs) k =
      let more = λ (done : Bool). Dry-advance_rows is_requested now (count_if done n) rs k in
      search (local_rules, Dry-advance_job, more)

  Dry-advance_all_until :
      (is_requested : Call C Bool)
      → CallKeeps P is_requested
      → Keeps (OnCloud P) (advance_all_until ctx is_requested)
  unfolding advance_all_until
  Dry-advance_all_until is_requested k =
      search (local_rules, local.now, local.fault, Dry-advance_rows)

  -- In a dry run a pass calls neither the cloud provider nor a worker: whatever holds of the
  -- outside and is kept by the clock, the generator of ids, the database, the tables of plans and
  -- secrets and the shutdown flag, holds after the pass, however it ends.
  pub advance_all_until-dry_run :
      (is_requested : Call C Bool) (w : World C F)
      → CallKeeps P is_requested
      → P w.cloud
      → P (advance_all_until ctx is_requested w).1.cloud
  advance_all_until-dry_run is_requested w k h =
      ((Dry-advance_all_until is_requested k).at w (record { holds = h })).holds
