-- ===== src/Job/Servers/Reuse.antt =====
-- `handle_vm_pending` of src/reconcile/job.rs: a worker VM that is there already.
use kube_shim.Prelude.{◌≡◌, some, String}
use kube_shim.Program.{World}
use kube_shim.Program.Keeps.{Keeps, OnCloud, CallKeeps}
use kube_shim.Program.At.{KeptAt-call, Keeps-found}
use kube_shim.Provider.{Server}
use kube_shim.Naming.{worker_title}
use kube_shim.Context.{JobContext}
use kube_shim.Tariff.{ServerPlan}
use kube_shim.Job.Records.{set_worker_vm}
use kube_shim.Job.Records.Local.{Local, local_rules}
use kube_shim.Job.Servers.DryRun.{
  Local-attempt_failed, Local-no_plan, Local-resolve_container_config,
}
use kube_shim.Job.Servers.{
  server_titled, reuse_or_create_server, launch, plan_for_resource_requests, handle_vm_pending,
}

module _ {C V F : Type 0} (ctx : JobContext C V F) {P : C → Type 0} (local : Local ctx P)
    (lists : CallKeeps P (ctx.provider.list_servers ctx.zone)) where
  Local-set_worker_vm :
      (id vm_id vm_name plan : String)
      → Keeps (OnCloud P) (set_worker_vm {F = F} ctx.system id vm_id vm_name plan)
  unfolding set_worker_vm
  Local-set_worker_vm id vm_id vm_name plan = search (local_rules, local.fault)

  -- the provider lists a server of this title wherever `P` holds
  abbrev pub Listed : String → Type 0
  Listed title =
      (c : C)
      → P c
      → (found : Server) × (server_titled title (ctx.provider.list_servers ctx.zone c).0
          ≡ some found)

  Reuse-server :
      (id title : String) (plan : ServerPlan) (user_data : String)
      → Listed title
      → Keeps (OnCloud P) (reuse_or_create_server {F = F} ctx id title plan user_data)
  unfolding reuse_or_create_server
  Reuse-server id title plan user_data listed = record {
    at = λ w h.
        let (found, e) = listed w.cloud h.holds in
        record {
          holds =
              (KeptAt-call {w = w} _ _ lists
                  (Keeps-found _ _ e (search (local_rules, Local-set_worker_vm)))).at
                h.holds;
        };
  }

  Reuse-launch :
      (id namespace name : String) (spec : V) (plan : ServerPlan)
      → Listed (worker_title ctx.resource_prefix namespace name)
      → Keeps (OnCloud P) (launch {F = F} ctx id namespace name spec plan)
  unfolding launch
  Reuse-launch id namespace name spec plan listed =
      search (local_rules, Local-attempt_failed local, Reuse-server) depth 7

  -- Where `P` holds outside, is kept by the list of servers, the clock, the generator of ids, the
  -- database and the other tables, and means that the provider lists a server with the title of
  -- this job's worker, `P` holds after `VMPending` too: it calls the provider only for this list,
  -- so that no second server is created.
  pub handle_vm_pending-reuses :
      (id namespace name spec_str : String) (w : World C F)
      → Listed (worker_title ctx.resource_prefix namespace name)
      → P w.cloud
      → P (handle_vm_pending ctx id namespace name spec_str w).1.cloud
  unfolding handle_vm_pending plan_for_resource_requests
  handle_vm_pending-reuses id namespace name spec_str w listed h =
      (pending.at w record { holds = h }).holds
    where
      pending : Keeps (OnCloud P) (handle_vm_pending {F = F} ctx id namespace name spec_str)
      pending =
          search
            (
              local_rules,
              local.cheapest_fitting_server_plan,
              Local-no_plan local,
              Local-resolve_container_config local,
              Reuse-launch,
            )
            depth 7
