-- ===== src/Job/Servers/DryRun.antt =====
-- The states of the worker VM in a dry run (src/reconcile/job.rs).
use kube_shim.Prelude.{ℕ, true, false, String, ◌≡◌}
use kube_shim.Program.{Result, ok, err, M}
use kube_shim.Program.Keeps.{Keeps, OnCloud, CallKeeps}
use kube_shim.Context.{JobContext}
use kube_shim.Tariff.{ServerPlan}
use kube_shim.Env.Secrets.Calls.{resolve-CallKeeps}
use kube_shim.CloudInit.{first_container}
use kube_shim.Job.Records.Local.{Local, local_rules}
use kube_shim.Job.Volumes.{attempt_failed}
use kube_shim.Job.Servers.{
  plan_for_resource_requests, config_of, build_config, config_failed, resolve_container_config,
  no_plan, launch, handle_vm_pending, handle_vm_creating, handle_vm_terminating,
}

module _ {C V F : Type 0} {ctx : JobContext C V F} {P : C → Type 0} (local : Local ctx P) where
  pub Local-attempt_failed : (id error : String) → Keeps (OnCloud P) (attempt_failed ctx id error)
  unfolding attempt_failed
  Local-attempt_failed id error = search local_rules

  Local-config_of :
      (namespace name : String) (r : Result String V) → CallKeeps P (config_of ctx namespace name r)
  unfolding config_of
  Local-config_of namespace name (err e) = record { at = λ c h. h }
  Local-config_of namespace name (ok container) = record {
    at = λ c h.
        (resolve-CallKeeps ctx.json ctx.output ctx.tables local.secret
            (record { name = name; namespace = namespace }) container).at
          c h;
  }

  Local-build_config :
      (namespace name : String) (spec : V) → CallKeeps P (build_config ctx namespace name spec)
  unfolding build_config
  Local-build_config namespace name spec =
      Local-config_of namespace name (first_container ctx.json spec)

  Local-config_failed : (id e : String) → Keeps (OnCloud P) (config_failed ctx id e)
  unfolding config_failed
  Local-config_failed id e = search (local_rules, Local-attempt_failed) depth 7

  pub Local-resolve_container_config :
      (id namespace name : String) (spec : V)
      → Keeps (OnCloud P) (resolve_container_config ctx id namespace name spec)
  unfolding resolve_container_config
  Local-resolve_container_config id namespace name spec =
      search (local_rules, Local-build_config, Local-config_failed)

  pub Local-no_plan : (id : String) (c m : ℕ) → Keeps (OnCloud P) (no_plan ctx id c m)
  unfolding no_plan
  Local-no_plan id c m = search (local_rules, local.has_cached_plans, Local-attempt_failed)

  module _ (dry : ctx.dry_run ≡ true) where
    -- The branches of a real run are not taken.
    pub not_wet : {A : Type 0} (m : M C F A) → ctx.dry_run ≡ false → Keeps (OnCloud P) m
    not_wet m wet = cc

    Dry-launch :
        (id namespace name : String) (spec : V) (plan : ServerPlan)
        → Keeps (OnCloud P) (launch ctx id namespace name spec plan)
    unfolding launch
    Dry-launch id namespace name spec plan = search (not_wet, local_rules)

    pub Dry-handle_vm_pending :
        (id namespace name spec_str : String)
        → Keeps (OnCloud P) (handle_vm_pending ctx id namespace name spec_str)
    unfolding handle_vm_pending plan_for_resource_requests
    Dry-handle_vm_pending id namespace name spec_str =
        search
          (
            local_rules, local.cheapest_fitting_server_plan, Local-no_plan,
            Local-resolve_container_config, Dry-launch,
          )
          depth 7

    pub Dry-handle_vm_creating : (id : String) → Keeps (OnCloud P) (handle_vm_creating ctx id)
    unfolding handle_vm_creating
    Dry-handle_vm_creating id = search (not_wet, local_rules)

    pub Dry-handle_vm_terminating : (id : String) → Keeps (OnCloud P) (handle_vm_terminating ctx id)
    unfolding handle_vm_terminating
    Dry-handle_vm_terminating id = search (not_wet, local_rules)
