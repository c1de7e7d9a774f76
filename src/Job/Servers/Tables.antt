-- ===== src/Job/Servers/Tables.antt =====
-- The handlers of a job's worker VM, one by one: what they leave alone in the tables.
use kube_shim.Prelude.{ℕ, String}
use kube_shim.Db.{Db}
use kube_shim.Db.Quiet.{Quiet}
use kube_shim.Program.Keeps.{Keeps, OnDb}
use kube_shim.Provider.{ProviderError, Server, not_found}
use kube_shim.Context.{JobContext}
use kube_shim.Tariff.{ServerPlan}
use kube_shim.Job.Records.Tables.{record_rules}
use kube_shim.Job.Volumes.Tables.{Keeps-attempt_failed}
use kube_shim.Job.Servers.{
  plan_for_resource_requests, config_failed, resolve_container_config, create_server,
  reuse_or_create_server, no_plan, launch, handle_vm_pending, record_ip, await_started,
  handle_vm_creating, delete_server, stop_server, stop_or_delete_server, get_server_failed,
  handle_vm_terminating,
}

ruleset rules = (record_rules, Keeps-attempt_failed)

module _ {C V F : Type 0} (ctx : JobContext C V F) {id : String} {Q : Db F → Type 0}
    (quiet : Quiet id Q) where
  Keeps-config_failed : (e : String) → Keeps (OnDb Q) (config_failed ctx id e)
  unfolding config_failed
  Keeps-config_failed e = search rules depth 7

  pub Keeps-resolve_container_config :
      (namespace name : String) (spec : V)
      → Keeps (OnDb Q) (resolve_container_config ctx id namespace name spec)
  unfolding resolve_container_config
  Keeps-resolve_container_config namespace name spec = search (rules, Keeps-config_failed)

  Keeps-create_server :
      (title : String) (plan : ServerPlan) (user_data : String)
      → Keeps (OnDb Q) (create_server ctx id title plan user_data)
  unfolding create_server
  Keeps-create_server title plan user_data = search rules

  Keeps-reuse_or_create_server :
      (title : String) (plan : ServerPlan) (user_data : String)
      → Keeps (OnDb Q) (reuse_or_create_server ctx id title plan user_data)
  unfolding reuse_or_create_server
  Keeps-reuse_or_create_server title plan user_data = search (rules, Keeps-create_server)

  Keeps-no_plan : (cpu_cores memory_gb : ℕ) → Keeps (OnDb Q) (no_plan ctx id cpu_cores memory_gb)
  unfolding no_plan
  Keeps-no_plan cpu_cores memory_gb = search rules

  Keeps-launch :
      (namespace name : String) (spec : V) (plan : ServerPlan)
      → Keeps (OnDb Q) (launch ctx id namespace name spec plan)
  unfolding launch
  Keeps-launch namespace name spec plan = search (rules, Keeps-reuse_or_create_server) depth 7

  pub Keeps-handle_vm_pending :
      (namespace name spec_str : String)
      → Keeps (OnDb Q) (handle_vm_pending ctx id namespace name spec_str)
  unfolding handle_vm_pending plan_for_resource_requests
  Keeps-handle_vm_pending namespace name spec_str =
      search (rules, Keeps-no_plan, Keeps-resolve_container_config, Keeps-launch) depth 7

  Keeps-await_started : (server : Server) → Keeps (OnDb Q) (await_started ctx id server)
  unfolding await_started record_ip
  Keeps-await_started server = search rules depth 7

  pub Keeps-handle_vm_creating : Keeps (OnDb Q) (handle_vm_creating ctx id)
  unfolding handle_vm_creating
  Keeps-handle_vm_creating = search (rules, Keeps-await_started) depth 7

  Keeps-delete_server : (vm_id : String) → Keeps (OnDb Q) (delete_server ctx id vm_id)
  unfolding delete_server
  Keeps-delete_server vm_id = search rules

  Keeps-stop_server : (vm_id : String) → Keeps (OnDb Q) (stop_server ctx id vm_id)
  unfolding stop_server
  Keeps-stop_server vm_id = search rules

  Keeps-stop_or_delete_server :
      (vm_id : String) (server : Server)
      → Keeps (OnDb Q) (stop_or_delete_server ctx id vm_id server)
  unfolding stop_or_delete_server
  Keeps-stop_or_delete_server vm_id server = search (rules, Keeps-delete_server, Keeps-stop_server)

  Keeps-get_server_failed :
      (vm_id : String) (e : ProviderError) → Keeps (OnDb Q) (get_server_failed ctx id vm_id e)
  unfolding get_server_failed
  Keeps-get_server_failed vm_id (not_found m) = Keeps-delete_server vm_id
  Keeps-get_server_failed vm_id e = search rules

  pub Keeps-handle_vm_terminating : Keeps (OnDb Q) (handle_vm_terminating ctx id)
  unfolding handle_vm_terminating
  Keeps-handle_vm_terminating =
      search (rules, Keeps-stop_or_delete_server, Keeps-get_server_failed) depth 7
