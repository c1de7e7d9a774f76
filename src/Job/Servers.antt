-- ===== src/Job/Servers.antt =====
-- src/reconcile/job.rs: the states in which a job's worker VM is created, awaited and deleted, and
-- `resolve_container_config`, which both the creation and the delivery of the configuration call.
pub mod Tables
pub mod DryRun
pub mod Deletion
pub mod Reuse
pub mod Config
use kube_shim.Prelude.{
  is_text, is_nil, ℕ, Bool, true, false, Option, none, some, String, List, [], ◌∷◌, ◌<>◌, show_ℕ,
  str_eq, find, not, if◌then◌else◌, ◌&&◌, leb,
}
use kube_shim.Db.{warning}
use kube_shim.Program.{
  Result, ok, err, M, Call, pure, call, try_call, ◌>>=◌, ◌>>◌, let_some, on_result,
}
use kube_shim.Provider.{
  ProviderError, not_found, error_text, Server, CreateServerRequest, is_started, is_stopped,
}
use kube_shim.Naming.{worker_title}
use kube_shim.Quantity.{whole_units_for_requests}
use kube_shim.Context.{JobContext, ContainerConfig}
use kube_shim.Tariff.{ServerPlan}
use kube_shim.Env.{PodFields}
use kube_shim.Env.Secrets.{resolve}
use kube_shim.CloudInit.{first_container, container_config}
use kube_shim.Job.Spec.{parse_spec, extract_resource_requests}
use kube_shim.Job.Records.{record_event, last_error, worker_vm_id, set_worker_vm, set_worker_ssh_ip}
use kube_shim.Job.Volumes.{attempt_failed}

-- src/workload.rs
abbrev pub worker_boot_disk_gb : ℕ
worker_boot_disk_gb = 10

unfoldable pub plan_bundles_disk_and_ip : ℕ → Bool
plan_bundles_disk_and_ip plan_storage_gb = leb worker_boot_disk_gb plan_storage_gb

bundled_tier : Option String → Bool → String
bundled_tier none bundles = "standard"
bundled_tier (some tier) bundles = if bundles then tier else "standard"

unfoldable pub boot_disk_tier : ServerPlan → String
unfolding plan_bundles_disk_and_ip bundled_tier
boot_disk_tier plan = bundled_tier plan.storage_tier (plan_bundles_disk_and_ip plan.storage_gb)

abbrev pub server_titled : String → Result ProviderError (List Server) → Option Server
server_titled title (err e) = none
server_titled title (ok existing) = find (λ s. str_eq s.title title) existing

module _ {C V F : Type 0} (ctx : JobContext C V F) where
  open ctx use {
    provider, system, json, cloud_init, tables, output, dry_run, resource_prefix, zone,
    worker_template_uuid, worker_ssh_public_keys,
  }

  -- src/workload.rs: `plan_for_resource_requests`
  unfoldable pub plan_for_resource_requests : Option ℕ → Option ℕ → M C F (Option ServerPlan)
  plan_for_resource_requests cpu_millicores memory_mb =
      let (cpu_cores, memory_gb) = whole_units_for_requests cpu_millicores memory_mb in
      try_call (tables.cheapest_fitting_server_plan zone cpu_cores memory_gb)

  files_of : V → Result String (List (String × String)) → Result String ContainerConfig
  files_of container (err e) = err e
  files_of container (ok env) = container_config json output container env

  -- the environment of the container and the files made from it
  config_of : String → String → Result String V → Call C (Result String ContainerConfig)
  config_of namespace name (err e) c = (err e, c)
  config_of namespace name (ok container) c =
      let pod : PodFields = record { name = name; namespace = namespace } in
      let (env, c') = resolve json output tables pod container c in (files_of container env, c')

  build_config : String → String → V → Call C (Result String ContainerConfig)
  unfolding config_of files_of
  build_config namespace name spec = config_of namespace name (first_container json spec)

  -- One event for each new error; the attempt is recorded each time.
  config_failed : String → String → M C F (Option ContainerConfig)
  config_failed job_id e = do
    let msg = "CreateContainerConfigError: " <> e
    previous ← last_error system job_id
    if is_text previous msg
        then pure tt
        else record_event system (some job_id) "CreateContainerConfigError" e warning
    attempt_failed ctx job_id msg
    pure none

  unfoldable pub resolve_container_config :
      String → String → String → V → M C F (Option ContainerConfig)
  unfolding build_config config_failed
  resolve_container_config job_id namespace name spec = do
    result ← call (build_config namespace name spec)
    on_result result (λ config. pure (some config)) (λ e. config_failed job_id e)

  create_server : String → String → ServerPlan → String → M C F Bool
  create_server job_id title plan user_data = do
    created ← call (
        provider.create_server (record {
          title = title;
          hostname = title;
          zone = zone;
          plan = plan.name;
          template_uuid = worker_template_uuid;
          boot_disk_size_gb = worker_boot_disk_gb;
          boot_disk_tier = boot_disk_tier plan;
          ssh_public_keys = worker_ssh_public_keys;
          user_data = user_data;
        }))
    on_result created
        (λ server. do set_worker_vm system job_id server.id title plan.name; pure true)
        (λ e. attempt_failed ctx job_id (error_text e))

  -- A worker VM of this job's title is used instead of a second one.
  pub reuse_or_create_server : String → String → ServerPlan → String → M C F Bool
  unfolding create_server
  reuse_or_create_server job_id title plan user_data = do
    listed ← call (provider.list_servers zone)
    let_some (server_titled title listed) (create_server job_id title plan user_data)
        (λ found. do set_worker_vm system job_id found.id title plan.name; pure true)

  pub no_plan : String → ℕ → ℕ → M C F Bool
  no_plan job_id cpu_cores memory_gb = do
    cached ← try_call tables.has_cached_plans
    attempt_failed ctx job_id (
        if cached
        then "no available server plan is big enough for "
          <> show_ℕ cpu_cores
          <> "/"
          <> show_ℕ memory_gb
          <> " CPU/GB requested"
        else "no server plans cached yet -- waiting for the plan catalog sync")

  launch : String → String → String → V → ServerPlan → M C F Bool
  unfolding reuse_or_create_server
  launch job_id namespace name spec plan =
      if dry_run
      then pure true
      else if is_nil worker_ssh_public_keys
      then attempt_failed ctx job_id
          "upcloud.worker_ssh_public_keys is empty -- refusing to create a worker VM with no way to log in (UpCloud's cloud-init templates don't support the create_password fallback)"
      else on_result (cloud_init.generate spec)
          (λ user_data.
            reuse_or_create_server job_id (worker_title resource_prefix namespace name) plan
              user_data)
          (λ e. attempt_failed ctx job_id ("cloud-init generation failed: " <> e))

  unfoldable pub handle_vm_pending : String → String → String → String → M C F Bool
  unfolding no_plan launch
  handle_vm_pending job_id namespace name spec_str =
      let spec = parse_spec json spec_str in
      let (cpu_millicores, memory_mb) = extract_resource_requests ctx spec in
      let (cpu_cores, memory_gb) = whole_units_for_requests cpu_millicores memory_mb in
      do
        chosen ← plan_for_resource_requests cpu_millicores memory_mb
        let_some chosen (no_plan job_id cpu_cores memory_gb) λ plan. do
          config ← resolve_container_config job_id namespace name spec
          let_some config (pure false) (λ _. launch job_id namespace name spec plan)

  record_ip : String → Option String → M C F Unit
  record_ip job_id ip = let_some ip (pure tt) (λ a. set_worker_ssh_ip system job_id a)

  await_started : String → Server → M C F Bool
  unfolding record_ip
  await_started job_id server =
      if is_started server then (do record_ip job_id server.public_ipv4; pure true) else pure false

  unfoldable pub handle_vm_creating : String → M C F Bool
  unfolding await_started
  handle_vm_creating job_id = do
    vm ← worker_vm_id system job_id
    let_some vm (pure true) λ vm_id. if dry_run then pure true else do
      got ← call (provider.get_server vm_id)
      on_result got (λ server. await_started job_id server) (λ _. pure false)

  delete_server : String → String → M C F Bool
  delete_server job_id vm_id = do
    deleted ← call (provider.delete_server vm_id)
    on_result deleted (λ _. pure true) (λ e. attempt_failed ctx job_id (error_text e))

  stop_server : String → String → M C F Bool
  stop_server job_id vm_id = do
    stopped ← call (provider.stop_server vm_id)
    on_result stopped (λ _. pure false) (λ e. attempt_failed ctx job_id (error_text e))

  -- A server must have stopped before it can be deleted.
  stop_or_delete_server : String → String → Server → M C F Bool
  unfolding delete_server stop_server
  stop_or_delete_server job_id vm_id server =
      if is_stopped server
      then delete_server job_id vm_id
      else if is_started server
      then stop_server job_id vm_id
      else pure false

  -- A server that is not found is deleted all the same.
  get_server_failed : String → String → ProviderError → M C F Bool
  unfolding delete_server
  get_server_failed job_id vm_id (not_found m) = delete_server job_id vm_id
  get_server_failed job_id vm_id e = attempt_failed ctx job_id (error_text e)

  unfoldable pub handle_vm_terminating : String → M C F Bool
  unfolding stop_or_delete_server get_server_failed
  handle_vm_terminating job_id = do
    vm ← worker_vm_id system job_id
    let_some vm (pure true) λ vm_id. if dry_run then pure true else do
      got ← call (provider.get_server vm_id)
      on_result got (λ server. stop_or_delete_server job_id vm_id server)
          (λ e. get_server_failed job_id vm_id e)
