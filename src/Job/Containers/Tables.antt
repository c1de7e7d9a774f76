-- ===== src/Job/Containers/Tables.antt =====
-- The handlers of the container: what they leave alone in the tables. `ContainerRunning` may give
-- the job up, so its invariant has to withstand that too.
use kube_shim.Prelude.{ℕ, Bool, Option, String, List, [], ◌∷◌}
use kube_shim.Prelude.Int.{ℤ}
use kube_shim.Db.{Db}
use kube_shim.Db.Quiet.{Quiet}
use kube_shim.Program.{M}
use kube_shim.Program.Keeps.{Keeps, OnDb}
use kube_shim.Context.{JobContext, ContainerConfig, ExecOutput}
use kube_shim.Job.Records.{force_failed}
use kube_shim.Job.Records.Tables.{record_rules}
use kube_shim.Job.Volumes.Tables.{Keeps-attempt_failed}
use kube_shim.Job.Servers.Tables.{Keeps-resolve_container_config}
use kube_shim.Job.Containers.{
  upload, upload_all, deliver, handle_container_configuring, exec_once, status_event,
  record_worker_status, has_container_id, never_started, still_running, fetch_logs, report_failure,
  finished, watch, handle_container_running,
}

module _ {C V F : Type 0} (ctx : JobContext C V F) {id : String} {Q : Db F → Type 0}
    (quiet : Quiet id Q) where
  Keeps-upload :
      (ip command : String) (contents : List ℕ) (more : M C F Bool)
      → Keeps (OnDb Q) more
      → Keeps (OnDb Q) (upload ctx id ip command contents more)
  unfolding upload
  Keeps-upload ip command contents more k = search (record_rules, Keeps-attempt_failed)

  Keeps-upload_all :
      (ip : String) (files : List (String × List ℕ)) → Keeps (OnDb Q) (upload_all ctx id ip files)
  unfolding upload_all
  Keeps-upload_all ip [] = search record_rules
  Keeps-upload_all ip ((command, contents) ∷ rest) =
      Keeps-upload ip command contents _ (Keeps-upload_all ip rest)

  Keeps-deliver :
      (config : ContainerConfig) (ip : Option String) → Keeps (OnDb Q) (deliver ctx id config ip)
  unfolding deliver
  Keeps-deliver config ip = search (record_rules, Keeps-attempt_failed, Keeps-upload_all)

  pub Keeps-handle_container_configuring :
      (namespace name spec_str : String)
      → Keeps (OnDb Q) (handle_container_configuring ctx id namespace name spec_str)
  unfolding handle_container_configuring
  Keeps-handle_container_configuring namespace name spec_str =
      search (record_rules, Keeps-resolve_container_config, Keeps-deliver) depth 7

  Keeps-status_event : (out : ExecOutput) → Keeps (OnDb Q) (status_event ctx id out)
  unfolding status_event
  Keeps-status_event out = search record_rules

  Keeps-record_worker_status : (ip : String) → Keeps (OnDb Q) (record_worker_status ctx id ip)
  unfolding record_worker_status exec_once
  Keeps-record_worker_status ip = search (record_rules, Keeps-status_event)

  Keeps-has_container_id : (ip : String) → Keeps (OnDb Q) (has_container_id ctx ip)
  unfolding has_container_id exec_once
  Keeps-has_container_id ip = search record_rules

  Keeps-fetch_logs : (ip container_id : String) → Keeps (OnDb Q) (fetch_logs ctx ip container_id)
  unfolding fetch_logs exec_once
  Keeps-fetch_logs ip container_id = search record_rules

  Keeps-report_failure :
      (ip : String) (code : ℤ) (logs : String) (fetch_error : Option String)
      → Keeps (OnDb Q) (report_failure ctx id ip code logs fetch_error)
  unfolding report_failure
  Keeps-report_failure ip code logs fetch_error = search (record_rules, Keeps-record_worker_status)

  Keeps-finished :
      (ip spec_str : String) (created_at code : ℤ)
      → Keeps (OnDb Q) (finished ctx id ip spec_str created_at code)
  unfolding finished exec_once
  Keeps-finished ip spec_str created_at code =
      search (record_rules, Keeps-fetch_logs, Keeps-report_failure) depth 16

  module _
      (fails : (reason : String) (now : ℤ)
        → Keeps (OnDb Q) (force_failed ctx.system id reason now)) where
    Keeps-never_started :
        (ip : String) (now : ℤ) (started : Bool)
        → Keeps (OnDb Q) (never_started ctx id ip now started)
    unfolding never_started
    Keeps-never_started ip now started = search (record_rules, Keeps-record_worker_status, fails)

    Keeps-still_running :
        (ip : String) (created_at : ℤ) (last_transition_time : Option ℤ)
        → Keeps (OnDb Q) (still_running ctx id ip created_at last_transition_time)
    unfolding still_running
    Keeps-still_running ip created_at last_transition_time =
        search (record_rules, Keeps-has_container_id, Keeps-never_started)

    Keeps-watch :
        (ip spec_str : String) (created_at : ℤ) (last_transition_time : Option ℤ)
        → Keeps (OnDb Q) (watch ctx id ip spec_str created_at last_transition_time)
    unfolding watch exec_once
    Keeps-watch ip spec_str created_at last_transition_time =
        search (record_rules, Keeps-still_running, Keeps-finished)

    pub Keeps-handle_container_running :
        (spec_str : String) (created_at : ℤ) (last_transition_time : Option ℤ)
        → Keeps (OnDb Q) (handle_container_running ctx id spec_str created_at last_transition_time)
    unfolding handle_container_running
    Keeps-handle_container_running spec_str created_at last_transition_time =
        search (record_rules, Keeps-watch) depth 7
