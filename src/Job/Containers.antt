-- ===== src/Job/Containers.antt =====
-- src/reconcile/job.rs: the delivery of the container's configuration to the worker
-- (`ContainerConfiguring`) and the watch over the running container (`ContainerRunning`).
pub mod Tables
pub mod Answers
pub mod Delivery
use kube_shim.Prelude.{
  ℕ, Bool, true, false, Option, none, some, String, List, [], ◌∷◌, ◌<>◌, ◌&&◌, not, ◌==◌, is_empty,
  trim, all_hex, parse_i64, show_ℕ, show_ℤ, show_option, if◌then◌else◌,
}
use kube_shim.Prelude.Int.{ℤ, pos, ◌-ℤ◌, ltb_ℤ, eqb_ℤ}
use kube_shim.Db.{warning}
use kube_shim.Logs.{merge_by_timestamp}
use kube_shim.Logs.Filter.{normalize_timestamps}
use kube_shim.Status.{Status, succeeded, failed}
use kube_shim.Program.{Result, ok, err, M, pure, call, try_call, ◌>>=◌, ◌>>◌, let_some, on_result}
use kube_shim.Context.{JobContext, ContainerConfig, ExecOutput}
use kube_shim.Job.Spec.{parse_spec, unwrap_or_else}
use kube_shim.Job.Records.{
  container_start_timeout, record_event, force_failed, worker_ssh_ip, worker_plan,
  record_completion,
}
use kube_shim.Job.Servers.{resolve_container_config}
use kube_shim.Job.Volumes.{attempt_failed}

-- the commands of src/cloud_init.rs
abbrev upload_env_command : String
upload_env_command =
    "umask 077 && mkdir -p /run/kube-shim && cat > /run/kube-shim/env.part && mv -f /run/kube-shim/env.part /run/kube-shim/env"

abbrev upload_command_command : String
upload_command_command =
    "umask 077 && mkdir -p /run/kube-shim && cat > /run/kube-shim/command.part && mv -f /run/kube-shim/command.part /run/kube-shim/command"

abbrev upload_args_command : String
upload_args_command =
    "umask 077 && mkdir -p /run/kube-shim && cat > /run/kube-shim/args.part && mv -f /run/kube-shim/args.part /run/kube-shim/args"

abbrev upload_secret_env_command : String
upload_secret_env_command =
    "umask 077 && mkdir -p /run/kube-shim && cat > /run/kube-shim/secret-env.part && mv -f /run/kube-shim/secret-env.part /run/kube-shim/secret-env"

abbrev pub ready_command : String
ready_command = "umask 077 && cat > /run/kube-shim/ready"

-- the files in the order in which they are written, the mark that they are complete last
abbrev pub uploads : ContainerConfig → List (String × List ℕ)
uploads config =
    (upload_env_command, config.env_file)
    ∷ (upload_secret_env_command, config.secret_env)
    ∷ (upload_command_command, config.command)
    ∷ (upload_args_command, config.args)
    ∷ (ready_command, [])
    ∷ []

abbrev worker_status_command : String
worker_status_command = "tail -c 4096 /tmp/job-status.txt"

abbrev pub exited_zero : Option ℕ → Bool
exited_zero none = false
exited_zero (some n) = n == 0

-- The logs, whether they carry timestamps, and why they could not be fetched.
pub record Logs : Type 0 where
  pub logs : String
  pub timestamped : Bool
  pub fetch_error : Option String

module _ {C V F : Type 0} (ctx : JobContext C V F) where
  open ctx use {
    system, json, ssh, output, tables, dry_run, zone, worker_ssh_private_key, worker_ssh_port,
    main_currency,
  }

  -- `more` is the rest of the loop
  upload : String → String → String → List ℕ → M C F Bool → M C F Bool
  upload job_id ip command contents more = do
    result ← call (ssh.exec_with_stdin ip worker_ssh_port worker_ssh_private_key command contents)
    on_result result
        (λ written.
          if exited_zero written.exit_status
          then more
          else attempt_failed ctx job_id (
              "writing the container config on worker "
              <> ip
              <> " failed (exit status "
              <> show_option written.exit_status
              <> ")"))
        (λ _. pure false)

  -- one upload after the other; the first that does not succeed ends the loop
  unfoldable pub upload_all : String → String → List (String × List ℕ) → M C F Bool
  unfolding upload
  upload_all job_id ip [] = pure true
  upload_all job_id ip ((command, contents) ∷ rest) =
      upload job_id ip command contents (upload_all job_id ip rest)

  deliver : String → ContainerConfig → Option String → M C F Bool
  unfolding upload_all
  deliver job_id config worker_ip =
      let_some worker_ip
        (attempt_failed ctx job_id "no worker_ssh_ip recorded, cannot deliver the container config")
        λ ip.
          if is_empty worker_ssh_private_key
          then attempt_failed ctx job_id
              "upcloud.worker_ssh_private_key is empty -- cannot deliver the container's env and args to the worker, so its container can never start"
          else upload_all job_id ip (uploads config)

  unfoldable pub handle_container_configuring : String → String → String → String → M C F Bool
  unfolding deliver
  handle_container_configuring job_id namespace name spec_str = do
    config ← resolve_container_config ctx job_id namespace name (parse_spec json spec_str)
    let_some config (pure false)
        λ c. if dry_run then pure true else do ip ← worker_ssh_ip system job_id; deliver job_id c ip

  exec_once : String → String → M C F (Result String ExecOutput)
  exec_once ip command = call (ssh.exec_once ip worker_ssh_port worker_ssh_private_key command)

  -- a worker that answers with a status file leaves an event
  status_event : String → ExecOutput → M C F Unit
  status_event job_id out =
      let status = trim (output.lossy out.stdout) in
      if not (exited_zero out.exit_status)
      then pure tt
      else if is_empty status
      then pure tt
      else record_event system (some job_id) "WorkerStatus"
          ("worker status (/tmp/job-status.txt):\n" <> status) warning

  unfoldable pub record_worker_status : String → String → M C F Unit
  unfolding exec_once status_event
  record_worker_status job_id ip = do
    result ← exec_once ip worker_status_command
    on_result result (λ out. status_event job_id out) (λ _. pure tt)

  -- An error of the connection counts as "yes".
  unfoldable pub has_container_id : String → M C F Bool
  unfolding exec_once
  has_container_id ip = do
    result ← exec_once ip "cat /tmp/container-id.txt"
    on_result result
        (λ out.
          pure (exited_zero out.exit_status && not (is_empty (trim (output.lossy out.stdout)))))
        (λ _. pure true)

  -- there is a container ID, or the job is given up
  never_started : String → String → ℤ → Bool → M C F (Option Status)
  never_started job_id ip now started = if started then pure none else do
    record_worker_status job_id ip
    force_failed system job_id
        ("ContainerNeverStarted: the worker started no container within "
          <> show_ℕ container_start_timeout
          <> "s (no /tmp/container-id.txt on "
          <> ip
          <> ")")
        now
    pure none

  still_running : String → String → ℤ → Option ℤ → M C F (Option Status)
  unfolding never_started
  still_running job_id ip created_at last_transition_time = do
    now ← call system.now
    if ltb_ℤ (pos container_start_timeout) (now -ℤ unwrap_or_else last_transition_time created_at)
        then (do started ← has_container_id ip; never_started job_id ip now started)
        else pure none

  container_logs : Result String ExecOutput → Logs
  container_logs (ok out) = record {
    logs = output.lossy (
        normalize_timestamps output.rfc3339
          (merge_by_timestamp output.rfc3339 (out.stdout ∷ out.stderr ∷ [])));
    timestamped = true;
    fetch_error = none;
  }
  container_logs (err e) = record { logs = ""; timestamped = false; fetch_error = some e }

  start_error : Result String ExecOutput → String
  start_error (ok out) = if exited_zero out.exit_status then output.lossy out.stdout else ""
  start_error (err e) = ""

  without_container : String → Logs
  without_container e = record {
    logs = e;
    timestamped = false;
    fetch_error = if is_empty e then some "no valid container ID on the worker" else none;
  }

  container_id_text : Result String ExecOutput → String
  container_id_text (ok out) = trim (output.lossy out.stdout)
  container_id_text (err e) = ""

  -- The ID is checked before it becomes part of a shell command.
  unfoldable pub fetch_logs : String → String → M C F Logs
  unfolding exec_once container_logs start_error without_container
  fetch_logs ip container_id =
      if not (is_empty container_id) && all_hex container_id
      then (do
        result ← exec_once ip ("podman logs --timestamps " <> container_id)
        pure (container_logs result))
      else (do
        result ← exec_once ip "cat /tmp/start-error.txt"
        pure (without_container (start_error result)))

  cost_or_none : Result String (Option F) → Option F
  cost_or_none (ok cost) = cost
  cost_or_none (err e) = none

  empty_logs_message : ℤ → Option String → String
  empty_logs_message exit_code (some e) =
      "container exited with code "
      <> show_ℤ exit_code
      <> ", but its logs could not be fetched from the worker: "
      <> e
  empty_logs_message exit_code none =
      "container exited with code "
      <> show_ℤ exit_code
      <> " without writing anything to stdout or stderr"

  report_failure : String → String → ℤ → String → Option String → M C F Unit
  unfolding empty_logs_message
  report_failure job_id ip exit_code logs fetch_error =
      if eqb_ℤ exit_code (pos 0) then pure tt else do
        record_worker_status job_id ip
        if is_empty (trim logs)
            then record_event system (some job_id) "EmptyLogs"
                (empty_logs_message exit_code fetch_error) warning
            else pure tt

  finished : String → String → String → ℤ → ℤ → M C F (Option Status)
  unfolding container_id_text exec_once cost_or_none report_failure
  finished job_id ip spec_str created_at exit_code = do
    read_id ← exec_once ip "cat /tmp/container-id.txt"
    fetched ← fetch_logs ip (container_id_text read_id)
    now ← call system.now
    currency ← try_call (tables.effective_main_currency main_currency)
    plan ← worker_plan system job_id
    cost ← call (
        tables.calculate_actual_cost zone (parse_spec json spec_str) plan (now -ℤ created_at)
          currency)
    record_completion system job_id exit_code fetched.logs fetched.timestamped (cost_or_none cost)
    report_failure job_id ip exit_code fetched.logs fetched.fetch_error
    pure (some (if eqb_ℤ exit_code (pos 0) then succeeded else failed))

  exit_code_of : ExecOutput → Option ℤ
  exit_code_of out = parse_i64 (trim (output.lossy out.stdout))

  watch : String → String → String → ℤ → Option ℤ → M C F (Option Status)
  unfolding exec_once exit_code_of still_running finished
  watch job_id ip spec_str created_at last_transition_time = do
    result ← exec_once ip "cat /tmp/exit-code"
    on_result result
        (λ out.
          let_some (exit_code_of out) (still_running job_id ip created_at last_transition_time)
            (λ exit_code. finished job_id ip spec_str created_at exit_code))
        (λ _. pure none)

  -- the status to move to, or `none` to stay
  unfoldable pub handle_container_running : String → String → ℤ → Option ℤ → M C F (Option Status)
  unfolding watch
  handle_container_running job_id spec_str created_at last_transition_time =
      if dry_run then pure (some succeeded) else do
        worker_ip ← worker_ssh_ip system job_id
        let_some worker_ip (pure (some succeeded)) λ ip.
            if is_empty worker_ssh_private_key
            then pure (some succeeded)
            else watch job_id ip spec_str created_at last_transition_time
