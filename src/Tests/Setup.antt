-- ===== src/Tests/Setup.antt =====
-- A small world to run the pipeline in: the cloud is the log of the calls made to it, the newest
-- first; the clock stands at 1000; REAL numbers are whole, and a JSON value is a text.
use kube_shim.Prelude.{ℕ, ◌*◌, ◌/◌, Bool, true, false, none, some, String, List, [], ◌∷◌}
use kube_shim.Prelude.Int.{pos}
use kube_shim.Status.{Status}
use kube_shim.Db.{JobRow, VolumeRow, Event, warning}
use kube_shim.Program.{ok, err, World, System}
use kube_shim.Provider.{CloudProvider, Server, Volume}
use kube_shim.Context.{Json, JobContext}

abbrev pub Log : Type 0
Log = List String

abbrev logged : {A : Type 0} → String → A → Log → A × Log
logged name a c = (a, name ∷ c)

abbrev pub clock : System Log
clock = record { now = λ c. (pos 1000, c); new_uuid = λ c. ("uuid", c); fault = λ c. (none, c) }

abbrev pub stopped_server : Server
stopped_server = record {
  id = "vm-1";
  title = "shim-worker-ns-job";
  state = "stopped";
  public_ipv4 = some "192.0.2.7";
  public_ipv6 = none;
}

abbrev pub scratch : Volume
scratch = record {
  id = "vol-1";
  size_gb = 10;
  tier = "standard";
  title = "shim-vol-ns-job";
  zone = "fi-hel1";
}

abbrev pub cloud : CloudProvider Log
cloud = record {
  create_volume = λ _. logged "create_volume" (ok scratch);
  delete_volume = λ id. logged "delete_volume" (ok tt);
  list_volumes = λ _ c. (ok (scratch ∷ []), c);
  attach_volume = λ _ _. logged "attach_volume" (ok tt);
  detach_volume = λ _ _. logged "detach_volume" (ok tt);
  create_server = λ _. logged "create_server" (ok stopped_server);
  get_server = λ _ c. (ok stopped_server, c);
  stop_server = λ _. logged "stop_server" (ok stopped_server);
  delete_server = λ _. logged "delete_server" (ok tt);
  list_servers = λ _ c. (ok (stopped_server ∷ []), c);
  create_firewall_rules = λ _ _. logged "create_firewall_rules" (ok tt);
  list_firewall_rules = λ _ c. (ok [], c);
}

abbrev json : Json String
json = record {
  null = "null";
  from_str = λ s. some s;
  parse_error = λ s. "";
  empty_object = "{}";
  to_text = λ s. s;
  is_null = λ _. false;
  get = λ _ _. none;
  pointer = λ v _. some v;
  as_i64 = λ _. none;
  as_u64 = λ _. none;
  as_str = λ s. some s;
  as_array = λ _. none;
  as_bool = λ _. none;
  as_object = λ _. none;
}

abbrev pub context : Bool → JobContext Log String ℕ
context dry = record {
  provider = cloud;
  system = clock;
  json = json;
  ssh = record {
    exec_once = λ _ _ _ _. logged "exec_once" (err "connection refused");
    exec_with_stdin = λ _ _ _ command _.
        logged command (ok (record { stdout = []; stderr = []; exit_status = some 0 }));
  };
  cloud_init = record { generate = λ _. ok "#cloud-config" };
  tables = record {
    secret = λ _ _ c. (ok none, c);
    cheapest_fitting_server_plan = λ _ _ _ c. (ok none, c);
    has_cached_plans = λ c. (ok true, c);
    effective_main_currency = λ s c. (ok s, c);
    check_budget = λ _ _ _ _ c. (ok (none, true), c);
    calculate_actual_cost = λ _ _ _ _ _ c. (ok none, c);
  };
  floats = record {
    parse = λ _. none;
    is_negative = λ _. false;
    mul = λ a b. a * b;
    div = λ a b. a / b;
    of_ℕ = λ n. n;
    ceil = λ n. n;
    round = λ n. n;
    as_u32 = λ n. n;
  };
  output = record {
    lossy = λ _. "";
    debug = λ s. s;
    rfc3339 = record { parse = λ _. none; format = λ _. [] };
    base64_decode = λ _. none;
    from_utf8 = λ _. none;
  };
  dry_run = dry;
  resource_prefix = "shim";
  zone = "fi-hel1";
  worker_template_uuid = "template";
  worker_ssh_public_keys = "ssh-ed25519 key" ∷ [];
  own_public_ip = some "192.0.2.1";
  worker_ssh_private_key = "key";
  worker_ssh_port = 22;
  main_currency = "EUR";
}

abbrev pub job : String → Status → JobRow ℕ
job id status = record {
  id = id;
  name = "job";
  namespace = "ns";
  cronjob_name = none;
  spec = "{}";
  status = status;
  retry_count = 0;
  last_error = none;
  worker_vm_id = some "vm-1";
  worker_vm_name = some "shim-worker-ns-job";
  worker_plan = some "1xCPU-1GB";
  worker_ssh_ip = some "192.0.2.7";
  exit_code = none;
  cached_logs = none;
  cached_logs_timestamped = false;
  estimated_cost = none;
  actual_cost = none;
  created_at = pos 500;
  updated_at = pos 500;
  last_transition_time = some (pos 600);
  completed_at = none;
  version = 1;
}

abbrev pub volume_row : VolumeRow
volume_row = record {
  id = "row";
  job_id = "j1";
  size_gb = 10;
  storage_class_name = "kube-shim-standard";
  provider_volume_id = some "vol-1";
  provider_volume_name = some "shim-vol-ns-job";
  mount_point = none;
  created_at = pos 500;
}

abbrev pub failure : Event
failure = record {
  id = "e1";
  job_id = some "j2";
  reason = "Failed";
  message = "DeadlineExceeded";
  timestamp = pos 700;
  event_type = warning;
}

-- One job is cleaning up, another has failed.
abbrev pub world : Status → World Log ℕ
world status = record {
  db = record {
    jobs = job "j1" status ∷ job "j2" Status.failed ∷ [];
    job_volumes = volume_row ∷ [];
    events = failure ∷ [];
    cronjobs = [];
    provider_plans = [];
    provider_pricing = [];
    exchange_rates = [];
    budget_state = none;
  };
  cloud = [];
}

abbrev pub never : Log → Bool × Log
never c = (false, c)
