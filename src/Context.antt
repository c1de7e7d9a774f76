-- ===== src/Context.antt =====
-- What the job pipeline works with: `JobContext` of src/reconcile/job.rs, and the other parts of
-- the program and of the world that it calls, each as a record of operations.
use kube_shim.Prelude.{ℕ, Bool, Option, String, List}
use kube_shim.Prelude.Int.{ℤ}
use kube_shim.Program.{Result, Call, System}
use kube_shim.Provider.{CloudProvider}
use kube_shim.Quantity.{Floats}
use kube_shim.Tariff.{ServerPlan}
use kube_shim.Logs.{Rfc3339}

-- serde_json: `V` is `serde_json::Value`; an object is its keys with their values.
pub record Json (V : Type 0) : Type 0 where
  pub null : V
  pub from_str : String → Option V
  pub parse_error : String → String
  pub empty_object : V
  pub to_text : V → String
  pub is_null : V → Bool
  pub get : V → String → Option V
  pub pointer : V → String → Option V
  pub as_i64 : V → Option ℤ
  pub as_u64 : V → Option ℕ
  pub as_str : V → Option String
  pub as_array : V → Option (List V)
  pub as_bool : V → Option Bool
  pub as_object : V → Option (List (String × V))

-- src/ssh.rs: the answer of a command on a worker
pub record ExecOutput : Type 0 where
  pub stdout : List ℕ
  pub stderr : List ℕ
  pub exit_status : Option ℕ

-- src/ssh.rs: host, port, private key and command; an error is its text.
pub record Ssh (C : Type 0) : Type 0 where
  pub exec_once : String → ℕ → String → String → Call C (Result String ExecOutput)
  pub exec_with_stdin : String → ℕ → String → String → List ℕ → Call C (Result String ExecOutput)

-- `ContainerConfig` of src/cloud_init.rs
pub record ContainerConfig : Type 0 where
  pub env_file : List ℕ
  pub secret_env : List ℕ
  pub command : List ℕ
  pub args : List ℕ

-- src/cloud_init.rs
pub record CloudInit (V : Type 0) : Type 0 where
  pub generate : V → Result String String

-- What the pipeline reads from other tables: the content of a Secret (namespace, name), a plan
-- (zone, cores, gigabytes) by src/workload.rs, and by src/pricing/mod.rs the currency (its
-- fallback), a budget (zone, spec, deadline, currency) and a cost (zone, spec, plan, seconds,
-- currency).
pub record Tables (C V F : Type 0) : Type 0 where
  pub secret : String → String → Call C (Result String (Option String))
  pub cheapest_fitting_server_plan : String → ℕ → ℕ → Call C (Result String (Option ServerPlan))
  pub has_cached_plans : Call C (Result String Bool)
  pub effective_main_currency : String → Call C (Result String String)
  pub check_budget : String → V → ℤ → String → Call C (Result String (Option F × Bool))
  pub calculate_actual_cost :
      String → V → Option String → ℤ → String → Call C (Result String (Option F))

-- Texts: `String::from_utf8_lossy` and `from_utf8`, base64, the `{:?}` of a text, and times in texts.
pub record Output : Type 0 where
  pub lossy : List ℕ → String
  pub debug : String → String
  pub rfc3339 : Rfc3339
  pub base64_decode : String → Option (List ℕ)
  pub from_utf8 : List ℕ → Option String

pub record JobContext (C V F : Type 0) : Type 0 where
  pub provider : CloudProvider C
  pub system : System C
  pub json : Json V
  pub ssh : Ssh C
  pub cloud_init : CloudInit V
  pub tables : Tables C V F
  pub floats : Floats F
  pub output : Output
  pub dry_run : Bool
  pub resource_prefix : String
  pub zone : String
  pub worker_template_uuid : String
  pub worker_ssh_public_keys : List String
  pub own_public_ip : Option String
  pub worker_ssh_private_key : String
  pub worker_ssh_port : ℕ
  pub main_currency : String
