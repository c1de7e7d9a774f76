-- ===== src/Job/Spec.antt =====
-- src/reconcile/job.rs: what the pipeline reads from a job's spec.
use kube_shim.Prelude.{ℕ, Option, none, some, String, List, [], ◌∷◌}
use kube_shim.Prelude.Int.{ℤ}
use kube_shim.Program.{Result, ok, err}
use kube_shim.Context.{Json, JobContext}
use kube_shim.Quantity.{parse_cpu_millicores, parse_storage_quantity_mb}

-- `Option::and_then`
abbrev pub and_then : {A B : Type 0} → Option A → (A → Option B) → Option B
and_then none f = none
and_then (some a) f = f a

-- `Result::ok`
abbrev pub to_option : {E A : Type 0} → Result E A → Option A
to_option (ok a) = some a
to_option (err e) = none

abbrev pub unwrap_or_else : {A : Type 0} → Option A → A → A
unwrap_or_else none d = d
unwrap_or_else (some a) d = a

-- `iter().find_map`
unfoldable pub find_map : {A B : Type 0} → (A → Option B) → List A → Option B
find_map f [] = none
find_map f (x ∷ xs) = elim (f x) [ none ↦ find_map f xs | some b ↦ some b ]

module _ {V : Type 0} (json : Json V) where
  -- `serde_json::from_str(spec_str).unwrap_or(JsonValue::Null)`
  unfoldable pub parse_spec : String → V
  parse_spec spec_str = unwrap_or_else (json.from_str spec_str) json.null

  unfoldable pub active_deadline_seconds : V → Option ℤ
  active_deadline_seconds spec = and_then (json.get spec "activeDeadlineSeconds") json.as_i64

  unfoldable pub find_ephemeral_volume : V → Option V
  unfolding find_map
  find_ephemeral_volume spec =
      and_then (and_then (json.pointer spec "/template/spec/volumes") json.as_array)
        (find_map (λ v. json.pointer v "/ephemeral/volumeClaimTemplate/spec"))

module _ {C V F : Type 0} (ctx : JobContext C V F) where
  open ctx use {json, floats, output}

  -- CPU millicores and megabytes
  unfoldable pub extract_resource_requests : V → Option ℕ × Option ℕ
  extract_resource_requests spec =
      let requests = json.pointer spec "/template/spec/containers/0/resources/requests" in
      let cpu = and_then (and_then requests (λ r. json.get r "cpu")) json.as_str in
      let memory = and_then (and_then requests (λ r. json.get r "memory")) json.as_str in
      (
        and_then cpu (λ q. to_option (parse_cpu_millicores floats output.debug q)),
        and_then memory (λ q. to_option (parse_storage_quantity_mb floats q)),
      )
