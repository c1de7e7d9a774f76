-- ===== src/Admission.antt =====
-- src/admission.rs: the checks of a job's spec before it is stored.
pub mod Admit
pub mod Admitted
use kube_shim.Prelude.{
  Bool, true, false, ◌&&◌, ◌||◌, not, Option, none, some, String, List, [], ◌∷◌, ◌<>◌, str_eq, trim,
  is_empty, if◌then◌else◌,
}
use kube_shim.Quantity.{parse_tier}
use kube_shim.Program.{Result, ok, err}
use kube_shim.Context.{Json}
use kube_shim.Env.{get_str}
use kube_shim.Env.Validate.{validate}
use kube_shim.Job.Spec.{and_then}
use kube_shim.Schedule.Parse.{Cron, parse_schedule}
use kube_shim.RunOptions.{is_some}
use kube_shim.RunOptions.Parse.{validate_options}

-- The answers of src/k8s_status.rs: 403 with policy and reason, 422 with object, field and value; and
-- the plain 500.
pub data Response : Type 0 where
  policy_denied : String → String → Response
  invalid_field_value : String → String → String → Response
  internal_server_error : String → Response

-- a check, and the next one where it has no objection
unfoldable pub or_else : Option Response → Option Response → Option Response
or_else (some response) next = some response
or_else none next = next

unfoldable pub is_ok : {E A : Type 0} → Result E A → Bool
is_ok (ok a) = true
is_ok (err e) = false

module _ {V : Type 0} (json : Json V) where
  unfoldable pub require_active_deadline_seconds : V → String → Option Response
  require_active_deadline_seconds pod_template_spec field_prefix =
      if is_some (json.pointer pod_template_spec "/activeDeadlineSeconds")
      then none
      else some (
          policy_denied "kube-shim.brawer.ch/require-active-deadline" (
            field_prefix
            <> ".activeDeadlineSeconds must be set (bounds the job's worst-case cost against the budget guard)"))

  unfoldable pub check_volumes : String → String → List V → Option Response
  check_volumes object field [] = none
  check_volumes object field (volume ∷ volumes) =
      let rest = check_volumes object field volumes in
      elim (json.pointer volume "/ephemeral/volumeClaimTemplate/spec") [
        | none ↦ rest
        | some pvc_spec ↦ elim (parse_tier (get_str json pvc_spec "storageClassName")) [
          | ok tier ↦ rest
          | err unknown ↦ some (invalid_field_value object field unknown)
        ]
      ]

  unfoldable pub volumes_of : Option (List V) → List V
  volumes_of none = []
  volumes_of (some volumes) = volumes

  unfoldable pub validate_ephemeral_volume_storage_classes : String → V → String → Option Response
  unfolding check_volumes volumes_of
  validate_ephemeral_volume_storage_classes object pod_template_spec field_prefix =
      check_volumes object
        (field_prefix
          <> ".template.spec.volumes[].ephemeral.volumeClaimTemplate.spec.storageClassName")
        (volumes_of
          (and_then (json.pointer pod_template_spec "/template/spec/volumes") json.as_array))

  env_sources : String → String → Option V → Option Response
  env_sources object field_prefix none = none
  env_sources object field_prefix (some container) = elim (validate json container) [
    | ok valid ↦ none
    | err e ↦ some (
        invalid_field_value object (field_prefix <> ".template.spec.containers[0]." <> e.field)
          e.value)
  ]

  unfoldable pub validate_env_sources : String → V → String → Option Response
  unfolding env_sources
  validate_env_sources object pod_template_spec field_prefix =
      env_sources object field_prefix (json.pointer pod_template_spec "/template/spec/containers/0")

  unfoldable pub validate_run_options : String → V → String → Option Response
  validate_run_options object pod_template_spec field_prefix =
      elim (validate_options json pod_template_spec) [
        | ok valid ↦ none
        | err e ↦
            some (invalid_field_value object (field_prefix <> ".template.spec." <> e.field) e.value)
      ]

  -- a value in a message: a text without its quotes
  abbrev shown : V → String
  shown value = elim (json.as_str value) [ none ↦ json.to_text value | some s ↦ s ]

  is_bool : V → Bool
  is_bool value = is_some (json.as_bool value)

  is_u64 : V → Bool
  is_u64 value = is_some (json.as_u64 value)

  is_policy : V → Bool
  is_policy value = elim (json.as_str value) [
    | none ↦ false
    | some s ↦ str_eq s "Allow" || str_eq s "Forbid"
  ]

  check_field : String → String → (V → Bool) → Option V → Option Response
  check_field object field passes none = none
  check_field object field passes (some value) =
      if json.is_null value || passes value
      then none
      else some (invalid_field_value object field (shown value))

  unfoldable pub validate_cronjob_schedule_fields : String → V → Option Response
  unfolding check_field is_bool is_u64 is_policy
  validate_cronjob_schedule_fields object cronjob_spec =
      or_else (check_field object "spec.suspend" is_bool (json.get cronjob_spec "suspend")) (
        or_else
          (check_field object "spec.startingDeadlineSeconds" is_u64
            (json.get cronjob_spec "startingDeadlineSeconds"))
          (check_field object "spec.concurrencyPolicy" is_policy
            (json.get cronjob_spec "concurrencyPolicy")))

  module _ {S : Type 0} (cron : Cron S) where
    unfoldable pub parses : String → Bool
    parses s = not (is_empty (trim s)) && is_ok (parse_schedule cron s)

    -- a text as it is, nothing for null, and else the value's own text
    unfoldable pub schedule_of_text : String → Option String → V → Option Response
    unfolding parses
    schedule_of_text object (some s) value =
        if parses s then none else some (invalid_field_value object "spec.schedule" s)
    schedule_of_text object none value = some (
        invalid_field_value object "spec.schedule"
          (if json.is_null value then "" else json.to_text value))

    unfoldable pub schedule_of : String → Option V → Option Response
    unfolding schedule_of_text
    schedule_of object none = some (invalid_field_value object "spec.schedule" "")
    schedule_of object (some value) = schedule_of_text object (json.as_str value) value

    unfoldable pub validate_cronjob_schedule : String → V → Option Response
    unfolding schedule_of
    validate_cronjob_schedule object cronjob_spec =
        schedule_of object (json.get cronjob_spec "schedule")
