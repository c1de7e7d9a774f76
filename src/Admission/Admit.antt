-- ===== src/Admission/Admit.antt =====
-- The checks of src/admission.rs that know the context of jobs, and the order in which src/api/job.rs and
-- src/api/cronjob.rs make all of them.
use kube_shim.Prelude.{Bool, true, false, Option, none, some, String, ◌<>◌, show_ℕ, if◌then◌else◌}
use kube_shim.Quantity.{parse_storage_quantity_mb, parse_cpu_millicores, whole_units_for_requests}
use kube_shim.Program.{Result, ok, err, M, pure, query, ◌>>=◌}
use kube_shim.Context.{JobContext}
use kube_shim.Env.{get_str}
use kube_shim.Job.Spec.{unwrap_or_else, extract_resource_requests}
use kube_shim.Catalog.{Sql, has_cached_plans, cheapest_fitting_server_plan}
use kube_shim.Schedule.Parse.{Cron}
use kube_shim.RunOptions.{is_some}
use kube_shim.Admission.{
  Response, policy_denied, invalid_field_value, internal_server_error, or_else, is_ok,
  require_active_deadline_seconds, validate_ephemeral_volume_storage_classes, validate_env_sources,
  validate_run_options, validate_cronjob_schedule, validate_cronjob_schedule_fields,
}

module _ {C V F : Type 0} (ctx : JobContext C V F) (sql : Sql F) where
  open ctx use {system, json, floats, output}

  check_limit : String → String → (String → Bool) → Option String → Option Response
  check_limit object field passes none = none
  check_limit object field passes (some quantity) =
      if passes quantity then none else some (invalid_field_value object field quantity)

  resource_limits : String → String → Option V → Option Response
  unfolding check_limit
  resource_limits object field none = none
  resource_limits object field (some limits) =
      or_else
        (check_limit object (field <> ".cpu")
          (λ q. is_ok (parse_cpu_millicores floats output.debug q)) (get_str json limits "cpu"))
        (check_limit object (field <> ".memory") (λ q. is_ok (parse_storage_quantity_mb floats q))
          (get_str json limits "memory"))

  unfoldable pub validate_resource_limits : String → V → String → Option Response
  unfolding resource_limits
  validate_resource_limits object pod_template_spec field_prefix =
      resource_limits object (field_prefix <> ".template.spec.containers[0].resources.limits")
        (json.pointer pod_template_spec "/template/spec/containers/0/resources/limits")

  -- whether a plan fits, where there are plans
  plan_fits : V → String → M C F (Option Bool)
  plan_fits pod_template_spec zone =
      let requests = extract_resource_requests ctx pod_template_spec in
      let units = whole_units_for_requests requests.0 requests.1 in
      do
        cached ← query system (λ db. has_cached_plans db.provider_plans)
        if cached
            then (do
              plan ← query system (λ db.
                  cheapest_fitting_server_plan sql db.provider_pricing db.provider_plans zone
                    units.0 units.1)
              pure (some (is_some plan)))
            else pure none

  fits_response : V → Result String (Option Bool) → Option Response
  fits_response pod_template_spec (ok none) = none
  fits_response pod_template_spec (ok (some true)) = none
  fits_response pod_template_spec (ok (some false)) =
      let requests = extract_resource_requests ctx pod_template_spec in
      let units = whole_units_for_requests requests.0 requests.1 in
      some (
        policy_denied "kube-shim.brawer.ch/require-fitting-server-plan" (
          "no available server plan is big enough for "
          <> show_ℕ units.0
          <> " CPU / "
          <> show_ℕ units.1
          <> " GB requested"))
  fits_response pod_template_spec (err e) = some (internal_server_error e)

  unfoldable pub validate_plan_fits : String → V → M C F (Option Response)
  unfolding plan_fits fits_response
  validate_plan_fits zone pod_template_spec w =
      let (fits, w') = plan_fits pod_template_spec zone w in
      (ok (fits_response pod_template_spec fits), w')

  -- the last check, where the others have no objection
  unfoldable pub finally_fits : String → V → Option Response → M C F (Option Response)
  unfolding validate_plan_fits
  finally_fits zone pod_template_spec (some response) = pure (some response)
  finally_fits zone pod_template_spec none = validate_plan_fits zone pod_template_spec

  -- the checks that jobs and cron jobs share
  unfoldable pub template_checks : String → V → String → Option Response
  unfolding validate_resource_limits
  template_checks object spec prefix =
      or_else (validate_ephemeral_volume_storage_classes json object spec prefix) (
        or_else (validate_resource_limits object spec prefix) (
          or_else (validate_env_sources json object spec prefix)
            (validate_run_options json object spec prefix)))

  -- src/api/job.rs: the checks of `create_job` before the budget
  unfoldable pub admit_job : String → String → V → M C F (Option Response)
  unfolding template_checks finally_fits
  admit_job name zone spec = finally_fits zone spec (
      or_else (require_active_deadline_seconds json spec "spec")
        (template_checks ("Job \"" <> name <> "\"") spec "spec"))

  -- src/api/cronjob.rs
  unfoldable pub admit_cronjob :
      {S : Type 0} → Cron S → String → String → V → M C F (Option Response)
  unfolding template_checks finally_fits
  admit_cronjob cron name zone spec =
      let pod_template_spec = unwrap_or_else (json.pointer spec "/jobTemplate/spec") json.null in
      let object = "CronJob \"" <> name <> "\"" in
      finally_fits zone pod_template_spec (
        or_else (require_active_deadline_seconds json pod_template_spec "spec.jobTemplate.spec") (
          or_else (validate_cronjob_schedule json cron object spec) (
            or_else (validate_cronjob_schedule_fields json object spec)
              (template_checks object pod_template_spec "spec.jobTemplate.spec"))))
