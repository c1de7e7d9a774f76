-- ===== src/Tests/AdmissionRuns.antt =====
-- The options of containers and the admission of specs at concrete inputs. A JSON value is a text, whose
-- fields stand in tables.
use kube_shim.Tests.Setup.{Log, context, world}
use kube_shim.Tests.BudgetRuns.{sql}
use kube_shim.Prelude.{
  ℕ, ◌≡◌, ◌≢◌, refl, true, false, none, some, String, List, [], ◌∷◌, str_eq, trim, is_empty, show_ℕ,
  if◌then◌else◌,
}
use kube_shim.Status.{Status}
use kube_shim.Program.{World, Result, ok}
use kube_shim.Context.{Json, JobContext}
use kube_shim.Env.{find_entry, contains_char, split_at, array_at}
use kube_shim.Env.Validate.{validate}
use kube_shim.Quantity.{parse_tier}
use kube_shim.Schedule.Parse.{Cron, parse_schedule, split_whitespace, is_restricted}
use kube_shim.Prelude.Int.{pos}
use kube_shim.Job.Spec.{unwrap_or_else, active_deadline_seconds}
use kube_shim.RunOptions.{RunOptions, is_valid_mount_path, ◌>>=◌}
use kube_shim.RunOptions.Parse.{parse_options, validate_options}
use kube_shim.RunOptions.Mount.{IsMount, parse_options-IsMount}
use kube_shim.RunOptions.Users.{IsUser, parse_options-nonzero}
use kube_shim.Admission.{
  or_else, is_ok, require_active_deadline_seconds, validate_cronjob_schedule,
  validate_cronjob_schedule_fields, validate_ephemeral_volume_storage_classes, validate_env_sources,
  validate_run_options,
}
use kube_shim.Admission.Admit.{validate_plan_fits, admit_cronjob}
use kube_shim.Admission.Admitted.{HasSchedule, IsRunnable, admit_cronjob-IsRunnable}

abbrev fields : String → List (String × String)
fields object =
    if str_eq object "cronjob"
    then ("schedule", "0 4 * * *") ∷ ("suspend", "false") ∷ []
    else if str_eq object "security"
    then ("runAsUser", "1000") ∷ ("runAsNonRoot", "true") ∷ []
    else if str_eq object "volume"
    then ("name", "data") ∷ ("ephemeral", "claim") ∷ []
    else if str_eq object "mount"
    then ("name", "data") ∷ ("mountPath", "/work") ∷ ("readOnly", "true") ∷ []
    else if str_eq object "job"
    then ("activeDeadlineSeconds", "600") ∷ []
    else if str_eq object "pvc"
    then ("storageClassName", "kube-shim-fast") ∷ []
    else []

abbrev paths : String → List (String × String)
paths object =
    if str_eq object "cronjob"
    then ("/jobTemplate/spec", "job") ∷ []
    else if str_eq object "job"
    then ("/activeDeadlineSeconds", "600")
      ∷ ("/template/spec", "pod")
      ∷ ("/template/spec/volumes", "volumes")
      ∷ ("/template/spec/containers/0", "container")
      ∷ ("/template/spec/containers/0/securityContext", "security")
      ∷ ("/template/spec/containers/0/volumeMounts", "mounts")
      ∷ []
    else if str_eq object "volume"
    then ("/ephemeral/volumeClaimTemplate/spec", "pvc") ∷ []
    else []

abbrev tree : Json String
tree = record {
  null = "null";
  from_str = λ s. some s;
  parse_error = λ s. "";
  empty_object = "{}";
  to_text = λ s. s;
  is_null = λ s. str_eq s "null";
  get = λ v key. find_entry key (fields v);
  pointer = λ v path. find_entry path (paths v);
  as_i64 = λ s. if str_eq s "600" then some (pos 600) else none;
  as_u64 = λ s. if str_eq s "1000" then some 1000 else none;
  as_str = λ s. some s;
  as_array = λ s.
      if str_eq s "volumes"
      then some ("volume" ∷ [])
      else if str_eq s "mounts"
      then some ("mount" ∷ [])
      else none;
  as_bool =
      λ s. if str_eq s "true" then some true else if str_eq s "false" then some false else none;
  as_object = λ s. some (fields s);
}

abbrev cron : Cron String
cron = record { from_str = λ s. ok s; after = λ s t. none }

abbrev job_context : JobContext Log String ℕ
job_context = record (context false) { json = tree }

abbrev options : RunOptions
options = record {
  fs_group = none;
  user = some "1000";
  run_as_non_root = true;
  read_only_root_filesystem = false;
  no_new_privileges = false;
  scratch_volume = "/scratch:/work:ro,idmap";
}

options_parsed : parse_options tree "job" ≡ ok options
unfolding parse_options ◌>>=◌ is_valid_mount_path contains_char show_ℕ
options_parsed = refl

parse_options-IsMount_example : IsMount "/scratch:/work:ro,idmap"
parse_options-IsMount_example = parse_options-IsMount tree "job" options options_parsed

parse_options-nonzero_example : (uid : ℕ) × (uid ≢ 0) × IsUser uid "1000"
parse_options-nonzero_example =
    parse_options-nonzero tree "job" options "1000" options_parsed refl refl

admitted :
    (admit_cronjob job_context sql cron "nightly" "fi-hel1" "cronjob" (world Status.vm_creating)).0
    ≡ ok none
unfolding admit_cronjob or_else require_active_deadline_seconds validate_cronjob_schedule is_empty
    trim is_ok parse_schedule split_whitespace is_restricted split_at
    validate_cronjob_schedule_fields validate_ephemeral_volume_storage_classes parse_tier
    validate_env_sources validate array_at validate_run_options validate_options ◌>>=◌ parse_options
    is_valid_mount_path contains_char show_ℕ validate_plan_fits kube_shim.Program.◌>>=◌
    kube_shim.Catalog.has_cached_plans
admitted = refl

admit_cronjob-IsRunnable_example :
    HasSchedule tree cron "cronjob"
    × IsRunnable tree (unwrap_or_else (tree.pointer "cronjob" "/jobTemplate/spec") tree.null)
admit_cronjob-IsRunnable_example =
    admit_cronjob-IsRunnable job_context sql cron "nightly" "fi-hel1" "cronjob"
      (world Status.vm_creating) admitted refl

admitted_deadline : active_deadline_seconds tree "job" ≡ some (pos 600)
unfolding active_deadline_seconds
admitted_deadline = refl

-- A deadline that is null is let through, and is none.
abbrev null_deadline : Json String
null_deadline = record tree { as_i64 = λ _. none; is_null = λ s. str_eq s "600" }

admitted_without_deadline :
    ((admit_cronjob
        (record job_context { json = null_deadline })
        sql
        cron
        "nightly"
        "fi-hel1"
        "cronjob"
        (world Status.vm_creating)).0
      ≡ ok none)
    × (active_deadline_seconds null_deadline "job" ≡ none)
unfolding active_deadline_seconds admit_cronjob or_else require_active_deadline_seconds
    validate_cronjob_schedule is_empty trim is_ok parse_schedule split_whitespace is_restricted
    split_at validate_cronjob_schedule_fields validate_ephemeral_volume_storage_classes parse_tier
    validate_env_sources validate array_at validate_run_options validate_options ◌>>=◌ parse_options
    is_valid_mount_path contains_char show_ℕ validate_plan_fits kube_shim.Program.◌>>=◌
    kube_shim.Catalog.has_cached_plans
admitted_without_deadline = (refl, refl)
