-- ===== src/Admission/Admitted.antt =====
-- What the scheduler and the pipeline can rely on of a spec that src/admission.rs lets through.
use mathlib.Core.Path.{subst}
use mathlib.Core.Option.{some-injective as some_injective}
use kube_shim.Prelude.{
  ◌⊎◌, ◌≡◌, refl, true, false, Option, none, some, String, List, [], ◌∷◌, inl, inr, trim, is_empty,
  Bool-cases, Option-cases, arith,
}
use kube_shim.Quantity.{StorageTier, parse_tier}
use kube_shim.Program.{Result, ok, err, World, pure}
use kube_shim.Context.{Json, JobContext}
use kube_shim.Env.{get_str, str_of}
use kube_shim.Job.Spec.{
  and_then, unwrap_or_else, find_map, find_ephemeral_volume, active_deadline_seconds,
}
use kube_shim.Catalog.{Sql}
use kube_shim.Schedule.Parse.{Cron, parse_schedule}
use kube_shim.RunOptions.{RunOptions}
use kube_shim.RunOptions.Parse.{parse_options, validate_options}
use kube_shim.RunOptions.Steps.{validate_options-ok}
use kube_shim.Admission.{
  Response, or_else, is_ok, require_active_deadline_seconds, check_volumes, volumes_of,
  validate_ephemeral_volume_storage_classes, validate_run_options, parses, schedule_of_text,
  schedule_of, validate_cronjob_schedule,
}
use kube_shim.Admission.Admit.{template_checks, finally_fits, admit_job, admit_cronjob}

or_else-none : (a b : Option Response) → or_else a b ≡ none → (a ≡ none) × (b ≡ none)
unfolding or_else
or_else-none none b h = (refl, h)
or_else-none (some r) b h = cc h

is_ok-true : {E A : Type 0} (r : Result E A) → is_ok r ≡ true → (a : A) × (r ≡ ok a)
unfolding is_ok
is_ok-true (ok a) h = (a, refl)
is_ok-true (err e) h = cc h

Result-cases : {E A : Type 0} (r : Result E A) → ((a : A) × (r ≡ ok a)) ⊎ ((e : E) × (r ≡ err e))
Result-cases (ok a) = inl (a, refl)
Result-cases (err e) = inr (e, refl)

-- serde_json: the pointer of one name finds what `get` finds under this name.
abbrev pub PointerIsGet : {V : Type 0} → Json V → V → Type 0
PointerIsGet json spec =
    json.pointer spec "/activeDeadlineSeconds" ≡ json.get spec "activeDeadlineSeconds"

module _ {V : Type 0} (json : Json V) where
  -- the class of each volume that a job may create is known
  check_volumes-find :
      (object field : String) (volumes : List V) (volume : V)
      → check_volumes json object field volumes ≡ none
      → find_map (λ v. json.pointer v "/ephemeral/volumeClaimTemplate/spec") volumes ≡ some volume
      → (tier : StorageTier) × (parse_tier (get_str json volume "storageClassName") ≡ ok tier)
  unfolding check_volumes find_map
  check_volumes-find object field [] volume h e = cc e
  check_volumes-find object field (v ∷ volumes) volume h e =
      elim (Option-cases (json.pointer v "/ephemeral/volumeClaimTemplate/spec")) [
        | inl missing ↦
            check_volumes-find object field volumes volume (rw (check_volumes, missing) at h)
              (rw (find_map, missing) at e)
        | inr (pvc, found) ↦
            elim (Result-cases (parse_tier (get_str json pvc "storageClassName"))) [
              | inl (tier, parsed) ↦ (
                tier,
                subst (λ x. parse_tier (get_str json x "storageClassName") ≡ ok tier)
                    (some_injective pvc volume (rw (find_map, found) at e)) parsed,
              )
              | inr (unknown, refused) ↦ cc (rw (check_volumes, found, refused) at h)
            ]
      ]

  module _ {S : Type 0} (cron : Cron S) where
    text_parses :
        (object : String) (o : Option String) (value : V)
        → schedule_of_text json cron object o value ≡ none
        → (s : String) × (o ≡ some s) × (parses json cron s ≡ true)
    unfolding schedule_of_text
    text_parses object none value h = cc h
    text_parses object (some s) value h = elim (Bool-cases (parses json cron s)) [
      | inl e ↦ (s, refl, e)
      | inr e ↦ cc (rw (schedule_of_text, e) at h)
    ]

    value_parses :
        (object : String) (o : Option V)
        → schedule_of json cron object o ≡ none
        → (s : String) × (str_of json o ≡ some s) × (parses json cron s ≡ true)
    unfolding schedule_of
    value_parses object none h = cc h
    value_parses object (some value) h = text_parses object (json.as_str value) value h

    -- a schedule that the scheduler will neither skip as empty nor fail to parse
    abbrev pub HasSchedule : V → Type 0
    HasSchedule spec =
        (schedule : String) × (get_str json spec "schedule" ≡ some schedule)
        × (is_empty (trim schedule) ≡ false)
        × ((parts : List S) × (parse_schedule cron schedule ≡ ok parts))

    schedule_lem :
        (object : String) (spec : V)
        → validate_cronjob_schedule json cron object spec ≡ none
        → HasSchedule spec
    unfolding validate_cronjob_schedule parses
    schedule_lem object spec h =
        let (s, e, p) = value_parses object (json.get spec "schedule") h in
        (s, e, ground arith, is_ok-true (parse_schedule cron s) (ground arith))

  options_lem :
      (object prefix : String) (spec : V)
      → validate_run_options json object spec prefix ≡ none
      → (options : RunOptions) × (parse_options json spec ≡ ok options)
  unfolding validate_run_options
  options_lem object prefix spec h = elim (Result-cases (validate_options json spec)) [
    | inl (valid, e) ↦ validate_options-ok json spec e
    | inr (refused, e) ↦ cc (rw (validate_run_options, e) at h)
  ]

  deadline_lem :
      (spec : V) (prefix : String)
      → require_active_deadline_seconds json spec prefix ≡ none
      → PointerIsGet json spec
      → (value : V) × (json.get spec "activeDeadlineSeconds" ≡ some value)
        × (active_deadline_seconds json spec ≡ json.as_i64 value)
  unfolding require_active_deadline_seconds active_deadline_seconds
  deadline_lem spec prefix h agrees = elim (Option-cases (json.get spec "activeDeadlineSeconds")) [
    | inl e ↦ cc (rw (require_active_deadline_seconds, agrees, e) at h)
    | inr (value, e) ↦ (value, e, rw (active_deadline_seconds, e) refl)
  ]

  volumes_tier :
      (object field : String) (o : Option (List V)) (volume : V)
      → check_volumes json object field (volumes_of json o) ≡ none
      → and_then o (find_map (λ v. json.pointer v "/ephemeral/volumeClaimTemplate/spec"))
        ≡ some volume
      → (tier : StorageTier) × (parse_tier (get_str json volume "storageClassName") ≡ ok tier)
  unfolding volumes_of
  volumes_tier object field none volume h e = cc e
  volumes_tier object field (some volumes) volume h e =
      check_volumes-find object field volumes volume h e

  tier_lem :
      (object prefix : String) (spec volume : V)
      → validate_ephemeral_volume_storage_classes json object spec prefix ≡ none
      → find_ephemeral_volume json spec ≡ some volume
      → (tier : StorageTier) × (parse_tier (get_str json volume "storageClassName") ≡ ok tier)
  unfolding validate_ephemeral_volume_storage_classes find_ephemeral_volume
  tier_lem object prefix spec volume h e = volumes_tier object _ _ volume h e

-- What the pipeline relies on of the spec of a job: the member of the deadline, which the deadline
-- is read from, options that parse, and a known class of the volume that it creates, if any.
abbrev pub IsRunnable : {V : Type 0} → Json V → V → Type 0
IsRunnable {V} json spec =
    ((value : V) × (json.get spec "activeDeadlineSeconds" ≡ some value)
      × (active_deadline_seconds json spec ≡ json.as_i64 value))
    × ((options : RunOptions) × (parse_options json spec ≡ ok options))
    × ((volume : _)
        → find_ephemeral_volume json spec ≡ some volume
        → (tier : StorageTier) × (parse_tier (get_str json volume "storageClassName") ≡ ok tier))

module _ {C V F : Type 0} (ctx : JobContext C V F) (sql : Sql F) where
  open ctx use {json}

  finally_fits-none :
      (zone : String) (spec : V) (checked : Option Response) (w : World C F)
      → (finally_fits ctx sql zone spec checked w).0 ≡ ok none
      → checked ≡ none
  unfolding finally_fits pure
  finally_fits-none zone spec none w h = refl
  finally_fits-none zone spec (some r) w h = cc h

  template_checks-IsRunnable :
      (object prefix : String) (spec : V)
      → require_active_deadline_seconds json spec prefix ≡ none
      → template_checks ctx sql object spec prefix ≡ none
      → PointerIsGet json spec
      → IsRunnable json spec
  unfolding template_checks
  template_checks-IsRunnable object prefix spec required h agrees =
      let (classes, h1) = or_else-none _ _ h in
      let (limits, h2) = or_else-none _ _ h1 in
      let (env, options) = or_else-none _ _ h2 in
      (
        deadline_lem json spec prefix required agrees,
        options_lem json object prefix spec options,
        λ volume e. tier_lem json object prefix spec volume classes e,
      )

  -- Where a pointer of one name finds what `get` finds, a job that is admitted has the member
  -- `activeDeadlineSeconds`, from whose value its deadline is read; its container options parse; and
  -- the class of the volume that it asks for is known.
  pub admit_job-IsRunnable :
      (name zone : String) (spec : V) (w : World C F)
      → (admit_job ctx sql name zone spec w).0 ≡ ok none
      → PointerIsGet json spec
      → IsRunnable json spec
  unfolding admit_job
  admit_job-IsRunnable name zone spec w h =
      let checked = finally_fits-none zone spec _ w h in
      let (required, template) = or_else-none _ _ checked in
      template_checks-IsRunnable _ "spec" spec required template

  abbrev pub job_template : V → V
  job_template spec = unwrap_or_else (json.pointer spec "/jobTemplate/spec") json.null

  -- Where a pointer of one name finds what `get` finds, the runs of a cron job that is admitted have
  -- all that the pipeline relies on, and the scheduler can read the schedule. Its text is not empty
  -- and parses; the template has the member `activeDeadlineSeconds`, and the runs have its value for
  -- their deadline if that is an i64, and no deadline if not; the container options parse; and the
  -- class of the volume that a run creates is known.
  pub admit_cronjob-IsRunnable :
      {S : Type 0} (cron : Cron S) (name zone : String) (spec : V) (w : World C F)
      → (admit_cronjob ctx sql cron name zone spec w).0 ≡ ok none
      → PointerIsGet json (job_template spec)
      → HasSchedule json cron spec × IsRunnable json (job_template spec)
  unfolding admit_cronjob
  admit_cronjob-IsRunnable cron name zone spec w h agrees =
      let checked = finally_fits-none zone _ _ w h in
      let (required, h1) = or_else-none _ _ checked in
      let (schedule, h2) = or_else-none _ _ h1 in
      let (fields, template) = or_else-none _ _ h2 in
      (
        schedule_lem json cron _ spec schedule,
        template_checks-IsRunnable _ _ _ required template agrees,
      )
