-- ===== src/RunOptions/Steps.antt =====
-- The steps of `parse` of src/run_options.rs that have led to its answer.
use mathlib.Core.Path.{subst}
use kube_shim.Prelude.{ℕ, ◌≡◌, refl, sym, ap, ◌∙◌, Option, String}
use kube_shim.Program.{Result, ok, err}
use kube_shim.Context.{Json}
use kube_shim.Env.Names.{ok_injective}
use kube_shim.RunOptions.{◌>>=◌, RunOptions, or, is_some, user_of, check_non_root}
use kube_shim.RunOptions.Fields.{scratch_mount}
use kube_shim.RunOptions.Parse.{scratch_volume_of, flags_of, parse_options, validate_options}

pub bind-ok :
    {E A B : Type 0} (r : Result E A) (f : A → Result E B) (b : B)
    → (r >>= f) ≡ ok b
    → (a : A) × (r ≡ ok a) × (f a ≡ ok b)
unfolding ◌>>=◌
bind-ok (ok a) f b h = (a, refl, h)
bind-ok (err e) f b h = cc

module _ {V : Type 0} (json : Json V) where
  pub record Flags (job_spec : V) (fs_group pod_user container_user : Option ℕ)
      (user : Option String) (options : RunOptions) : Type 0 where
    pub same_group : options.fs_group ≡ fs_group
    pub same_user : options.user ≡ user
    pub checked : check_non_root options.run_as_non_root container_user pod_user ≡ ok tt
    pub mount : scratch_volume_of json (scratch_mount json job_spec) ≡ ok options.scratch_volume

  flags_of-ok :
      (job_spec : V) (fs_group pod_user container_user : Option ℕ) (user : Option String)
      (options : RunOptions)
      → flags_of json job_spec fs_group pod_user container_user user ≡ ok options
      → Flags job_spec fs_group pod_user container_user user options
  unfolding flags_of
  flags_of-ok job_spec fs_group pod_user container_user user options h =
      let (pod_non_root, e1, h1) = bind-ok _ _ options h in
      let (container_non_root, e2, h2) = bind-ok _ _ options h1 in
      let (checked, e3, h3) = bind-ok _ _ options h2 in
      let (read_only, e4, h4) = bind-ok _ _ options h3 in
      let (escalation, e5, h5) = bind-ok _ _ options h4 in
      let (volume, e6, h6) = bind-ok _ _ options h5 in
      subst (Flags job_spec fs_group pod_user container_user user) (ok_injective _ options h6)
        (record { same_group = refl; same_user = refl; checked = e3; mount = e6 })

  pub record Steps (job_spec : V) (options : RunOptions) : Type 0 where
    pub pod_user : Option ℕ
    pub container_user : Option ℕ
    pub pod_group : Option ℕ
    pub container_group : Option ℕ
    pub user_read :
        user_of
          (or container_user pod_user)
          (or container_group pod_group)
          (is_some container_group)
        ≡ ok options.user
    pub checked : check_non_root options.run_as_non_root container_user pod_user ≡ ok tt
    pub scratch : scratch_volume_of json (scratch_mount json job_spec) ≡ ok options.scratch_volume

  pub parse_options-ok :
      (job_spec : V) (options : RunOptions)
      → parse_options json job_spec ≡ ok options
      → Steps job_spec options
  unfolding parse_options
  parse_options-ok job_spec options h =
      let (fs_group, e1, h1) = bind-ok _ _ options h in
      let (pod_user, e2, h2) = bind-ok _ _ options h1 in
      let (pod_group, e3, h3) = bind-ok _ _ options h2 in
      let (container_user, e4, h4) = bind-ok _ _ options h3 in
      let (container_group, e5, h5) = bind-ok _ _ options h4 in
      let (user, e6, h6) = bind-ok _ _ options h5 in
      let flags = flags_of-ok job_spec fs_group pod_user container_user user options h6 in
      record {
        pod_user = pod_user;
        container_user = container_user;
        pod_group = pod_group;
        container_group = container_group;
        user_read = e6 ∙ ap ok (sym flags.same_user);
        checked = flags.checked;
        scratch = flags.mount;
      }

  -- What is validated parses.
  pub validate_options-ok :
      (job_spec : V)
      → validate_options json job_spec ≡ ok tt
      → (options : RunOptions) × (parse_options json job_spec ≡ ok options)
  unfolding validate_options
  validate_options-ok job_spec h =
      let (checked, e, h') = bind-ok _ _ tt h in
      let (options, parsed, h'') = bind-ok _ _ tt h' in (options, parsed)
