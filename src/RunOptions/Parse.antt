-- ===== src/RunOptions/Parse.antt =====
-- `parse` and `validate` of src/run_options.rs.
use kube_shim.Prelude.{
  ℕ, Bool, true, false, not, Option, none, some, String, List, [], ◌<>◌, show_ℕ, if◌then◌else◌,
}
use kube_shim.Program.{Result, ok}
use kube_shim.Context.{Json}
use kube_shim.Job.Spec.{and_then, unwrap_or_else}
use kube_shim.RunOptions.{
  NoOp, SpecError, RunOptions, spec_error_of, ◌>>=◌, ◌>>◌, or, is_some, is_valid_mount_path,
  volume_argument, user_of, check_non_root, default_scratch_mount_path, pod_security_context_fields,
  container_security_context_fields, container_no_op_values, scratch_mount_fields,
  scratch_mount_no_op_values,
}
use kube_shim.RunOptions.Fields.{id_field, bool_field, scratch_mount, reject_unknown_fields}

module _ {V : Type 0} (json : Json V) where
  -- an optional Boolean of the mount
  unfoldable pub read_only_of : String → Option V → Result SpecError Bool
  read_only_of field none = ok false
  read_only_of field (some value) =
      if json.is_null value then ok false else elim (json.as_bool value) [
        | none ↦ spec_error_of field (json.to_text value)
        | some b ↦ ok b
      ]

  unfoldable pub mount_path : String → Option V → Result SpecError String
  mount_path field none = spec_error_of field ""
  mount_path field (some value) = elim (json.as_str value) [
    | none ↦ spec_error_of field (json.to_text value)
    | some path ↦ if is_valid_mount_path path then ok path else spec_error_of field path
  ]

  unfoldable pub scratch_volume_of : Option (ℕ × V) → Result SpecError String
  unfolding mount_path read_only_of volume_argument
  scratch_volume_of none = ok (volume_argument default_scratch_mount_path false)
  scratch_volume_of (some (i, mount)) =
      let field = "containers[0].volumeMounts[" <> show_ℕ i <> "]" in
      mount_path (field <> ".mountPath") (json.get mount "mountPath") >>= λ path.
      read_only_of (field <> ".readOnly") (json.get mount "readOnly") >>= λ read_only.
      ok (volume_argument path read_only)

  -- what follows `user` in `parse`
  unfoldable pub flags_of :
      V → Option ℕ → Option ℕ → Option ℕ → Option String → Result SpecError RunOptions
  unfolding bool_field check_non_root scratch_volume_of scratch_mount
  flags_of job_spec fs_group pod_user container_user user =
      let pod_sc = json.pointer job_spec "/template/spec/securityContext" in
      let container_sc = json.pointer job_spec "/template/spec/containers/0/securityContext" in
      bool_field json pod_sc "runAsNonRoot" "securityContext" >>= λ pod_non_root.
      bool_field json container_sc "runAsNonRoot" "containers[0].securityContext"
      >>= λ container_non_root.
          let run_as_non_root = unwrap_or_else (or container_non_root pod_non_root) false in
          check_non_root run_as_non_root container_user pod_user >>= λ _.
          bool_field json container_sc "readOnlyRootFilesystem" "containers[0].securityContext"
          >>= λ read_only.
              bool_field json container_sc "allowPrivilegeEscalation"
                "containers[0].securityContext"
              >>= λ escalation.
                  scratch_volume_of (scratch_mount json job_spec) >>= λ scratch_volume. ok (record {
                    fs_group = fs_group;
                    user = user;
                    run_as_non_root = run_as_non_root;
                    read_only_root_filesystem = unwrap_or_else read_only false;
                    no_new_privileges = not (unwrap_or_else escalation true);
                    scratch_volume = scratch_volume;
                  })

  -- `parse`
  unfoldable pub parse_options : V → Result SpecError RunOptions
  unfolding id_field user_of flags_of
  parse_options job_spec =
      let pod_sc = json.pointer job_spec "/template/spec/securityContext" in
      let container_sc = json.pointer job_spec "/template/spec/containers/0/securityContext" in
      id_field json pod_sc "fsGroup" "securityContext" >>= λ fs_group.
      id_field json pod_sc "runAsUser" "securityContext" >>= λ pod_user.
      id_field json pod_sc "runAsGroup" "securityContext" >>= λ pod_group.
      id_field json container_sc "runAsUser" "containers[0].securityContext" >>= λ container_user.
      id_field json container_sc "runAsGroup" "containers[0].securityContext" >>= λ container_group.
      user_of (or container_user pod_user) (or container_group pod_group) (is_some container_group)
      >>= λ user. flags_of job_spec fs_group pod_user container_user user

  reject_where_set : Option V → List String → List (String × NoOp) → String → Result SpecError Unit
  unfolding reject_unknown_fields
  reject_where_set none supported no_ops field = ok tt
  reject_where_set (some value) supported no_ops field =
      reject_unknown_fields json value supported no_ops field

  reject_mount : Option (ℕ × V) → Result SpecError Unit
  unfolding reject_unknown_fields
  reject_mount none = ok tt
  reject_mount (some (i, mount)) =
      reject_unknown_fields json mount scratch_mount_fields scratch_mount_no_op_values
        ("containers[0].volumeMounts[" <> show_ℕ i <> "]")

  -- `validate`
  unfoldable pub validate_options : V → Result SpecError Unit
  unfolding reject_where_set reject_mount scratch_mount parse_options
  validate_options job_spec =
      let pod_sc =
        and_then (json.pointer job_spec "/template/spec") (λ p. json.get p "securityContext") in
      let container_sc = json.pointer job_spec "/template/spec/containers/0/securityContext" in
      reject_where_set pod_sc pod_security_context_fields [] "securityContext"
      >> reject_where_set container_sc container_security_context_fields container_no_op_values
          "containers[0].securityContext"
      >> reject_mount (scratch_mount json job_spec)
      >> (parse_options job_spec >>= λ options. ok tt)
