-- ===== src/RunOptions/Fields.antt =====
-- The fields of a spec that src/run_options.rs reads, one at a time.
use kube_shim.Prelude.{
  ℕ, suc, Bool, false, ◌&&◌, not, leb, Option, none, some, String, List, [], ◌∷◌, ◌<>◌, str_eq, any,
  find, is_text, if◌then◌else◌,
}
use kube_shim.Program.{Result, ok}
use kube_shim.Context.{Json}
use kube_shim.Env.{get_str}
use kube_shim.Job.Spec.{and_then}
use kube_shim.RunOptions.{NoOp, bool, str, SpecError, spec_error_of, ◌>>◌, max_id, is_some}

module _ {V : Type 0} (json : Json V) where
  matches_text : String → Option String → Bool
  matches_text expected none = false
  matches_text expected (some s) = str_eq expected s

  matches_bool : Bool → Option Bool → Bool
  matches_bool expected none = false
  matches_bool expected (some b) = if expected then b else not b

  unfoldable pub matches : NoOp → V → Bool
  unfolding matches_bool matches_text
  matches (bool expected) value = matches_bool expected (json.as_bool value)
  matches (str expected) value = matches_text expected (json.as_str value)

  find_no_op : String → List (String × NoOp) → Option NoOp
  find_no_op key [] = none
  find_no_op key ((name, no_op) ∷ no_ops) =
      if str_eq name key then some no_op else find_no_op key no_ops

  -- a key that is not supported
  check_no_op : String → String → V → Option NoOp → Result SpecError Unit
  unfolding matches
  check_no_op field key v none = spec_error_of field key
  check_no_op field key v (some no_op) =
      if not (json.is_null v) && not (matches no_op v)
      then spec_error_of (field <> "." <> key) (json.to_text v)
      else ok tt

  reject_unknown_keys :
      List (String × V) → List String → List (String × NoOp) → String → Result SpecError Unit
  unfolding find_no_op check_no_op
  reject_unknown_keys [] supported no_ops field = ok tt
  reject_unknown_keys ((key, v) ∷ map) supported no_ops field =
      let rest = reject_unknown_keys map supported no_ops field in
      if any (λ s. str_eq s key) supported
      then rest
      else (check_no_op field key v (find_no_op key no_ops) >> rest)

  unfoldable pub reject_unknown_fields :
      V → List String → List (String × NoOp) → String → Result SpecError Unit
  unfolding reject_unknown_keys
  reject_unknown_fields value supported no_ops field =
      if json.is_null value then ok tt else elim (json.as_object value) [
        | none ↦ spec_error_of field (json.to_text value)
        | some map ↦ reject_unknown_keys map supported no_ops field
      ]

  -- a number up to the limit
  bounded : String → V → Option ℕ → Result SpecError (Option ℕ)
  bounded field value none = spec_error_of field (json.to_text value)
  bounded field value (some id) =
      if leb id max_id then ok (some id) else spec_error_of field (json.to_text value)

  id_of : String → Option V → Result SpecError (Option ℕ)
  unfolding bounded
  id_of field none = ok none
  id_of field (some value) =
      if json.is_null value then ok none else bounded field value (json.as_u64 value)

  unfoldable pub id_field : Option V → String → String → Result SpecError (Option ℕ)
  unfolding id_of
  id_field security_context key prefix =
      id_of (prefix <> "." <> key) (and_then security_context (λ sc. json.get sc key))

  bool_value : String → V → Option Bool → Result SpecError (Option Bool)
  bool_value field value none = spec_error_of field (json.to_text value)
  bool_value field value (some b) = ok (some b)

  bool_at : String → Option V → Result SpecError (Option Bool)
  unfolding bool_value
  bool_at field none = ok none
  bool_at field (some value) =
      if json.is_null value then ok none else bool_value field value (json.as_bool value)

  unfoldable pub bool_field : Option V → String → String → Result SpecError (Option Bool)
  unfolding bool_at
  bool_field security_context key prefix =
      bool_at (prefix <> "." <> key) (and_then security_context (λ sc. json.get sc key))

  -- the first mount of this name, with its index
  find_mount : String → ℕ → List V → Option (ℕ × V)
  find_mount name i [] = none
  find_mount name i (mount ∷ mounts) =
      if is_text (get_str json mount "name") name
      then some (i, mount)
      else find_mount name (suc i) mounts

  unfoldable pub scratch_mount : V → Option (ℕ × V)
  unfolding find_mount
  scratch_mount job_spec =
      let volumes = and_then (json.pointer job_spec "/template/spec/volumes") json.as_array in
      let volume = and_then volumes (find (λ v. is_some (json.get v "ephemeral"))) in
      and_then (and_then volume (λ v. get_str json v "name")) (λ volume_name.
        and_then
          (and_then (json.pointer job_spec "/template/spec/containers/0/volumeMounts")
            json.as_array)
          (find_mount volume_name 0))
