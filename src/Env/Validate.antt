-- ===== src/Env/Validate.antt =====
-- `validate` of src/container_env.rs: the checks of `env` and `envFrom` that need no Secret.
pub mod Names
pub mod Fields
use kube_shim.Prelude.{
  ℕ, suc, Bool, true, false, ◌&&◌, not, ◌||◌, Option, none, some, String, List, [], ◌∷◌, ◌<>◌,
  str_eq, is_empty, select, length, show_ℕ, if◌then◌else◌,
}
use kube_shim.Program.{Result, ok, err}
use kube_shim.Context.{Json}
use kube_shim.Env.{
  is_valid_env_name, str_of, get_str, non_empty_str, array_at, text_or_empty, find_entry, and_then,
}

pub record EnvSpecError : Type 0 where
  pub field : String
  pub value : String

abbrev spec_error : String → String → Result EnvSpecError Unit
spec_error field value = err (record { field = field; value = value })

-- SUPPORTED_FIELD_PATHS
unfoldable pub is_supported_field_path : String → Bool
is_supported_field_path path = str_eq path "metadata.name" || str_eq path "metadata.namespace"

validate_env_name : Option String → String → Result EnvSpecError Unit
validate_env_name none field = spec_error field ""
validate_env_name (some name) field =
    if is_valid_env_name name then ok tt else spec_error field name

-- a prefix that is no text counts as invalid
prefix_text : Option String → String
prefix_text none = "="
prefix_text (some s) = s

is_non_empty : Option String → Bool
is_non_empty none = false
is_non_empty (some s) = not (is_empty s)

module _ {V : Type 0} (json : Json V) where
  require : V → String → String → Result EnvSpecError Unit
  require secret_ref key field = elim (non_empty_str json secret_ref key) [
    | none ↦ spec_error (field <> ".valueFrom.secretKeyRef." <> key) ""
    | some s ↦ ok tt
  ]

  validate_secret_key_ref : V → String → Result EnvSpecError Unit
  unfolding require
  validate_secret_key_ref secret_ref field =
      and_then (require secret_ref "name" field) (λ _. require secret_ref "key" field)

  validate_field_ref : V → String → Result EnvSpecError Unit
  validate_field_ref field_ref field =
      let path = text_or_empty (get_str json field_ref "fieldPath") in
      if is_supported_field_path path
      then ok tt
      else spec_error (field <> ".valueFrom.fieldRef.fieldPath") path

  -- the `match` on the kinds of a `valueFrom`
  validate_kinds : List (String × V) → String → Result EnvSpecError Unit
  unfolding validate_secret_key_ref validate_field_ref
  validate_kinds ((kind, source) ∷ []) field =
      if str_eq kind "secretKeyRef"
      then validate_secret_key_ref source field
      else if str_eq kind "fieldRef"
      then validate_field_ref source field
      else spec_error (field <> ".valueFrom") kind
  validate_kinds kinds field =
      spec_error (field <> ".valueFrom")
        ("exactly one of secretKeyRef or fieldRef must be set, got " <> show_ℕ (length kinds))

  validate_value_from : V → Option V → String → Result EnvSpecError Unit
  unfolding validate_kinds is_non_empty
  validate_value_from entry none field = ok tt
  validate_value_from entry (some value_from) field =
      if is_non_empty (get_str json entry "value")
      then spec_error (field <> ".valueFrom") "may not be specified when `value` is not empty"
      else elim (json.as_object value_from) [
        | none ↦ spec_error (field <> ".valueFrom") (json.to_text value_from)
        | some sources ↦ validate_kinds sources field
      ]

  unfoldable pub validate_env_entry : V → String → Result EnvSpecError Unit
  unfolding validate_env_name validate_value_from
  validate_env_entry entry field =
      and_then (validate_env_name (get_str json entry "name") (field <> ".name"))
        (λ _. validate_value_from entry (json.get entry "valueFrom") field)

  validate_prefix : Option V → String → Result EnvSpecError Unit
  unfolding prefix_text
  validate_prefix none field = ok tt
  validate_prefix (some v) field =
      let prefix = prefix_text (json.as_str v) in
      if not (is_empty prefix) && not (is_valid_env_name prefix)
      then spec_error (field <> ".prefix") prefix
      else ok tt

  validate_source_kinds : List (String × V) → String → Result EnvSpecError Unit
  validate_source_kinds ((kind, source) ∷ []) field =
      if str_eq kind "secretRef"
      then elim (non_empty_str json source "name") [
        | none ↦ spec_error (field <> ".secretRef.name") ""
        | some name ↦ ok tt
      ]
      else spec_error field kind
  validate_source_kinds kinds field =
      spec_error field ("exactly one of secretRef must be set, got " <> show_ℕ (length kinds))

  unfoldable pub validate_env_from_source : V → String → Result EnvSpecError Unit
  unfolding validate_prefix validate_source_kinds
  validate_env_from_source source field = elim (json.as_object source) [
    | none ↦ spec_error field (json.to_text source)
    | some map ↦
        and_then (validate_prefix (find_entry "prefix" map) field)
          (λ _. validate_source_kinds (select (λ e. not (str_eq e.0 "prefix")) map) field)
  ]

  unfoldable pub validate_entries : ℕ → List V → Result EnvSpecError Unit
  validate_entries i [] = ok tt
  validate_entries i (entry ∷ entries) =
      and_then (validate_env_entry entry ("env[" <> show_ℕ i <> "]"))
        (λ _. validate_entries (suc i) entries)

  unfoldable pub validate_sources : ℕ → List V → Result EnvSpecError Unit
  validate_sources i [] = ok tt
  validate_sources i (source ∷ sources) =
      and_then (validate_env_from_source source ("envFrom[" <> show_ℕ i <> "]"))
        (λ _. validate_sources (suc i) sources)

  unfoldable pub validate : V → Result EnvSpecError Unit
  unfolding validate_entries validate_sources
  validate container =
      and_then (validate_entries 0 (array_at json container "env"))
        (λ _. validate_sources 0 (array_at json container "envFrom"))
