-- ===== src/Env/Validate/Fields.antt =====
-- The sources of a value that `validate` of src/container_env.rs lets through.

use mathlib.Core.Path.{subst}
use kube_shim.Prelude.{
  ◌≡◌, refl, sym, ◌∙◌, inl, inr, true, Option, none, some, String, List, [], ◌∷◌, ◌<>◌, str_eq,
  Bool-cases, Option-cases,
}
use kube_shim.Program.{ok}
use kube_shim.Context.{Json}
use kube_shim.Env.{str_of, get_str, find_entry, text_or_empty}
use kube_shim.Env.Names.{and_then-ok}
use kube_shim.Env.Validate.{
  is_supported_field_path, is_non_empty, validate_env_name, validate_field_ref, validate_kinds,
  validate_value_from, validate_env_entry,
}

-- the documented behaviour of serde_json: `get` of an object finds a key's value, and a pointer goes
-- from key to key
pub record Laws {V : Type 0} (json : Json V) : Type 0 where
  pub get_object :
      (v : V) (entries : List (String × V)) (key : String)
      → json.as_object v ≡ some entries
      → json.get v key ≡ find_entry key entries
  pub field_pointer :
      (v field_ref : V)
      → json.get v "fieldRef" ≡ some field_ref
      → json.pointer v "/fieldRef/fieldPath" ≡ json.get field_ref "fieldPath"

module _ {V : Type 0} (json : Json V) (laws : Laws json) where
  -- the path that `resolve_with_secrets` reads
  abbrev pub path_of : V → Option String
  path_of value_from = str_of json (json.pointer value_from "/fieldRef/fieldPath")

  validate_field_ref-supported :
      (field_ref : V) (field : String)
      → validate_field_ref json field_ref field ≡ ok tt
      → is_supported_field_path (text_or_empty (get_str json field_ref "fieldPath")) ≡ true
  unfolding validate_field_ref
  validate_field_ref-supported field_ref field h =
      elim (Bool-cases
        (is_supported_field_path (text_or_empty (get_str json field_ref "fieldPath")))) [
          | inl e ↦ e
          | inr e ↦ cc (rw e at h)
        ]

  validate_kinds-supported :
      (value_from : V) (sources : List (String × V)) (field : String)
      → json.as_object value_from ≡ some sources
      → json.get value_from "secretKeyRef" ≡ none
      → validate_kinds json sources field ≡ ok tt
      → is_supported_field_path (text_or_empty (path_of value_from)) ≡ true
  unfolding validate_kinds
  validate_kinds-supported value_from [] field o absent h = cc
  validate_kinds-supported value_from (a ∷ b ∷ rest) field o absent h = cc
  validate_kinds-supported value_from ((kind, source) ∷ []) field o absent h =
      elim (Bool-cases (str_eq kind "secretKeyRef")) [
        | inl e ↦
            cc (absent, rw e at (laws.get_object value_from ((kind, source) ∷ []) "secretKeyRef" o))
        | inr e ↦ elim (Bool-cases (str_eq kind "fieldRef")) [
          | inl e' ↦
              let got =
                laws.get_object value_from ((kind, source) ∷ []) "fieldRef" o ∙ rw e' refl in
              subst (λ x. is_supported_field_path (text_or_empty (str_of json x)) ≡ true)
                (sym (laws.field_pointer value_from source got))
                (validate_field_ref-supported source field (rw (e, e') at h))
          | inr e' ↦ cc (rw (e, e') at h)
        ]
      ]

  validate_value_from-supported :
      (entry value_from : V) (field : String)
      → json.get value_from "secretKeyRef" ≡ none
      → validate_value_from json entry (some value_from) field ≡ ok tt
      → is_supported_field_path (text_or_empty (path_of value_from)) ≡ true
  unfolding validate_value_from
  validate_value_from-supported entry value_from field absent h =
      elim (Bool-cases (is_non_empty (get_str json entry "value"))) [
        | inl e ↦ cc (rw e at h)
        | inr e ↦ elim (Option-cases (json.as_object value_from)) [
          | inl e' ↦ cc (rw (e, e') at h)
          | inr (sources, e') ↦
              validate_kinds-supported value_from sources field e' absent (rw (e, e') at h)
        ]
      ]

  -- A field that a valid entry takes its value from is one of the supported ones.
  pub validate_env_entry-supported :
      (entry value_from : V) (field : String)
      → validate_env_entry json entry field ≡ ok tt
      → json.get entry "valueFrom" ≡ some value_from
      → json.get value_from "secretKeyRef" ≡ none
      → is_supported_field_path (text_or_empty (path_of value_from)) ≡ true
  unfolding validate_env_entry
  validate_env_entry-supported entry value_from field h from absent =
      let (u, named, rest) =
        and_then-ok (validate_env_name (get_str json entry "name") (field <> ".name"))
          (λ _. validate_value_from json entry (json.get entry "valueFrom") field) tt h in
      validate_value_from-supported entry value_from field absent (rw from at rest)
