-- ===== src/Env/Resolve/Fields.antt =====
-- `fieldRef` in `resolve_with_secrets` of src/container_env.rs.
use mathlib.Core.Bool.{false≢true}
use kube_shim.Prelude.{
  ◌≡◌, refl, ◌⊎◌, inl, inr, true, Option, none, some, String, List, str_eq, Bool-cases,
}
use kube_shim.Program.{Result, ok}
use kube_shim.Context.{Json, Output}
use kube_shim.Env.{Variables, PodFields, text_or_empty}
use kube_shim.Env.Validate.{is_supported_field_path, validate_env_entry}
use kube_shim.Env.Validate.Fields.{Laws, path_of, validate_env_entry-supported}
use kube_shim.Env.Resolve.{field_value, value_from_source, entry_value}

-- the value of a supported field
abbrev pub IsField : PodFields → Result String (Option String) → Type 0
IsField pod r = (r ≡ ok (some pod.name)) ⊎ (r ≡ ok (some pod.namespace))

field_value-IsField :
    {V : Type 0} (json : Json V) (output : Output) (pod : PodFields) (secrets : List (String × V))
    (path : Option String)
    → is_supported_field_path (text_or_empty path) ≡ true
    → IsField pod (field_value json output pod secrets path)
unfolding field_value is_supported_field_path
field_value-IsField json output pod secrets none h = elim (false≢true h) [ ]
field_value-IsField json output pod secrets (some path) h =
    elim (Bool-cases (str_eq path "metadata.name")) [
      | inl e ↦ rw e (inl refl)
      | inr e ↦ elim (Bool-cases (str_eq path "metadata.namespace")) [
        | inl e' ↦ rw (e, e') (inr refl)
        | inr e' ↦ elim (false≢true (rw (e, e') at h)) [ ]
      ]
    ]

-- An entry that `validate` lets through, with a `valueFrom` other than a `secretKeyRef`, never ends
-- in the error "unsupported fieldRef": its value is the pod's name or its namespace.
pub entry_value-IsField :
    {V : Type 0} (json : Json V) (laws : Laws json) (output : Output) (pod : PodFields)
    (secrets : List (String × V)) (entry value_from : V) (env : Variables) (field : String)
    → validate_env_entry json entry field ≡ ok tt
    → json.get entry "valueFrom" ≡ some value_from
    → json.get value_from "secretKeyRef" ≡ none
    → IsField pod (entry_value json output pod secrets entry env (json.get entry "valueFrom"))
unfolding entry_value value_from_source
entry_value-IsField json laws output pod secrets entry value_from env field valid from absent =
    rw (from, absent)
      (field_value-IsField json output pod secrets (path_of json laws value_from)
        (validate_env_entry-supported json laws entry value_from field valid from absent))
