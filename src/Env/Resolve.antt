-- ===== src/Env/Resolve.antt =====
-- `resolve` of src/container_env.rs: a container's environment, from its spec and the Secrets.
pub mod Names
pub mod Fields
use Prim.Native.String.compare
use Prim.Native.Nat.{Ordering}
use Prim.Native.String.{compare}
use kube_shim.Prelude.{
  ℕ, Bool, true, false, ◌||◌, not, Option, none, some, String, List, [], ◌∷◌, ◌++◌, ◌<>◌, str_eq,
  any, if◌then◌else◌,
}
use kube_shim.Program.{Result, ok, err, Call}
use kube_shim.Context.{Json, Output}
use kube_shim.Env.{
  Variables, set_var, is_valid_env_name, PodFields, str_of, get_str, is_optional, array_at, index,
  contains_char, find_entry, text_or_empty, and_then,
}
use kube_shim.Env.Expand.{expand}
use kube_shim.Env.Validate.{EnvSpecError, validate}

secret_not_found : String → String → String
secret_not_found name namespace =
    "secret \"" <> name <> "\" not found in namespace \"" <> namespace <> "\""

-- the order of Rust's `String`
abbrev str_leb : String → String → Bool
str_leb s t = elim (compare s t) [ Ordering.gt ↦ false | _ ↦ true ]

insert_key : {V : Type 0} → String × V → List (String × V) → List (String × V)
insert_key entry [] = entry ∷ []
insert_key entry (other ∷ rest) =
    if str_leb entry.0 other.0 then entry ∷ other ∷ rest else other ∷ insert_key entry rest

-- an object's entries by their sorted keys
unfoldable pub sort_keys : {V : Type 0} → List (String × V) → List (String × V)
unfolding insert_key
sort_keys [] = []
sort_keys (entry ∷ rest) = insert_key entry (sort_keys rest)

module _ {V : Type 0} (json : Json V) (output : Output) where
  secret_data : String → V → Result String (List (String × V))
  secret_data name content = elim (json.as_object content) [
    | none ↦ err ("Secret \"" <> name <> "\" data is not an object")
    | some map ↦ ok map
  ]

  -- "Secret .. key .." and the reason
  about_key : String → String → String → String
  about_key secret key reason = "Secret \"" <> secret <> "\" key \"" <> key <> "\" " <> reason

  decode_bytes : String → String → Option (List ℕ) → Result String String
  unfolding about_key
  decode_bytes secret key none =
      err (about_key secret key "is not base64-encoded (Secret data must be)")
  decode_bytes secret key (some bytes) = elim (output.from_utf8 bytes) [
    | none ↦ err (about_key secret key "is not valid UTF-8")
    | some value ↦
        if contains_char 0 value
        then err
            (about_key secret key "contains a NUL byte, which an environment variable can't hold")
        else ok value
  ]

  unfoldable pub decode_secret_value : String → String → V → Result String String
  unfolding decode_bytes
  decode_secret_value secret key raw = elim (json.as_str raw) [
    | none ↦ err (about_key secret key "is not a string")
    | some encoded ↦ decode_bytes secret key (output.base64_decode encoded)
  ]

  -- one variable for each key of a Secret
  unfoldable pub set_keys :
      String → String → List (String × V) → Variables → Result String Variables
  unfolding decode_secret_value
  set_keys secret_name prefix [] env = ok env
  set_keys secret_name prefix ((key, raw) ∷ content) env =
      if is_valid_env_name (prefix <> key)
      then and_then (decode_secret_value secret_name key raw)
          (λ value. set_keys secret_name prefix content (set_var env (prefix <> key) value))
      else err (
          "Secret \"" <> secret_name <> "\" key \"" <> key
          <> "\" is not a valid environment variable name (via envFrom)")

  module _ (pod : PodFields) (secrets : List (String × V)) where
    set_secret : V → String → String → Variables → Option V → Result String Variables
    unfolding set_keys secret_not_found secret_data
    set_secret secret_ref secret_name prefix env none =
        if is_optional json secret_ref
        then ok env
        else err (secret_not_found secret_name pod.namespace)
    set_secret secret_ref secret_name prefix env (some content) =
        and_then (secret_data secret_name content)
          (λ map. set_keys secret_name prefix (sort_keys map) env)

    -- the first loop: `envFrom`
    unfoldable pub set_sources : List V → Variables → Result String Variables
    unfolding set_secret
    set_sources [] env = ok env
    set_sources (source ∷ sources) env =
        let secret_ref = index json source "secretRef" in
        let secret_name = text_or_empty (json.as_str (index json secret_ref "name")) in
        let prefix = text_or_empty (get_str json source "prefix") in
        and_then (set_secret secret_ref secret_name prefix env (find_entry secret_name secrets))
          (set_sources sources)

    -- The value that an entry takes from a Secret; none where it is optional and missing.
    key_value : V → String → String → Option V → Result String (Option String)
    unfolding decode_secret_value
    key_value secret_ref secret_name key (some raw) =
        and_then (decode_secret_value secret_name key raw) (λ value. ok (some value))
    key_value secret_ref secret_name key none =
        if is_optional json secret_ref
        then ok none
        else err
            ("couldn't find key " <> key <> " in Secret " <> pod.namespace <> "/" <> secret_name)

    secret_value : V → String → String → Option V → Result String (Option String)
    unfolding key_value secret_not_found secret_data
    secret_value secret_ref secret_name key none =
        if is_optional json secret_ref
        then ok none
        else err (secret_not_found secret_name pod.namespace)
    secret_value secret_ref secret_name key (some content) =
        and_then (secret_data secret_name content)
          (λ map. key_value secret_ref secret_name key (find_entry key map))

    -- `{other:?}` of an `Option<&str>`
    debug_option : Option String → String
    debug_option none = "None"
    debug_option (some s) = "Some(" <> output.debug s <> ")"

    field_value : Option String → Result String (Option String)
    unfolding debug_option
    field_value none = err ("unsupported fieldRef " <> debug_option none)
    field_value (some path) =
        if str_eq path "metadata.name"
        then ok (some pod.name)
        else if str_eq path "metadata.namespace"
        then ok (some pod.namespace)
        else err ("unsupported fieldRef " <> debug_option (some path))

    value_from_source : V → Option V → Result String (Option String)
    unfolding secret_value field_value
    value_from_source value_from none =
        field_value (str_of json (json.pointer value_from "/fieldRef/fieldPath"))
    value_from_source value_from (some secret_ref) =
        let secret_name = text_or_empty (json.as_str (index json secret_ref "name")) in
        let key = text_or_empty (json.as_str (index json secret_ref "key")) in
        secret_value secret_ref secret_name key (find_entry secret_name secrets)

    -- An entry's value; none where the entry is left out.
    unfoldable pub entry_value : V → Variables → Option V → Result String (Option String)
    unfolding value_from_source
    entry_value entry env none = ok (some (expand (text_or_empty (get_str json entry "value")) env))
    entry_value entry env (some value_from) =
        value_from_source value_from (json.get value_from "secretKeyRef")

    set_entry : Variables → String → Option String → Variables
    set_entry env name none = env
    set_entry env name (some value) = set_var env name value

    -- the second loop: `env`
    unfoldable pub set_entries : List V → Variables → Result String Variables
    unfolding set_entry entry_value
    set_entries [] env = ok env
    set_entries (entry ∷ entries) env =
        let name = text_or_empty (json.as_str (index json entry "name")) in
        and_then (entry_value entry env (json.get entry "valueFrom"))
          (λ value. set_entries entries (set_entry env name value))

    invalid : EnvSpecError → String
    invalid e = "containers[0]." <> e.field <> ": unsupported value \"" <> e.value <> "\""

    checked : V → Result EnvSpecError Unit → Result String Variables
    unfolding set_sources set_entries invalid
    checked container (err e) = err (invalid e)
    checked container (ok _) =
        and_then (set_sources (array_at json container "envFrom") [])
          (set_entries (array_at json container "env"))

    unfoldable pub resolve_with_secrets : V → Result String Variables
    unfolding checked validate
    resolve_with_secrets container = checked container (validate json container)
