-- ===== src/CloudInit.antt =====
-- src/cloud_init.rs: the files that a worker's container is started from, `container_config`.
pub mod Bytes
pub mod Framing
pub mod Podman
pub mod Files
use Prim.Native.Char.{code}
use Prim.Native.String.{len}
use kube_shim.Prelude.{
  ℕ, ◌*◌, Bool, true, false, ◌&&◌, ◌||◌, not, leb, Option, none, some, String, List, [], ◌∷◌, ◌++◌,
  ◌<>◌, ◌==◌, show_ℕ, if◌then◌else◌,
}
use kube_shim.Program.{Result, ok, err}
use kube_shim.Context.{Json, Output, ContainerConfig}
use kube_shim.Env.{Variables, array_at, contains_char, and_then}
use kube_shim.Env.Expand.{expand}
use kube_shim.CloudInit.Bytes.{as_bytes}

abbrev pub max_env_file_line : ℕ
max_env_file_line = 60 * 1024

abbrev pub max_secret_env_value : ℕ
max_secret_env_value = 512 * 1024

-- `starts_with([' ', '#'])`
pub starts_with_space_or_hash : String → Bool
starts_with_space_or_hash String.[] = false
starts_with_space_or_hash (String.◌∷◌ c s) = code c == b' ' || code c == b'#'

abbrev pub env_line : String → String → String
env_line name value = name <> ("=" <> (value <> "\n"))

-- The variable is written to the file of `--env-file`.
unfoldable pub fits : String → String → Bool
fits name value =
    not (contains_char b'\n' value || contains_char b'\r' value)
    && leb (len (env_line name value)) max_env_file_line

-- the entry of a variable in the file of secrets
abbrev pub secret_pair : String → String → List ℕ
secret_pair name value = as_bytes name ++ 0 ∷ as_bytes value ++ 0 ∷ []

module _ (output : Output) where
  write_secret : String → String → List ℕ × List ℕ → Result String (List ℕ × List ℕ)
  write_secret name value files =
      if contains_char b',' name
      then err (
          "environment variable "
          <> output.debug name
          <> " has a multi-line or very long value, which is only supported for names without ','")
      else if not (leb (len value) max_secret_env_value)
      then err (
          "environment variable "
          <> name
          <> " is longer than "
          <> show_ℕ max_secret_env_value
          <> " bytes, podman's limit for a secret")
      else ok (files.0, files.1 ++ secret_pair name value)

  -- the body of the loop over the variables
  unfoldable pub write_variable :
      String → String → List ℕ × List ℕ → Result String (List ℕ × List ℕ)
  unfolding write_secret starts_with_space_or_hash
  write_variable name value files =
      if starts_with_space_or_hash name
      then err (
          "environment variable name "
          <> output.debug name
          <> " can't start with a space or '#' (not representable in podman's --env-file)")
      else if fits name value
      then ok (files.0 ++ as_bytes (env_line name value), files.1)
      else write_secret name value files

  -- the files of the variables and of the secrets, after what they hold
  unfoldable pub write_variables : Variables → List ℕ × List ℕ → Result String (List ℕ × List ℕ)
  unfolding write_variable
  write_variables [] files = ok files
  write_variables ((name, value) ∷ env) files =
      and_then (write_variable name value files) (write_variables env)

-- the entries, expanded, each with a NUL after it
unfoldable pub write_entries : String → Variables → List String → List ℕ → Result String (List ℕ)
write_entries field env [] out = ok out
write_entries field env (entry ∷ entries) out =
    let expanded = expand entry env in
    if contains_char 0 expanded
    then err ("containers[0]." <> field <> " contains a NUL byte")
    else write_entries field env entries (out ++ as_bytes expanded ++ 0 ∷ [])

module _ {V : Type 0} (json : Json V) where
  unfoldable pub first_container : V → Result String V
  first_container spec = elim (json.pointer spec "/template/spec/containers/0") [
    | none ↦ err "job spec has no template.spec.containers[0]"
    | some container ↦ ok container
  ]

  -- `filter_map(JsonValue::as_str)`
  texts : List V → List String
  texts [] = []
  texts (v ∷ values) = elim (json.as_str v) [ none ↦ texts values | some s ↦ s ∷ texts values ]

  unfoldable pub string_array : V → String → List String
  unfolding texts
  string_array container field = texts (array_at json container field)

  unfoldable pub nul_terminated : V → Variables → String → Result String (List ℕ)
  unfolding write_entries
  nul_terminated container env field = write_entries field env (string_array container field) []

  unfoldable pub container_config : Output → V → Variables → Result String ContainerConfig
  unfolding write_variables nul_terminated
  container_config output container env = and_then (write_variables output env ([], [])) (λ files.
      and_then (nul_terminated container env "command") (λ command.
        and_then (nul_terminated container env "args") (λ args.
          ok
            (record { env_file = files.0; secret_env = files.1; command = command; args = args }))))
