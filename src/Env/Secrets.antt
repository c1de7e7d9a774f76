-- ===== src/Env/Secrets.antt =====
-- `resolve` of src/container_env.rs: the Secrets that a container names are read, and its environment
-- is made from them.
pub mod Calls
use kube_shim.Prelude.{
  Bool, true, false, Option, none, some, String, List, [], ◌∷◌, ◌++◌, ◌<>◌, str_eq, any,
  if◌then◌else◌,
}
use kube_shim.Program.{Result, ok, err, Call}
use kube_shim.Context.{Json, Output, Tables}
use kube_shim.Env.{Variables, PodFields, str_of, array_at, and_then}
use kube_shim.Env.Resolve.{resolve_with_secrets}

add_name : Option String → List String → List String
add_name none names = names
add_name (some name) names = if any (λ n. str_eq n name) names then names else names ++ name ∷ []

module _ {C V F : Type 0} (json : Json V) (output : Output) (tables : Tables C V F) where
  -- the names at a pointer of each item, after those that were found before
  add_names : String → List V → List String → List String
  unfolding add_name
  add_names pointer [] names = names
  add_names pointer (item ∷ items) names =
      add_names pointer items (add_name (str_of json (json.pointer item pointer)) names)

  unfoldable pub referenced_secret_names : V → List String
  unfolding add_names
  referenced_secret_names container =
      add_names "/valueFrom/secretKeyRef/name" (array_at json container "env")
        (add_names "/secretRef/name" (array_at json container "envFrom") [])

  -- A Secret that has no content has no keys.
  parsed : String → String → Result String V
  parsed name raw = elim (json.from_str raw) [
    | none ↦ err ("Secret \"" <> name <> "\" has unreadable data: " <> json.parse_error raw)
    | some content ↦ ok (if json.is_null content then json.empty_object else content)
  ]

  -- the Secrets with one more, where there is one
  added :
      String → List (String × V) → Result String (Option String) → Result String (List (String × V))
  unfolding parsed
  added name secrets (err e) = err ("reading Secret \"" <> name <> "\": " <> e)
  added name secrets (ok none) = ok secrets
  added name secrets (ok (some raw)) = and_then (parsed name raw) (λ v. ok ((name, v) ∷ secrets))

  -- the loop over the names; an error ends it
  unfoldable pub read_secrets :
      String
      → List String
      → Result String (List (String × V))
      → Call C (Result String (List (String × V)))
  unfolding added
  read_secrets namespace [] secrets c = (secrets, c)
  read_secrets namespace (name ∷ names) (err e) c = (err e, c)
  read_secrets namespace (name ∷ names) (ok secrets) c =
      let (row, c') = tables.secret namespace name c in
      read_secrets namespace names (added name secrets row) c'

  from_secrets : PodFields → V → Result String (List (String × V)) → Result String Variables
  from_secrets pod container (err e) = err e
  from_secrets pod container (ok secrets) = resolve_with_secrets json output pod secrets container

  unfoldable pub resolve : PodFields → V → Call C (Result String Variables)
  unfolding from_secrets read_secrets referenced_secret_names
  resolve pod container c =
      let (secrets, c') =
        read_secrets pod.namespace (referenced_secret_names container) (ok []) c in
      (from_secrets pod container secrets, c')
