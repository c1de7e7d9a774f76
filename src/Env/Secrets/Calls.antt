-- ===== src/Env/Secrets/Calls.antt =====
-- What `resolve` of src/container_env.rs calls outside.
use kube_shim.Prelude.{String, List, [], ◌∷◌}
use kube_shim.Program.{Result, ok, err}
use kube_shim.Program.Keeps.{CallKeeps}
use kube_shim.Context.{Json, Output, Tables}
use kube_shim.Env.{PodFields}
use kube_shim.Env.Secrets.{read_secrets, resolve}

module _ {C V F : Type 0} {P : C → Type 0} (json : Json V) (output : Output) (tables : Tables C V F)
    (secret : (namespace name : String) → CallKeeps P (tables.secret namespace name)) where
  read_secrets-CallKeeps :
      (namespace : String) (names : List String) (secrets : Result String (List (String × V)))
      → CallKeeps P (read_secrets json output tables namespace names secrets)
  unfolding read_secrets
  read_secrets-CallKeeps namespace [] secrets = record { at = λ c h. h }
  read_secrets-CallKeeps namespace (name ∷ names) (err e) = record { at = λ c h. h }
  read_secrets-CallKeeps namespace (name ∷ names) (ok secrets) = record {
    at = λ c h.
        (read_secrets-CallKeeps namespace names _).at (tables.secret namespace name c).1
          ((secret namespace name).at c h);
  }

  -- Only the Secrets are read.
  pub resolve-CallKeeps :
      (pod : PodFields) (container : V) → CallKeeps P (resolve json output tables pod container)
  unfolding resolve
  resolve-CallKeeps pod container = record {
    at = λ c h. (read_secrets-CallKeeps pod.namespace _ _).at c h;
  }
