-- ===== src/Env/Resolve/Names.antt =====
-- The names in an environment that `resolve_with_secrets` of src/container_env.rs makes.
use mathlib.Core.Bool.{false≢true}
use mathlib.Core.Path.{subst}
use kube_shim.Prelude.{
  ◌≡◌, refl, sym, ◌∙◌, inl, inr, true, false, Option, none, some, String, List, [], ◌∷◌, ◌<>◌,
  str_eq, str_eq_iff, All, Bool-cases,
}
use kube_shim.Program.{Result, ok, err}
use kube_shim.Context.{Json, Output}
use kube_shim.Env.{
  Variables, set_var, is_valid_env_name, PodFields, get_str, is_optional, array_at, index,
  find_entry, text_or_empty,
}
use kube_shim.Env.Names.{and_then-ok, ok_injective}
use kube_shim.Env.Validate.{EnvSpecError, validate}
use kube_shim.Env.Validate.Names.{entry_name, validate-valid}
use kube_shim.Env.Resolve.{
  sort_keys, decode_secret_value, secret_data, entry_value, set_keys, set_secret, set_sources,
  set_entry, set_entries, checked, resolve_with_secrets,
}

-- no variable twice
abbrev pub Distinct : Variables → Type 0
Distinct [] = Unit
Distinct (x ∷ env) = All (λ y. str_eq y.0 x.0 ≡ false) env × Distinct env

-- every name is one that Kubernetes accepts, and stands once
abbrev pub IsEnvironment : Variables → Type 0
IsEnvironment env = All (λ x. is_valid_env_name x.0 ≡ true) env × Distinct env

str_eq-sym : (s t : String) → str_eq s t ≡ false → str_eq t s ≡ false
str_eq-sym s t h = elim (Bool-cases (str_eq t s)) [
  | inl e ↦ elim (false≢true (sym h ∙ (str_eq_iff s t).1 (sym ((str_eq_iff t s).0 e)))) [ ]
  | inr e ↦ e
]

-- the variable's name, beside the names that there are
set_var-All :
    (P : String → Type 0) (env : Variables) (name value : String)
    → P name
    → All (λ x. P x.0) env
    → All (λ x. P x.0) (set_var env name value)
unfolding set_var
set_var-All P [] name value p h = (p, tt)
set_var-All P ((n, old) ∷ env) name value p h = elim (Bool-cases (str_eq n name)) [
  | inl e ↦ rw e h
  | inr e ↦ rw e (h.0, set_var-All P env name value p h.1)
]

set_var-Distinct :
    (env : Variables) (name value : String) → Distinct env → Distinct (set_var env name value)
unfolding set_var
set_var-Distinct [] name value h = (tt, tt)
set_var-Distinct ((n, old) ∷ env) name value h = elim (Bool-cases (str_eq n name)) [
  | inl e ↦ rw e h
  | inr e ↦ rw e (
    set_var-All (λ y. str_eq y n ≡ false) env name value (str_eq-sym n name e) h.0,
    set_var-Distinct env name value h.1,
  )
]

set_var-IsEnvironment :
    (env : Variables) (name value : String)
    → is_valid_env_name name ≡ true
    → IsEnvironment env
    → IsEnvironment (set_var env name value)
set_var-IsEnvironment env name value valid h = (
  set_var-All (λ n. is_valid_env_name n ≡ true) env name value valid h.0,
  set_var-Distinct env name value h.1,
)

module _ {V : Type 0} (json : Json V) (output : Output) where
  set_keys-IsEnvironment :
      (secret prefix : String) (content : List (String × V)) (env result : Variables)
      → set_keys json output secret prefix content env ≡ ok result
      → IsEnvironment env
      → IsEnvironment result
  unfolding set_keys
  set_keys-IsEnvironment secret prefix [] env result h k =
      subst IsEnvironment (ok_injective env result h) k
  set_keys-IsEnvironment secret prefix ((key, raw) ∷ content) env result h k =
      elim (Bool-cases (is_valid_env_name (prefix <> key))) [
        | inl e ↦
            let (value, _, rest) =
              and_then-ok (decode_secret_value json output secret key raw)
                (λ v. set_keys json output secret prefix content (set_var env (prefix <> key) v))
                result (rw e at h) in
            set_keys-IsEnvironment secret prefix content _ result rest
              (set_var-IsEnvironment env (prefix <> key) value e k)
        | inr e ↦ cc (rw e at h)
      ]

  module _ (pod : PodFields) (secrets : List (String × V)) where
    set_secret-IsEnvironment :
        (secret_ref : V) (secret prefix : String) (env : Variables) (found : Option V)
        (result : Variables)
        → set_secret json output pod secrets secret_ref secret prefix env found ≡ ok result
        → IsEnvironment env
        → IsEnvironment result
    unfolding set_secret
    set_secret-IsEnvironment secret_ref secret prefix env none result h k =
        elim (Bool-cases (is_optional json secret_ref)) [
          | inl e ↦ subst IsEnvironment (ok_injective env result (rw e at h)) k
          | inr e ↦ cc (rw e at h)
        ]
    set_secret-IsEnvironment secret_ref secret prefix env (some content) result h k =
        let (map, found, rest) =
          and_then-ok (secret_data json output secret content)
            (λ m. set_keys json output secret prefix (sort_keys m) env) result h in
        set_keys-IsEnvironment secret prefix (sort_keys map) env result rest k

    set_sources-IsEnvironment :
        (sources : List V) (env result : Variables)
        → set_sources json output pod secrets sources env ≡ ok result
        → IsEnvironment env
        → IsEnvironment result
    unfolding set_sources
    set_sources-IsEnvironment [] env result h k = subst IsEnvironment (ok_injective env result h) k
    set_sources-IsEnvironment (source ∷ sources) env result h k =
        let secret_ref = index json source "secretRef" in
        let secret = text_or_empty (json.as_str (index json secret_ref "name")) in
        let prefix = text_or_empty (get_str json source "prefix") in
        let found = find_entry secret secrets in
        let (next, here, rest) =
          and_then-ok (set_secret json output pod secrets secret_ref secret prefix env found)
            (set_sources json output pod secrets sources) result h in
        set_sources-IsEnvironment sources next result rest
          (set_secret-IsEnvironment secret_ref secret prefix env found next here k)

    set_entry-IsEnvironment :
        (env : Variables) (name : String) (value : Option String)
        → is_valid_env_name name ≡ true
        → IsEnvironment env
        → IsEnvironment (set_entry json output pod secrets env name value)
    unfolding set_entry
    set_entry-IsEnvironment env name none valid k = k
    set_entry-IsEnvironment env name (some value) valid k =
        set_var-IsEnvironment env name value valid k

    set_entries-IsEnvironment :
        (entries : List V) (env result : Variables)
        → All (λ entry. is_valid_env_name (entry_name json entry) ≡ true) entries
        → set_entries json output pod secrets entries env ≡ ok result
        → IsEnvironment env
        → IsEnvironment result
    unfolding set_entries
    set_entries-IsEnvironment [] env result valid h k =
        subst IsEnvironment (ok_injective env result h) k
    set_entries-IsEnvironment (entry ∷ entries) env result valid h k =
        let name = entry_name json entry in
        let (value, here, rest) =
          and_then-ok (entry_value json output pod secrets entry env (json.get entry "valueFrom"))
            (λ v.
              set_entries json output pod secrets entries
                (set_entry json output pod secrets env name v))
            result h in
        set_entries-IsEnvironment entries _ result valid.1 rest
          (set_entry-IsEnvironment env name value valid.0 k)

    checked-IsEnvironment :
        (container : V) (r : Result EnvSpecError Unit) (env : Variables)
        → validate json container ≡ r
        → checked json output pod secrets container r ≡ ok env
        → IsEnvironment env
    unfolding checked
    checked-IsEnvironment container (err e) env v h = cc
    checked-IsEnvironment container (ok u) env v h =
        let (first, here, rest) =
          and_then-ok (set_sources json output pod secrets (array_at json container "envFrom") [])
            (set_entries json output pod secrets (array_at json container "env")) env h in
        set_entries-IsEnvironment (array_at json container "env") first env
          (validate-valid json container v) rest
          (set_sources-IsEnvironment (array_at json container "envFrom") [] first here (tt, tt))

-- Whatever the container asks for and the Secrets hold, an environment that is resolved has only
-- names that Kubernetes accepts, and each of them once.
pub resolve_with_secrets-IsEnvironment :
    {V : Type 0} (json : Json V) (output : Output) (pod : PodFields) (secrets : List (String × V))
    (container : V) (env : Variables)
    → resolve_with_secrets json output pod secrets container ≡ ok env
    → IsEnvironment env
unfolding resolve_with_secrets
resolve_with_secrets-IsEnvironment json output pod secrets container env h =
    checked-IsEnvironment json output pod secrets container (validate json container) env refl h
