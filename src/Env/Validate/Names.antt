-- ===== src/Env/Validate/Names.antt =====
-- The names that `validate` of src/container_env.rs lets through.
use mathlib.Core.Bool.{false≢true}
use kube_shim.Prelude.{
  ℕ, suc, ◌≡◌, inl, inr, true, Option, none, some, String, List, [], ◌∷◌, All, ◌<>◌, show_ℕ,
  is_empty, Bool-cases,
}
use kube_shim.Program.{ok}
use kube_shim.Context.{Json}
use kube_shim.Env.{is_valid_env_name, str_of, get_str, array_at, index, text_or_empty}
use kube_shim.Env.Names.{and_then-ok}
use kube_shim.Env.Validate.{
  validate_env_name, validate_value_from, validate_env_entry, validate_entries, validate_sources,
  validate,
}

module _ {V : Type 0} (json : Json V) where
  -- the name that `resolve_with_secrets` reads
  abbrev pub entry_name : V → String
  entry_name entry = text_or_empty (json.as_str (index json entry "name"))

  validate_env_name-valid :
      (name : Option String) (field : String)
      → validate_env_name name field ≡ ok tt
      → is_valid_env_name (text_or_empty name) ≡ true
  unfolding validate_env_name
  validate_env_name-valid none field h = cc
  validate_env_name-valid (some name) field h = elim (Bool-cases (is_valid_env_name name)) [
    | inl e ↦ e
    | inr e ↦ cc (rw e at h)
  ]

  -- where a name is read, `get` and the index are the same
  named_entry :
      (o : Option V)
      → is_valid_env_name (text_or_empty (str_of json o)) ≡ true
      → is_valid_env_name
          (text_or_empty (json.as_str (elim o [ none ↦ json.null | some item ↦ item ])))
        ≡ true
  unfolding is_valid_env_name is_empty
  named_entry none h = elim (false≢true h) [ ]
  named_entry (some v) h = h

  validate_env_entry-valid :
      (entry : V) (field : String)
      → validate_env_entry json entry field ≡ ok tt
      → is_valid_env_name (entry_name entry) ≡ true
  unfolding validate_env_entry
  validate_env_entry-valid entry field h =
      let (u, named, rest) =
        and_then-ok (validate_env_name (get_str json entry "name") (field <> ".name"))
          (λ _. validate_value_from json entry (json.get entry "valueFrom") field) tt h in
      named_entry (json.get entry "name")
        (validate_env_name-valid (get_str json entry "name") (field <> ".name") named)

  validate_entries-valid :
      (i : ℕ) (entries : List V)
      → validate_entries json i entries ≡ ok tt
      → All (λ entry. is_valid_env_name (entry_name entry) ≡ true) entries
  unfolding validate_entries
  validate_entries-valid i [] h = tt
  validate_entries-valid i (entry ∷ entries) h =
      let (u, here, rest) =
        and_then-ok (validate_env_entry json entry ("env[" <> show_ℕ i <> "]"))
          (λ _. validate_entries json (suc i) entries) tt h in
      (validate_env_entry-valid entry _ here, validate_entries-valid (suc i) entries rest)

  pub validate-valid :
      (container : V)
      → validate json container ≡ ok tt
      → All (λ entry. is_valid_env_name (entry_name entry) ≡ true) (array_at json container "env")
  unfolding validate
  validate-valid container h =
      let (u, here, rest) =
        and_then-ok (validate_entries json 0 (array_at json container "env"))
          (λ _. validate_sources json 0 (array_at json container "envFrom")) tt h in
      validate_entries-valid 0 (array_at json container "env") here
