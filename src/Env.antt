-- ===== src/Env.antt =====
-- src/container_env.rs: the environment of a job's container.
pub mod Expand
pub mod Validate
pub mod Resolve
pub mod Secrets
pub mod Names
use Prim.Native.Char.{code}
use kube_shim.Prelude.{
  ℕ, Bool, true, false, ◌&&◌, ◌||◌, not, leb, ltb, Option, none, some, String, List, [], ◌∷◌, ◌==◌,
  str_eq, is_empty, if◌then◌else◌,
}
use kube_shim.Program.{Result, ok, err}
use kube_shim.Context.{Json}

-- the variables, in the order in which they were first set
abbrev pub Variables : Type 0
Variables = List (String × String)

-- `env.iter().find(|(n, _)| n == name)`
unfoldable pub lookup : String → Variables → Option String
lookup name [] = none
lookup name ((n, value) ∷ env) = if str_eq n name then some value else lookup name env

unfoldable pub set_var : Variables → String → String → Variables
set_var [] name value = (name, value) ∷ []
set_var ((n, old) ∷ env) name value =
    if str_eq n name then (n, value) ∷ env else (n, old) ∷ set_var env name value

-- what stands before the first character of this number, and what after it
unfoldable pub split_at : ℕ → String → Option (String × String)
split_at n String.[] = none
split_at n (String.◌∷◌ c s) = if code c == n then some ("", s) else elim (split_at n s) [
  | none ↦ none
  | some (before, after) ↦ some (String.◌∷◌ c before, after)
]

-- `bytes().all(..)` of a name: a character beyond ASCII has no byte in the range.
all_name : String → Bool
all_name String.[] = true
all_name (String.◌∷◌ c s) =
    (leb 0x20 (code c) && ltb (code c) 0x7f && not (code c == b'=')) && all_name s

unfoldable pub is_valid_env_name : String → Bool
unfolding all_name
is_valid_env_name name = not (is_empty name) && all_name name

-- `chars().any(..)`: the text contains this character
unfoldable pub contains_char : ℕ → String → Bool
contains_char n String.[] = false
contains_char n (String.◌∷◌ c s) = code c == n || contains_char n s

-- a value of an object
abbrev pub find_entry : {V : Type 0} → String → List (String × V) → Option V
find_entry key [] = none
find_entry key ((k, v) ∷ map) = if str_eq k key then some v else find_entry key map

-- `as_str().unwrap_or_default()`
abbrev pub text_or_empty : Option String → String
text_or_empty none = ""
text_or_empty (some s) = s

-- what `?` does between two results
abbrev pub and_then : {E A B : Type 0} → Result E A → (A → Result E B) → Result E B
and_then (ok a) f = f a
and_then (err e) f = err e

-- The pod-level fields a `fieldRef` can read.
pub record PodFields : Type 0 where
  pub name : String
  pub namespace : String

module _ {V : Type 0} (json : Json V) where
  abbrev pub str_of : Option V → Option String
  str_of none = none
  str_of (some v) = json.as_str v

  -- `get(key).and_then(JsonValue::as_str)`
  abbrev pub get_str : V → String → Option String
  get_str v key = str_of (json.get v key)

  non_empty : Option String → Option String
  non_empty none = none
  non_empty (some s) = if is_empty s then none else some s

  unfoldable pub non_empty_str : V → String → Option String
  unfolding non_empty
  non_empty_str v key = non_empty (get_str v key)

  bool_of : Option V → Option Bool
  bool_of none = none
  bool_of (some v) = json.as_bool v

  unfoldable pub is_optional : V → Bool
  unfolding bool_of
  is_optional reference = elim (bool_of (json.get reference "optional")) [
    | none ↦ false
    | some b ↦ b
  ]

  entries_of : Option V → List V
  entries_of none = []
  entries_of (some v) = elim (json.as_array v) [ none ↦ [] | some items ↦ items ]

  -- `get(key).and_then(JsonValue::as_array)`, and no item where there is no array
  unfoldable pub array_at : V → String → List V
  unfolding entries_of
  array_at container key = entries_of (json.get container key)

  -- indexing by `[key]`: null where there is no value
  abbrev pub index : V → String → V
  index v key = elim (json.get v key) [ none ↦ json.null | some item ↦ item ]
