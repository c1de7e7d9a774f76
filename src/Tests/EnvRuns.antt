-- ===== src/Tests/EnvRuns.antt =====
-- The theorems on the environment of a container at concrete inputs. A JSON value is a
-- node; its text, items and keys stand in the functions below.
use mathlib.Core.List.{map}
use kube_shim.Prelude.{
  ◌≡◌, ◌↔◌, refl, ap, true, false, Option, none, some, String, List, [], ◌∷◌, select, str_eq,
  is_empty, if◌then◌else◌,
}
use kube_shim.Program.{ok}
use kube_shim.Context.{Json, Output, ContainerConfig}
use kube_shim.Env.{
  Variables, PodFields, find_entry, lookup, set_var, split_at, is_valid_env_name, array_at,
  contains_char,
}
use kube_shim.Env.Expand.{expand, dollar}
use kube_shim.Env.Expand.Grammar.{Expands}
use kube_shim.Env.Expand.Unique.{expand_iff, expand-doubled, doubled}
use kube_shim.Env.Validate.{validate_env_entry, is_supported_field_path}
use kube_shim.Env.Validate.Fields.{Laws}
use kube_shim.Env.Resolve.{resolve_with_secrets, entry_value}
use kube_shim.Env.Resolve.Names.{IsEnvironment, resolve_with_secrets-IsEnvironment}
use kube_shim.Env.Resolve.Fields.{IsField, entry_value-IsField}
use kube_shim.CloudInit.{container_config, fits, string_array}
use kube_shim.CloudInit.Bytes.{as_bytes}
use kube_shim.CloudInit.Framing.{chunks, pairs, expanded}
use kube_shim.CloudInit.Podman.{read_env_file}
use kube_shim.CloudInit.Files.{in_file, in_secrets, bytes_of, container_config-read}

abbrev env : Variables
env = ("A", "x") ∷ ("B", "two\nlines") ∷ []

expanded_text : expand "$(A)-$$(A)-$(C)-$(A" env ≡ "x-$(A)-$(C)-$(A"
unfolding expand split_at lookup dollar
expanded_text = refl

expand_iff_example : Expands env "$(A)" "x" ↔ ("x" ≡ expand "$(A)" env)
expand_iff_example = expand_iff "$(A)" "x" env

expand-doubled_example : expand (doubled "$(A)") env ≡ "$(A)"
expand-doubled_example = expand-doubled "$(A)" env

data Node : Type 0 where
  container env_items plain_entry the_name the_value field_entry source field_ref path command :
      Node
  other : Node

object : Node → Option (List (String × Node))
object container = some (("env", env_items) ∷ ("command", command) ∷ [])
object plain_entry = some (("name", the_name) ∷ ("value", the_value) ∷ [])
object field_entry = some (("name", the_name) ∷ ("valueFrom", source) ∷ [])
object source = some (("fieldRef", field_ref) ∷ [])
object field_ref = some (("fieldPath", path) ∷ [])
object _ = none

items : Node → Option (List Node)
items env_items = some (plain_entry ∷ field_entry ∷ [])
items command = some (the_value ∷ [])
items _ = none

string : Node → Option String
string the_name = some "A"
string the_value = some "$(A)"
string path = some "metadata.name"
string _ = none

abbrev member : Option (List (String × Node)) → String → Option Node
member none key = none
member (some entries) key = find_entry key entries

abbrev member_of : Option Node → String → Option Node
member_of none key = none
member_of (some v) key = member (object v) key

abbrev json : Json Node
json = record {
  null = other;
  from_str = λ _. none;
  parse_error = λ s. s;
  empty_object = other;
  to_text = λ _. "";
  is_null = λ _. false;
  get = λ v key. member (object v) key;
  pointer = λ v path.
      if str_eq path "/fieldRef/fieldPath"
      then member_of (member (object v) "fieldRef") "fieldPath"
      else none;
  as_i64 = λ _. none;
  as_u64 = λ _. none;
  as_str = string;
  as_array = items;
  as_bool = λ _. none;
  as_object = object;
}

laws : Laws json
laws = record {
  get_object = λ v entries key e. ap (λ o. member o key) e;
  field_pointer = λ v field_ref e. ap (λ o. member_of o "fieldPath") e;
}

abbrev output : Output
output = record {
  lossy = λ _. "";
  debug = λ s. s;
  rfc3339 = record { parse = λ _. none; format = λ _. [] };
  base64_decode = λ _. none;
  from_utf8 = λ _. none;
}

abbrev pod : PodFields
pod = record { name = "job"; namespace = "ns" }

resolved : resolve_with_secrets json output pod [] container ≡ ok (("A", "job") ∷ [])
unfolding resolve_with_secrets object array_at items validate_env_entry string is_valid_env_name
    is_empty is_supported_field_path set_var
resolved = refl

resolve_with_secrets-IsEnvironment_example : IsEnvironment (("A", "job") ∷ [])
resolve_with_secrets-IsEnvironment_example =
    resolve_with_secrets-IsEnvironment json output pod [] container (("A", "job") ∷ []) resolved

valid : validate_env_entry json field_entry "env[1]" ≡ ok tt
unfolding validate_env_entry object string is_valid_env_name is_empty is_supported_field_path
valid = refl

has_value_from : json.get field_entry "valueFrom" ≡ some source
unfolding object
has_value_from = refl

no_secret : json.get source "secretKeyRef" ≡ none
unfolding object
no_secret = refl

entry_value-IsField_example :
    IsField pod (entry_value json output pod [] field_entry [] (json.get field_entry "valueFrom"))
entry_value-IsField_example =
    entry_value-IsField json laws output pod [] field_entry source [] "env[1]" valid has_value_from
      no_secret

-- "A=x\n", "B" and its lines with NULs, and "x" with a NUL
abbrev config : ContainerConfig
config = record {
  env_file = 65 ∷ 61 ∷ 120 ∷ 10 ∷ [];
  secret_env = 66 ∷ 0 ∷ 116 ∷ 119 ∷ 111 ∷ 10 ∷ 108 ∷ 105 ∷ 110 ∷ 101 ∷ 115 ∷ 0 ∷ [];
  command = 120 ∷ 0 ∷ [];
  args = [];
}

configured : container_config json output container env ≡ ok config
unfolding container_config object fits contains_char string_array array_at items string expand
    split_at dollar lookup as_bytes
configured = refl

name_A : is_valid_env_name "A" ≡ true
unfolding is_valid_env_name is_empty
name_A = refl

name_B : is_valid_env_name "B" ≡ true
unfolding is_valid_env_name is_empty
name_B = refl

clean_A : contains_char 0 "x" ≡ false
unfolding contains_char
clean_A = refl

clean_B : contains_char 0 "two\nlines" ≡ false
unfolding contains_char
clean_B = refl

container_config-read_example :
    (read_env_file config.env_file ≡ map bytes_of (select in_file env))
    × (pairs (chunks 0 config.secret_env) ≡ map bytes_of (select in_secrets env))
    × (chunks 0 config.command ≡ expanded env (string_array json container "command"))
    × (chunks 0 config.args ≡ expanded env (string_array json container "args"))
container_config-read_example =
    container_config-read json output container env config
      ((name_A, clean_A), ((name_B, clean_B), tt)) configured

-- A value with a line break and a NUL gives three parts where two are read.
broken :
    container_config json output other (("B", "a\n\0b") ∷ [])
    ≡ ok (record {
      env_file = [];
      secret_env = 66 ∷ 0 ∷ 97 ∷ 10 ∷ 0 ∷ 98 ∷ 0 ∷ [];
      command = [];
      args = [];
    })
unfolding container_config object fits contains_char string_array array_at as_bytes
broken = refl
