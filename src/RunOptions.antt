-- ===== src/RunOptions.antt =====
-- src/run_options.rs: the options of a job's container that podman is given, from its spec.
pub mod Fields
pub mod Parse
pub mod Steps
pub mod Mount
pub mod Users
use Prim.Native.Char.{code}
use kube_shim.Prelude.{
  ℕ, zero, suc, ◌+◌, Bool, true, false, ◌&&◌, ◌||◌, not, leb, ◌==◌, Option, none, some, String,
  List, [], ◌∷◌, ◌<>◌, str_eq, any, find, show_ℕ, is_text, if◌then◌else◌,
}
use kube_shim.Program.{Result, ok, err}
use kube_shim.Env.{contains_char}

abbrev pub default_scratch_mount_path : String
default_scratch_mount_path = "/scratch"

abbrev pub max_id : ℕ
max_id = 2147483647

abbrev pub pod_security_context_fields : List String
pod_security_context_fields = "fsGroup" ∷ "runAsUser" ∷ "runAsGroup" ∷ "runAsNonRoot" ∷ []

abbrev pub container_security_context_fields : List String
container_security_context_fields =
    "runAsUser" ∷ "runAsGroup" ∷ "runAsNonRoot" ∷ "readOnlyRootFilesystem"
    ∷ "allowPrivilegeEscalation" ∷ []

abbrev pub scratch_mount_fields : List String
scratch_mount_fields = "name" ∷ "mountPath" ∷ "readOnly" ∷ []

pub data NoOp : Type 0 where
  bool : Bool → NoOp
  str : String → NoOp

abbrev pub container_no_op_values : List (String × NoOp)
container_no_op_values = ("privileged", bool false) ∷ []

abbrev pub scratch_mount_no_op_values : List (String × NoOp)
scratch_mount_no_op_values = ("mountPropagation", str "None") ∷ []

pub record SpecError : Type 0 where
  pub field : String
  pub value : String

abbrev pub spec_error_of : {A : Type 0} → String → String → Result SpecError A
spec_error_of field value = err (record { field = field; value = value })

pub record RunOptions : Type 0 where
  pub fs_group : Option ℕ
  pub user : Option String
  pub run_as_non_root : Bool
  pub read_only_root_filesystem : Bool
  pub no_new_privileges : Bool
  pub scratch_volume : String

-- `?`
infixl 10 ◌>>=◌ ◌>>◌
unfoldable pub ◌>>=◌ : {E A B : Type 0} → Result E A → (A → Result E B) → Result E B
ok a >>= f = f a
err e >>= f = err e

abbrev pub ◌>>◌ : {E A B : Type 0} → Result E A → Result E B → Result E B
r >> s = r >>= λ _. s

-- `Option::or`
abbrev pub or : {A : Type 0} → Option A → Option A → Option A
or none b = b
or (some a) b = some a

abbrev pub is_some : {A : Type 0} → Option A → Bool
is_some none = false
is_some (some a) = true

prepend_char : String → List String → List String
prepend_char c [] = c ∷ []
prepend_char c (part ∷ parts) = (c <> part) ∷ parts

-- `str::split` at a character
unfoldable pub split_on : ℕ → String → List String
unfolding prepend_char
split_on n String.[] = "" ∷ []
split_on n (String.◌∷◌ c s) =
    let parts = split_on n s in
    if code c == n then "" ∷ parts else prepend_char (String.◌∷◌ c "") parts

starts_with_slash : String → Bool
starts_with_slash String.[] = false
starts_with_slash (String.◌∷◌ c s) = code c == b'/'

unfoldable pub is_valid_mount_path : String → Bool
unfolding starts_with_slash split_on
is_valid_mount_path path =
    starts_with_slash path
    && not (str_eq path "/")
    && not (contains_char b':' path || contains_char 0 path || contains_char b'\n' path)
    && not (any (λ part. str_eq part "." || str_eq part "..") (split_on b'/' path))

-- `user` of the options: the container's ids win over the pod's.
unfoldable pub user_of : Option ℕ → Option ℕ → Bool → Result SpecError (Option String)
user_of none none of_container = ok none
user_of (some uid) none of_container = ok (some (show_ℕ uid))
user_of (some uid) (some gid) of_container = ok (some (show_ℕ uid <> ":" <> show_ℕ gid))
user_of none (some gid) of_container =
    spec_error_of
      (if of_container
        then "containers[0].securityContext.runAsGroup"
        else "securityContext.runAsGroup")
      (show_ℕ gid <> " (runAsGroup is only supported together with runAsUser)")

is_zero : Option ℕ → Bool
is_zero none = false
is_zero (some n) = n == 0

unfoldable pub check_non_root : Bool → Option ℕ → Option ℕ → Result SpecError Unit
unfolding is_zero
check_non_root run_as_non_root container_user pod_user =
    if run_as_non_root && is_zero (or container_user pod_user)
    then spec_error_of
        (if is_some container_user
          then "containers[0].securityContext.runAsUser"
          else "securityContext.runAsUser")
        "0 (runAsNonRoot is set)"
    else ok tt

-- the argument of `-v`
unfoldable pub volume_argument : String → Bool → String
volume_argument path read_only =
    default_scratch_mount_path <> ":" <> path <> ":" <> (if read_only then "ro,idmap" else "idmap")
