-- ===== src/CloudInit/Files.antt =====
-- What a worker reads from the files of `container_config` in src/cloud_init.rs.
use mathlib.Core.List.{append_assoc, append-nil, map}
use Prim.Native.String.{len}
use kube_shim.Prelude.{
  ℕ, ◌≡◌, refl, ap, sym, ◌∙◌, Bool, true, false, not, leb, Option, some, String, List, [], ◌∷◌,
  ◌++◌, ◌<>◌, All, select, arith, inl, inr, Bool-cases, if◌then◌else◌,
}
use kube_shim.Program.{ok}
use kube_shim.Context.{Json, Output, ContainerConfig}
use kube_shim.Env.{Variables, is_valid_env_name, contains_char}
use kube_shim.Env.Names.{valid_name-lacks, and_then-ok, ok_injective}
use kube_shim.CloudInit.{
  max_secret_env_value, env_line, fits, secret_pair, starts_with_space_or_hash, write_secret,
  write_variable, write_variables, string_array, nul_terminated, container_config,
}
use kube_shim.CloudInit.Bytes.{
  as_bytes, NoByte, NoByte-append, as_bytes-append, as_bytes-NoByte, as_bytes-one,
}
use kube_shim.CloudInit.Podman.{read_line-named, read_lines, read_env_file}
use kube_shim.CloudInit.Framing.{
  chunks, pairs, chunks-chunk, split_byte-before, expanded, nul_terminated-chunks,
}

-- The name is one that Kubernetes accepts, and the value has no NUL.
abbrev pub IsClean : String × String → Type 0
IsClean (name, value) = (is_valid_env_name name ≡ true) × (contains_char 0 value ≡ false)

abbrev pub in_file : String × String → Bool
in_file (name, value) = fits name value

abbrev pub in_secrets : String × String → Bool
in_secrets (name, value) = not (fits name value)

-- a variable as its bytes
abbrev pub bytes_of : String × String → Option (List ℕ × List ℕ)
bytes_of (name, value) = some (as_bytes name, as_bytes value)

-- what a variable adds to the files
abbrev file_part : String → String → List ℕ
file_part name value = if fits name value then as_bytes (env_line name value) else []

abbrev secret_part : String → String → List ℕ
secret_part name value = if fits name value then [] else secret_pair name value

file_bytes : Variables → List ℕ
file_bytes [] = []
file_bytes ((name, value) ∷ env) = file_part name value ++ file_bytes env

secret_bytes : Variables → List ℕ
secret_bytes [] = []
secret_bytes ((name, value) ∷ env) = secret_part name value ++ secret_bytes env

write_secret-ok :
    (output : Output) (name value : String) (files result : List ℕ × List ℕ)
    → write_secret output name value files ≡ ok result
    → result ≡ (files.0, files.1 ++ secret_pair name value)
unfolding write_secret
write_secret-ok output name value files result h = elim (Bool-cases (contains_char b',' name)) [
  | inl e ↦ cc (rw e at h)
  | inr e ↦ elim (Bool-cases (leb (len value) max_secret_env_value)) [
    | inl e' ↦ cc (rw (e, e') at h)
    | inr e' ↦ cc (rw (e, e') at h)
  ]
]

-- The name neither starts a comment nor loses its first character.
abbrev IsReadable : String × String → Type 0
IsReadable (name, value) = starts_with_space_or_hash name ≡ false

write_variable-ok :
    (output : Output) (name value : String) (files result : List ℕ × List ℕ)
    → write_variable output name value files ≡ ok result
    → IsReadable (name, value)
      × (result ≡ (files.0 ++ file_part name value, files.1 ++ secret_part name value))
unfolding write_variable
write_variable-ok output name value files result h =
    elim (Bool-cases (starts_with_space_or_hash name)) [
      | inl e ↦ cc (rw e at h)
      | inr e ↦ elim (Bool-cases (fits name value)) [
        | inl e' ↦ (e, rw e' (cc (append-nil files.1, (rw (e, e') at h))))
        | inr e' ↦ (
          e,
          rw e' (
              cc (
                append-nil files.0,
                write_secret-ok output name value files result (rw (e, e') at h),
              )),
        )
      ]
    ]

write_variables-ok :
    (output : Output) (env : Variables) (files result : List ℕ × List ℕ)
    → write_variables output env files ≡ ok result
    → All IsReadable env × (result ≡ (files.0 ++ file_bytes env, files.1 ++ secret_bytes env))
unfolding write_variables file_bytes secret_bytes
write_variables-ok output [] files result h = (tt, cc (append-nil files.0, append-nil files.1))
write_variables-ok output ((name, value) ∷ env) files result h =
    let (next, first, rest) = and_then-ok (write_variable output name value files) _ result h in
    let (readable, e) = write_variable-ok output name value files next first in
    let (others, e') = write_variables-ok output env next result rest in
    ((readable, others), e' ∙ rw e (simp append_assoc))

-- a line of the file of variables
env_line-bytes :
    (name value : String)
    → as_bytes (env_line name value) ≡ (as_bytes name ++ b'=' ∷ as_bytes value) ++ b'\n' ∷ []
env_line-bytes name value =
    rw
      (
        as_bytes-append name ("=" <> (value <> "\n")),
        as_bytes-append "=" (value <> "\n"),
        as_bytes-append value "\n",
        as_bytes-one "=" (omega arith),
        as_bytes-one "\n" (omega arith),
        append_assoc (as_bytes name) (b'=' ∷ as_bytes value) (b'\n' ∷ []),
      )
      refl

-- a value in the file of variables is one line
fits-lacks : (name value : String) → fits name value ≡ true → contains_char b'\n' value ≡ false
unfolding fits
fits-lacks name value h = ground arith

line-NoByte :
    (name value : String)
    → IsClean (name, value)
    → fits name value ≡ true
    → NoByte b'\n' (as_bytes name ++ b'=' ∷ as_bytes value)
line-NoByte name value h e =
    NoByte-append b'\n' (as_bytes name) (b'=' ∷ as_bytes value)
      (as_bytes-NoByte b'\n' name (omega arith)
        (valid_name-lacks b'\n' name (inl (omega arith)) h.0))
      (refl, as_bytes-NoByte b'\n' value (omega arith) (fits-lacks name value e))

-- podman reads the file of variables as what it was made of.
env_file-read :
    (env : Variables)
    → All IsClean env
    → All IsReadable env
    → read_env_file (file_bytes env) ≡ map bytes_of (select in_file env)
unfolding file_bytes chunks read_env_file read_lines
env_file-read [] h r = refl
env_file-read ((name, value) ∷ env) h r = elim (Bool-cases (fits name value)) [
  | inl e ↦
      rw
        (
          file_bytes,
          e,
          env_line-bytes name value,
          append_assoc (as_bytes name ++ b'=' ∷ as_bytes value) (b'\n' ∷ []) (file_bytes env),
          chunks-chunk b'\n' (as_bytes name ++ b'=' ∷ as_bytes value) (file_bytes env)
              (line-NoByte name value h.0 e),
          read_lines,
          read_line-named name (as_bytes value) h.0.0 r.0 (
              split_byte-before b'=' (as_bytes name) (as_bytes value) (
                as_bytes-NoByte b'=' name (omega arith)
                  (valid_name-lacks b'=' name (inr refl) h.0.0))),
        )
        (ap (λ rest. bytes_of (name, value) ∷ rest) (env_file-read env h.1 r.1))
  | inr e ↦ rw (file_bytes, e) (env_file-read env h.1 r.1)
]

secret_pair-append :
    (name value : String) (rest : List ℕ)
    → secret_pair name value ++ rest ≡ as_bytes name ++ 0 ∷ (as_bytes value ++ 0 ∷ rest)
secret_pair-append name value rest = simp append_assoc

read_pairs :
    (env : Variables)
    → All IsClean env
    → pairs (chunks 0 (secret_bytes env)) ≡ map bytes_of (select in_secrets env)
unfolding secret_bytes pairs chunks
read_pairs [] h = refl
read_pairs ((name, value) ∷ env) h = elim (Bool-cases (fits name value)) [
  | inl e ↦ rw (secret_bytes, e) (read_pairs env h.1)
  | inr e ↦
      rw
        (
          secret_bytes,
          e,
          secret_pair-append name value (secret_bytes env),
          chunks-chunk 0 (as_bytes name) (as_bytes value ++ 0 ∷ secret_bytes env) (
              as_bytes-NoByte 0 name (omega arith)
                (valid_name-lacks 0 name (inl (omega arith)) h.0.0)),
          chunks-chunk 0 (as_bytes value) (secret_bytes env)
              (as_bytes-NoByte 0 value (omega arith) h.0.1),
        )
        (ap (λ rest. bytes_of (name, value) ∷ rest) (read_pairs env h.1))
]

-- Where `container_config` succeeds, on variables with names that Kubernetes accepts and values
-- without NUL, the worker reads back exactly what was to be delivered. What podman reads of
-- `env_file`, where it leaves out the lines that start with `#` and strips leading whitespace from the
-- names, are the variables that fit in a line, in their order; the NUL-terminated pairs of
-- `secret_env` are the others, in theirs; and the NUL-terminated entries of `command` and `args` are
-- the expanded entries of the container.
pub container_config-read :
    {V : Type 0} (json : Json V) (output : Output) (container : V) (env : Variables)
    (config : ContainerConfig)
    → All IsClean env
    → container_config json output container env ≡ ok config
    → (read_env_file config.env_file ≡ map bytes_of (select in_file env))
      × (pairs (chunks 0 config.secret_env) ≡ map bytes_of (select in_secrets env))
      × (chunks 0 config.command ≡ expanded env (string_array json container "command"))
      × (chunks 0 config.args ≡ expanded env (string_array json container "args"))
unfolding container_config
container_config-read json output container env config clean h =
    let (files, written, h1) = and_then-ok (write_variables output env ([], [])) _ config h in
    let (command, command_ok, h2) =
      and_then-ok (nul_terminated json container env "command") _ config h1 in
    let (args, args_ok, h3) = and_then-ok (nul_terminated json container env "args") _ config h2 in
    let (readable, held) = write_variables-ok output env ([], []) files written in
    let made = ok_injective _ config h3 in
    (
      ap (λ c. read_env_file c.env_file) (sym made)
          ∙ ap (λ f. read_env_file f.0) held
          ∙ env_file-read env clean readable,
      ap (λ c. pairs (chunks 0 c.secret_env)) (sym made)
          ∙ ap (λ f. pairs (chunks 0 f.1)) held
          ∙ read_pairs env clean,
      ap (λ c. chunks 0 c.command) (sym made)
          ∙ nul_terminated-chunks json container env "command" command command_ok,
      ap (λ c. chunks 0 c.args) (sym made)
          ∙ nul_terminated-chunks json container env "args" args args_ok,
    )
