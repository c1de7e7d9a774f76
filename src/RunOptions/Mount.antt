-- ===== src/RunOptions/Mount.antt =====
-- The argument of `-v` in src/run_options.rs.
use Prim.Native.Char.{Char, code}
use Prim.Native.String.append
use mathlib.Core.Path.{subst}
use kube_shim.Prelude.{
  Option-cases, ℕ, ◌≡◌, inl, inr, refl, ap, ◌∙◌, Bool, true, false, Option, none, some, String,
  List, [], ◌∷◌, ◌<>◌, ◌==◌, arith, Bool-cases, if◌then◌else◌,
}
use kube_shim.Program.{ok}
use kube_shim.Context.{Json}
use kube_shim.Env.{contains_char}
use kube_shim.Env.Names.{ok_injective}
use kube_shim.RunOptions.{
  RunOptions, default_scratch_mount_path, prepend_char, split_on, is_valid_mount_path,
  volume_argument,
}
use kube_shim.RunOptions.Fields.{scratch_mount}
use kube_shim.RunOptions.Parse.{mount_path, scratch_volume_of, parse_options}
use kube_shim.RunOptions.Steps.{bind-ok, parse_options-ok}

colon : (t : String) → split_on b':' (":" <> t) ≡ "" ∷ split_on b':' t
unfolding split_on prepend_char
colon t = rw (append.cons ":" "" t, append.nil t) refl

prepended : (c : Char) (s : String) → String.◌∷◌ c "" <> s ≡ String.◌∷◌ c s
prepended c s = append.cons c "" s ∙ ap (String.◌∷◌ c) (append.nil s)

split_on-cons :
    (c : Char) (s rest : String) (parts : List String)
    → (code c == b':') ≡ false
    → split_on b':' rest ≡ s ∷ parts
    → split_on b':' (String.◌∷◌ c rest) ≡ String.◌∷◌ c s ∷ parts
unfolding split_on prepend_char
split_on-cons c s rest parts e ih = rw (e, ih) (ap (λ x. x ∷ parts) (prepended c s))

-- Splitting undoes joining, where the first part has no colon.
split_on-append :
    (s t : String)
    → contains_char b':' s ≡ false
    → split_on b':' (s <> (":" <> t)) ≡ s ∷ split_on b':' t
unfolding contains_char
split_on-append String.[] t h = ap (split_on b':') (append.nil (":" <> t)) ∙ colon t
split_on-append (String.◌∷◌ c s) t h =
    ap (split_on b':') (append.cons c s (":" <> t)) ∙ (elim (Bool-cases (code c == b':')) [
      | inl e ↦ cc (rw e at h)
      | inr e ↦
          split_on-cons c s (s <> (":" <> t)) (split_on b':' t) e (split_on-append s t (rw e at h))
    ])

abbrev pub options_of : Bool → String
options_of read_only = if read_only then "ro,idmap" else "idmap"

split_options :
    (read_only : Bool) → split_on b':' (options_of read_only) ≡ options_of read_only ∷ []
unfolding split_on
split_options true = refl
split_options false = refl

volume_argument-splits :
    (path : String) (read_only : Bool)
    → contains_char b':' path ≡ false
    → split_on b':' (volume_argument path read_only)
      ≡ default_scratch_mount_path ∷ path ∷ options_of read_only ∷ []
unfolding volume_argument contains_char
volume_argument-splits path read_only h =
    split_on-append default_scratch_mount_path (path <> ":" <> options_of read_only) refl
    ∙ ap (λ x. default_scratch_mount_path ∷ x)
        (split_on-append path (options_of read_only) h
          ∙ ap (λ x. path ∷ x) (split_options read_only))

is_valid_mount_path-colon :
    (path : String) → is_valid_mount_path path ≡ true → contains_char b':' path ≡ false
unfolding is_valid_mount_path
is_valid_mount_path-colon path h = ground arith

-- The argument is three parts: the source, a valid path, and the options.
abbrev pub IsMount : String → Type 0
IsMount argument =
    (path : String) × (read_only : Bool) × (split_on b':' argument
      ≡ default_scratch_mount_path ∷ path ∷ options_of read_only ∷ [])
    × (is_valid_mount_path path ≡ true)

volume_argument-IsMount :
    (path : String) (read_only : Bool)
    → is_valid_mount_path path ≡ true
    → IsMount (volume_argument path read_only)
volume_argument-IsMount path read_only h =
    (path, read_only, volume_argument-splits path read_only (is_valid_mount_path-colon path h), h)

default_valid : is_valid_mount_path default_scratch_mount_path ≡ true
unfolding is_valid_mount_path split_on contains_char
default_valid = refl

module _ {V : Type 0} (json : Json V) where
  mount_path-valid :
      (field : String) (value : Option V) (path : String)
      → mount_path json field value ≡ ok path
      → is_valid_mount_path path ≡ true
  unfolding mount_path
  mount_path-valid field none path h = cc h
  mount_path-valid field (some value) path h = elim (Option-cases (json.as_str value)) [
    | inl e ↦ cc (rw (mount_path, e) at h)
    | inr (s, e) ↦ elim (Bool-cases (is_valid_mount_path s)) [
      | inl v ↦
          subst (λ x. is_valid_mount_path x ≡ true)
            (ok_injective s path (rw (mount_path, e, v) at h)) v
      | inr v ↦ cc (rw (mount_path, e, v) at h)
    ]
  ]

  scratch_volume_of-IsMount :
      (mount : Option (ℕ × V)) (argument : String)
      → scratch_volume_of json mount ≡ ok argument
      → IsMount argument
  unfolding scratch_volume_of
  scratch_volume_of-IsMount none argument h =
      subst IsMount (ok_injective _ argument h)
        (volume_argument-IsMount default_scratch_mount_path false default_valid)
  scratch_volume_of-IsMount (some (i, mount)) argument h =
      let (path, e, h') = bind-ok _ _ argument h in
      let (read_only, e', h'') = bind-ok _ _ argument h' in
      subst IsMount (ok_injective _ argument h'')
        (volume_argument-IsMount path read_only (mount_path-valid _ _ path e))

  -- The argument of `-v` that a spec yields splits at its colons into exactly three parts: the
  -- scratch directory, a path that is absolute, not the root, and without `.` and `..`, and the
  -- options. No path can add options of its own.
  pub parse_options-IsMount :
      (job_spec : V) (options : RunOptions)
      → parse_options json job_spec ≡ ok options
      → IsMount options.scratch_volume
  parse_options-IsMount job_spec options h =
      scratch_volume_of-IsMount (scratch_mount json job_spec) options.scratch_volume
        (parse_options-ok json job_spec options h).scratch
