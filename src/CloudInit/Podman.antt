-- ===== src/CloudInit/Podman.antt =====
-- How podman reads the file of `--env-file`, by the comment in src/cloud_init.rs: a variable on each
-- line, everything after the first `=` as it is; lines that start with `#` are left out, and the name
-- loses its leading whitespace.
use Prim.Native.Char.{Char, code}
use mathlib.Core.Bool.{false≢true}
use kube_shim.Prelude.{
  ℕ, is_empty, ◌≤◌, ◌≡◌, ◌⊎◌, refl, sym, ◌∙◌, Bool-cases, ltb, Bool, true, false, ◌&&◌, ◌||◌, leb,
  Option, none, some, String, List, [], ◌∷◌, ◌++◌, ◌==◌, arith, inl, inr, if◌then◌else◌,
}
use kube_shim.Env.{is_valid_env_name, contains_char}
use kube_shim.Env.Names.{valid_name-lacks}
use kube_shim.CloudInit.{starts_with_space_or_hash}
use kube_shim.CloudInit.Bytes.{as_bytes, as_bytes-first}
use kube_shim.CloudInit.Framing.{chunks, split_byte}

is_space : ℕ → Bool
is_space b = b == b' ' || (leb 9 b && leb b 13)

trim_left : List ℕ → List ℕ
trim_left [] = []
trim_left (b ∷ bytes) = let rest = trim_left bytes in if is_space b then rest else b ∷ bytes

named : Option (List ℕ × List ℕ) → Option (List ℕ × List ℕ)
named none = none
named (some (name, value)) = some (trim_left name, value)

pub read_line : List ℕ → List (Option (List ℕ × List ℕ))
read_line [] = []
read_line (b ∷ line) = if b == b'#' then [] else named (split_byte b'=' (b ∷ line)) ∷ []

-- the variables of some lines
unfoldable pub read_lines : List (List ℕ) → List (Option (List ℕ × List ℕ))
unfolding read_line named trim_left is_space split_byte
read_lines [] = []
read_lines (line ∷ lines) = read_line line ++ read_lines lines

-- the variables of a file
unfoldable pub read_env_file : List ℕ → List (Option (List ℕ × List ℕ))
unfolding read_lines chunks
read_env_file bytes = read_lines (chunks b'\n' bytes)

-- the first byte neither starts a comment nor is left out
record IsPlain (bytes : List ℕ) : Type 0 where
  first : ℕ
  rest : List ℕ
  starts : bytes ≡ first ∷ rest
  no_comment : (first == b'#') ≡ false
  no_space : is_space first ≡ false

not_control :
    (x n : ℕ)
    → (x ≡ n) ⊎ (0xc0 ≤ x)
    → 32 ≤ n
    → (n == b' ' || n == b'#') ≡ false
    → ((x == b'#') ≡ false) × (is_space x ≡ false)
unfolding is_space
not_control x n (inl e) h k = ground arith
not_control x n (inr e) h k = ground arith

valid_name-first : (c : Char) (s : String) → is_valid_env_name (String.◌∷◌ c s) ≡ true → 32 ≤ code c
unfolding contains_char
valid_name-first c s valid = elim (Bool-cases (ltb (code c) 32)) [
  | inl e ↦ absurd (
      false≢true (
        sym (valid_name-lacks (code c) (String.◌∷◌ c s) (inl (ground arith)) valid) ∙ ground arith))
  | inr e ↦ ground arith
]

name-IsPlain :
    (name : String)
    → is_valid_env_name name ≡ true
    → starts_with_space_or_hash name ≡ false
    → IsPlain (as_bytes name)
unfolding starts_with_space_or_hash is_valid_env_name is_empty
name-IsPlain String.[] valid plain = elim (false≢true valid) [ ]
name-IsPlain (String.◌∷◌ c s) valid plain =
    let (x, bytes, e, known) = as_bytes-first c s in
    let (no_comment, no_space) = not_control x (code c) known (valid_name-first c s valid) plain in
    record { first = x; rest = bytes; starts = e; no_comment = no_comment; no_space = no_space }

-- A line with such a name is read as what it was made of.
pub read_line-named :
    (name : String) (value : List ℕ)
    → is_valid_env_name name ≡ true
    → starts_with_space_or_hash name ≡ false
    → split_byte b'=' (as_bytes name ++ b'=' ∷ value) ≡ some (as_bytes name, value)
    → read_line (as_bytes name ++ b'=' ∷ value) ≡ some (as_bytes name, value) ∷ []
unfolding read_line named trim_left
read_line-named name value valid plain split =
    let p = name-IsPlain name valid plain in
    rw p.starts (rw (p.no_comment, rw p.starts at split) (rw (named, trim_left, p.no_space) refl))
