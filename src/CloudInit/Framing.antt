-- ===== src/CloudInit/Framing.antt =====
-- The files of `container_config` in src/cloud_init.rs, as those who read them take them apart.
use mathlib.Core.List.{append_assoc, append-nil, map}
use kube_shim.Prelude.{
  ℕ, ◌≡◌, refl, ap, ◌∙◌, Option, none, some, String, List, [], ◌∷◌, ◌++◌, ◌==◌, All, arith, inl,
  inr, Bool-cases, if◌then◌else◌,
}
use kube_shim.Program.{ok}
use kube_shim.Context.{Json}
use kube_shim.Env.{Variables, contains_char}
use kube_shim.Env.Expand.{expand}
use kube_shim.CloudInit.{write_entries, string_array, nul_terminated}
use kube_shim.CloudInit.Bytes.{as_bytes, NoByte, as_bytes-NoByte}

put_first : ℕ → List (List ℕ) → List (List ℕ)
put_first b [] = (b ∷ []) ∷ []
put_first b (line ∷ lines) = (b ∷ line) ∷ lines

-- `mapfile -d`: what stands before each delimiter, and the rest if there is any
unfoldable pub chunks : ℕ → List ℕ → List (List ℕ)
unfolding put_first
chunks b [] = []
chunks b (x ∷ bytes) = if x == b then [] ∷ chunks b bytes else put_first x (chunks b bytes)

-- what stands before the first of these bytes, and what after it
unfoldable pub split_byte : ℕ → List ℕ → Option (List ℕ × List ℕ)
split_byte b [] = none
split_byte b (x ∷ bytes) =
    if x == b
    then some ([], bytes)
    else elim (split_byte b bytes) [ none ↦ none | some (before, after) ↦ some (x ∷ before, after) ]

-- two chunks for each variable
unfoldable pub pairs : List (List ℕ) → List (Option (List ℕ × List ℕ))
pairs (name ∷ value ∷ rest) = some (name, value) ∷ pairs rest
pairs _ = []

pub chunks-chunk :
    (b : ℕ) (chunk bytes : List ℕ)
    → NoByte b chunk
    → chunks b (chunk ++ b ∷ bytes) ≡ chunk ∷ chunks b bytes
unfolding chunks put_first
chunks-chunk b [] bytes h = ground arith
chunks-chunk b (x ∷ chunk) bytes h = rw (h.0, chunks-chunk b chunk bytes h.1) refl

pub split_byte-before :
    (b : ℕ) (before after : List ℕ)
    → NoByte b before
    → split_byte b (before ++ b ∷ after) ≡ some (before, after)
unfolding split_byte
split_byte-before b [] after h = ground arith
split_byte-before b (x ∷ before) after h = rw (h.0, split_byte-before b before after h.1) refl

framed : List (List ℕ) → List ℕ
framed [] = []
framed (chunk ∷ rest) = chunk ++ 0 ∷ framed rest

chunks-framed : (parts : List (List ℕ)) → All (NoByte 0) parts → chunks 0 (framed parts) ≡ parts
unfolding framed chunks
chunks-framed [] h = refl
chunks-framed (part ∷ parts) h =
    chunks-chunk 0 part (framed parts) h.0 ∙ ap (λ rest. part ∷ rest) (chunks-framed parts h.1)

-- the bytes of the expanded entries
abbrev pub expanded : Variables → List String → List (List ℕ)
expanded env entries = map (λ entry. as_bytes (expand entry env)) entries

write_entries-framed :
    (field : String) (env : Variables) (entries : List String) (out bytes : List ℕ)
    → write_entries field env entries out ≡ ok bytes
    → (bytes ≡ out ++ framed (expanded env entries)) × All (NoByte 0) (expanded env entries)
unfolding write_entries framed
write_entries-framed field env [] out bytes h = (cc (append-nil out), tt)
write_entries-framed field env (entry ∷ entries) out bytes h =
    elim (Bool-cases (contains_char 0 (expand entry env))) [
      | inl e ↦ cc (rw e at h)
      | inr e ↦
          let (rest, clean) =
            write_entries-framed field env entries (out ++ as_bytes (expand entry env) ++ 0 ∷ [])
              bytes (rw e at h) in
          (
            rest ∙ simp (append_assoc),
            (as_bytes-NoByte 0 (expand entry env) (omega arith) e, clean),
          )
    ]

pub nul_terminated-chunks :
    {V : Type 0} (json : Json V) (container : V) (env : Variables) (field : String) (bytes : List ℕ)
    → nul_terminated json container env field ≡ ok bytes
    → chunks 0 bytes ≡ expanded env (string_array json container field)
unfolding nul_terminated
nul_terminated-chunks json container env field bytes h =
    let (e, clean) =
      write_entries-framed field env (string_array json container field) [] bytes h in
    ap (chunks 0) e ∙ chunks-framed (expanded env (string_array json container field)) clean
