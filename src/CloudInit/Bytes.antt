-- ===== src/CloudInit/Bytes.antt =====
-- The bytes of a text: Rust's `as_bytes`.
use Prim.Native.Char.{Char, code}
use Prim.Native.String.append
use mathlib.Core.List.{append_assoc}
use mathlib.Core.Bool.{false≢true}
use kube_shim.Prelude.{
  ℕ, ◌+◌, ◌/◌, ◌%◌, ◌<◌, ◌≤◌, ◌≡◌, ◌⊎◌, refl, ap, sym, ◌∙◌, false, ltb, String, List, [], ◌∷◌, ◌++◌,
  ◌<>◌, ◌==◌, All, arith, inl, inr, Bool-cases, if◌then◌else◌,
}
use kube_shim.Env.{contains_char}

-- UTF-8
utf8 : ℕ → List ℕ
utf8 n =
    if ltb n 0x80
    then n ∷ []
    else if ltb n 0x800
    then (0xc0 + n / 64) ∷ (0x80 + n % 64) ∷ []
    else if ltb n 0x10000
    then (0xe0 + n / 4096) ∷ (0x80 + n / 64 % 64) ∷ (0x80 + n % 64) ∷ []
    else (0xf0 + n / 262144) ∷ (0x80 + n / 4096 % 64) ∷ (0x80 + n / 64 % 64) ∷ (0x80 + n % 64) ∷ []

unfoldable pub as_bytes : String → List ℕ
unfolding utf8
as_bytes String.[] = []
as_bytes (String.◌∷◌ c s) = utf8 (code c) ++ as_bytes s

-- No byte has this value.
abbrev pub NoByte : ℕ → List ℕ → Type 0
NoByte b bytes = All (λ x. (x == b) ≡ false) bytes

pub as_bytes-append : (s t : String) → as_bytes (s <> t) ≡ as_bytes s ++ as_bytes t
unfolding as_bytes
as_bytes-append String.[] t = ap as_bytes (append.nil t)
as_bytes-append (String.◌∷◌ c s) t =
    ap as_bytes (append.cons c s t)
    ∙ ap (λ bytes. utf8 (code c) ++ bytes) (as_bytes-append s t)
    ∙ sym (append_assoc (utf8 (code c)) (as_bytes s) (as_bytes t))

pub NoByte-append : (b : ℕ) (xs ys : List ℕ) → NoByte b xs → NoByte b ys → NoByte b (xs ++ ys)
NoByte-append b [] ys h k = k
NoByte-append b (x ∷ xs) ys h k = (h.0, NoByte-append b xs ys h.1 k)

-- The bytes of another character are other than an ASCII one.
utf8-NoByte : (b n : ℕ) → b < 0x80 → (n == b) ≡ false → NoByte b (utf8 n)
unfolding utf8
utf8-NoByte b n small other = elim (Bool-cases (ltb n 0x80)) [
  | inl e ↦ rw e (other, tt)
  | inr e ↦ elim (Bool-cases (ltb n 0x800)) [
    | inl e' ↦ rw (e, e') (ground arith, (ground arith, tt))
    | inr e' ↦ elim (Bool-cases (ltb n 0x10000)) [
      | inl e'' ↦ rw (e, e', e'') (ground arith, (ground arith, (ground arith, tt)))
      | inr e'' ↦ rw (e, e', e'') (ground arith, (ground arith, (ground arith, (ground arith, tt))))
    ]
  ]
]

pub as_bytes-NoByte :
    (b : ℕ) (s : String) → b < 0x80 → contains_char b s ≡ false → NoByte b (as_bytes s)
unfolding as_bytes contains_char
as_bytes-NoByte b String.[] small h = tt
as_bytes-NoByte b (String.◌∷◌ c s) small h = elim (Bool-cases (code c == b)) [
  | inl e ↦ elim (false≢true (sym (rw e at h))) [ ]
  | inr e ↦
      NoByte-append b (utf8 (code c)) (as_bytes s) (utf8-NoByte b (code c) small e)
        (as_bytes-NoByte b s small (rw e at h))
]

-- a text of one ASCII character
pub as_bytes-one : (c : Char) → code c < 0x80 → as_bytes (String.◌∷◌ c "") ≡ code c ∷ []
unfolding as_bytes utf8
as_bytes-one c h = ground arith

utf8-first : (n : ℕ) → (x : ℕ) × (bytes : List ℕ) × (utf8 n ≡ x ∷ bytes) × ((x ≡ n) ⊎ (0xc0 ≤ x))
unfolding utf8
utf8-first n = elim (Bool-cases (ltb n 0x80)) [
  | inl e ↦ (n, [], rw e refl, inl refl)
  | inr e ↦ elim (Bool-cases (ltb n 0x800)) [
    | inl e' ↦ (0xc0 + n / 64, (0x80 + n % 64) ∷ [], rw (e, e') refl, inr (omega arith))
    | inr e' ↦ elim (Bool-cases (ltb n 0x10000)) [
      | inl e'' ↦ (
        0xe0 + n / 4096,
        (0x80 + n / 64 % 64) ∷ (0x80 + n % 64) ∷ [],
        rw (e, e', e'') refl,
        inr (omega arith),
      )
      | inr e'' ↦ (
        0xf0 + n / 262144,
        (0x80 + n / 4096 % 64) ∷ (0x80 + n / 64 % 64) ∷ (0x80 + n % 64) ∷ [],
        rw (e, e', e'') refl,
        inr (omega arith),
      )
    ]
  ]
]

-- The first byte of a text is its first character, or at least 0xc0.
pub as_bytes-first :
    (c : Char) (s : String)
    → (x : ℕ) × (bytes : List ℕ) × (as_bytes (String.◌∷◌ c s) ≡ x ∷ bytes)
      × ((x ≡ code c) ⊎ (0xc0 ≤ x))
unfolding as_bytes
as_bytes-first c s =
    let (x, bytes, e, known) = utf8-first (code c) in
    (x, bytes ++ as_bytes s, ap (λ b. b ++ as_bytes s) e, known)
