-- ===== src/Env/Names.antt =====
-- The names that `is_valid_env_name` of src/container_env.rs lets through.

use mathlib.Core.Bool.{false≢true}
use kube_shim.Prelude.{
  ℕ, ◌<◌, ◌≡◌, ◌⊎◌, refl, inl, inr, true, false, String, is_empty, arith, Bool-cases,
}
use kube_shim.Program.{Result, ok, err}
use kube_shim.Env.{all_name, is_valid_env_name, contains_char, and_then}

-- a control character, or `=`
abbrev pub IsRefused : ℕ → Type 0
IsRefused n = (n < 0x20) ⊎ (n ≡ b'=')

all_name-lacks : (n : ℕ) (s : String) → IsRefused n → all_name s ≡ true → contains_char n s ≡ false
unfolding all_name contains_char
all_name-lacks n String.[] r h = refl
all_name-lacks n (String.◌∷◌ c s) r h = ground (arith, all_name-lacks n s r)

-- A valid name has no control character and no `=`.
pub valid_name-lacks :
    (n : ℕ) (s : String) → IsRefused n → is_valid_env_name s ≡ true → contains_char n s ≡ false
unfolding is_valid_env_name
valid_name-lacks n s r h = elim (Bool-cases (is_empty s)) [
  | inl e ↦ elim (false≢true (rw e at h)) [ ]
  | inr e ↦ all_name-lacks n s r (rw e at h)
]

-- what a result comes from
pub and_then-ok :
    {E A B : Type 0} (r : Result E A) (f : A → Result E B) (b : B)
    → and_then r f ≡ ok b
    → (a : A) × (r ≡ ok a) × (f a ≡ ok b)
and_then-ok (ok a) f b h = (a, refl, h)
and_then-ok (err e) f b h = cc

pub ok_injective : {E A : Type 0} (a b : A) → ◌≡◌ {A = Result E A} (ok a) (ok b) → a ≡ b
ok_injective a b h = cc
