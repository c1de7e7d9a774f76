-- ===== src/Real/Laws.antt =====
-- What f64 promises of numbers, rounding included; NaN is the value that is not `<=` itself.
use kube_shim.Prelude.{ℕ, suc, ◌≡◌, ◌⊎◌, true, false}
use kube_shim.Real.{Real}

abbrev pub IsNan : {F : Type 0} → Real F → F → Type 0
IsNan real x = real.le x x ≡ false

-- `f64::min` and `f64::max` give the other one where one of the two is NaN.
pub record Laws {F : Type 0} (real : Real F) : Type 1 where
  -- neither NaN nor infinite
  pub IsFinite : F → Type 0
  -- finite and greater than zero
  pub IsPositive : F → Type 0
  pub finite_refl : (x : F) → IsFinite x → real.le x x ≡ true
  pub le_trans : (x y z : F) → real.le x y ≡ true → real.le y z ≡ true → real.le x z ≡ true
  pub of_ℕ_nonneg : (n : ℕ) → real.le (real.of_ℕ 0) (real.of_ℕ n) ≡ true
  pub max_zero : (x : F) → real.le (real.of_ℕ 0) (real.max x (real.of_ℕ 0)) ≡ true
  pub min_nonneg :
      (x y : F)
      → (real.le (real.of_ℕ 0) x ≡ true) ⊎ IsNan real x
      → real.le (real.of_ℕ 0) y ≡ true
      → real.le (real.of_ℕ 0) (real.min x y) ≡ true
  pub min_le_right : (x y : F) → real.le y y ≡ true → real.le (real.min x y) y ≡ true
  pub le_refl_right : (x y : F) → real.le x y ≡ true → real.le y y ≡ true
  pub add_zero : (x : F) → IsFinite x → real.le x (real.add x (real.of_ℕ 0)) ≡ true
  -- a finite number and one that is not NaN have a sum
  pub add_mono :
      (x y z : F) → IsFinite x → real.le y z ≡ true → real.le (real.add x y) (real.add x z) ≡ true
  -- zero times infinity is NaN
  pub mul_nonneg :
      (x y : F)
      → real.le (real.of_ℕ 0) x ≡ true
      → real.le (real.of_ℕ 0) y ≡ true
      → (real.le (real.of_ℕ 0) (real.mul x y) ≡ true) ⊎ IsNan real (real.mul x y)
  pub not_le_zero :
      (x : F) → real.le x (real.of_ℕ 0) ≡ false → (real.le (real.of_ℕ 0) x ≡ true) ⊎ IsNan real x
  pub mul_nan : (x y : F) → IsNan real x → IsNan real (real.mul x y)
  pub div_nonneg :
      (x : F) (n : ℕ)
      → real.le (real.of_ℕ 0) x ≡ true
      → real.le (real.of_ℕ 0) (real.div x (real.of_ℕ (suc n))) ≡ true
  pub add_nonneg :
      (x y : F)
      → real.le (real.of_ℕ 0) x ≡ true
      → real.le (real.of_ℕ 0) y ≡ true
      → real.le (real.of_ℕ 0) (real.add x y) ≡ true
  pub div_positive :
      (x y : F)
      → real.le (real.of_ℕ 0) x ≡ true
      → IsPositive y
      → real.le (real.of_ℕ 0) (real.div x y) ≡ true
  pub mul_positive :
      (x y : F)
      → real.le (real.of_ℕ 0) x ≡ true
      → IsPositive y
      → real.le (real.of_ℕ 0) (real.mul x y) ≡ true
