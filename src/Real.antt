-- ===== src/Real.antt =====
-- The arithmetic of f64 that the costs and the budget use, as a parameter.
pub mod Laws
use kube_shim.Prelude.{ℕ, Bool, List}

-- `<=`, the operators, `f64::min` and `f64::max`, whole numbers, and the `sum` of an iterator
pub record Real (F : Type 0) : Type 0 where
  pub le : F → F → Bool
  pub add : F → F → F
  pub sub : F → F → F
  pub mul : F → F → F
  pub div : F → F → F
  pub min : F → F → F
  pub max : F → F → F
  pub of_ℕ : ℕ → F
  pub sum : List F → F
