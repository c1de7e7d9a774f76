-- ===== src/Tariff.antt =====
-- Rows of the tables of plans, prices, exchange rates and the budget (src/db/schema.sql). A REAL
-- column holds an `F`.
use kube_shim.Prelude.{ℕ, Option, String}
use kube_shim.Prelude.Int.{ℤ}

-- `ServerPlan` of src/workload.rs
pub record ServerPlan : Type 0 where
  pub name : String
  pub cpu_cores : ℕ
  pub memory_mb : ℕ
  pub storage_gb : ℕ
  pub storage_tier : Option String

-- a row of `provider_plans`
pub record PlanRow : Type 0 where
  pub plan : ServerPlan
  pub fetched_at : ℤ

-- a row of `provider_pricing`
pub record PriceRow (F : Type 0) : Type 0 where
  pub zone : String
  pub price_key : String
  pub amount : F
  pub price : F
  pub currency : String
  pub fetched_at : ℤ

-- a row of `exchange_rates`: 1 EUR is `rate` of `currency`
pub record RateRow (F : Type 0) : Type 0 where
  pub currency : String
  pub rate : F
  pub fetched_at : ℤ

-- the row of `budget_state`
pub record BudgetRow (F : Type 0) : Type 0 where
  pub balance : F
  pub last_accrual_at : ℤ
  pub main_currency : String
  pub budget_daily_rate : F
  pub budget_rollover_cap_days : ℕ
