-- ===== src/Budget.antt =====
-- The rolling budget of src/pricing/mod.rs: the one row of `budget_state`, and the operations that
-- settle, spend, top up and set it.

pub mod Patch
pub mod Outcome
pub mod Settle
pub mod Solvent
pub mod Operations
use kube_shim.Prelude.{
  ℕ, Bool, true, false, not, ◌&&◌, Option, none, some, String, List, [], ◌∷◌, str_eq, if◌then◌else◌,
}
use kube_shim.Prelude.Int.{ℤ, pos_part, ◌-ℤ◌}
use kube_shim.Status.{Status, is_pre_completion_state, is_state, terminal_state}
use kube_shim.Tariff.{BudgetRow}
use kube_shim.Db.{Db, JobRow}
use kube_shim.Program.{
  Result, ok, err, M, System, pure, call, query, execute, ◌>>=◌, ◌>>◌, let_some,
}
use kube_shim.Real.{Real}
use kube_shim.Currency.{convert}

pub record BudgetSettings (F : Type 0) : Type 0 where
  pub main_currency : String
  pub budget_daily_rate : F
  pub budget_rollover_cap_days : ℕ

pub record SettingsPatch (F : Type 0) : Type 0 where
  pub budget_daily_rate : Option F
  pub budget_rollover_cap_days : Option ℕ
  pub main_currency : Option String

pub record SettingsPatchOutcome (F : Type 0) : Type 0 where
  pub settings : BudgetSettings F
  pub balance : F
  pub currency_conversion : Option (String × F × String × F)

-- The variant `Internal` is the error of the action itself.
pub data BudgetError : Type 0 where
  not_seeded : BudgetError
  currency_conversion_unavailable : String → String → BudgetError

abbrev pub settings_of : {F : Type 0} → BudgetRow F → BudgetSettings F
settings_of row = record {
  main_currency = row.main_currency;
  budget_daily_rate = row.budget_daily_rate;
  budget_rollover_cap_days = row.budget_rollover_cap_days;
}

option_map : {A B : Type 0} → (A → B) → Option A → Option B
option_map f none = none
option_map f (some a) = some (f a)

module _ {F : Type 0} where
  -- UPDATE budget_state SET … WHERE id = 1
  unfoldable pub update_budget : (BudgetRow F → BudgetRow F) → Db F → Db F
  unfolding option_map
  update_budget f db = record db { budget_state = option_map f db.budget_state }

  unfoldable pub seed_row : ℤ → F → BudgetSettings F → BudgetRow F
  seed_row now zero_balance seed = record {
    balance = zero_balance;
    last_accrual_at = now;
    main_currency = seed.main_currency;
    budget_daily_rate = seed.budget_daily_rate;
    budget_rollover_cap_days = seed.budget_rollover_cap_days;
  }

  -- the estimates of the jobs before completion
  unfoldable pub committed_costs : List (JobRow F) → List F
  committed_costs [] = []
  committed_costs (r ∷ rows) =
      let rest = committed_costs rows in
      elim r.estimated_cost [
        | none ↦ rest
        | some cost ↦
            if not (is_state r.status terminal_state) && is_pre_completion_state r.status
            then cost ∷ rest
            else rest
      ]

module _ {C F : Type 0} (system : System C) (real : Real F) where
  abbrev pub zero_F : F
  zero_F = real.of_ℕ 0

  unfoldable pub fetch_budget_row : M C F (Option (BudgetRow F))
  fetch_budget_row = query system (λ db. db.budget_state)

  unfoldable pub ensure_budget_seeded : BudgetSettings F → M C F Unit
  unfolding fetch_budget_row seed_row
  ensure_budget_seeded seed = do
    row ← fetch_budget_row
    let_some row
        (do
          now ← call system.now
          execute system (λ db. record db { budget_state = some (seed_row now zero_F seed) }))
        (λ _. pure tt)

  unfoldable pub current_settings : M C F (Option (BudgetSettings F))
  unfolding fetch_budget_row option_map
  current_settings = do row ← fetch_budget_row; pure (option_map settings_of row)

  unfoldable pub effective_main_currency : String → M C F String
  unfolding current_settings
  effective_main_currency fallback = do
    settings ← current_settings
    let_some settings (pure fallback) (λ s. pure s.main_currency)

  -- `max(0)` of an integer is its positive part.
  unfoldable pub room_left_below_cap : BudgetRow F → F
  room_left_below_cap row =
      let cap = real.mul row.budget_daily_rate (real.of_ℕ row.budget_rollover_cap_days) in
      real.max (real.sub cap row.balance) zero_F

  unfoldable pub accrued : BudgetRow F → ℤ → F
  unfolding room_left_below_cap
  accrued row now =
      let elapsed_days =
        real.div (real.of_ℕ (pos_part (now -ℤ row.last_accrual_at))) (real.of_ℕ 86400) in
      real.min (real.mul row.budget_daily_rate elapsed_days) (room_left_below_cap row)

  unfoldable pub settle_row : BudgetRow F → M C F (Option (F × BudgetSettings F))
  unfolding accrued
  settle_row row = do
    now ← call system.now
    if real.le row.budget_daily_rate zero_F
        then execute system (update_budget (λ r. record r { last_accrual_at = now }))
          >> pure (some (row.balance, settings_of row))
        else (let new_balance = real.add row.balance (accrued row now) in
            execute system
              (update_budget (λ r. record r { balance = new_balance; last_accrual_at = now }))
            >> pure (some (new_balance, settings_of row)))

  unfoldable pub settle_accrual : M C F (Option (F × BudgetSettings F))
  unfolding fetch_budget_row settle_row
  settle_accrual = do row ← fetch_budget_row; let_some row (pure none) settle_row

  unfoldable pub committed_budget : M C F F
  unfolding committed_costs
  committed_budget = do costs ← query system (λ db. committed_costs db.jobs); pure (real.sum costs)

  unfoldable pub available_budget : M C F (Option F)
  unfolding settle_accrual committed_budget
  available_budget = do
    settled ← settle_accrual
    let_some settled (pure none) (λ s.
        if real.le s.1.budget_daily_rate zero_F
        then pure none
        else do committed ← committed_budget; pure (some (real.sub s.0 committed)))

  unfoldable pub topped_up : F → F × BudgetSettings F → M C F (Result BudgetError (F × F))
  topped_up amount settled =
      let new_balance = real.max (real.add settled.0 amount) zero_F in
      let applied_delta = real.sub new_balance settled.0 in
      execute system (update_budget (λ r. record r { balance = new_balance }))
      >> pure (ok (new_balance, applied_delta))

  unfoldable pub apply_topup : F → M C F (Result BudgetError (F × F))
  unfolding settle_accrual topped_up
  apply_topup amount = do
    settled ← settle_accrual
    let_some settled (pure (err not_seeded)) (topped_up amount)
