-- ===== src/Budget/Patch.antt =====
-- `patch_settings` of src/pricing/mod.rs.
use kube_shim.Prelude.{Option, none, some, String, str_eq, if◌then◌else◌}
use kube_shim.Program.{Result, ok, err, M, System, pure, execute, ◌>>=◌, ◌>>◌, let_some}
use kube_shim.Real.{Real}
use kube_shim.Currency.{convert}
use kube_shim.Job.Spec.{unwrap_or_else}
use kube_shim.Budget.{
  BudgetSettings, SettingsPatch, SettingsPatchOutcome, BudgetError, not_seeded,
  currency_conversion_unavailable, update_budget, settle_accrual,
}

-- what has been made of the currency, the balance and the daily rate so far
pub record Converted (F : Type 0) : Type 0 where
  pub settings : BudgetSettings F
  pub balance : F
  pub currency_conversion : Option (String × F × String × F)

module _ {C F : Type 0} (system : System C) (real : Real F) (patch : SettingsPatch F) where
  abbrev pub overridden : BudgetSettings F → BudgetSettings F
  overridden settings = record settings {
    budget_daily_rate = unwrap_or_else patch.budget_daily_rate settings.budget_daily_rate;
    budget_rollover_cap_days =
        unwrap_or_else patch.budget_rollover_cap_days settings.budget_rollover_cap_days;
  }

  unfoldable pub store_settings : Converted F → M C F (Result BudgetError (SettingsPatchOutcome F))
  store_settings done =
      let settings = overridden done.settings in
      execute system (
        update_budget (λ row. record row {
          balance = done.balance;
          main_currency = settings.main_currency;
          budget_daily_rate = settings.budget_daily_rate;
          budget_rollover_cap_days = settings.budget_rollover_cap_days;
        }))
      >> pure (
          ok (record {
            settings = settings;
            balance = done.balance;
            currency_conversion = done.currency_conversion;
          }))

  unfoldable pub convert_settings :
      F → BudgetSettings F → String → M C F (Result BudgetError (SettingsPatchOutcome F))
  unfolding store_settings
  convert_settings balance settings target = do
    let unavailable = currency_conversion_unavailable settings.main_currency target
    converted ← convert system real balance settings.main_currency target
    let_some converted (pure (err unavailable)) (λ converted_balance.
        let conversion = some (settings.main_currency, balance, target, converted_balance) in
        let_some patch.budget_daily_rate
          (do
            rate ← convert system real settings.budget_daily_rate settings.main_currency target
            let_some rate (pure (err unavailable)) (λ r. store_settings (record {
              settings = record settings { main_currency = target; budget_daily_rate = r };
              balance = converted_balance;
              currency_conversion = conversion;
            })))
          (λ _. store_settings (record {
            settings = record settings { main_currency = target };
            balance = converted_balance;
            currency_conversion = conversion;
          })))

  unfoldable pub patch_settled :
      F × BudgetSettings F → M C F (Result BudgetError (SettingsPatchOutcome F))
  unfolding convert_settings store_settings
  patch_settled settled =
      let unconverted =
        store_settings
          (record { settings = settled.1; balance = settled.0; currency_conversion = none }) in
      let_some patch.main_currency unconverted (λ target.
        if str_eq target settled.1.main_currency
        then unconverted
        else convert_settings settled.0 settled.1 target)

  unfoldable pub patch_settings : M C F (Result BudgetError (SettingsPatchOutcome F))
  unfolding settle_accrual patch_settled
  patch_settings = do
    settled ← settle_accrual system real
    let_some settled (pure (err not_seeded)) patch_settled
