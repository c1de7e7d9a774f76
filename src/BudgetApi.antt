-- ===== src/BudgetApi.antt =====
-- src/api/budget.rs: the handlers that show and change the settings of the budget, and top it up. What
-- axum and serde do of requests and responses is left out; waking the loop is a call.
pub mod Kept
use kube_shim.Prelude.{
  ℕ, Bool, true, false, ◌&&◌, not, Option, none, some, String, ◌<>◌, show_ℕ, if◌then◌else◌,
}
use kube_shim.Db.{normal}
use kube_shim.Program.{Result, ok, err, World, M, Call, System, pure, call, ◌>>=◌, let_some}
use kube_shim.Real.{Real}
use kube_shim.Job.Records.{record_event}
use kube_shim.Budget.{
  BudgetSettings, SettingsPatch, SettingsPatchOutcome, BudgetError, not_seeded,
  currency_conversion_unavailable, settle_accrual, apply_topup,
}
use kube_shim.Budget.Patch.{patch_settings}
use kube_shim.Http.{ErrorResponse, Handler, of_action, next}

-- Of f64: `is_finite`, `!= 0.0`, whether two differ by more than 1e-9, and the formats `{}`, `{:.4}`
-- and `{:+.4}`.
pub record FloatText (F : Type 0) : Type 0 where
  pub is_finite : F → Bool
  pub is_nonzero : F → Bool
  pub differ : F → F → Bool
  pub show : F → String
  pub fixed : F → String
  pub signed : F → String

pub record SettingsResponse (F : Type 0) : Type 0 where
  pub budget_daily_rate : F
  pub budget_rollover_cap_days : ℕ
  pub main_currency : String
  pub balance : F

unfoldable pub budget_error_response : BudgetError → ErrorResponse
budget_error_response not_seeded = (500, "budget settings have not been initialized")
budget_error_response (currency_conversion_unavailable from_currency to_currency) = (
  409,
  "cannot convert " <> from_currency <> " to " <> to_currency
      <> ": no exchange rate cached for one of them",
)

module _ {A : Type 0} where
  -- `map_err` of an error of the budget, `Internal` included
  unfoldable pub budget_result : Result String (Result BudgetError A) → Result ErrorResponse A
  unfolding budget_error_response
  budget_result (ok (ok a)) = ok a
  budget_result (ok (err e)) = err (budget_error_response e)
  budget_result (err e) = err (500, e)

module _ {C F A : Type 0} where
  unfoldable pub of_budget : M C F (Result BudgetError A) → Handler C F A
  unfolding budget_result
  of_budget m w = let (r, w') = m w in (budget_result r, w')

module _ {C F : Type 0} (system : System C) (real : Real F) (float_text : FloatText F)
    (notify : Call C Unit) where
  open float_text use {is_finite, is_nonzero, differ, show, fixed, signed}

  settled_or_not_seeded : Option (F × BudgetSettings F) → Result BudgetError (F × BudgetSettings F)
  settled_or_not_seeded none = err not_seeded
  settled_or_not_seeded (some s) = ok s

  abbrev response : F → BudgetSettings F → SettingsResponse F
  response balance settings = record {
    budget_daily_rate = settings.budget_daily_rate;
    budget_rollover_cap_days = settings.budget_rollover_cap_days;
    main_currency = settings.main_currency;
    balance = balance;
  }

  unfoldable pub get_settings : Handler C F (SettingsResponse F)
  unfolding settled_or_not_seeded
  get_settings =
      next
        (of_budget (do settled ← settle_accrual system real; pure (settled_or_not_seeded settled)))
        (λ s w. (ok (response s.0 s.1), w))

  conversion_note : String → Option (String × F × String × F) → String
  conversion_note message none = message
  conversion_note message (some (old_currency, old_balance, new_currency, new_balance)) =
      message
      <> " (balance converted "
      <> fixed old_balance
      <> " "
      <> old_currency
      <> " -> "
      <> fixed new_balance
      <> " "
      <> new_currency
      <> ")"

  unfoldable pub settings_message : SettingsPatchOutcome F → String
  unfolding conversion_note
  settings_message outcome =
      conversion_note
        ("budget_daily_rate="
          <> show outcome.settings.budget_daily_rate
          <> ", budget_rollover_cap_days="
          <> show_ℕ outcome.settings.budget_rollover_cap_days
          <> ", main_currency="
          <> outcome.settings.main_currency)
        outcome.currency_conversion

  -- an event of no job, and the loop is woken
  unfoldable pub announce : String → String → M C F Unit
  announce reason message = do
    recorded ← record_event system none reason message normal
    call notify

  unfoldable pub handle_patch : SettingsPatch F → Handler C F (SettingsResponse F)
  unfolding announce settings_message
  handle_patch request = next (of_budget (patch_settings system real request)) (λ outcome.
      next (of_action (announce "SettingsChanged" (settings_message outcome)))
        (λ _ w. (ok (response outcome.balance outcome.settings), w)))

  unfoldable pub topup_message : F → F → F → String
  topup_message amount balance applied_delta =
      if differ applied_delta amount
      then signed amount
        <> " requested, clamped to "
        <> signed applied_delta
        <> " (balance cannot go below zero), new balance "
        <> fixed balance
      else signed amount <> ", new balance " <> fixed balance

  unfoldable pub topup : F → Handler C F F
  unfolding announce topup_message
  topup amount w =
      if is_finite amount && is_nonzero amount
      then next (of_budget (apply_topup system real amount))
          (λ result.
            next (of_action (announce "BudgetToppedUp" (topup_message amount result.0 result.1)))
              (λ _ w'. (ok result.0, w')))
          w
      else (err (400, "amount must be a nonzero finite number"), w)
