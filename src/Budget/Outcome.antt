-- ===== src/Budget/Outcome.antt =====
-- What `patch_settings` of src/pricing/mod.rs makes of the tables.
use kube_shim.Prelude.{ℕ, ◌≡◌, refl, Option, some, String, str_eq, str_eq_iff}
use kube_shim.Tariff.{BudgetRow}
use kube_shim.Db.{Db}
use kube_shim.Program.{
  Result, ok, err, World, System, pure, execute, continue, ◌>>=◌, ◌>>◌, let_some,
}
use kube_shim.Program.Triple.{
  Post, Triple, Triple-pure, Triple-execute, Triple-bind, Triple-let_some, Triple-if, Triple-found,
  Triple-call,
}
use kube_shim.Real.{Real}
use kube_shim.Currency.Reads.{convert-reads}
use kube_shim.Budget.{
  BudgetSettings, SettingsPatch, SettingsPatchOutcome, BudgetError, not_seeded, settings_of,
  update_budget, settle_row, settle_accrual, fetch_budget_row,
}
use kube_shim.Budget.Patch.{
  Converted, overridden, store_settings, convert_settings, patch_settled, patch_settings,
}

module _ {C F : Type 0} (system : System C) (real : Real F) where
  module _ (patch : SettingsPatch F) (d : Db F) where
    -- Where PATCH succeeds, only the row of the budget changes: it holds what is answered, and each
    -- value of the request. Where it is refused nothing changes.
    abbrev pub Patched : Result BudgetError (SettingsPatchOutcome F) → Db F → Type 0
    Patched (ok out) db =
        (new : BudgetRow F) × (db ≡ record d { budget_state = some new })
        × (settings_of new ≡ out.settings)
        × (new.balance ≡ out.balance)
        × ((rate : F) → patch.budget_daily_rate ≡ some rate → new.budget_daily_rate ≡ rate)
        × ((days : ℕ)
            → patch.budget_rollover_cap_days ≡ some days
            → new.budget_rollover_cap_days ≡ days)
        × ((currency : String) → patch.main_currency ≡ some currency → new.main_currency ≡ currency)
    Patched (err e) db = db ≡ d

    abbrev Before : Db F → Type 0
    Before db = db ≡ d

    module _ (row : BudgetRow F) (stored : d.budget_state ≡ some row) where
      store_settings-Triple :
          (done : Converted F)
          → ((currency : String)
              → patch.main_currency ≡ some currency
              → done.settings.main_currency ≡ currency)
          → Triple {C = C} Before Patched Before (store_settings system real patch done)
      unfolding store_settings update_budget
      store_settings-Triple done k =
          let settings = overridden system real patch done.settings in
          Triple-bind
            {Q = λ _. Patched (
              ok (record {
                settings = settings;
                balance = done.balance;
                currency_conversion = done.currency_conversion;
              }))}
            _ _
            (Triple-execute system _
              (λ db h. (
                record row {
                  balance = done.balance;
                  main_currency = settings.main_currency;
                  budget_daily_rate = settings.budget_daily_rate;
                  budget_rollover_cap_days = settings.budget_rollover_cap_days;
                },
                rw (h, stored) refl,
                refl,
                refl,
                λ rate e. rw e refl,
                λ days e. rw e refl,
                k,
              ))
              (λ db h. h))
            (λ _. Triple-pure _ (λ db h. h))

      convert_settings-Triple :
          (balance : F) (settings : BudgetSettings F) (target : String)
          → patch.main_currency ≡ some target
          → Triple {C = C} Before Patched Before
              (convert_settings system real patch balance settings target)
      unfolding convert_settings
      convert_settings-Triple balance settings target e =
          Triple-bind {Q = λ _. Before} _ _
            (convert-reads system real balance settings.main_currency target)
            (λ converted.
              Triple-let_some converted _ _ (λ _. Triple-pure _ (λ db h. h))
                (λ amount _.
                  Triple-let_some patch.budget_daily_rate _ _
                    (λ _.
                      Triple-bind {Q = λ _. Before} _ _
                        (convert-reads system real settings.budget_daily_rate settings.main_currency
                          target)
                        (λ rate.
                          Triple-let_some rate _ _ (λ _. Triple-pure _ (λ db h. h))
                            (λ r _. store_settings-Triple _ (λ currency e'. cc (e, e')))))
                    (λ r _. store_settings-Triple _ (λ currency e'. cc (e, e')))))

      patch_settled-Triple :
          (settled : F × BudgetSettings F)
          → Triple {C = C} Before Patched Before (patch_settled system real patch settled)
      unfolding patch_settled
      patch_settled-Triple settled =
          Triple-let_some patch.main_currency _ _
            (λ e. store_settings-Triple _ (λ currency e'. cc (e, e')))
            (λ target e.
              Triple-if (str_eq target settled.1.main_currency) _ _
                (λ same.
                  store_settings-Triple _
                    (λ currency e'. cc (e, e', (str_eq_iff target settled.1.main_currency).0 same)))
                (λ _. convert_settings-Triple settled.0 settled.1 target e))

  abbrev HasRow : Db F → Type 0
  HasRow db = (r : BudgetRow F) × (db.budget_state ≡ some r)

  update_keeps_row :
      {A : Type 0} (row : BudgetRow F) (f : BudgetRow F → BudgetRow F) (a : A)
      → Triple {C = C}
          (λ db. db.budget_state ≡ some row)
          (λ _. HasRow)
          (λ _. Unit)
          (execute system (update_budget f) >> pure a)
  unfolding update_budget
  update_keeps_row row f a =
      Triple-bind {Q = λ _. HasRow} _ _
        (Triple-execute system (update_budget f) (λ db h. (f row, rw h refl)) (λ db h. tt))
        (λ _. Triple-pure a (λ db h. h))

  -- Settling leaves a row where there was one.
  settle_accrual-HasRow :
      (row : BudgetRow F)
      → Triple {C = C}
          (λ db. db.budget_state ≡ some row)
          (λ _. HasRow)
          (λ _. Unit)
          (settle_accrual system real)
  unfolding settle_accrual fetch_budget_row settle_row
  settle_accrual-HasRow row =
      Triple-found system _ row _ _ (λ db h. h) (λ db h. tt)
        (Triple-bind {Q = λ _ db. db.budget_state ≡ some row} _ _
          (Triple-call system.now (λ c db h. h))
          (λ now.
            Triple-if (real.le row.budget_daily_rate (real.of_ℕ 0)) _ _
              (λ _. update_keeps_row row _ _) (λ _. update_keeps_row row _ _)))

  module _ (patch : SettingsPatch F) where
    patch_after :
        (answer : Result String (Option (F × BudgetSettings F))) (w : World C F)
        → Post (λ _. HasRow) (λ _. Unit) answer w.db
        → let rest =
            continue answer
              (λ settled.
                let_some settled (pure (err not_seeded)) (patch_settled system real patch))
              w in
          Post (Patched patch w.db) (λ db. db ≡ w.db) rest.0 rest.1.db
    patch_after (ok settled) w (row, stored) =
        (Triple-let_some settled _ _ (λ _. Triple-pure _ (λ db h. h))
            (λ s _. patch_settled-Triple patch w.db row stored s)).at
          w refl
    patch_after (err e) w h = refl

    -- PATCH of the settings, seen from what settling the accrual first leaves: where it answers with
    -- settings, only the row of the budget differs, and holds the settings and the balance answered
    -- and each value that the request gives, a daily rate also where the currency is converted; where
    -- it is refused, or the database fails, nothing differs.
    pub patch_settings-Patched :
        (w : World C F) (row : BudgetRow F)
        → w.db.budget_state ≡ some row
        → let settled = (settle_accrual system real w).1.db in
          Post
            (Patched patch settled)
            (λ db. db ≡ settled)
            (patch_settings system real patch w).0
            (patch_settings system real patch w).1.db
    unfolding patch_settings ◌>>=◌
    patch_settings-Patched w row h =
        patch_after (settle_accrual system real w).0 (settle_accrual system real w).1
          ((settle_accrual-HasRow row).at w h)
