-- ===== src/Budget/Solvent.antt =====
-- The operations of src/pricing/mod.rs on the budget never leave a negative balance.
use kube_shim.Prelude.{Option, none, some, String, All, str_eq}
use kube_shim.Tariff.{BudgetRow}
use kube_shim.Db.{Db}
use kube_shim.Program.{M, System, pure, execute, ◌>>◌, let_some}
use kube_shim.Program.Triple.{
  Triple, Triple-pure, Triple-call, Triple-query, Triple-execute, Triple-bind, Triple-let_some,
  Triple-if, Triple-mono,
}
use kube_shim.Real.{Real}
use kube_shim.Real.Laws.{Laws}
use kube_shim.Currency.Reads.{convert-reads}
use kube_shim.Currency.Rates.{IsNonneg, WhereSome, convert-Nonneg}
use kube_shim.Budget.{
  BudgetSettings, SettingsPatch, option_map, update_budget, fetch_budget_row, settle_row,
  settle_accrual, topped_up, apply_topup, available_budget, committed_budget,
}
use kube_shim.Budget.Settle.{accrued-nonneg}
use kube_shim.Budget.Patch.{
  Converted, store_settings, convert_settings, patch_settled, patch_settings,
}

module _ {C F : Type 0} (system : System C) (real : Real F) (laws : Laws real) where
  -- No balance is negative, and the rates are positive.
  abbrev pub IsSolvent : Db F → Type 0
  IsSolvent db =
      WhereSome real (λ row. row.balance) db.budget_state
      × All (λ r. laws.IsPositive r.rate) db.exchange_rates

  update_budget-IsSolvent :
      (f : BudgetRow F → BudgetRow F) (db : Db F)
      → ((row : BudgetRow F) → IsNonneg real row.balance → IsNonneg real (f row).balance)
      → IsSolvent db
      → IsSolvent (update_budget f db)
  unfolding update_budget option_map
  update_budget-IsSolvent f db k h = (mapped db.budget_state h.0, h.1)
    where
      mapped :
          (o : Option (BudgetRow F))
          → WhereSome real (λ row. row.balance) o
          → WhereSome real (λ row. row.balance) (option_map f o)
      mapped none h = tt
      mapped (some row) h = k row h

  -- An update, and then an answer that is known.
  update-IsSolvent :
      {A : Type 0} (f : BudgetRow F → BudgetRow F) (a : A) (R : A → Type 0)
      → ((row : BudgetRow F) → IsNonneg real row.balance → IsNonneg real (f row).balance)
      → R a
      → Triple {C = C} IsSolvent
          (λ a db. IsSolvent db × R a)
          IsSolvent
          (execute system (update_budget f) >> pure a)
  update-IsSolvent f a R k r =
      Triple-bind {Q = λ _. IsSolvent} _ _
        (Triple-execute system (update_budget f) (λ db h. update_budget-IsSolvent f db k h)
          (λ db h. h))
        (λ _. Triple-pure a (λ db h. (h, r)))

  abbrev pub Nonneg : {A : Type 0} → (A → F) → Option A → Db F → Type 0
  Nonneg value answer db = IsSolvent db × WhereSome real value answer

  settle_row-IsSolvent :
      (row : BudgetRow F)
      → IsNonneg real row.balance
      → Triple {C = C} IsSolvent
          (Nonneg (λ settled. settled.0))
          IsSolvent
          (settle_row system real row)
  unfolding settle_row
  settle_row-IsSolvent row h =
      Triple-bind {Q = λ _. IsSolvent} _ _ (Triple-call system.now (λ c db s. s)) (λ now.
        Triple-if (real.le row.budget_daily_rate (real.of_ℕ 0)) _ _
          (λ _. update-IsSolvent _ _ (WhereSome real (λ settled. settled.0)) (λ r k. k) h)
          (λ e.
            let raised =
              laws.add_nonneg row.balance _ h (accrued-nonneg system real laws row now e) in
            update-IsSolvent _ _ (WhereSome real (λ settled. settled.0)) (λ r k. raised) raised))

  -- where a SELECT has found the row, or none
  with_row :
      {A : Type 0} (o : Option (BudgetRow F)) (R : A → Db F → Type 0) (m : M C F A)
      (f : BudgetRow F → M C F A)
      → Triple IsSolvent R IsSolvent m
      → ((row : BudgetRow F) → IsNonneg real row.balance → Triple IsSolvent R IsSolvent (f row))
      → Triple
          (λ db. IsSolvent db × WhereSome real (λ row. row.balance) o)
          R
          IsSolvent
          (let_some o m f)
  unfolding let_some
  with_row none R m f tm tf = record { at = λ w h. tm.at w h.0 }
  with_row (some row) R m f tm tf = record { at = λ w h. (tf row h.1).at w h.0 }

  pub settle_accrual-IsSolvent :
      Triple {C = C} IsSolvent
        (Nonneg (λ settled. settled.0))
        IsSolvent
        (settle_accrual system real)
  unfolding settle_accrual fetch_budget_row
  settle_accrual-IsSolvent =
      Triple-bind {Q = λ o. Nonneg (λ row. row.balance) o} _ _
        (Triple-query system _ (λ db h. (h, h.0)) (λ db h. h))
        (λ o. with_row o _ _ _ (Triple-pure none (λ db h. (h, tt))) settle_row-IsSolvent)

  abbrev pub Kept : {A : Type 0} → M C F A → Type 0
  Kept m = Triple {C = C} IsSolvent (λ _. IsSolvent) IsSolvent m

  -- an update whose answer does not matter
  update-Kept :
      {A : Type 0} (f : BudgetRow F → BudgetRow F) (a : A)
      → ((row : BudgetRow F) → IsNonneg real row.balance → IsNonneg real (f row).balance)
      → Kept (execute system (update_budget f) >> pure a)
  update-Kept f a k =
      Triple-mono _ (update-IsSolvent f a (λ _. Unit) k tt) (λ db h. h) (λ a db h. h.0) (λ db h. h)

  -- the rest of an action that settles first
  after_settling :
      {A : Type 0} (settled : Option (F × BudgetSettings F)) (m : M C F A)
      (f : F × BudgetSettings F → M C F A)
      → Kept m
      → ((s : F × BudgetSettings F) → IsNonneg real s.0 → Kept (f s))
      → Triple (Nonneg (λ s. s.0) settled) (λ _. IsSolvent) IsSolvent (let_some settled m f)
  unfolding let_some
  after_settling none m f tm tf = record { at = λ w h. tm.at w h.0 }
  after_settling (some s) m f tm tf = record { at = λ w h. (tf s h.1).at w h.0 }

  pub available_budget-Kept : Kept (available_budget system real)
  unfolding available_budget committed_budget
  available_budget-Kept = Triple-bind _ _ settle_accrual-IsSolvent (λ settled.
      after_settling settled _ _ (Triple-pure _ (λ db h. h)) (λ s _.
        Triple-if (real.le s.1.budget_daily_rate (real.of_ℕ 0)) _ _ (λ _. Triple-pure _ (λ db h. h))
          (λ _.
            Triple-bind {Q = λ _. IsSolvent} _ _
              (Triple-bind {Q = λ _. IsSolvent} _ _ (Triple-query system _ (λ db h. h) (λ db h. h))
                (λ costs. Triple-pure _ (λ db h. h)))
              (λ committed. Triple-pure _ (λ db h. h)))))

  pub apply_topup-Kept : (amount : F) → Kept (apply_topup system real amount)
  unfolding apply_topup topped_up
  apply_topup-Kept amount = Triple-bind _ _ settle_accrual-IsSolvent (λ settled.
      after_settling settled _ _ (Triple-pure _ (λ db h. h))
        (λ s _. update-Kept _ _ (λ row h. laws.max_zero _)))

  module _ (patch : SettingsPatch F) where
    store_settings-Kept :
        (done : Converted F)
        → IsNonneg real done.balance
        → Kept (store_settings system real patch done)
    unfolding store_settings
    store_settings-Kept done h = update-Kept _ _ (λ row _. h)

    -- what a conversion has given, if anything
    with_amount :
        {A : Type 0} (amount : Option F) (m : M C F A) (f : F → M C F A)
        → Kept m
        → ((x : F) → IsNonneg real x → Kept (f x))
        → Triple
            (λ db. IsSolvent db × WhereSome real (λ x. x) amount)
            (λ _. IsSolvent)
            IsSolvent
            (let_some amount m f)
    unfolding let_some
    with_amount none m f tm tf = record { at = λ w h. tm.at w h.0 }
    with_amount (some x) m f tm tf = record { at = λ w h. (tf x h.1).at w h.0 }

    convert_settings-Kept :
        (balance : F) (settings : BudgetSettings F) (target : String)
        → IsNonneg real balance
        → Kept (convert_settings system real patch balance settings target)
    unfolding convert_settings
    convert_settings-Kept balance settings target h =
        Triple-bind _ _
          (convert-Nonneg system real laws IsSolvent (λ db s. s.1) balance settings.main_currency
            target h)
          (λ converted. with_amount converted _ _ (Triple-pure _ (λ db s. s)) (λ x nonneg.
            Triple-let_some patch.budget_daily_rate _ _
              (λ _.
                Triple-bind {Q = λ _. IsSolvent} _ _
                  (convert-reads system real settings.budget_daily_rate settings.main_currency
                    target)
                  (λ rate.
                    Triple-let_some rate _ _ (λ _. Triple-pure _ (λ db s. s))
                      (λ r _. store_settings-Kept _ nonneg)))
              (λ r _. store_settings-Kept _ nonneg)))

    pub patch_settings-Kept : Kept (patch_settings system real patch)
    unfolding patch_settings patch_settled
    patch_settings-Kept = Triple-bind _ _ settle_accrual-IsSolvent (λ settled.
        after_settling settled _ _ (Triple-pure _ (λ db h. h)) (λ s h.
          Triple-let_some patch.main_currency _ _ (λ _. store_settings-Kept _ h)
            (λ target _.
              Triple-if (str_eq target s.1.main_currency) _ _ (λ _. store_settings-Kept _ h)
                (λ _. convert_settings-Kept s.0 s.1 target h))))
