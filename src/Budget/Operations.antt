-- ===== src/Budget/Operations.antt =====
-- The calls that read or write the budget of src/pricing/mod.rs and the rates of src/currency.rs, in
-- any order.
use kube_shim.Prelude.{String, List, [], ◌∷◌, All}
use kube_shim.Prelude.Int.{ℤ}
use kube_shim.Db.{Db}
use kube_shim.Program.{Result, ok, err, World, M, System}
use kube_shim.Program.Triple.{
  Post, Triple, Triple-pure, Triple-call, Triple-query, Triple-execute, Triple-bind,
  Triple-let_some, Triple-if, Triple-fail, Triple-mono,
}
use kube_shim.Real.{Real}
use kube_shim.Real.Laws.{Laws}
use kube_shim.Currency.{ExchangeRate, has_currency_twice, rate_rows, store_rates}
use kube_shim.Budget.{
  BudgetSettings, SettingsPatch, seed_row, fetch_budget_row, ensure_budget_seeded, settle_accrual,
  available_budget, apply_topup,
}
use kube_shim.Budget.Patch.{patch_settings}
use kube_shim.Budget.Solvent.{
  IsSolvent, settle_accrual-IsSolvent, available_budget-Kept, apply_topup-Kept, patch_settings-Kept,
}

pub data Operation (F : Type 0) : Type 0 where
  seed : BudgetSettings F → Operation F
  settle available : Operation F
  top_up : F → Operation F
  change : SettingsPatch F → Operation F
  rates : List (ExchangeRate F) → ℤ → Operation F

module _ {C F : Type 0} (system : System C) (real : Real F) where
  -- the world after a call, whether it returns or ends in an error
  unfoldable pub run : Operation F → World C F → World C F
  run (seed settings) w = (ensure_budget_seeded system real settings w).1
  run settle w = (settle_accrual system real w).1
  run available w = (available_budget system real w).1
  run (top_up amount) w = (apply_topup system real amount w).1
  run (change patch) w = (patch_settings system real patch w).1
  run (rates fetched fetched_at) w = (store_rates system fetched fetched_at w).1

  unfoldable pub run_all : List (Operation F) → World C F → World C F
  unfolding run
  run_all [] w = w
  run_all (op ∷ ops) w = run_all ops (run op w)

  module _ (laws : Laws real) where
    -- The ECB publishes positive rates.
    abbrev pub HasPositiveRates : Operation F → Type 0
    HasPositiveRates (rates fetched fetched_at) = All (λ r. laws.IsPositive r.rate) fetched
    HasPositiveRates op = Unit

    rate_rows-positive :
        (fetched : List (ExchangeRate F)) (fetched_at : ℤ)
        → All (λ r. laws.IsPositive r.rate) fetched
        → All (λ r. laws.IsPositive r.rate) (rate_rows fetched fetched_at)
    unfolding rate_rows
    rate_rows-positive [] fetched_at h = tt
    rate_rows-positive (r ∷ fetched) fetched_at h = (h.0, rate_rows-positive fetched fetched_at h.1)

    abbrev Solvent : Db F → Type 0
    Solvent = IsSolvent system real laws

    ensure_budget_seeded_kept :
        (settings : BudgetSettings F)
        → Triple {C = C} Solvent (λ _. Solvent) Solvent (ensure_budget_seeded system real settings)
    unfolding ensure_budget_seeded fetch_budget_row seed_row
    ensure_budget_seeded_kept settings =
        Triple-bind {Q = λ _. Solvent} _ _ (Triple-query system _ (λ db s. s) (λ db s. s)) (λ row.
          Triple-let_some row _ _
            (λ _.
              Triple-bind {Q = λ _. Solvent} _ _ (Triple-call system.now (λ c db s. s))
                (λ now. Triple-execute system _ (λ db s. (laws.of_ℕ_nonneg 0, s.1)) (λ db s. s)))
            (λ r _. Triple-pure tt (λ db s. s)))

    store_rates_kept :
        (fetched : List (ExchangeRate F)) (fetched_at : ℤ)
        → All (λ r. laws.IsPositive r.rate) fetched
        → Triple {C = C} Solvent (λ _. Solvent) Solvent (store_rates system fetched fetched_at)
    unfolding store_rates
    store_rates_kept fetched fetched_at p =
        Triple-if (has_currency_twice fetched) _ _ (λ _. Triple-fail _ (λ db s. s))
          (λ _.
            Triple-execute system _ (λ db s. (s.0, rate_rows-positive fetched fetched_at p))
              (λ db s. s))

    kept :
        {A : Type 0} (m : M C F A) (w : World C F)
        → Triple {C = C} Solvent (λ _. Solvent) Solvent m
        → Solvent w.db
        → Solvent (m w).1.db
    kept m w t h = either (m w).0 (m w).1.db (t.at w h)
      where
        either :
            {A : Type 0} (r : Result String A) (db : Db F)
            → Post (λ _. Solvent) Solvent r db
            → Solvent db
        either (ok a) db h = h
        either (err e) db h = h

    run-IsSolvent :
        (op : Operation F) (w : World C F)
        → HasPositiveRates op
        → Solvent w.db
        → Solvent (run op w).db
    unfolding run
    run-IsSolvent (seed settings) w p h = kept _ w (ensure_budget_seeded_kept settings) h
    run-IsSolvent settle w p h =
        kept _ w
          (Triple-mono _ (settle_accrual-IsSolvent system real laws) (λ db s. s) (λ a db s. s.0)
            (λ db s. s))
          h
    run-IsSolvent available w p h = kept _ w (available_budget-Kept system real laws) h
    run-IsSolvent (top_up amount) w p h = kept _ w (apply_topup-Kept system real laws amount) h
    run-IsSolvent (change patch) w p h = kept _ w (patch_settings-Kept system real laws patch) h
    run-IsSolvent (rates fetched fetched_at) w p h =
        kept _ w (store_rates_kept fetched fetched_at p) h

    -- Whatever sequence of calls reads, settles, tops up or changes the budget, and whichever of them
    -- fail on the way, the balance never becomes negative, provided the rates fetched are positive.
    pub run_all-IsSolvent :
        (ops : List (Operation F)) (w : World C F)
        → All HasPositiveRates ops
        → IsSolvent system real laws w.db
        → IsSolvent system real laws (run_all ops w).db
    unfolding run_all
    run_all-IsSolvent [] w p h = h
    run_all-IsSolvent (op ∷ ops) w p h =
        run_all-IsSolvent ops (run op w) p.1 (run-IsSolvent op w p.0 h)
