-- ===== src/Tests/BudgetRuns.antt =====
-- The budget and the charges at concrete inputs; REAL numbers are whole, and a difference stops at 0.
use kube_shim.Tests.Setup.{Log, clock, context, world}
use kube_shim.Prelude.{
  ℕ, ◌+◌, ◌-◌, ◌*◌, ◌/◌, ◌<◌, ◌≡◌, refl, inl, true, false, none, some, List, [], ◌∷◌, arith, leb,
  ltb, ◌==◌, if◌then◌else◌,
}
use kube_shim.Prelude.Int.{pos}
use kube_shim.Status.{Status}
use kube_shim.Tariff.{BudgetRow}
use kube_shim.Program.{World}
use kube_shim.Program.Triple.{Post}
use kube_shim.Catalog.{Sql}
use kube_shim.Real.{Real}
use kube_shim.Real.Laws.{Laws}
use kube_shim.Budget.{SettingsPatch, settle_accrual}
use kube_shim.Budget.Settle.{Answers, settle_accrual-Settles}
use kube_shim.Budget.Patch.{patch_settings}
use kube_shim.Budget.Outcome.{Patched, patch_settings-Patched}
use kube_shim.Budget.Solvent.{IsSolvent}
use kube_shim.Budget.Operations.{
  Operation, settle, top_up, change, rates, run_all, run_all-IsSolvent,
}
use kube_shim.Pricing.{check_budget, charge_breakdown_for_duration}
use kube_shim.Pricing.Cover.{covers, check_budget-covers}
use kube_shim.Pricing.Charges.{IsItemised, charge_breakdown-IsItemised}

abbrev sum_ℕ : List ℕ → ℕ
sum_ℕ [] = 0
sum_ℕ (x ∷ xs) = x + sum_ℕ xs

abbrev real : Real ℕ
real = record {
  le = leb;
  add = λ a b. a + b;
  sub = λ a b. a - b;
  mul = λ a b. a * b;
  div = λ a b. a / b;
  min = λ a b. if leb a b then a else b;
  max = λ a b. if leb a b then b else a;
  of_ℕ = λ n. n;
  sum = sum_ℕ;
}

zero_le : (n : ℕ) → leb 0 n ≡ true
zero_le n = ground arith

unfoldable laws : Laws real
laws = record {
  IsFinite = λ _. Unit;
  IsPositive = λ x. 0 < x;
  finite_refl = λ x h. ground arith;
  le_trans = λ x y z h k. ground arith;
  of_ℕ_nonneg = λ n. ground arith;
  max_zero = λ x. ground arith;
  min_nonneg = λ x y h k. ground arith;
  min_le_right = λ x y h. ground arith;
  le_refl_right = λ x y h. ground arith;
  add_zero = λ x h. ground arith;
  add_mono = λ x y z h k. ground arith;
  mul_nonneg = λ x y h k. inl (zero_le _);
  not_le_zero = λ x h. inl (zero_le x);
  mul_nan = λ x y h. ground arith;
  div_nonneg = λ x n h. zero_le _;
  add_nonneg = λ x y h k. zero_le _;
  div_positive = λ x y h k. zero_le _;
  mul_positive = λ x y h k. zero_le _;
}

-- 400 seconds after the accrual was settled last
abbrev budget : BudgetRow ℕ
budget = record {
  balance = 5;
  last_accrual_at = pos 600;
  main_currency = "EUR";
  budget_daily_rate = 3;
  budget_rollover_cap_days = 7;
}

abbrev funded : World Log ℕ
funded =
    let w = world Status.vm_creating in
    record w {
      db = record w.db {
        budget_state = some budget;
        provider_pricing =
            record {
              zone = "fi-hel1";
              price_key = "server_plan_1xCPU";
              amount = 1;
              price = 400;
              currency = "EUR";
              fetched_at = pos 7;
            }
            ∷ [];
      };
    }

abbrev pub sql : Sql ℕ
sql = record {
  div = λ a b. if b == 0 then none else some (a / b);
  add = λ a b. a + b;
  mul_ℕ = λ a n. a * n;
  zero_F = 0;
  less = ltb;
}

-- to another currency, at a daily rate of 2
abbrev patch : SettingsPatch ℕ
patch = record {
  budget_daily_rate = some 2;
  budget_rollover_cap_days = none;
  main_currency = some "USD";
}

abbrev operations : List (Operation ℕ)
operations =
    rates (record { currency = "USD"; rate = 4 } ∷ []) (pos 900)
    ∷ settle
    ∷ top_up 2
    ∷ change patch
    ∷ []

run_all-IsSolvent_example : IsSolvent clock real laws (run_all clock real operations funded).db
unfolding laws
run_all-IsSolvent_example =
    run_all-IsSolvent clock real laws operations funded ((omega arith, tt), (tt, (tt, (tt, tt))))
      (refl, tt)

settle_accrual-Settles_example :
    Post
      (Answers clock real budget)
      (λ db. db.budget_state ≡ some budget)
      (settle_accrual clock real funded).0
      (settle_accrual clock real funded).1.db
unfolding laws
settle_accrual-Settles_example = settle_accrual-Settles clock real laws budget tt funded refl

patch_settings-Patched_example :
    let settled = (settle_accrual clock real funded).1.db in
    Post
      (Patched clock real patch settled)
      (λ db. db ≡ settled)
      (patch_settings clock real patch funded).0
      (patch_settings clock real patch funded).1.db
patch_settings-Patched_example = patch_settings-Patched clock real patch funded budget refl

check_budget-covers_example :
    Post
      (λ answer db. answer.1 ≡ covers (context false) real sql answer.0 db)
      (λ db. Unit)
      (check_budget (context false) real sql "fi-hel1" "{}" (pos 3600) "EUR" funded).0
      (check_budget (context false) real sql "fi-hel1" "{}" (pos 3600) "EUR" funded).1.db
check_budget-covers_example =
    check_budget-covers (context false) real sql "fi-hel1" "{}" (pos 3600) "EUR" funded

charge_breakdown-IsItemised_example :
    Post
      (λ answer db.
        (db ≡ funded.db)
        × IsItemised (context false) real sql "fi-hel1" 2 funded.db "{}" (some "1xCPU") answer)
      (λ db. db ≡ funded.db)
      (charge_breakdown_for_duration
        (context false)
        real
        sql
        "fi-hel1"
        2
        "{}"
        (some "1xCPU")
        funded).0
      (charge_breakdown_for_duration
        (context false)
        real
        sql
        "fi-hel1"
        2
        "{}"
        (some "1xCPU")
        funded).1.db
charge_breakdown-IsItemised_example =
    charge_breakdown-IsItemised (context false) real sql "fi-hel1" 2 funded.db "{}" (some "1xCPU")
      funded refl
