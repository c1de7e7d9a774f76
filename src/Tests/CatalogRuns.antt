-- ===== src/Tests/CatalogRuns.antt =====
-- The catalog of server plans at concrete inputs; REAL numbers are whole.
use kube_shim.Prelude.{
  ℕ, ◌+◌, ◌*◌, ◌/◌, ◌≡◌, refl, true, none, some, String, List, [], ◌∷◌, ltb, ◌==◌, if◌then◌else◌,
}
use kube_shim.Prelude.Int.{pos}
use kube_shim.Tariff.{ServerPlan}
use kube_shim.Orphans.{starts_with}
use kube_shim.Catalog.{
  PlanInfo, PlanFilter, Sql, plan_row, store_plans, cheapest_fitting_server_plan,
}
use kube_shim.Tariff.{PlanRow, PriceRow}
use kube_shim.Catalog.Choice.{IsOffered, cheapest_fitting_server_plan-IsOffered}

abbrev plan : String → ℕ → ℕ → PlanInfo
plan name cores gpus = record {
  name = name;
  cpu_cores = cores;
  memory_mb = 2048;
  storage_gb = 20;
  storage_tier = none;
  gpu_count = gpus;
  current_offering = true;
}

abbrev plans : List PlanInfo
plans = plan "GPU-1" 1 1 ∷ plan "1xCPU" 1 0 ∷ plan "2xCPU" 2 0 ∷ plan "DEV-1" 1 0 ∷ []

abbrev filter : PlanFilter
filter = record { allow_prefixes = []; deny_prefixes = "DEV-" ∷ [] }

abbrev rows : List PlanRow
rows = plan_row (pos 7) (plan "1xCPU" 1 0) ∷ plan_row (pos 7) (plan "2xCPU" 2 0) ∷ []

abbrev sql : Sql ℕ
sql = record {
  div = λ a b. if b == 0 then none else some (a / b);
  add = λ a b. a + b;
  mul_ℕ = λ a n. a * n;
  zero_F = 0;
  less = ltb;
}

-- the larger plan is the cheaper one
abbrev prices : List (PriceRow ℕ)
prices =
    record {
      zone = "fi-hel1";
      price_key = "server_plan_1xCPU";
      amount = 1;
      price = 9;
      currency = "EUR";
      fetched_at = pos 7;
    }
    ∷ record {
      zone = "fi-hel1";
      price_key = "server_plan_2xCPU";
      amount = 1;
      price = 8;
      currency = "EUR";
      fetched_at = pos 7;
    }
    ∷ []

stored : store_plans plans filter (pos 7) ≡ some (rows, 2)
unfolding store_plans starts_with
stored = refl

cheaper :
    cheapest_fitting_server_plan sql prices rows "fi-hel1" 1 1
    ≡ some (plan_row (pos 7) (plan "2xCPU" 2 0)).plan
unfolding cheapest_fitting_server_plan
cheaper = refl

cheapest_fitting_server_plan-IsOffered_example :
    ((p : ServerPlan)
      → cheapest_fitting_server_plan sql prices rows "fi-hel1" 1 1 ≡ some p
      → IsOffered filter (pos 7) 1 1 plans p)
    × (cheapest_fitting_server_plan sql prices rows "fi-hel1" 1 1 ≡ none
        → (p : ServerPlan) → IsOffered filter (pos 7) 1 1 plans p
        → ⊥)
cheapest_fitting_server_plan-IsOffered_example =
    cheapest_fitting_server_plan-IsOffered sql prices "fi-hel1" plans filter (pos 7) rows 2 1 1
      stored
