-- ===== src/Pricing.antt =====
-- The charges of a job in src/pricing/mod.rs, and the check of its estimate against the budget.
pub mod Cover
pub mod Charges
use kube_shim.Prelude.{
  ℕ, Bool, true, false, Option, none, some, String, List, [], ◌∷◌, ◌++◌, map, ◌&&◌, ◌<>◌, str_eq,
  find, show_ℕ, if◌then◌else◌,
}
use kube_shim.Prelude.Int.{ℤ, pos_part}
use kube_shim.Quantity.{
  StorageTier, standard, parse_tier, upcloud_tier, parse_storage_quantity_gb,
  whole_units_for_requests,
}
use kube_shim.Tariff.{ServerPlan, PlanRow, PriceRow}
use kube_shim.Db.{Db}
use kube_shim.Program.{M, pure, query, ◌>>=◌, ◌>>◌, let_some}
use kube_shim.Context.{JobContext}
use kube_shim.Job.Spec.{
  and_then, to_option, unwrap_or_else, find_ephemeral_volume, extract_resource_requests,
}
use kube_shim.Job.Servers.{worker_boot_disk_gb, plan_bundles_disk_and_ip}
use kube_shim.Catalog.{Sql, cheapest_fitting_server_plan}
use kube_shim.Real.{Real}
use kube_shim.Currency.{convert}
use kube_shim.Budget.{available_budget}

pub record ChargeBreakdown (F : Type 0) : Type 0 where
  pub sku_id : String
  pub sku_price_id : String
  pub pricing_category : String
  pub quantity : F
  pub unit : String
  pub unit_price : F
  pub total : F

-- SELECT storage_gb FROM provider_plans WHERE name = ?
storage_of : String → List PlanRow → Option ℕ
storage_of name rows = elim (find (λ r. str_eq r.plan.name name) rows) [
  | none ↦ none
  | some r ↦ some r.plan.storage_gb
]

name_and_storage : Option ServerPlan → Option (String × ℕ)
name_and_storage none = none
name_and_storage (some plan) = some (plan.name, plan.storage_gb)

module _ {F : Type 0} where
  unfoldable pub find_price : String → String → List (PriceRow F) → Option (F × F × String)
  find_price zone price_key prices =
      elim (find (λ r. str_eq r.zone zone && str_eq r.price_key price_key) prices) [
        | none ↦ none
        | some r ↦ some (r.amount, r.price, r.currency)
      ]

  -- SELECT currency FROM provider_pricing LIMIT 1
  first_currency : List (PriceRow F) → Option String
  first_currency [] = none
  first_currency (r ∷ prices) = some r.currency

module _ {C V F : Type 0} (ctx : JobContext C V F) (real : Real F) (sql : Sql F) where
  open ctx use {system, json, floats}

  unfoldable pub cached_price : String → String → M C F (Option (F × F × String))
  unfolding find_price
  cached_price zone price_key = query system (λ db. find_price zone price_key db.provider_pricing)

  unfoldable pub provider_currency : M C F (Option String)
  unfolding first_currency
  provider_currency = query system (λ db. first_currency db.provider_pricing)

  -- the plan of the job's VM, or the one that it would get
  unfoldable pub charged_plan : String → V → Option String → M C F (Option (String × ℕ))
  unfolding storage_of name_and_storage
  charged_plan zone spec recorded_plan =
      let_some recorded_plan
        (let requests = extract_resource_requests ctx spec in
          let units = whole_units_for_requests requests.0 requests.1 in
          query system (λ db. name_and_storage (
            cheapest_fitting_server_plan sql db.provider_pricing db.provider_plans zone units.0
              units.1)))
        (λ name. do
          storage_gb ← query system (λ db. storage_of name db.provider_plans)
          pure (some (name, unwrap_or_else storage_gb worker_boot_disk_gb)))

  -- in the currency's main unit, of which a price is a hundredth
  unfoldable pub price_of_unit : F × F × String → F
  price_of_unit (amount, price, currency) = real.div (real.div price amount) (real.of_ℕ 100)

  module _ (zone : String) (duration_hours : F) where
    unfoldable pub charge : String → String → F → ChargeBreakdown F
    charge sku_id price_key unit_price = record {
      sku_id = sku_id;
      sku_price_id = price_key;
      pricing_category = "Standard";
      quantity = duration_hours;
      unit = "Hours";
      unit_price = unit_price;
      total = real.mul unit_price duration_hours;
    }

    -- a charge that is left out where its price is not known
    unfoldable pub charge_if_priced : String → String → (F → F) → M C F (List (ChargeBreakdown F))
    unfolding cached_price price_of_unit charge
    charge_if_priced sku_id price_key unit_price = do
      cached ← cached_price zone price_key
      let_some cached (pure [])
          (λ p. pure (charge sku_id price_key (unit_price (price_of_unit p)) ∷ []))

    unfoldable pub unbundled_charges : ℕ → M C F (List (ChargeBreakdown F))
    unfolding charge_if_priced plan_bundles_disk_and_ip
    unbundled_charges plan_storage_gb =
        let boot_tier = upcloud_tier standard in
        if plan_bundles_disk_and_ip plan_storage_gb then pure [] else do
          boot ←
              charge_if_priced (boot_tier <> "-" <> show_ℕ worker_boot_disk_gb <> "GB-boot")
                ("storage_" <> boot_tier) (λ rate. real.mul rate (real.of_ℕ worker_boot_disk_gb))
          ip ← charge_if_priced "ipv4-address" "ipv4_address" (λ rate. rate)
          pure (boot ++ ip)

    unfoldable pub volume_charges : V → M C F (List (ChargeBreakdown F))
    unfolding charge_if_priced
    volume_charges spec = let_some (find_ephemeral_volume json spec) (pure []) (λ volume.
        let size =
          and_then (and_then (json.pointer volume "/resources/requests/storage") json.as_str)
            (λ q. to_option (parse_storage_quantity_gb floats q)) in
        let storage_class = and_then (json.get volume "storageClassName") json.as_str in
        let tier = upcloud_tier (unwrap_or_else (to_option (parse_tier storage_class)) standard) in
        let_some size (pure []) (λ size_gb.
          charge_if_priced (tier <> "-" <> show_ℕ size_gb <> "GB") ("storage_" <> tier)
            (λ rate. real.mul rate (real.of_ℕ size_gb))))

    unfoldable pub charges_of_plan :
        V → String × ℕ → M C F (Option (List (ChargeBreakdown F) × String))
    unfolding cached_price price_of_unit charge unbundled_charges volume_charges
    charges_of_plan spec (plan_name, plan_storage_gb) =
        let vm_price_key = "server_plan_" <> plan_name in
        do
          cached ← cached_price zone vm_price_key
          let_some cached (pure none) (λ p. do
            unbundled ← unbundled_charges plan_storage_gb
            volume ← volume_charges spec
            pure (
                some
                  (charge plan_name vm_price_key (price_of_unit p) ∷ (unbundled ++ volume), p.2)))

    unfoldable pub charge_breakdown_for_duration :
        V → Option String → M C F (Option (List (ChargeBreakdown F) × String))
    unfolding charged_plan charges_of_plan
    charge_breakdown_for_duration spec recorded_plan = do
      plan ← charged_plan zone spec recorded_plan
      let_some plan (pure none) (charges_of_plan spec)

  abbrev pub hours_of : ℤ → F
  hours_of seconds = real.div (real.of_ℕ (pos_part seconds)) (real.of_ℕ 3600)

  unfoldable pub estimate_job_charges :
      String → V → ℤ → M C F (Option (List (ChargeBreakdown F) × String))
  unfolding charge_breakdown_for_duration
  estimate_job_charges zone spec active_deadline_seconds =
      charge_breakdown_for_duration zone (hours_of active_deadline_seconds) spec none

  unfoldable pub actual_job_charges :
      String → V → Option String → ℤ → M C F (Option (List (ChargeBreakdown F) × String))
  unfolding charge_breakdown_for_duration
  actual_job_charges zone spec worker_plan duration_seconds =
      charge_breakdown_for_duration zone (hours_of duration_seconds) spec worker_plan

  -- the sum of the charges, in the main currency
  unfoldable pub total_cost : String → Option (List (ChargeBreakdown F) × String) → M C F (Option F)
  total_cost main_currency charges =
      let_some charges (pure none)
        (λ c. convert system real (real.sum (map (λ x. x.total) c.0)) c.1 main_currency)

  unfoldable pub estimate_job_cost : String → V → ℤ → String → M C F (Option F)
  unfolding estimate_job_charges total_cost
  estimate_job_cost zone spec active_deadline_seconds main_currency = do
    charges ← estimate_job_charges zone spec active_deadline_seconds
    total_cost main_currency charges

  unfoldable pub calculate_actual_cost : String → V → Option String → ℤ → String → M C F (Option F)
  unfolding actual_job_charges total_cost
  calculate_actual_cost zone spec worker_plan duration_seconds main_currency = do
    charges ← actual_job_charges zone spec worker_plan duration_seconds
    total_cost main_currency charges

  -- A budget or a cost that is not known lets the job through.
  unfoldable pub is_sufficient : Option F → Option F → Bool
  is_sufficient (some available) (some cost) = real.le cost available
  is_sufficient available cost = true

  unfoldable pub check_budget : String → V → ℤ → String → M C F (Option F × Bool)
  unfolding estimate_job_cost is_sufficient
  check_budget zone spec active_deadline_seconds main_currency = do
    estimated_cost ← estimate_job_cost zone spec active_deadline_seconds main_currency
    available ← available_budget system real
    pure (estimated_cost, is_sufficient available estimated_cost)
