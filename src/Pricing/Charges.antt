-- ===== src/Pricing/Charges.antt =====
-- What the charges of src/pricing/mod.rs consist of.
use mathlib.Core.Option.{some-injective as some_injective}
use kube_shim.Prelude.{
  ℕ, ◌≡◌, refl, sym, ◌∙◌, Option, none, some, String, List, [], ◌∷◌, ◌++◌, ◌<>◌, All, All-append,
  ◌⊎◌, inl, inr, map_option,
}
use kube_shim.Db.{Db}
use kube_shim.Program.{World}
use kube_shim.Program.Triple.{
  Post, Triple, Triple-pure, Triple-query, Triple-bind, Triple-let_some, Triple-if, Triple-frame,
  Triple-mono,
}
use kube_shim.Context.{JobContext}
use kube_shim.Catalog.{Sql, cheapest_fitting_server_plan}
use kube_shim.Real.{Real}
use kube_shim.Quantity.{whole_units_for_requests}
use kube_shim.Tariff.{ServerPlan}
use kube_shim.Job.Spec.{find_ephemeral_volume, extract_resource_requests}
use kube_shim.Job.Servers.{worker_boot_disk_gb, plan_bundles_disk_and_ip}
use kube_shim.Pricing.{
  name_and_storage, ChargeBreakdown, find_price, cached_price, price_of_unit, charged_plan, charge,
  charge_if_priced, unbundled_charges, volume_charges, charges_of_plan,
  charge_breakdown_for_duration,
}

module _ {C V F : Type 0} (ctx : JobContext C V F) (real : Real F) (sql : Sql F) (zone : String)
    (hours : F) (d : Db F) where
  open ctx use {system, json}

  -- the name of the recorded plan, or of the cheapest one that fits the job's requests
  abbrev pub expected_plan : V → Option String → Option String
  expected_plan spec (some name) = some name
  expected_plan spec none =
      let requests = extract_resource_requests ctx spec in
      let units = whole_units_for_requests requests.0 requests.1 in
      map_option (λ (plan : ServerPlan). plan.name)
        (cheapest_fitting_server_plan sql d.provider_pricing d.provider_plans zone units.0 units.1)

  -- A row of prices holds the price of an amount of units, in hundredths of the currency.
  abbrev pub unit_rate : F × F × String → F
  unit_rate (amount, price, currency) = real.div (real.div price amount) (real.of_ℕ 100)

  abbrev pub IsWholeTime : ChargeBreakdown F → Type 0
  IsWholeTime c = (c.quantity ≡ hours) × (c.total ≡ real.mul c.unit_price hours)

  -- one unit, or a whole number of them
  abbrev pub IsMultiple : F → F → Type 0
  IsMultiple rate x = (x ≡ rate) ⊎ ((n : ℕ) × (x ≡ real.mul rate (real.of_ℕ n)))

  -- a charge for a price of the zone, for the whole time
  abbrev pub IsPriced : ChargeBreakdown F → Type 0
  IsPriced c =
      ((p : F × F × String) × (find_price zone c.sku_price_id d.provider_pricing ≡ some p)
        × IsMultiple (unit_rate p) c.unit_price)
      × IsWholeTime c

  -- the charge for one VM of the plan
  abbrev pub IsOfPlan : String → String → ChargeBreakdown F → Type 0
  IsOfPlan name currency c =
      (c.sku_id ≡ name)
      × (c.sku_price_id ≡ "server_plan_" <> name)
      × ((amount : F) × (price : F) × (find_price zone ("server_plan_" <> name) d.provider_pricing
            ≡ some (amount, price, currency))
          × (c.unit_price ≡ unit_rate (amount, price, currency)))
      × IsWholeTime c

  -- There is no answer exactly where there is no plan or no price of it; otherwise the first charge is
  -- that of the plan, in whose currency they all are.
  abbrev pub IsItemised : V → Option String → Option (List (ChargeBreakdown F) × String) → Type 0
  IsItemised spec recorded none =
      (name : String)
      → expected_plan spec recorded ≡ some name
      → find_price zone ("server_plan_" <> name) d.provider_pricing ≡ none
  IsItemised spec recorded (some (charges, currency)) =
      (name : String) × (first : ChargeBreakdown F) × (rest : List (ChargeBreakdown F))
      × (expected_plan spec recorded ≡ some name)
      × (charges ≡ first ∷ rest)
      × IsOfPlan name currency first
      × All IsPriced rest

  abbrev Here : Db F → Type 0
  Here db = db ≡ d

  abbrev Priced : List (ChargeBreakdown F) → Db F → Type 0
  Priced charges db = Here db × All IsPriced charges

  cached_price-Triple :
      (key : String)
      → Triple {C = C} Here
          (λ cached db. Here db × (cached ≡ find_price zone key d.provider_pricing))
          Here
          (cached_price ctx real sql zone key)
  unfolding cached_price
  cached_price-Triple key = Triple-query system _ (λ db h. (h, rw h refl)) (λ db h. h)

  IsPriced-charge :
      (sku key : String) (unit_price : F) (p : F × F × String)
      → find_price zone key d.provider_pricing ≡ some p
      → IsMultiple (unit_rate p) unit_price
      → IsPriced (charge ctx real sql zone hours sku key unit_price)
  unfolding charge
  IsPriced-charge sku key unit_price p e multiple = ((p, e, multiple), (refl, refl))

  charge_if_priced-Triple :
      (sku key : String) (unit_price : F → F)
      → ((rate : F) → IsMultiple rate (unit_price rate))
      → Triple {C = C} Here Priced Here
          (charge_if_priced ctx real sql zone hours sku key unit_price)
  unfolding charge_if_priced price_of_unit
  charge_if_priced-Triple sku key unit_price multiple =
      Triple-bind _ _ (cached_price-Triple key) (λ cached.
        Triple-let_some cached _ _ (λ _. Triple-pure [] (λ db h. (h.0, tt)))
          (λ p e. Triple-pure _ (λ db h.
            (h.0, (IsPriced-charge sku key _ p (sym h.1 ∙ e) (multiple (unit_rate p)), tt)))))

  unbundled_charges-Triple :
      (storage_gb : ℕ)
      → Triple {C = C} Here Priced Here (unbundled_charges ctx real sql zone hours storage_gb)
  unfolding unbundled_charges
  unbundled_charges-Triple storage_gb =
      Triple-if (plan_bundles_disk_and_ip storage_gb) _ _ (λ _. Triple-pure [] (λ db h. (h, tt)))
        (λ _.
          Triple-bind _ _
            (charge_if_priced-Triple _ _ (λ rate. real.mul rate (real.of_ℕ worker_boot_disk_gb))
              (λ rate. inr (worker_boot_disk_gb, refl)))
            (λ boot.
              Triple-bind _ _
                (Triple-frame (All IsPriced boot) _
                  (charge_if_priced-Triple _ _ (λ rate. rate) (λ rate. inl refl)))
                (λ ip. Triple-pure _ (λ db h. (h.0.0, All-append IsPriced boot ip h.1 h.0.1)))))

  volume_charges-Triple :
      (spec : V) → Triple {C = C} Here Priced Here (volume_charges ctx real sql zone hours spec)
  unfolding volume_charges
  volume_charges-Triple spec =
      Triple-let_some (find_ephemeral_volume json spec) _ _ (λ _. Triple-pure [] (λ db h. (h, tt)))
        (λ volume _.
          Triple-let_some _ _ _ (λ _. Triple-pure [] (λ db h. (h, tt)))
            (λ size _.
              charge_if_priced-Triple _ _ (λ rate. real.mul rate (real.of_ℕ size))
                (λ rate. inr (size, refl))))

  Plan-charge :
      (name amount_currency : String) (amount price : F)
      → find_price zone ("server_plan_" <> name) d.provider_pricing
        ≡ some (amount, price, amount_currency)
      → IsOfPlan name amount_currency (
          charge ctx real sql zone hours name
            ("server_plan_" <> name)
            (price_of_unit ctx real sql (amount, price, amount_currency)))
  unfolding charge price_of_unit
  Plan-charge name amount_currency amount price e =
      (refl, refl, (amount, price, e, refl), (refl, refl))

  name_and_storage_lem :
      (plan : Option ServerPlan)
      → map_option (λ (p : String × ℕ). p.0) (name_and_storage plan)
        ≡ map_option (λ (p : ServerPlan). p.name) plan
  unfolding name_and_storage
  name_and_storage_lem none = refl
  name_and_storage_lem (some plan) = refl

  module _ (spec : V) (recorded : Option String) where
    abbrev Itemised : Option (List (ChargeBreakdown F) × String) → Db F → Type 0
    Itemised answer db = Here db × IsItemised spec recorded answer

    abbrev Planned : Option (String × ℕ) → Db F → Type 0
    Planned plan db =
        Here db × (map_option (λ (p : String × ℕ). p.0) plan ≡ expected_plan spec recorded)

    no_price :
        (name : String)
        → some name ≡ expected_plan spec recorded
        → none ≡ find_price zone ("server_plan_" <> name) d.provider_pricing
        → IsItemised spec recorded none
    no_price name e missing =
        λ other e'. rw (some_injective other name (sym e' ∙ sym e)) (sym missing)

    charges_of_plan-Triple :
        (name : String) (storage_gb : ℕ)
        → some name ≡ expected_plan spec recorded
        → Triple {C = C} Here Itemised Here
            (charges_of_plan ctx real sql zone hours spec (name, storage_gb))
    unfolding charges_of_plan
    charges_of_plan-Triple name storage_gb planned =
        let key = "server_plan_" <> name in
        Triple-bind _ _ (cached_price-Triple key) (λ cached.
          Triple-let_some cached _ _
            (λ e. Triple-pure none (λ db h. (h.0, no_price name planned (sym e ∙ h.1))))
            (λ p e.
              Triple-bind _ _
                (Triple-frame (cached ≡ find_price zone key d.provider_pricing) _
                  (unbundled_charges-Triple storage_gb))
                (λ unbundled.
                  Triple-bind _ _
                    (Triple-mono _
                      (Triple-frame
                        (All IsPriced unbundled × (cached ≡ find_price zone key d.provider_pricing))
                        _ (volume_charges-Triple spec))
                      (λ db h. (h.0.0, (h.0.1, h.1))) (λ a db h. h) (λ db h. h))
                    (λ volume. Triple-pure _ (λ db h. (
                      h.0.0,
                      (
                        name,
                        _,
                        unbundled ++ volume,
                        sym planned,
                        refl,
                        Plan-charge name p.2 p.0 p.1 (sym h.1.1 ∙ e),
                        All-append IsPriced unbundled volume h.1.0 h.0.1,
                      ),
                    ))))))

  charged_plan-Triple :
      (spec : V) (recorded : Option String)
      → Triple {C = C} Here
          (Planned spec recorded)
          Here
          (charged_plan ctx real sql zone spec recorded)
  unfolding charged_plan
  charged_plan-Triple spec none =
      Triple-let_some none _ _
        (λ _. Triple-query system _ (λ db h. (h, rw h (name_and_storage_lem _))) (λ db h. h))
        (λ name e. cc)
  charged_plan-Triple spec (some recorded) =
      Triple-let_some (some recorded) _ _ (λ e. cc)
        (λ name e.
          Triple-bind {Q = λ _. Here} _ _ (Triple-query system _ (λ db h. h) (λ db h. h))
            (λ storage. Triple-pure _ (λ db h. (h, sym e))))

  -- A job is charged for the plan that was recorded for it, or, where none was, for the cheapest plan
  -- that fits its requests. There is no answer exactly where there is no such plan or the zone has no
  -- price for it. Otherwise the first charge is for one VM of that plan, and it is its price in whose
  -- currency all are; every further one is for one unit, or a whole number of them, of something that
  -- has a price in the zone. The price of a unit is a hundredth of the recorded price by the recorded
  -- amount; each charge is for the whole time, and its total is its unit price times the hours. No
  -- table is written, also where the database refuses a statement.
  pub charge_breakdown-IsItemised :
      (spec : V) (recorded : Option String) (w : World C F)
      → w.db ≡ d
      → Post
          (λ answer db. (db ≡ d) × IsItemised spec recorded answer)
          (λ db. db ≡ d)
          (charge_breakdown_for_duration ctx real sql zone hours spec recorded w).0
          (charge_breakdown_for_duration ctx real sql zone hours spec recorded w).1.db
  unfolding charge_breakdown_for_duration
  charge_breakdown-IsItemised spec recorded w h = breakdown.at w h
    where
      breakdown :
          Triple {C = C} Here
            (Itemised spec recorded)
            Here
            (charge_breakdown_for_duration ctx real sql zone hours spec recorded)
      breakdown = Triple-bind _ _ (charged_plan-Triple spec recorded) (λ plan.
          Triple-let_some plan _ _
            (λ e. Triple-pure none (λ db s. (s.0, λ name e'. cc (rw e at s.1))))
            (λ p e. record {
              at = λ w s. (charges_of_plan-Triple spec recorded p.0 p.1 (cc (s.1, e))).at w s.0;
            }))
