-- ===== src/Catalog.antt =====
-- The catalog of server plans in src/workload.rs: which plans are stored, and which one is chosen for a
-- request. A REAL number is an `F`.
pub mod Choice
use Prim.Native.String.{compare}
use Prim.Native.Nat.{Ordering}
use kube_shim.Prelude.{
  is_nil, ℕ, ◌+◌, ◌*◌, Bool, true, false, ◌&&◌, ◌||◌, not, leb, ltb, ◌==◌, Option, none, some,
  String, List, [], ◌∷◌, ◌<>◌, str_eq, any, find, length, if◌then◌else◌,
}
use kube_shim.Prelude.Int.{ℤ}
use kube_shim.Tariff.{ServerPlan, PlanRow, PriceRow}
use kube_shim.Orphans.{starts_with}

-- src/providers/mod.rs
pub record PlanInfo : Type 0 where
  pub name : String
  pub cpu_cores : ℕ
  pub memory_mb : ℕ
  pub storage_gb : ℕ
  pub storage_tier : Option String
  pub gpu_count : ℕ
  pub current_offering : Bool

pub record PlanFilter : Type 0 where
  pub allow_prefixes : List String
  pub deny_prefixes : List String

unfoldable pub is_eligible : PlanFilter → PlanInfo → Bool
is_eligible filter plan =
    if ltb 0 plan.gpu_count || not plan.current_offering
    then false
    else (is_nil filter.allow_prefixes || any (λ p. starts_with p plan.name) filter.allow_prefixes)
      && not (any (λ p. starts_with p plan.name) filter.deny_prefixes)

abbrev pub plan_row : ℤ → PlanInfo → PlanRow
plan_row fetched_at info = record {
  plan = record {
    name = info.name;
    cpu_cores = info.cpu_cores;
    memory_mb = info.memory_mb;
    storage_gb = info.storage_gb;
    storage_tier = info.storage_tier;
  };
  fetched_at = fetched_at;
}

unfoldable pub eligible_rows : List PlanInfo → PlanFilter → ℤ → List PlanRow
unfolding is_eligible
eligible_rows [] filter fetched_at = []
eligible_rows (info ∷ plans) filter fetched_at =
    let rows = eligible_rows plans filter fetched_at in
    if is_eligible filter info then plan_row fetched_at info ∷ rows else rows

-- A name is the primary key of the table.
has_name_twice : List PlanRow → Bool
has_name_twice [] = false
has_name_twice (row ∷ rows) =
    any (λ r. str_eq r.plan.name row.plan.name) rows || has_name_twice rows

-- The table after the transaction, and the number of plans in it; `none` where it fails, which leaves
-- the table as it was.
unfoldable pub store_plans : List PlanInfo → PlanFilter → ℤ → Option (List PlanRow × ℕ)
unfolding eligible_rows has_name_twice
store_plans plans filter fetched_at =
    let rows = eligible_rows plans filter fetched_at in
    if has_name_twice rows then none else some (rows, length rows)

unfoldable pub has_cached_plans : List PlanRow → Bool
has_cached_plans [] = false
has_cached_plans (row ∷ rows) = true

-- The arithmetic of SQLite: a quotient is NULL where the divisor is zero.
pub record Sql (F : Type 0) : Type 0 where
  pub div : F → F → Option F
  pub add : F → F → F
  pub mul_ℕ : F → ℕ → F
  pub zero_F : F
  pub less : F → F → Bool

abbrev boot_disk_gb : ℕ
boot_disk_gb = 10

abbrev str_ltb : String → String → Bool
str_ltb s t = elim (compare s t) [ Ordering.lt ↦ true | _ ↦ false ]

module _ {F : Type 0} (sql : Sql F) (prices : List (PriceRow F)) (zone : String) where
  -- a LEFT JOIN on the zone and a key, which are the table's primary key
  price_of : String → Option (PriceRow F)
  price_of key = find (λ r. str_eq r.zone zone && str_eq r.price_key key) prices

  rate : Option (PriceRow F) → Option F
  rate none = none
  rate (some r) = sql.div r.price r.amount

  -- `COALESCE(.., 0)`
  coalesce : Option F → F
  coalesce none = sql.zero_F
  coalesce (some x) = x

  extra : ServerPlan → F
  unfolding rate price_of coalesce
  extra plan =
      if ltb plan.storage_gb boot_disk_gb
      then sql.add (sql.mul_ℕ (coalesce (rate (price_of "storage_standard"))) boot_disk_gb)
          (coalesce (rate (price_of "ipv4_address")))
      else sql.zero_F

  plus : Option F → F → Option F
  plus none y = none
  plus (some x) y = some (sql.add x y)

  is_missing : Option (PriceRow F) → Bool
  is_missing none = true
  is_missing (some r) = false

  -- the first two of the columns that the plans are ordered by
  has_no_price : ServerPlan → Bool
  unfolding price_of is_missing
  has_no_price plan = is_missing (price_of ("server_plan_" <> plan.name))

  cost : ServerPlan → Option F
  unfolding price_of rate plus extra
  cost plan = plus (rate (price_of ("server_plan_" <> plan.name))) (extra plan)

  -- NULL comes first.
  less_null : Option F → Option F → Bool
  less_null none none = false
  less_null none (some y) = true
  less_null (some x) none = false
  less_null (some x) (some y) = sql.less x y

  less_bool : Bool → Bool → Bool
  less_bool a b = not a && b

  -- by cores, memory and name
  is_smaller : ServerPlan → ServerPlan → Bool
  is_smaller p q =
      if p.cpu_cores == q.cpu_cores
      then (if p.memory_mb == q.memory_mb
          then str_ltb p.name q.name
          else ltb p.memory_mb q.memory_mb)
      else ltb p.cpu_cores q.cpu_cores

  -- ORDER BY
  ranks_before : ServerPlan → ServerPlan → Bool
  unfolding less_bool less_null has_no_price cost is_smaller
  ranks_before p q =
      if less_bool (has_no_price p) (has_no_price q)
      then true
      else if less_bool (has_no_price q) (has_no_price p)
      then false
      else if less_null (cost p) (cost q)
      then true
      else if less_null (cost q) (cost p)
      then false
      else is_smaller p q

  -- LIMIT 1
  unfoldable pub first_ranked : List ServerPlan → Option ServerPlan
  unfolding ranks_before
  first_ranked [] = none
  first_ranked (p ∷ ps) = elim (first_ranked ps) [
    | none ↦ some p
    | some q ↦ if ranks_before q p then some q else some p
  ]

-- WHERE
abbrev pub meets : ℕ → ℕ → ServerPlan → Bool
meets cpu_cores memory_gb plan =
    leb cpu_cores plan.cpu_cores && leb (memory_gb * 1024) plan.memory_mb

abbrev pub fitting : ℕ → ℕ → List PlanRow → List ServerPlan
fitting cpu_cores memory_gb [] = []
fitting cpu_cores memory_gb (row ∷ rows) =
    if meets cpu_cores memory_gb row.plan
    then row.plan ∷ fitting cpu_cores memory_gb rows
    else fitting cpu_cores memory_gb rows

unfoldable pub cheapest_fitting_server_plan :
    {F : Type 0} → Sql F → List (PriceRow F) → List PlanRow → String → ℕ → ℕ → Option ServerPlan
unfolding first_ranked
cheapest_fitting_server_plan sql prices rows zone cpu_cores memory_gb =
    first_ranked sql prices zone (fitting cpu_cores memory_gb rows)
