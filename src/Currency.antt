-- ===== src/Currency.antt =====
-- src/currency.rs: the table of the ECB's rates, and conversion through EUR. The feed is fetched and
-- parsed by reqwest and quick_xml.
pub mod Reads
pub mod Rates
use kube_shim.Prelude.{
  Bool, false, ◌||◌, Option, none, some, String, List, [], ◌∷◌, str_eq, any, find, if◌then◌else◌,
}
use kube_shim.Prelude.Int.{ℤ}
use kube_shim.Tariff.{RateRow}
use kube_shim.Db.{Db}
use kube_shim.Program.{M, System, pure, fail, query, execute, ◌>>=◌, ◌>>◌, let_some}
use kube_shim.Real.{Real}

pub record ExchangeRate (F : Type 0) : Type 0 where
  pub currency : String
  pub rate : F

module _ {F : Type 0} where
  unfoldable pub rate_rows : List (ExchangeRate F) → ℤ → List (RateRow F)
  rate_rows [] fetched_at = []
  rate_rows (r ∷ rates) fetched_at =
      record { currency = r.currency; rate = r.rate; fetched_at = fetched_at }
      ∷ rate_rows rates fetched_at

  -- A currency is the primary key of the table.
  unfoldable pub has_currency_twice : List (ExchangeRate F) → Bool
  has_currency_twice [] = false
  has_currency_twice (r ∷ rates) =
      any (λ q. str_eq q.currency r.currency) rates || has_currency_twice rates

  unfoldable pub rate_of : Option (RateRow F) → Option F
  rate_of none = none
  rate_of (some row) = some row.rate

module _ {C F : Type 0} (system : System C) where
  -- one transaction, which takes effect whole or not at all
  unfoldable pub store_rates : List (ExchangeRate F) → ℤ → M C F Unit
  unfolding has_currency_twice rate_rows
  store_rates rates fetched_at =
      if has_currency_twice rates
      then fail "UNIQUE constraint failed: exchange_rates.currency"
      else execute system (λ db. record db { exchange_rates = rate_rows rates fetched_at })

  unfoldable pub cached_rate : String → M C F (Option F)
  unfolding rate_of
  cached_rate currency =
      query system (λ db. rate_of (find (λ r. str_eq r.currency currency) db.exchange_rates))

  module _ (real : Real F) where
    -- what follows the first conversion, to EUR
    unfoldable pub from_eur : F → String → M C F (Option F)
    unfolding cached_rate
    from_eur eur_amount to_currency =
        if str_eq to_currency "EUR" then pure (some eur_amount) else do
          rate ← cached_rate to_currency
          let_some rate (pure none) (λ r. pure (some (real.mul eur_amount r)))

    unfoldable pub convert : F → String → String → M C F (Option F)
    unfolding from_eur cached_rate
    convert amount from_currency to_currency =
        if str_eq from_currency to_currency
        then pure (some amount)
        else if str_eq from_currency "EUR"
        then from_eur amount to_currency
        else do
          rate ← cached_rate from_currency
          let_some rate (pure none) (λ r. from_eur (real.div amount r) to_currency)
