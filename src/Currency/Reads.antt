-- ===== src/Currency/Reads.antt =====
-- The conversion of src/currency.rs writes nothing.
use kube_shim.Prelude.{String, str_eq}
use kube_shim.Db.{Db}
use kube_shim.Program.{System}
use kube_shim.Program.Triple.{
  Triple, Triple-pure, Triple-query, Triple-bind, Triple-let_some, Triple-if,
}
use kube_shim.Real.{Real}
use kube_shim.Currency.{cached_rate, from_eur, convert}

module _ {C F : Type 0} (system : System C) (real : Real F) where
  cached_rate-reads :
      {P : Db F → Type 0} (currency : String)
      → Triple {C = C} P (λ _. P) P (cached_rate system currency)
  unfolding cached_rate
  cached_rate-reads currency = Triple-query system _ (λ db h. h) (λ db h. h)

  from_eur-reads :
      {P : Db F → Type 0} (eur_amount : F) (to_currency : String)
      → Triple {C = C} P (λ _. P) P (from_eur system real eur_amount to_currency)
  unfolding from_eur
  from_eur-reads {P = P} eur_amount to_currency =
      Triple-if (str_eq to_currency "EUR") _ _ (λ e. Triple-pure _ (λ db h. h))
        (λ e. Triple-bind {Q = λ _. P} _ _ (cached_rate-reads to_currency) (λ rate.
          Triple-let_some _ _ _ (λ _. Triple-pure _ (λ db h. h))
            (λ r _. Triple-pure _ (λ db h. h))))

  pub convert-reads :
      {P : Db F → Type 0} (amount : F) (from_currency to_currency : String)
      → Triple {C = C} P (λ _. P) P (convert system real amount from_currency to_currency)
  unfolding convert
  convert-reads {P = P} amount from_currency to_currency =
      Triple-if (str_eq from_currency to_currency) _ _ (λ _. Triple-pure _ (λ db h. h))
        (λ _.
          Triple-if (str_eq from_currency "EUR") _ _ (λ _. from_eur-reads amount to_currency)
            (λ _. Triple-bind {Q = λ _. P} _ _ (cached_rate-reads from_currency) (λ rate.
              Triple-let_some _ _ _ (λ _. Triple-pure _ (λ db h. h))
                (λ r _. from_eur-reads (real.div amount r) to_currency))))
