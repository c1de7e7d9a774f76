-- ===== src/Currency/Rates.antt =====
-- The conversion of src/currency.rs by positive rates.
use kube_shim.Prelude.{
  ◌≡◌, inl, inr, Bool, true, Bool-cases, Option, none, some, String, List, [], ◌∷◌, All, find,
  str_eq,
}
use kube_shim.Tariff.{RateRow}
use kube_shim.Db.{Db}
use kube_shim.Program.{M, System, pure, let_some}
use kube_shim.Program.Triple.{Triple, Triple-pure, Triple-query, Triple-bind, Triple-if}
use kube_shim.Real.{Real}
use kube_shim.Real.Laws.{Laws}
use kube_shim.Currency.{rate_of, cached_rate, from_eur, convert}

module _ {F : Type 0} (real : Real F) where
  abbrev pub IsNonneg : F → Type 0
  IsNonneg x = real.le (real.of_ℕ 0) x ≡ true

  -- of what an answer holds, if any
  abbrev pub WhereSome : {A : Type 0} → (A → F) → Option A → Type 0
  WhereSome value none = Unit
  WhereSome value (some a) = IsNonneg (value a)

module _ {C F : Type 0} (system : System C) (real : Real F) (laws : Laws real) (P : Db F → Type 0)
    (rates : (db : Db F) → P db → All (λ r. laws.IsPositive r.rate) db.exchange_rates) where
  abbrev IsRate : Option F → Type 0
  IsRate none = Unit
  IsRate (some rate) = laws.IsPositive rate

  find-IsRate :
      (p : RateRow F → Bool) (rows : List (RateRow F))
      → All (λ r. laws.IsPositive r.rate) rows
      → IsRate (rate_of (find p rows))
  unfolding rate_of
  find-IsRate p [] h = tt
  find-IsRate p (r ∷ rows) h = elim (Bool-cases (p r)) [
    | inl e ↦ rw e h.0
    | inr e ↦ rw e (find-IsRate p rows h.1)
  ]

  cached_rate-nonneg :
      (currency : String)
      → Triple {C = C} P (λ rate db. P db × IsRate rate) P (cached_rate system currency)
  unfolding cached_rate
  cached_rate-nonneg currency =
      Triple-query system _
        (λ db h. (h, find-IsRate (λ r. str_eq r.currency currency) db.exchange_rates (rates db h)))
        (λ db h. h)

  abbrev Nonneg : Option F → Db F → Type 0
  Nonneg amount db = P db × WhereSome real (λ x. x) amount

  -- A rate that is cached is positive.
  with-IsRate :
      (rate : Option F) (f : F → M C F (Option F))
      → ((r : F) → laws.IsPositive r → Triple P Nonneg P (f r))
      → Triple (λ db. P db × IsRate rate) Nonneg P (let_some rate (pure none) f)
  unfolding let_some
  with-IsRate none f k = Triple-pure none (λ db h. (h.0, tt))
  with-IsRate (some r) f k = record { at = λ w h. (k r h.1).at w h.0 }

  from_eur-Nonneg :
      (eur_amount : F) (to_currency : String)
      → IsNonneg real eur_amount
      → Triple {C = C} P Nonneg P (from_eur system real eur_amount to_currency)
  unfolding from_eur
  from_eur-Nonneg eur_amount to_currency h =
      Triple-if (str_eq to_currency "EUR") _ _ (λ _. Triple-pure _ (λ db s. (s, h)))
        (λ _. Triple-bind _ _ (cached_rate-nonneg to_currency) (λ rate.
          with-IsRate rate _
            (λ r p. Triple-pure _ (λ db s. (s, laws.mul_positive eur_amount r h p)))))

  pub convert-Nonneg :
      (amount : F) (from_currency to_currency : String)
      → IsNonneg real amount
      → Triple {C = C} P Nonneg P (convert system real amount from_currency to_currency)
  unfolding convert
  convert-Nonneg amount from_currency to_currency h =
      Triple-if (str_eq from_currency to_currency) _ _ (λ _. Triple-pure _ (λ db s. (s, h)))
        (λ _.
          Triple-if (str_eq from_currency "EUR") _ _ (λ _. from_eur-Nonneg amount to_currency h)
            (λ _. Triple-bind _ _ (cached_rate-nonneg from_currency) (λ rate.
              with-IsRate rate _ (λ r p.
                from_eur-Nonneg (real.div amount r) to_currency (laws.div_positive amount r h p)))))
