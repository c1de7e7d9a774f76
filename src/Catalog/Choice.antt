-- ===== src/Catalog/Choice.antt =====
-- The plans that `store_plans` and `cheapest_fitting_server_plan` of src/workload.rs let through.
use mathlib.Core.Path.{subst}
use kube_shim.Prelude.{
  ℕ, ◌≡◌, refl, sym, ap, ◌∙◌, ◌⊎◌, inl, inr, true, none, some, String, List, [], ◌∷◌, Bool-cases,
  Option-cases,
}
use kube_shim.Prelude.Int.{ℤ}
use kube_shim.Tariff.{ServerPlan}
use kube_shim.Catalog.{
  PlanInfo, PlanFilter, is_eligible, plan_row, eligible_rows, has_name_twice, store_plans, Sql,
  ranks_before, first_ranked, meets, fitting, cheapest_fitting_server_plan,
}
use kube_shim.Tariff.{PlanRow, PriceRow}

-- The plan is one of these that is eligible and meets the request.
abbrev pub IsOffered : PlanFilter → ℤ → ℕ → ℕ → List PlanInfo → ServerPlan → Type 0
IsOffered filter at cores memory [] p = ⊥
IsOffered filter at cores memory (info ∷ plans) p =
    ((is_eligible filter info ≡ true)
      × (meets cores memory p ≡ true)
      × (p ≡ (plan_row at info).plan))
    ⊎ IsOffered filter at cores memory plans p

-- one of the list
abbrev IsIn : ServerPlan → List ServerPlan → Type 0
IsIn p [] = ⊥
IsIn p (q ∷ qs) = (p ≡ q) ⊎ IsIn p qs

module _ {F : Type 0} (sql : Sql F) (prices : List (PriceRow F)) (zone : String) where
  first_ranked-IsIn :
      (ps : List ServerPlan) (p : ServerPlan) → first_ranked sql prices zone ps ≡ some p → IsIn p ps
  unfolding first_ranked
  first_ranked-IsIn [] p h = cc
  first_ranked-IsIn (q ∷ qs) p h = elim (Option-cases (first_ranked sql prices zone qs)) [
    | inl e ↦ inl (cc (rw e at h))
    | inr (best, e) ↦ elim (Bool-cases (ranks_before sql prices zone best q)) [
      | inl b ↦ inr (first_ranked-IsIn qs p (e ∙ (rw (e, b) at h)))
      | inr b ↦ inl (cc (rw (e, b) at h))
    ]
  ]

  first_ranked-none : (ps : List ServerPlan) → first_ranked sql prices zone ps ≡ none → ps ≡ []
  unfolding first_ranked
  first_ranked-none [] h = refl
  first_ranked-none (q ∷ qs) h = elim (Option-cases (first_ranked sql prices zone qs)) [
    | inl e ↦ cc (rw e at h)
    | inr (best, e) ↦ elim (Bool-cases (ranks_before sql prices zone best q)) [
      | inl b ↦ cc (rw (e, b) at h)
      | inr b ↦ cc (rw (e, b) at h)
    ]
  ]

stored_rows :
    (plans : List PlanInfo) (filter : PlanFilter) (at : ℤ) (rows : List PlanRow) (stored : ℕ)
    → store_plans plans filter at ≡ some (rows, stored)
    → rows ≡ eligible_rows plans filter at
unfolding store_plans
stored_rows plans filter at rows stored h =
    elim (Bool-cases (has_name_twice (eligible_rows plans filter at))) [
      | inl e ↦ cc (rw e at h)
      | inr e ↦ cc (rw e at h)
    ]

module _ (filter : PlanFilter) (at : ℤ) (cores memory : ℕ) where
  -- the first row, or one of the others
  first_offer :
      (info : PlanInfo) (plans : List PlanInfo) (p : ServerPlan)
      → is_eligible filter info ≡ true
      → meets cores memory (plan_row at info).plan ≡ true
      → (p ≡ (plan_row at info).plan)
        ⊎ IsIn p (fitting cores memory (eligible_rows plans filter at))
      → (IsIn p (fitting cores memory (eligible_rows plans filter at))
          → IsOffered filter at cores memory plans p)
      → IsOffered filter at cores memory (info ∷ plans) p
  first_offer info plans p e m (inl is) f = inl (e, ap (meets cores memory) is ∙ m, is)
  first_offer info plans p e m (inr later) f = inr (f later)

  fitting-IsOffered :
      (plans : List PlanInfo) (p : ServerPlan)
      → IsIn p (fitting cores memory (eligible_rows plans filter at))
      → IsOffered filter at cores memory plans p
  unfolding eligible_rows
  fitting-IsOffered [] p h = h
  fitting-IsOffered (info ∷ plans) p h = elim (Bool-cases (is_eligible filter info)) [
    | inr e ↦ inr (fitting-IsOffered plans p (rw e at h))
    | inl e ↦ elim (Bool-cases (meets cores memory (plan_row at info).plan)) [
      | inr m ↦ inr (fitting-IsOffered plans p (rw (e, m) at h))
      | inl m ↦ first_offer info plans p e m (rw (e, m) at h) (fitting-IsOffered plans p)
    ]
  ]

  no_offer :
      (plans : List PlanInfo) (p : ServerPlan)
      → fitting cores memory (eligible_rows plans filter at) ≡ []
      → IsOffered filter at cores memory plans p
      → ⊥
  unfolding eligible_rows
  no_offer [] p h o = o
  no_offer (info ∷ plans) p h (inl (e, m, is)) =
      cc (rw (e, (sym (ap (meets cores memory) is) ∙ m)) at h)
  no_offer (info ∷ plans) p h (inr o) = elim (Bool-cases (is_eligible filter info)) [
    | inr e ↦ no_offer plans p (rw e at h) o
    | inl e ↦ elim (Bool-cases (meets cores memory (plan_row at info).plan)) [
      | inr m ↦ no_offer plans p (rw (e, m) at h) o
      | inl m ↦ cc (rw (e, m) at h)
    ]
  ]

-- After a sync of the catalog, the plan that is chosen for a request is one of the catalog's that the
-- filter lets through (no GPU, still sold, allowed and not denied) and has the cores and the memory
-- that are requested; and where none is chosen, the catalog has none such. This holds whatever the
-- prices are.
pub cheapest_fitting_server_plan-IsOffered :
    {F : Type 0} (sql : Sql F) (prices : List (PriceRow F)) (zone : String) (plans : List PlanInfo)
    (filter : PlanFilter) (at : ℤ) (rows : List PlanRow) (stored cores memory : ℕ)
    → store_plans plans filter at ≡ some (rows, stored)
    → ((p : ServerPlan)
        → cheapest_fitting_server_plan sql prices rows zone cores memory ≡ some p
        → IsOffered filter at cores memory plans p)
      × (cheapest_fitting_server_plan sql prices rows zone cores memory ≡ none
          → (p : ServerPlan) → IsOffered filter at cores memory plans p
          → ⊥)
unfolding cheapest_fitting_server_plan
cheapest_fitting_server_plan-IsOffered sql prices zone plans filter at rows stored cores memory h =
    let same = stored_rows plans filter at rows stored h in
    (
      (λ p e. fitting-IsOffered filter at cores memory plans p (
          first_ranked-IsIn sql prices zone _ p (
            subst (λ rs. first_ranked sql prices zone (fitting cores memory rs) ≡ some p) same e))),
      λ e p o.
          no_offer filter at cores memory plans p
            (first_ranked-none sql prices zone _
              (subst (λ rs. first_ranked sql prices zone (fitting cores memory rs) ≡ none) same e))
            o,
    )
