-- ===== src/Pricing/Cover.antt =====
-- When the check of src/pricing/mod.rs lets a job through.
use kube_shim.Prelude.{◌≡◌, refl, Bool, true, false, Option, none, some, String, if◌then◌else◌}
use kube_shim.Prelude.Int.{ℤ}
use kube_shim.Tariff.{BudgetRow}
use kube_shim.Db.{Db}
use kube_shim.Program.{World, pure, execute, ◌>>=◌, ◌>>◌, let_some}
use kube_shim.Program.Triple.{
  Post, Triple, Triple-pure, Triple-call, Triple-query, Triple-execute, Triple-bind, Triple-if,
  Triple-any,
}
use kube_shim.Context.{JobContext}
use kube_shim.Catalog.{Sql}
use kube_shim.Real.{Real}
use kube_shim.Budget.{
  BudgetSettings, settings_of, update_budget, committed_costs, fetch_budget_row, settle_row,
  settle_accrual, committed_budget, available_budget,
}
use kube_shim.Pricing.{is_sufficient, check_budget}

module _ {C V F : Type 0} (ctx : JobContext C V F) (real : Real F) (sql : Sql F) where
  open ctx use {system}

  -- a budget that is in force covers a cost beside the estimates of the jobs before completion
  abbrev pub row_covers : Option (BudgetRow F) → F → Db F → Bool
  row_covers none cost db = true
  row_covers (some row) cost db =
      if real.le row.budget_daily_rate (real.of_ℕ 0)
      then true
      else real.le cost (real.sub row.balance (real.sum (committed_costs db.jobs)))

  abbrev pub covers : Option F → Db F → Bool
  covers none db = true
  covers (some cost) db = row_covers db.budget_state cost db

  -- what settling answers is what is stored
  abbrev Stored : Option (F × BudgetSettings F) → Db F → Type 0
  Stored none db = db.budget_state ≡ none
  Stored (some s) db =
      (row : BudgetRow F) × (db.budget_state ≡ some row) × (s ≡ (row.balance, settings_of row))

  abbrev Anything : Db F → Type 0
  Anything db = Unit

  update-Stored :
      (row : BudgetRow F) (f : BudgetRow F → BudgetRow F) (s : F × BudgetSettings F)
      → s ≡ ((f row).balance, settings_of (f row))
      → Triple {C = C}
          (λ db. db.budget_state ≡ some row)
          Stored
          Anything
          (execute system (update_budget f) >> pure (some s))
  unfolding update_budget
  update-Stored row f s e =
      Triple-bind {Q = λ _. Stored (some s)} _ _
        (Triple-execute system (update_budget f) (λ db h. (f row, rw h refl, e)) (λ db h. tt))
        (λ _. Triple-pure (some s) (λ db h. h))

  settle_row-Stored :
      (row : BudgetRow F)
      → Triple {C = C}
          (λ db. db.budget_state ≡ some row)
          Stored
          Anything
          (settle_row system real row)
  unfolding settle_row
  settle_row-Stored row =
      Triple-bind {Q = λ _ db. db.budget_state ≡ some row} _ _
        (Triple-call system.now (λ c db h. h))
        (λ now.
          Triple-if (real.le row.budget_daily_rate (real.of_ℕ 0)) _ _
            (λ _. update-Stored row _ _ refl) (λ _. update-Stored row _ _ refl))

  with_budget :
      (o : Option (BudgetRow F))
      → Triple {C = C}
          (λ db. db.budget_state ≡ o)
          Stored
          Anything
          (let_some o (pure none) (settle_row system real))
  unfolding let_some
  with_budget none = Triple-pure none (λ db h. h)
  with_budget (some row) = settle_row-Stored row

  settle_accrual-Stored : Triple {C = C} Anything Stored Anything (settle_accrual system real)
  unfolding settle_accrual fetch_budget_row
  settle_accrual-Stored =
      Triple-bind {Q = λ o db. db.budget_state ≡ o} _ _
        (Triple-query system _ (λ db h. refl) (λ db h. tt)) with_budget

  -- what is available is enough exactly when the stored row covers the cost
  abbrev Sufficient : Option F → Db F → Type 0
  Sufficient available db =
      (cost : Option F) → is_sufficient ctx real sql available cost ≡ covers cost db

  disabled :
      (s : F × BudgetSettings F) (db : Db F)
      → real.le s.1.budget_daily_rate (real.of_ℕ 0) ≡ true
      → Stored (some s) db
      → Sufficient none db
  unfolding is_sufficient
  disabled s db e (row, stored, answered) none = refl
  disabled s db e (row, stored, answered) (some cost) = rw (stored, rw answered at e) refl

  enabled :
      (s : F × BudgetSettings F) (db : Db F) (committed : F)
      → real.le s.1.budget_daily_rate (real.of_ℕ 0) ≡ false
      → Stored (some s) db
      → committed ≡ real.sum (committed_costs db.jobs)
      → Sufficient (some (real.sub s.0 committed)) db
  unfolding is_sufficient
  enabled s db committed e (row, stored, answered) sums none = refl
  enabled s db committed e (row, stored, answered) sums (some cost) =
      rw (stored, rw answered at e, sums, answered) refl

  spend :
      (s : F × BudgetSettings F)
      → Triple {C = C} (Stored (some s)) Sufficient Anything (
          if real.le s.1.budget_daily_rate (real.of_ℕ 0)
          then pure none
          else (committed_budget system real >>= λ committed. pure (some (real.sub s.0 committed))))
  unfolding committed_budget
  spend s =
      let Known = λ (committed : F) (db : Db F).
        Stored (some s) db × (committed ≡ real.sum (committed_costs db.jobs)) in
      Triple-if (real.le s.1.budget_daily_rate (real.of_ℕ 0)) _ _
        (λ e. Triple-pure none (λ db h. disabled s db e h))
        (λ e.
          Triple-bind {Q = Known} _ _
            (Triple-bind {Q = λ costs db. Stored (some s) db × (costs ≡ committed_costs db.jobs)} _
              _ (Triple-query system _ (λ db h. (h, refl)) (λ db h. tt))
              (λ costs. Triple-pure (real.sum costs) (λ db h. (h.0, rw h.1 refl))))
            (λ committed. Triple-pure _ (λ db h. enabled s db committed e h.0 h.1)))

  unseeded : (db : Db F) → db.budget_state ≡ none → Sufficient none db
  unfolding is_sufficient
  unseeded db h none = refl
  unseeded db h (some cost) = rw h refl

  with_settled :
      (settled : Option (F × BudgetSettings F))
      → Triple {C = C} (Stored settled) Sufficient Anything (
          let_some settled (pure none) (λ s.
            if real.le s.1.budget_daily_rate (real.of_ℕ 0)
            then pure none
            else (committed_budget system real >>= λ committed.
                pure (some (real.sub s.0 committed)))))
  unfolding let_some
  with_settled none = Triple-pure none unseeded
  with_settled (some s) = spend s

  available_budget-Sufficient :
      Triple {C = C} Anything Sufficient Anything (available_budget system real)
  unfolding available_budget
  available_budget-Sufficient = Triple-bind _ _ settle_accrual-Stored with_settled

  -- The check lets a job through exactly when the budget, as it is stored after the check, covers its
  -- estimate: where no budget is set up or its daily rate is not above zero, or the job has no
  -- estimate, it always does; otherwise where the estimate is no more than the balance less the
  -- estimates of all jobs before completion.
  pub check_budget-covers :
      (zone : String) (spec : V) (deadline : ℤ) (currency : String) (w : World C F)
      → Post
          (λ answer db. answer.1 ≡ covers answer.0 db)
          (λ db. Unit)
          (check_budget ctx real sql zone spec deadline currency w).0
          (check_budget ctx real sql zone spec deadline currency w).1.db
  unfolding check_budget
  check_budget-covers zone spec deadline currency w = check.at w tt
    where
      check :
          Triple {C = C} Anything
            (λ answer db. answer.1 ≡ covers answer.0 db)
            Anything
            (check_budget ctx real sql zone spec deadline currency)
      check = Triple-bind {Q = λ _. Anything} _ _ (Triple-any _) (λ cost.
          Triple-bind _ _ available_budget-Sufficient (λ available. Triple-pure _ (λ db h. h cost)))
