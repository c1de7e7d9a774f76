-- ===== src/Budget/Settle.antt =====
-- What `settle_accrual` of src/pricing/mod.rs makes of the row of the budget.
use kube_shim.Prelude.{◌≡◌, ◌⊎◌, inl, inr, refl, true, false, Option, some}
use kube_shim.Prelude.Int.{ℤ, pos_part, ◌-ℤ◌}
use kube_shim.Tariff.{BudgetRow}
use kube_shim.Db.{Db}
use kube_shim.Program.{World, System}
use kube_shim.Program.Triple.{
  Post, Triple, Triple-pure, Triple-call, Triple-execute, Triple-bind, Triple-if, Triple-found,
}
use kube_shim.Real.{Real}
use kube_shim.Real.Laws.{Laws, IsNan}
use kube_shim.Budget.{
  BudgetSettings, settings_of, update_budget, fetch_budget_row, room_left_below_cap, accrued,
  settle_row, settle_accrual,
}

module _ {C F : Type 0} (system : System C) (real : Real F) where
  -- One row after another: the balance is not lowered, and raised at most by what is left below the
  -- cap; with a daily rate of zero or less it stays. The clock is set, and the settings stay.
  abbrev pub Settles : BudgetRow F → BudgetRow F → Type 0
  Settles old new =
      (real.le old.balance new.balance ≡ true)
      × (real.le new.balance (real.add old.balance (room_left_below_cap system real old)) ≡ true)
      × (real.le old.budget_daily_rate (real.of_ℕ 0) ≡ true → new.balance ≡ old.balance)
      × ((c : C) × (new.last_accrual_at ≡ (system.now c).0))
      × (settings_of new ≡ settings_of old)

  abbrev pub Answers : BudgetRow F → Option (F × BudgetSettings F) → Db F → Type 0
  Answers old answer db =
      (new : BudgetRow F) × (db.budget_state ≡ some new)
      × (answer ≡ some (new.balance, settings_of new))
      × Settles old new

  module _ (laws : Laws real) where
    rate_product :
        (row : BudgetRow F) (days : F)
        → real.le row.budget_daily_rate (real.of_ℕ 0) ≡ false
        → real.le (real.of_ℕ 0) days ≡ true
        → (real.le (real.of_ℕ 0) (real.mul row.budget_daily_rate days) ≡ true)
          ⊎ IsNan real (real.mul row.budget_daily_rate days)
    rate_product row days h d = elim (laws.not_le_zero row.budget_daily_rate h) [
      | inl p ↦ laws.mul_nonneg row.budget_daily_rate days p d
      | inr nan ↦ inr (laws.mul_nan row.budget_daily_rate days nan)
    ]

    pub accrued-nonneg :
        (row : BudgetRow F) (now : ℤ)
        → real.le row.budget_daily_rate (real.of_ℕ 0) ≡ false
        → real.le (real.of_ℕ 0) (accrued system real row now) ≡ true
    unfolding accrued room_left_below_cap
    accrued-nonneg row now h =
        let n = pos_part (now -ℤ row.last_accrual_at) in
        laws.min_nonneg _ _
          (rate_product row (real.div (real.of_ℕ n) (real.of_ℕ 86400)) h
            (laws.div_nonneg (real.of_ℕ n) 86399 (laws.of_ℕ_nonneg n)))
          (laws.max_zero _)

    accrued-le_room :
        (row : BudgetRow F) (now : ℤ)
        → real.le (accrued system real row now) (room_left_below_cap system real row) ≡ true
    unfolding accrued room_left_below_cap
    accrued-le_room row now = laws.min_le_right _ _ (laws.le_refl_right _ _ (laws.max_zero _))

    module _ (row : BudgetRow F) (finite : laws.IsFinite row.balance) where
      unchanged-Settles :
          (now : ℤ)
          → ((c : C) × (now ≡ (system.now c).0))
          → Settles row (record row { last_accrual_at = now })
      unfolding room_left_below_cap
      unchanged-Settles now read = (
        laws.finite_refl row.balance finite,
        laws.le_trans _ _ _ (laws.add_zero row.balance finite)
            (laws.add_mono row.balance _ _ finite (laws.max_zero _)),
        λ _. refl,
        read,
        refl,
      )

      raised-Settles :
          (now : ℤ)
          → ((c : C) × (now ≡ (system.now c).0))
          → real.le row.budget_daily_rate (real.of_ℕ 0) ≡ false
          → Settles row (record row {
            balance = real.add row.balance (accrued system real row now);
            last_accrual_at = now;
          })
      raised-Settles now read h = (
        laws.le_trans _ _ _ (laws.add_zero row.balance finite)
            (laws.add_mono row.balance _ _ finite (accrued-nonneg row now h)),
        laws.add_mono row.balance _ _ finite (accrued-le_room row now),
        λ e. cc (h, e),
        read,
        refl,
      )

      abbrev Before : Db F → Type 0
      Before db = db.budget_state ≡ some row

      settle_row_lem : Triple {C = C} Before (Answers row) Before (settle_row system real row)
      unfolding settle_row update_budget
      settle_row_lem =
          Triple-bind {Q = λ now db. Before db × ((c : C) × (now ≡ (system.now c).0))} _ _
            (Triple-call system.now (λ c db h. (h, (c, refl))))
            (λ now.
              let raised = real.add row.balance (accrued system real row now) in
              Triple-if _ _ _
                (λ e.
                  Triple-bind _ _
                    (Triple-execute {R = λ _. Answers row (some (row.balance, settings_of row))}
                      system _
                      (λ db h. (
                        record row { last_accrual_at = now },
                        rw h.0 refl,
                        refl,
                        unchanged-Settles now h.1,
                      ))
                      (λ db h. h.0))
                    (λ _. Triple-pure _ (λ db h. h)))
                (λ e.
                  Triple-bind _ _
                    (Triple-execute {R = λ _. Answers row (some (raised, settings_of row))} system _
                      (λ db h. (
                        record row { balance = raised; last_accrual_at = now },
                        rw h.0 refl,
                        refl,
                        raised-Settles now h.1 e,
                      ))
                      (λ db h. h.0))
                    (λ _. Triple-pure _ (λ db h. h))))

      settle_accrual-Triple :
          Triple {C = C} Before (Answers row) Before (settle_accrual system real)
      unfolding settle_accrual fetch_budget_row
      settle_accrual-Triple = Triple-found system _ row _ _ (λ db h. h) (λ db h. h) settle_row_lem

      -- Where the stored balance is finite, settling never lowers the balance, raises it at most by
      -- what is left below the cap of the accrual, and leaves it where the daily rate is not above
      -- zero; in every case the clock of the accrual is set, so that no time is paid for twice. The
      -- balance answered is the one stored, the settings stay, and where the database fails the row
      -- is as before.
      pub settle_accrual-Settles :
          (w : World C F)
          → w.db.budget_state ≡ some row
          → Post
              (Answers row)
              (λ db. db.budget_state ≡ some row)
              (settle_accrual system real w).0
              (settle_accrual system real w).1.db
      settle_accrual-Settles w h = settle_accrual-Triple.at w h
