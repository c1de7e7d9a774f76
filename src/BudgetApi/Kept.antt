-- ===== src/BudgetApi/Kept.antt =====
-- The events of the handlers of src/api/budget.rs.
use kube_shim.Prelude.{◌≡◌, refl, ap, ◌&&◌, none, String, List, [], ◌∷◌, ◌++◌, Bool-cases, inl, inr}
use kube_shim.Prelude.Int.{ℤ}
use kube_shim.Tariff.{BudgetRow}
use kube_shim.Db.{Db, Event, normal, insert_event}
use kube_shim.Program.{Result, ok, err, World, M, Call, System, pure, execute, ◌>>◌}
use kube_shim.Program.Triple.{
  Post, Triple, Triple-pure, Triple-call, Triple-query, Triple-execute, Triple-bind,
  Triple-let_some, Triple-if,
}
use kube_shim.Real.{Real}
use kube_shim.Job.Records.{record_event}
use kube_shim.Budget.{
  BudgetError, not_seeded, update_budget, fetch_budget_row, settle_row, settle_accrual, topped_up,
  apply_topup,
}
use kube_shim.Http.{ErrorResponse, internal_result, of_action, go_on, next}
use kube_shim.BudgetApi.{FloatText, budget_result, of_budget, announce, topup_message, topup}

module _ {C F : Type 0} (system : System C) (real : Real F) (events : List Event) where
  abbrev pub Same : Db F → Type 0
  Same db = db.events ≡ events

  abbrev Quiet : {A : Type 0} → M C F A → Type 0
  Quiet m = Triple {C = C} Same (λ _. Same) Same m

  update-Quiet :
      {A : Type 0} (f : BudgetRow F → BudgetRow F) (a : A)
      → Quiet (execute system (update_budget f) >> pure a)
  unfolding update_budget
  update-Quiet f a =
      Triple-bind {Q = λ _. Same} _ _
        (Triple-execute system (update_budget f) (λ db h. h) (λ db h. h))
        (λ _. Triple-pure a (λ db h. h))

  settle_row-Quiet : (row : BudgetRow F) → Quiet (settle_row system real row)
  unfolding settle_row
  settle_row-Quiet row =
      Triple-bind {Q = λ _. Same} _ _ (Triple-call system.now (λ c db h. h)) (λ now.
        Triple-if (real.le row.budget_daily_rate (real.of_ℕ 0)) _ _ (λ _. update-Quiet _ _)
          (λ _. update-Quiet _ _))

  settle_accrual-Quiet : Quiet (settle_accrual system real)
  unfolding settle_accrual fetch_budget_row
  settle_accrual-Quiet =
      Triple-bind {Q = λ _. Same} _ _ (Triple-query system _ (λ db h. h) (λ db h. h)) (λ o.
        Triple-let_some o _ _ (λ _. Triple-pure none (λ db h. h)) (λ row _. settle_row-Quiet row))

  apply_topup-Quiet : (amount : F) → Quiet (apply_topup system real amount)
  unfolding apply_topup topped_up
  apply_topup-Quiet amount = Triple-bind {Q = λ _. Same} _ _ settle_accrual-Quiet (λ settled.
      Triple-let_some settled _ _ (λ _. Triple-pure (err not_seeded) (λ db h. h))
        (λ s _. update-Quiet _ _))

  abbrev new_event : String → String → String → ℤ → Event
  new_event id reason message now = record {
    id = id;
    job_id = none;
    reason = reason;
    message = message;
    timestamp = now;
    event_type = normal;
  }

  -- one event more
  abbrev pub Added : String → Db F → Type 0
  Added reason db = (e : Event) × (db.events ≡ events ++ e ∷ []) × (e.reason ≡ reason)

  announce-Added :
      (float_text : FloatText F) (notify : Call C Unit) (reason message : String)
      → Triple {C = C} Same
          (λ _. Added reason)
          Same
          (announce system real float_text notify reason message)
  unfolding announce record_event insert_event
  announce-Added float_text notify reason message =
      Triple-bind {Q = λ _. Added reason} _ _
        (Triple-bind {Q = λ _. Same} _ _ (Triple-call system.new_uuid (λ c db h. h)) (λ id.
          Triple-bind {Q = λ _. Same} _ _ (Triple-call system.now (λ c db h. h)) (λ now.
            let e = new_event id reason message now in
            Triple-execute system (insert_event e) (λ db h. (e, ap (λ x. x ++ e ∷ []) h, refl))
              (λ db h. h))))
        (λ _. Triple-call notify (λ c db h. h))

  -- what a handler has recorded, by its answer
  abbrev pub Announced : {A : Type 0} → String → Result ErrorResponse A → Db F → Type 0
  Announced reason (ok a) db = Added reason db
  Announced reason (err e) db = Same db

  after_announcing :
      (reason : String) (balance : F) (r : Result String Unit) (w : World C F)
      → Post (λ _. Added reason) Same r w.db
      → let done = go_on (internal_result r) (λ _ w'. (ok balance, w')) w in
        Announced reason done.0 done.1.db
  unfolding go_on internal_result
  after_announcing reason balance (ok a) w h = h
  after_announcing reason balance (err e) w h = h

  module _ (float_text : FloatText F) (notify : Call C Unit) where
    announcing :
        (reason message : String) (balance : F) (w : World C F)
        → Same w.db
        → let done =
            next
              (of_action (announce system real float_text notify reason message))
              (λ _ w'. (ok balance, w'))
              w in
          Announced reason done.0 done.1.db
    unfolding next of_action
    announcing reason message balance w h =
        let announced = announce system real float_text notify reason message w in
        after_announcing reason balance announced.0 announced.1
          ((announce-Added float_text notify reason message).at w h)

    after_topup :
        (amount : F) (r : Result String (Result BudgetError (F × F))) (w : World C F)
        → Post (λ _. Same) Same r w.db
        → let done =
            go_on
              (budget_result r)
              (λ result.
                next
                  (of_action (
                    announce system real float_text notify "BudgetToppedUp"
                      (topup_message system real float_text notify amount result.0 result.1)))
                  (λ _ w'. (ok result.0, w')))
              w in
          Announced "BudgetToppedUp" done.0 done.1.db
    unfolding go_on budget_result
    after_topup amount (ok (ok result)) w h = announcing "BudgetToppedUp" _ result.0 w h
    after_topup amount (ok (err e)) w h = h
    after_topup amount (err e) w h = h

    -- A top-up that is answered with a balance records exactly one event, and one that is answered with
    -- an error none.
    pub topup-Announced :
        (amount : F) (w : World C F)
        → Same w.db
        → let done = topup system real float_text notify amount w in
          Announced "BudgetToppedUp" done.0 done.1.db
    unfolding topup next of_budget
    topup-Announced amount w h =
        elim (Bool-cases (float_text.is_finite amount && float_text.is_nonzero amount)) [
          | inl e ↦
              let r = apply_topup system real amount w in
              rw e (after_topup amount r.0 r.1 ((apply_topup-Quiet amount).at w h))
          | inr e ↦ rw e h
        ]
