-- ===== src/Job/Advance/Events.antt =====
-- The events that a pass leaves: RUN_FAILED_SQL of src/reconcile/job.rs reads from them whether a
-- run failed.
use kube_shim.Prelude.{
  ◌≡◌, refl, ap, ◌∙◌, Bool, true, ◌||◌, some, String, List, [], ◌∷◌, ◌++◌, All, any, arith,
}
use text.Mathlib.TextPositions.{eq_refl}
use kube_shim.Prelude.Int.{ℤ}
use kube_shim.Db.{
  JobRow, Event, EventType, warning, Db, update_job, insert_event, insert_volume, delete_volumes,
  has_failed_event,
}
use kube_shim.Db.Rows.{All-mono, All-update_where}
use kube_shim.Status.{Status, failed, status_text}
use kube_shim.Program.{World, Call, System, pure, ◌>>=◌}
use kube_shim.Program.NoFault.{NoFault}
use kube_shim.Program.Keeps.{Keeps, OnDb}
use kube_shim.Context.{JobContext}
use kube_shim.Job.Records.{force_failed, move_row, fail_row}
use kube_shim.Job.Records.NoFault.{
  record_event-NoFault, force_failed-NoFault, move_to-NoFault, new_event,
}
use kube_shim.Job.Advance.{live_jobs, transition, advance_all_until}
use kube_shim.Job.Advance.Moves.{advance_all_until-keeps}
use kube_shim.Job.Advance.Tables.{Stepping, Updating, Updating-Stepping}

any-append : {A : Type 0} (p : A → Bool) (xs ys : List A) → any p (xs ++ ys) ≡ any p xs || any p ys
any-append p [] ys = refl
any-append p (x ∷ xs) ys = ground (arith, any-append p xs ys)

any-append_true :
    {A : Type 0} (p : A → Bool) (xs ys : List A) → any p xs ≡ true → any p (xs ++ ys) ≡ true
any-append_true p xs ys h = any-append p xs ys ∙ ap (λ b. b || any p ys) h

-- Events are added and never taken away.
pub has_failed_event-append :
    (id : String) (xs ys : List Event)
    → has_failed_event id xs ≡ true
    → has_failed_event id (xs ++ ys) ≡ true
unfolding has_failed_event
has_failed_event-append id xs ys h = any-append_true _ xs ys h

module _ {C : Type 0} (sys : System C) where
  pub own_failed_event :
      (id message : String) (t : EventType) (c : C) (xs : List Event)
      → has_failed_event id (xs ++ new_event sys (some id) "Failed" message t c ∷ []) ≡ true
  unfolding has_failed_event
  own_failed_event id message t c xs = rw any-append (ground (arith, eq_refl id))

abbrev FailedIsRecorded : {F : Type 0} → List Event → JobRow F → Type 0
FailedIsRecorded events r = r.status ≡ failed → has_failed_event r.id events ≡ true

-- Every job in `Failed` has its `Failed` event.
abbrev pub FailuresRecorded : {F : Type 0} → Db F → Type 0
FailuresRecorded db = All (FailedIsRecorded db.events) db.jobs

module _ {C V F : Type 0} (ctx : JobContext C V F) (safe : NoFault ctx.system) (r : JobRow F) where
  Keeps-force_failed :
      (reason : String) (now : ℤ)
      → Keeps (OnDb (FailuresRecorded {F = F})) (force_failed ctx.system r.id reason now)
  unfolding update_job insert_event
  Keeps-force_failed reason now = record {
    at = λ w h. rw force_failed-NoFault (record {
      holds =
          All-update_where r.id (fail_row reason now) w.db.jobs
            (λ a p e. has_failed_event-append a.id w.db.events _ (p e))
            (λ a p e _. rw e (own_failed_event ctx.system r.id reason warning _ w.db.events))
            h.holds;
    });
  }

  Keeps-transition :
      (target : Status) (now : ℤ)
      → Keeps (OnDb (FailuresRecorded {F = F})) (transition ctx r target now)
  unfolding transition ◌>>=◌ update_job insert_event status_text pure
  Keeps-transition target now = record {
    at = λ w h.
        rw (move_to-NoFault, record_event-NoFault)
          (record {
            holds =
                All-update_where r.id (move_row target now) w.db.jobs
                  (λ a p e. has_failed_event-append a.id w.db.events _ (p e))
                  (λ a p e f. rw (e, f) (own_failed_event ctx.system r.id _ _ _ w.db.events))
                  h.holds;
          });
  }

  FailuresRecorded-Stepping : Stepping ctx r (FailuresRecorded {F = F})
  unfolding update_job insert_event insert_volume delete_volumes
  FailuresRecorded-Stepping = record {
    quiet = record {
      on_event =
          λ e db h. All-mono db.jobs (λ a p f. has_failed_event-append a.id db.events _ (p f)) h;
      on_volume = λ v db h. h;
      on_delete = λ db h. h;
      on_row = λ f same db h.
          All-update_where r.id f db.jobs (λ a p. p)
            (λ a p _ e. rw (← (same a).key.id) (p ((same a).status ∙ e))) h;
    };
    on_move = λ target now st. Keeps-transition target now;
    on_fail = λ reason now early. Keeps-force_failed reason now;
  }

module _ {C V F : Type 0} (ctx : JobContext C V F) where
  All-rows : {Q : JobRow F → Type 0} (rs : List (JobRow F)) → ((r : JobRow F) → Q r) → All Q rs
  All-rows [] q = tt
  All-rows (r ∷ rs) q = (q r, All-rows rs q)

  -- While the database refuses no statement, a pass leaves no job in `Failed` without a `Failed`
  -- event of its own, if there was none before: whether the exit code, the deadline, the timeout or
  -- a container that never started put it there, RUN_FAILED_SQL sees the failure.
  pub advance_all_until-FailuresRecorded :
      NoFault ctx.system
      → (is_requested : Call C Bool) (w : World C F) → FailuresRecorded w.db
      → FailuresRecorded (advance_all_until ctx is_requested w).1.db
  advance_all_until-FailuresRecorded safe is_requested w h =
      advance_all_until-keeps ctx is_requested FailuresRecorded w
        (All-rows (live_jobs w.db) (λ r. FailuresRecorded-Stepping ctx safe r)) h

  HasFailed-Updating :
      (id : String) (r : JobRow F)
      → Updating r (λ (db : Db F). has_failed_event id db.events ≡ true)
  unfolding update_job insert_event insert_volume delete_volumes
  HasFailed-Updating id r = record {
    quiet = record {
      on_event = λ e db h. has_failed_event-append id db.events _ h;
      on_volume = λ v db h. h;
      on_delete = λ db h. h;
      on_row = λ f same db h. h;
    };
    on_move = λ target now st db h. h;
    on_fail = λ reason now early db h. h;
  }

  -- A recorded failure stays recorded through any pass, database errors included.
  pub advance_all_until-has_failed_event :
      (is_requested : Call C Bool) (w : World C F) (id : String)
      → has_failed_event id w.db.events ≡ true
      → has_failed_event id (advance_all_until ctx is_requested w).1.db.events ≡ true
  advance_all_until-has_failed_event is_requested w id h =
      advance_all_until-keeps ctx is_requested (λ db. has_failed_event id db.events ≡ true) w
        (All-rows (live_jobs w.db) (λ r. Updating-Stepping ctx (HasFailed-Updating id r))) h
