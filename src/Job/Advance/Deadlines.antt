-- ===== src/Job/Advance/Deadlines.antt =====
-- `activeDeadlineSeconds` and the timeout of a stuck state (src/reconcile/job.rs).
use kube_shim.Prelude.{
  ℕ, suc, ◌≡◌, ◌≢◌, ◌↔◌, refl, ap, ◌∙◌, ◌⊎◌, inl, inr, true, false, map_option, Option, none, some,
  String, [], ◌∷◌, ◌++◌, ◌+◌, ◌<>◌, show_ℕ, show_ℤ, Bool-cases, Option-cases, arith,
}
use kube_shim.Prelude.Int.{ℤ, pos, ◌-ℤ◌, ◌<ℤ◌, ltb_ℤ}
use kube_shim.Db.{JobRow, Event, find_job, update_job, insert_event, warning}
use kube_shim.Db.Rows.{find_job-update_job}
use kube_shim.Status.{
  Status, container_running, failed, status_text, next_state, is_state, is_pre_completion_state,
}
use kube_shim.Program.{World, ok, ◌>>=◌, let_some, pure}
use kube_shim.Program.NoFault.{NoFault}
use kube_shim.Program.Keeps.{CallKeeps}
use kube_shim.Context.{JobContext}
use kube_shim.Job.Spec.{unwrap_or_else, active_deadline_seconds, parse_spec}
use kube_shim.Job.Records.{fail_row}
use kube_shim.Job.Records.NoFault.{force_failed-NoFault, new_event, after_event}
use kube_shim.Job.Advance.{overdue, advance_job, give_up_on}
use kube_shim.Job.Advance.Tables.{overdue_early}

abbrev pub IsPast : Option ℤ → ℤ → Type 0
IsPast none age = ⊥
IsPast (some deadline) age = deadline <ℤ age

-- A job is given up exactly when it has not completed, and either its deadline has passed since it
-- was created, or it has been in a state other than `ContainerRunning` for more than 300 seconds.
pub overdue_iff :
    {F : Type 0} (deadline : Option ℤ) (r : JobRow F) (now : ℤ)
    → (overdue deadline r now ≢ none) ↔ (
        (is_pre_completion_state r.status ≡ true)
        × (IsPast deadline (now -ℤ r.created_at)
            ⊎ (is_state r.status container_running ≡ false)
              × (pos 300 <ℤ now -ℤ unwrap_or_else r.last_transition_time r.created_at)))
unfolding overdue
overdue_iff none r now = ground arith
overdue_iff (some d) r now = ground arith

-- The reason that is recorded: the deadline, where it has passed, and the timeout otherwise.
abbrev pub Explains : {F : Type 0} → Option ℤ → JobRow F → ℤ → String → Type 0
Explains deadline r now reason =
    ((d : ℤ) × (deadline ≡ some d)
      × (d <ℤ now -ℤ r.created_at)
      × (reason
          ≡ "DeadlineExceeded: activeDeadlineSeconds ("
            <> show_ℤ d
            <> "s) exceeded while in state "
            <> status_text r.status))
    ⊎ (¬ (IsPast deadline (now -ℤ r.created_at)))
      × (reason
          ≡ "StateTimeout: stuck in " <> status_text r.status <> " for over " <> show_ℕ 300 <> "s")

overdue-Explains :
    {F : Type 0} (deadline : Option ℤ) (r : JobRow F) (now : ℤ) (reason : String)
    → overdue deadline r now ≡ some reason
    → Explains deadline r now reason
unfolding overdue
overdue-Explains none r now reason h = inr ((λ p. p), ground arith)
overdue-Explains (some d) r now reason h = elim (Bool-cases (ltb_ℤ d (now -ℤ r.created_at))) [
  | inl late ↦ inl (d, refl, ground arith, ground arith)
  | inr early ↦ inr (ground arith, ground arith)
]

pre_completion_next :
    (s : Status) → is_pre_completion_state s ≡ true → (next : Status) × (next_state s ≡ some next)
unfolding is_pre_completion_state next_state
pre_completion_next (Status.other x) h = cc
pre_completion_next Status.created h = (_, refl)
pre_completion_next Status.archived h = cc
pre_completion_next Status.failed h = cc
pre_completion_next _ h = (_, refl)

suc-add_one : (n : ℕ) → suc n ≡ n + 1
suc-add_one n = omega arith

module _ {C V F : Type 0} (ctx : JobContext C V F) where
  abbrev pub deadline_of : JobRow F → Option ℤ
  deadline_of r = active_deadline_seconds ctx.json (parse_spec ctx.json r.spec)

  -- The effect of the loop's body on an overdue job: no handler runs.
  advance_job-overdue :
      (now : ℤ) (r : JobRow F) (reason : String) (w : World C F)
      → overdue (deadline_of r) r now ≡ some reason
      → advance_job ctx now r w ≡ give_up_on ctx r reason now w
  unfolding advance_job let_some
  advance_job-overdue now r reason w late =
      let (next, e) =
        pre_completion_next r.status (overdue_early (deadline_of r) r now reason late) in
      rw (e, late)

  module _ (safe : NoFault ctx.system) (now : ℤ) (r : JobRow F) (reason : String) (w : World C F)
      (late : overdue (deadline_of r) r now ≡ some reason) where
    give_up_on-NoFault : give_up_on ctx r reason now w ≡ (
      ok true,
      record {
        db =
            insert_event
              (new_event ctx.system
                (some r.id)
                "Failed"
                reason
                warning
                (ctx.system.fault w.cloud).1)
              (update_job r.id (fail_row reason now) w.db);
        cloud = after_event ctx.system (ctx.system.fault w.cloud).1;
      },
    )
    unfolding give_up_on ◌>>=◌ pure
    give_up_on-NoFault = rw force_failed-NoFault

  -- What a job that is given up leaves behind: `w` before, and `w'` after.
  pub record IsGivenUp (now : ℤ) (r : JobRow F) (reason : String) (w w' : World C F) : Type 0 where
    pub row :
        find_job r.id w'.db
        ≡ map_option
            (λ (a : JobRow F). record a {
              status = failed;
              last_error = some reason;
              last_transition_time = some now;
              updated_at = now;
              version = a.version + 1;
            })
            (find_job r.id w.db)
    pub event :
        (e : Event) × (w'.db.events ≡ w.db.events ++ e ∷ [])
        × (e.job_id ≡ some r.id)
        × (e.reason ≡ "Failed")
        × (e.message ≡ reason)
        × (e.event_type ≡ warning)
    pub volumes : w'.db.job_volumes ≡ w.db.job_volumes

  given_up :
      (now : ℤ) (r : JobRow F) (reason : String) (w : World C F)
      → IsGivenUp now r reason w (record {
        db =
            insert_event
              (new_event ctx.system
                (some r.id)
                "Failed"
                reason
                warning
                (ctx.system.fault w.cloud).1)
              (update_job r.id (fail_row reason now) w.db);
        cloud = after_event ctx.system (ctx.system.fault w.cloud).1;
      })
  unfolding insert_event find_job update_job
  given_up now r reason w = record {
    row =
        find_job-update_job r.id (fail_row reason now) w.db (λ a. refl)
        ∙ ap (λ f. map_option f (find_job r.id w.db))
            (λ i a. record a {
              status = failed;
              last_error = some reason;
              last_transition_time = some now;
              updated_at = now;
              version = suc-add_one a.version i;
            });
    event = (_, refl, refl, refl, refl, refl);
    volumes = refl;
  }

  -- A job before completion whose deadline has passed since it was created, or that has been in a
  -- state other than `ContainerRunning` for more than 300 seconds, is failed by the pass that finds
  -- it so, while the database refuses no statement: the body of the loop returns and counts it; its
  -- row, if there is one, says `Failed`, why and when, and is otherwise the row it was but for the
  -- next version; its `Failed` event, a warning with the same reason, is the only new one; the
  -- reason names the deadline if that has passed, and the timeout if not; and no handler runs: what
  -- the clock, the generator of ids and the database keep holds outside afterwards.
  pub advance_job-fails_overdue :
      (P : C → Type 0)
      → CallKeeps P ctx.system.now
      → CallKeeps P ctx.system.new_uuid
      → CallKeeps P ctx.system.fault
      → NoFault ctx.system
      → (now : ℤ) (r : JobRow F) (w : World C F) → P w.cloud
      → is_pre_completion_state r.status ≡ true
      → (IsPast (deadline_of r) (now -ℤ r.created_at)
          ⊎ (is_state r.status container_running ≡ false)
            × (pos 300 <ℤ now -ℤ unwrap_or_else r.last_transition_time r.created_at))
      → ((advance_job ctx now r w).0 ≡ ok true)
        × P (advance_job ctx now r w).1.cloud
        × ((reason : String) × Explains (deadline_of r) r now reason
            × IsGivenUp now r reason w (advance_job ctx now r w).1)
  advance_job-fails_overdue P kn ku kf safe now r w h early late =
      elim (Option-cases (overdue (deadline_of r) r now)) [
        | inl never ↦ absurd ((overdue_iff (deadline_of r) r now).1 (early, late) never)
        | inr (reason, e) ↦
            rw (advance_job-overdue now r reason w e, give_up_on-NoFault safe now r reason w e)
              (
                refl,
                kf.at _ (kn.at _ (ku.at _ (kf.at w.cloud h))),
                (reason, overdue-Explains (deadline_of r) r now reason e, given_up now r reason w),
              )
      ]
