-- ===== src/Job/Advance/Moves.antt =====
-- One pass of `advance_all_until` of src/reconcile/job.rs, seen on the whole table.
use mathlib.Core.List.{Forall₂}
use mathlib.Core.Path.{subst}
use kube_shim.Prelude.{
  ℕ, suc, ◌<◌, ◌≡◌, refl, sym, ◌∙◌, ◌⊎◌, inl, inr, Bool, true, String, List, [], ◌∷◌, All, arith,
}
use kube_shim.Prelude.Int.{ℤ}
use kube_shim.Db.{JobRow, Db, update_job, insert_event, insert_volume, delete_volumes}
use kube_shim.Db.Quiet.{SameKey, SameKey-refl, SameKey-trans, SameJob}
use kube_shim.Db.Rows.{
  UniqueIds, UniqueIds-Agrees, Agrees, All-mono, All-select, update_where-Forall₂,
}
use kube_shim.Status.{Status, failed, is_pre_completion_state}
use kube_shim.Status.Order.{Step, give_up}
use kube_shim.Program.{World, Call, query}
use kube_shim.Program.Keeps.{Keeps, OnDb, Keeps-pure, Keeps-call, Keeps-query, Keeps-if, Keeps-bind}
use kube_shim.Program.Yields.{bind_at, query_value}
use kube_shim.Context.{JobContext}
use kube_shim.Job.Records.{move_row, fail_row}
use kube_shim.Job.Advance.{live_jobs, count_if, advance_rows, advance_all_until}
use kube_shim.Job.Advance.Tables.{Stepping, Updating, Updating-Stepping, Keeps-advance_job}

-- What one pass may do to a row: a version for every change of the status.
pub record RowMove {F : Type 0} (a b : JobRow F) : Type 0 where
  pub key : SameKey a b
  pub change :
      (a.status ≡ b.status) × (a.version ≡ b.version)
      ⊎ Step a.status b.status × (a.version < b.version)

abbrev pub Moved : {F : Type 0} → List (JobRow F) → Db F → Type 0
Moved jobs db = Forall₂ RowMove jobs db.jobs

module _ {F : Type 0} where
  RowMove-refl : (rs : List (JobRow F)) → Forall₂ RowMove rs rs
  RowMove-refl [] = Forall₂.nil
  RowMove-refl (r ∷ rs) =
      Forall₂.cons (record { key = SameKey-refl r; change = inl (refl, refl) }) (RowMove-refl rs)

  RowMove-quiet : (a b c : JobRow F) → RowMove a b → SameJob b c → RowMove a c
  RowMove-quiet a b c m s = record {
    key = SameKey-trans m.key s.key;
    change = elim m.change [
      | inl (p, q) ↦ inl (p ∙ s.status, q ∙ s.version)
      | inr (st, q) ↦ inr (subst (Step a.status) s.status st, omega (arith, s.version))
    ];
  }

  RowMove-version : (a b : JobRow F) → RowMove a b → a.version < suc b.version
  RowMove-version a b m = ground arith

  RowMove-move :
      (r a b : JobRow F) (target : Status) (now : ℤ)
      → Step r.status target
      → Agrees r a
      → RowMove a b
      → b.id ≡ r.id
      → RowMove a (move_row target now b)
  RowMove-move r a b target now st agrees m e = record {
    key =
        SameKey-trans m.key
          (record { id = refl; name = refl; namespace = refl; spec = refl; created_at = refl });
    change =
        inr (subst (λ s. Step s target) (sym (agrees (m.key.id ∙ e))) st, RowMove-version a b m);
  }

  RowMove-fail :
      (r a b : JobRow F) (reason : String) (now : ℤ)
      → is_pre_completion_state r.status ≡ true
      → Agrees r a
      → RowMove a b
      → b.id ≡ r.id
      → RowMove a (fail_row reason now b)
  RowMove-fail r a b reason now early agrees m e = record {
    key =
        SameKey-trans m.key
          (record { id = refl; name = refl; namespace = refl; spec = refl; created_at = refl });
    change = inr (
      subst (λ s. Step s failed) (sym (agrees (m.key.id ∙ e))) (give_up early refl),
      RowMove-version a b m,
    );
  }

  -- The relation to the rows at the start of the pass withstands what a job's own step does.
  Moved-Updating :
      (jobs : List (JobRow F)) (r : JobRow F) → All (Agrees r) jobs → Updating r (Moved jobs)
  unfolding update_job insert_event insert_volume delete_volumes
  Moved-Updating jobs r agrees = record {
    quiet = record {
      on_event = λ e db h. h;
      on_volume = λ v db h. h;
      on_delete = λ db h. h;
      on_row = λ f same db h.
          update_where-Forall₂ r.id f (λ a b _ m _. RowMove-quiet a b (f b) m (same b)) agrees h;
    };
    on_move = λ target now st db h.
        update_where-Forall₂ r.id (move_row target now)
          (λ a b known m e. RowMove-move r a b target now st known m e) agrees h;
    on_fail = λ reason now early db h.
        update_where-Forall₂ r.id (fail_row reason now)
          (λ a b known m e. RowMove-fail r a b reason now early known m e) agrees h;
  }

module _ {C V F : Type 0} (ctx : JobContext C V F) (is_requested : Call C Bool) where
  -- The loop keeps what each of its rounds keeps.
  pub Keeps-advance_rows :
      {Q : Db F → Type 0} (now : ℤ) (advanced : ℕ) (rs : List (JobRow F))
      → All (λ r. Stepping ctx r Q) rs
      → Keeps (OnDb Q) (advance_rows ctx is_requested now advanced rs)
  unfolding advance_rows
  Keeps-advance_rows now advanced [] steps = Keeps-pure advanced
  Keeps-advance_rows now advanced (r ∷ rs) (step, steps) =
      Keeps-bind _ _ (Keeps-call is_requested) λ stop.
        Keeps-if stop _ _ (λ _. Keeps-pure advanced)
          λ _.
            Keeps-bind _ _ (Keeps-advance_job ctx step now)
              (λ done. Keeps-advance_rows now (count_if done advanced) rs steps)

  -- A pass keeps what a step of each job on the table keeps.
  pub advance_all_until-keeps :
      (Q : Db F → Type 0) (w : World C F)
      → All (λ r. Stepping ctx r Q) (live_jobs w.db)
      → Q w.db
      → Q (advance_all_until ctx is_requested w).1.db
  unfolding advance_all_until
  advance_all_until-keeps Q w steps h =
      (bind_at {P = OnDb Q} (query ctx.system live_jobs) _ w
        ((Keeps-query ctx.system live_jobs).at w (record { holds = h }))
        λ rows e. Keeps-bind _ _ (Keeps-call ctx.system.now) λ now. Keeps-advance_rows now 0 rows (
          subst (All (λ r. Stepping ctx r Q)) (sym (query_value ctx.system live_jobs w rows e))
            steps)).holds

-- Whatever the cloud, the workers, the clock and the database answer, and wherever the pass is cut
-- short: if the ids are unique, the table has the same rows after the pass in the same order, and
-- each row either has its status and version, or has made one step of the state machine (to the
-- next state, or from a state before completion to `Failed`) with a higher version.
pub advance_all_until-moves :
    {C V F : Type 0} (ctx : JobContext C V F) (is_requested : Call C Bool) (w : World C F)
    → UniqueIds w.db.jobs
    → Forall₂ RowMove w.db.jobs (advance_all_until ctx is_requested w).1.db.jobs
advance_all_until-moves ctx is_requested w unique =
    advance_all_until-keeps ctx is_requested (Moved w.db.jobs) w
      (All-mono (live_jobs w.db)
        (λ r agrees. Updating-Stepping ctx (Moved-Updating w.db.jobs r agrees))
        (All-select (λ r. All (Agrees r) w.db.jobs) _ w.db.jobs
          (UniqueIds-Agrees w.db.jobs unique)))
      (RowMove-refl w.db.jobs)
