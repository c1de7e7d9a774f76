-- ===== src/Job/Advance/Tables.antt =====
-- The body of the loop of `advance_all_until`: what it does to the tables. `Q` withstands the quiet
-- statements about the job, and its change to any status that a step leads to.
use kube_shim.Prelude.{
  ◌≡◌, refl, Bool, true, false, Option, none, some, String, inl, inr, Bool-cases,
}
use kube_shim.Prelude.Int.{ℤ}
use kube_shim.Db.{JobRow, Db, update_job}
use kube_shim.Db.Quiet.{Quiet}
use kube_shim.Status.{Status, container_running, next_state, is_pre_completion_state}
use kube_shim.Status.Order.{Step, forward, give_up}
use kube_shim.Program.{pure, let_some}
use kube_shim.Program.Keeps.{Keeps, OnDb, Keeps-pure, Keeps-let_some_eq}
use kube_shim.Program.Yields.{Yields, Yields-mono, Keeps-bind-Yields, yields_rules}
use kube_shim.Context.{JobContext}
use kube_shim.Job.Records.{move_row, fail_row, force_failed}
use kube_shim.Job.Records.Tables.{record_rules, Keeps-force_failed, Keeps-move_to}
use kube_shim.Job.Volumes.Tables.{
  Keeps-handle_volume_pending, Keeps-handle_volume_attaching, Keeps-handle_volume_detaching,
}
use kube_shim.Job.Servers.Tables.{
  Keeps-handle_vm_pending, Keeps-handle_vm_creating, Keeps-handle_vm_terminating,
}
use kube_shim.Job.Firewall.Tables.{Keeps-handle_firewall_applying, Keeps-handle_firewall_verified}
use kube_shim.Job.Containers.Tables.{
  Keeps-handle_container_configuring, Keeps-handle_container_running,
}
use kube_shim.Job.Containers.Answers.{
  Outcome, stays, succeeds, fails, Yields-handle_container_running,
}
use kube_shim.Job.Advance.{overdue, when, handle, transition, give_up_on, run_handler, advance_job}

-- What a job's own step may do to the tables, as the actions that do it.
pub record Stepping {C V F : Type 0} (ctx : JobContext C V F) (r : JobRow F) (Q : Db F → Type 0)
    : Type 0 where
  pub quiet : Quiet r.id Q
  pub on_move :
      (target : Status) (now : ℤ)
      → Step r.status target
      → Keeps (OnDb Q) (transition ctx r target now)
  pub on_fail :
      (reason : String) (now : ℤ)
      → is_pre_completion_state r.status ≡ true
      → Keeps (OnDb Q) (force_failed ctx.system r.id reason now)

-- The same, as the updates of the row.
pub record Updating {F : Type 0} (r : JobRow F) (Q : Db F → Type 0) : Type 0 where
  pub quiet : Quiet r.id Q
  pub on_move :
      (target : Status) (now : ℤ)
      → Step r.status target
      → (db : Db F) → Q db
      → Q (update_job r.id (move_row target now) db)
  pub on_fail :
      (reason : String) (now : ℤ)
      → is_pre_completion_state r.status ≡ true
      → (db : Db F) → Q db
      → Q (update_job r.id (fail_row reason now) db)

module _ {C V F : Type 0} (ctx : JobContext C V F) {r : JobRow F} {Q : Db F → Type 0}
    (ups : Updating r Q) where
  Keeps-transition :
      (target : Status) (now : ℤ)
      → Step r.status target
      → Keeps (OnDb Q) (transition ctx r target now)
  unfolding transition
  Keeps-transition target now st =
      let quiet = ups.quiet in search (record_rules, Keeps-move_to, ups.on_move target now st)

  pub Updating-Stepping : Stepping ctx r Q
  Updating-Stepping = record {
    quiet = ups.quiet;
    on_move = Keeps-transition;
    on_fail = λ reason now early.
        Keeps-force_failed ctx.system ups.quiet reason now (ups.on_fail reason now early);
  }

ruleset handlers = (
  record_rules, Keeps-handle_volume_pending, Keeps-handle_volume_attaching,
  Keeps-handle_volume_detaching, Keeps-handle_vm_pending, Keeps-handle_vm_creating,
  Keeps-handle_vm_terminating, Keeps-handle_firewall_applying, Keeps-handle_firewall_verified,
  Keeps-handle_container_configuring,
)

-- Where a handler's answer leads from `s`.
abbrev pub Leads : Status → Option Status → Type 0
Leads s none = Unit
Leads s (some t) = Step s t

when-Leads : (s next : Status) (done : Bool) → Step s next → Leads s (when done next)
when-Leads s next true st = st
when-Leads s next false st = tt

Outcome-Leads : (o : Option Status) → Outcome o → Leads container_running o
unfolding next_state is_pre_completion_state
Outcome-Leads _ stays = tt
Outcome-Leads _ succeeds = forward refl
Outcome-Leads _ fails = give_up refl refl

-- Only a job that has not completed is given up.
pub overdue_early :
    {F : Type 0} (deadline : Option ℤ) (r : JobRow F) (now : ℤ) (reason : String)
    → overdue deadline r now ≡ some reason
    → is_pre_completion_state r.status ≡ true
unfolding overdue
overdue_early deadline r now reason h = elim (Bool-cases (is_pre_completion_state r.status)) [
  | inl e ↦ e
  | inr e ↦ cc (rw e at h)
]

module _ {C V F : Type 0} (ctx : JobContext C V F) where
  -- Every handler answers with a step of the state machine, or stays.
  pub Yields-handle :
      (r : JobRow F) (s next : Status)
      → next_state s ≡ some next
      → Yields (Leads s) (handle ctx s r next)
  unfolding handle
  Yields-handle r container_running next e =
      Yields-mono _ Outcome-Leads (Yields-handle_container_running ctx r.id _ _ _)
  Yields-handle r s next e = let st = forward {s = s} e in search (yields_rules, when-Leads)

module _ {C V F : Type 0} (ctx : JobContext C V F) {r : JobRow F} {Q : Db F → Type 0}
    (steps : Stepping ctx r Q) where
  Keeps-give_up_on :
      (reason : String) (now : ℤ)
      → is_pre_completion_state r.status ≡ true
      → Keeps (OnDb Q) (give_up_on ctx r reason now)
  unfolding give_up_on
  Keeps-give_up_on reason now early = search (record_rules, steps.on_fail reason now early)

  Keeps-handle : (next : Status) (s : Status) → s ≡ r.status → Keeps (OnDb Q) (handle ctx s r next)
  unfolding handle is_pre_completion_state
  Keeps-handle next container_running e =
      let quiet = steps.quiet in
      Keeps-handle_container_running ctx quiet
        (λ reason now. steps.on_fail reason now (rw (← e) refl)) r.spec r.created_at
        r.last_transition_time
  Keeps-handle next _ e = let quiet = steps.quiet in search handlers

  Keeps-target :
      (target : Option Status) (now : ℤ)
      → Leads r.status target
      → Keeps (OnDb Q) (let_some target (pure false) (λ t. transition ctx r t now))
  unfolding let_some
  Keeps-target none now st = Keeps-pure false
  Keeps-target (some t) now st = steps.on_move t now st

  Keeps-run_handler :
      (next : Status) (now : ℤ)
      → next_state r.status ≡ some next
      → Keeps (OnDb Q) (run_handler ctx r next now)
  unfolding run_handler
  Keeps-run_handler next now e =
      Keeps-bind-Yields (handle ctx r.status r next) _ (Keeps-handle next r.status refl)
        (Yields-handle ctx r r.status next e) (λ target st. Keeps-target target now st)

  -- However the body of the loop ends, `Q` still holds.
  pub Keeps-advance_job : (now : ℤ) → Keeps (OnDb Q) (advance_job ctx now r)
  unfolding advance_job
  Keeps-advance_job now = Keeps-let_some_eq (next_state r.status) _ _ (Keeps-pure false) λ next e.
      Keeps-let_some_eq _ _ _ (Keeps-run_handler next now e)
        (λ reason late. Keeps-give_up_on reason now (overdue_early _ r now reason late))
