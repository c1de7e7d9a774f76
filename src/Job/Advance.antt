-- ===== src/Job/Advance.antt =====
-- src/reconcile/job.rs: `advance_all_until`, one pass over all jobs that are not archived.
pub mod Tables
pub mod Moves
pub mod Passes
pub mod Events
pub mod Deadlines
pub mod Archive
use kube_shim.Prelude.{
  ℕ, zero, suc, ◌+◌, Bool, true, false, Option, none, some, String, List, [], ◌∷◌, ◌<>◌, not, ◌&&◌,
  select, show_ℕ, show_ℤ, str_eq, if◌then◌else◌,
}
use kube_shim.Prelude.Int.{ℤ, pos, ◌-ℤ◌, ltb_ℤ}
use kube_shim.Db.{JobRow, EventType, normal, warning, Db}
use kube_shim.Status.{
  Status, status_text, volume_pending, vm_pending, firewall_applying, firewall_verified,
  vm_creating, volume_attaching, container_configuring, container_running, volume_detaching,
  vm_terminating, failed, terminal_state, is_state, next_state, is_pre_completion_state,
}
use kube_shim.Program.{M, Call, pure, call, query, ◌>>=◌, ◌>>◌, let_some}
use kube_shim.Context.{JobContext}
use kube_shim.Job.Spec.{unwrap_or_else, parse_spec, active_deadline_seconds}
use kube_shim.Job.Records.{retry_escalation_threshold, force_failed, record_event, move_to}
use kube_shim.Job.Volumes.{handle_volume_pending, handle_volume_attaching, handle_volume_detaching}
use kube_shim.Job.Servers.{handle_vm_pending, handle_vm_creating, handle_vm_terminating}
use kube_shim.Job.Firewall.{handle_firewall_applying, handle_firewall_verified}
use kube_shim.Job.Containers.{handle_container_configuring, handle_container_running}

-- the rows of the SELECT
abbrev pub live_jobs : {F : Type 0} → Db F → List (JobRow F)
live_jobs db = select (λ r. not (is_state r.status terminal_state)) db.jobs

abbrev pub exceeds : ℤ → Option ℤ → Bool
exceeds age none = false
exceeds age (some deadline) = ltb_ℤ deadline age

abbrev show_deadline : Option ℤ → String
show_deadline none = ""
show_deadline (some deadline) = show_ℤ deadline

-- Why the job is given up before its handler runs, if it is.
unfoldable pub overdue : {F : Type 0} → Option ℤ → JobRow F → ℤ → Option String
overdue deadline r now =
    if is_pre_completion_state r.status
    then if exceeds (now -ℤ r.created_at) deadline
      then some (
          "DeadlineExceeded: activeDeadlineSeconds ("
          <> show_deadline deadline
          <> "s) exceeded while in state "
          <> status_text r.status)
      else if not (is_state r.status container_running)
          && ltb_ℤ (pos retry_escalation_threshold)
              (now -ℤ unwrap_or_else r.last_transition_time r.created_at)
      then some (
          "StateTimeout: stuck in "
          <> status_text r.status
          <> " for over "
          <> show_ℕ retry_escalation_threshold
          <> "s")
      else none
    else none

-- `then_some`
abbrev pub when : Bool → Status → Option Status
when true next = some next
when false next = none

abbrev event_type_of : Status → EventType
event_type_of target = if is_state target failed then warning else normal

abbrev pub count_if : Bool → ℕ → ℕ
count_if true n = suc n
count_if false n = n

module _ {C V F : Type 0} (ctx : JobContext C V F) where
  open ctx use {system, json}

  abbrev pub advances : M C F Bool → Status → M C F (Option Status)
  advances m next = m >>= λ done. pure (when done next)

  -- the `match` on the status: the status to move to, or `none` to stay
  unfoldable pub handle : Status → JobRow F → Status → M C F (Option Status)
  handle volume_pending r next =
      advances (handle_volume_pending ctx r.id r.namespace r.name r.spec) next
  handle vm_pending r next = advances (handle_vm_pending ctx r.id r.namespace r.name r.spec) next
  handle firewall_applying r next = advances (handle_firewall_applying ctx r.id) next
  handle firewall_verified r next = advances (handle_firewall_verified ctx r.id) next
  handle vm_creating r next = advances (handle_vm_creating ctx r.id) next
  handle volume_attaching r next = advances (handle_volume_attaching ctx r.id) next
  handle container_configuring r next =
      advances (handle_container_configuring ctx r.id r.namespace r.name r.spec) next
  handle container_running r next =
      handle_container_running ctx r.id r.spec r.created_at r.last_transition_time
  handle volume_detaching r next = advances (handle_volume_detaching ctx r.id) next
  handle vm_terminating r next = advances (handle_vm_terminating ctx r.id) next
  handle _ r next = pure (some next)

  -- the UPDATE of the status, and its event
  unfoldable pub transition : JobRow F → Status → ℤ → M C F Bool
  transition r target now = do
    move_to system r.id target now
    record_event system (some r.id) (status_text target)
        ("Transitioned from " <> status_text r.status <> " to " <> status_text target)
        (event_type_of target)
    pure true

  unfoldable pub give_up_on : JobRow F → String → ℤ → M C F Bool
  give_up_on r reason now = do force_failed system r.id reason now; pure true

  unfoldable pub run_handler : JobRow F → Status → ℤ → M C F Bool
  run_handler r next now = do
    target ← handle r.status r next
    let_some target (pure false) (λ t. transition r t now)

  -- the body of the loop: whether the job was advanced
  unfoldable pub advance_job : ℤ → JobRow F → M C F Bool
  advance_job now r = let_some (next_state r.status) (pure false) λ next.
      let_some (overdue (active_deadline_seconds json (parse_spec json r.spec)) r now)
        (run_handler r next now) (λ reason. give_up_on r reason now)

  -- `is_requested` is asked before each job.
  unfoldable pub advance_rows : Call C Bool → ℤ → ℕ → List (JobRow F) → M C F ℕ
  advance_rows is_requested now advanced [] = pure advanced
  advance_rows is_requested now advanced (r ∷ rs) =
      let more = λ (done : Bool). advance_rows is_requested now (count_if done advanced) rs in
      do
        stop ← call is_requested
        if stop then pure advanced else do done ← advance_job now r; more done

  unfoldable pub advance_all_until : Call C Bool → M C F ℕ
  advance_all_until is_requested = do
    rows ← query system live_jobs
    now ← call system.now
    advance_rows is_requested now 0 rows

  -- `Shutdown::never()` is asked, and answers no.
  unfoldable pub advance_all : M C F ℕ
  advance_all = advance_all_until (λ c. (false, c))
