-- ===== src/Status/Order.antt =====
-- The order of the states of src/reconcile/job.rs, and the steps that a job may make.
use kube_shim.Prelude.{ℕ, ◌<◌, ◌≡◌, ◌↔◌, true, some, arith}
use kube_shim.Status.{Status, succeeded, failed, next_state, is_pre_completion_state}

-- How far a status has come: `failed` stands beside `succeeded`, before the cleanup.
abbrev pub rank : Status → ℕ
rank Status.created = 0
rank Status.volume_pending = 1
rank Status.volume_creating = 2
rank Status.volume_created = 3
rank Status.vm_pending = 4
rank Status.firewall_applying = 5
rank Status.firewall_verified = 6
rank Status.vm_creating = 7
rank Status.vm_running = 8
rank Status.volume_attaching = 9
rank Status.volume_attached = 10
rank Status.container_configuring = 11
rank Status.container_running = 12
rank Status.succeeded = 13
rank Status.failed = 13
rank Status.volume_detaching = 14
rank Status.volume_deleted = 15
rank Status.vm_terminating = 16
rank Status.archived = 17
rank (Status.other s) = 18

-- One step of a job: to the next state, or from a state before completion to `failed`.
pub data Step : Status → Status → Type 0 where
  forward : {s t : Status} → next_state s ≡ some t → Step s t
  give_up : {s t : Status} → is_pre_completion_state s ≡ true → t ≡ failed → Step s t

next_state-rank : (s t : Status) → next_state s ≡ some t → rank s < rank t
unfolding next_state
next_state-rank (Status.other x) t h = ground arith
next_state-rank Status.created t h = ground arith
next_state-rank _ t h = ground arith

-- A state is before completion exactly when it stands below `succeeded` in the order.
pub is_pre_completion_state_lem :
    (s : Status) → (is_pre_completion_state s ≡ true) ↔ (rank s < rank succeeded)
unfolding is_pre_completion_state
is_pre_completion_state_lem (Status.other x) = ground arith
is_pre_completion_state_lem Status.created = ground arith
is_pre_completion_state_lem _ = ground arith

-- Every step of the state machine leads to a state of higher rank: `Failed` stands beside `Succeeded`,
-- and each other state stands above the one before it.
pub rank-Step : {s t : Status} → Step s t → rank s < rank t
rank-Step {s} {t} (forward e) = next_state-rank s t e
rank-Step {s} {t} (give_up p e) = ground (arith, (is_pre_completion_state_lem s).0 p)
