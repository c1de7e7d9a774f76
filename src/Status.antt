-- ===== src/Status.antt =====
-- The states of a job run: STATE_SEQUENCE, next_state and is_pre_completion_state of
-- src/reconcile/job.rs. The column `jobs.status` is a text; here a status is one of the pipeline's
-- names, `failed`, or `other` for a text that the pipeline does not know.
pub mod Order
use kube_shim.Prelude.{
  ℕ, suc, ◌+◌, Bool, true, false, Option, none, some, String, List, [], ◌∷◌, ltb, ◌==◌, get_elem?,
  position,
}

pub data Status : Type 0 where
  created volume_pending volume_creating volume_created vm_pending firewall_applying : Status
  firewall_verified vm_creating vm_running volume_attaching volume_attached : Status
  container_configuring container_running succeeded volume_detaching volume_deleted : Status
  vm_terminating archived : Status
  failed : Status
  other : String → Status

abbrev pub state_sequence : List Status
state_sequence =
    created ∷ volume_pending ∷ volume_creating ∷ volume_created ∷ vm_pending ∷ firewall_applying
    ∷ firewall_verified ∷ vm_creating ∷ vm_running ∷ volume_attaching ∷ volume_attached
    ∷ container_configuring ∷ container_running ∷ succeeded ∷ volume_detaching ∷ volume_deleted
    ∷ vm_terminating ∷ archived ∷ []

abbrev pub terminal_state : Status
terminal_state = archived

-- the text of the column
unfoldable pub status_text : Status → String
status_text created = "Created"
status_text volume_pending = "VolumePending"
status_text volume_creating = "VolumeCreating"
status_text volume_created = "VolumeCreated"
status_text vm_pending = "VMPending"
status_text firewall_applying = "FirewallApplying"
status_text firewall_verified = "FirewallVerified"
status_text vm_creating = "VMCreating"
status_text vm_running = "VMRunning"
status_text volume_attaching = "VolumeAttaching"
status_text volume_attached = "VolumeAttached"
status_text container_configuring = "ContainerConfiguring"
status_text container_running = "ContainerRunning"
status_text succeeded = "Succeeded"
status_text volume_detaching = "VolumeDetaching"
status_text volume_deleted = "VolumeDeleted"
status_text vm_terminating = "VMTerminating"
status_text archived = "Archived"
status_text failed = "Failed"
status_text (other s) = s

-- Equality of statuses is that of a number for each name; all unknown texts share one, which is
-- compared only with the names of the pipeline.
abbrev pub ordinal : Status → ℕ
ordinal created = 0
ordinal volume_pending = 1
ordinal volume_creating = 2
ordinal volume_created = 3
ordinal vm_pending = 4
ordinal firewall_applying = 5
ordinal firewall_verified = 6
ordinal vm_creating = 7
ordinal vm_running = 8
ordinal volume_attaching = 9
ordinal volume_attached = 10
ordinal container_configuring = 11
ordinal container_running = 12
ordinal succeeded = 13
ordinal volume_detaching = 14
ordinal volume_deleted = 15
ordinal vm_terminating = 16
ordinal archived = 17
ordinal failed = 18
ordinal (other s) = 19

abbrev pub is_state : Status → Status → Bool
is_state a b = ordinal a == ordinal b

after_position : Option ℕ → Option Status
after_position none = none
after_position (some index) = get_elem? state_sequence (suc index)

unfoldable pub next_state : Status → Option Status
unfolding after_position
next_state failed = some volume_detaching
next_state current = after_position (position (λ s. is_state s current) state_sequence)

before_succeeded : Option ℕ → Option ℕ → Bool
before_succeeded (some succeeded_index) (some index) = ltb index succeeded_index
before_succeeded _ none = false
before_succeeded none (some index) = false

unfoldable pub is_pre_completion_state : Status → Bool
unfolding before_succeeded
is_pre_completion_state status =
    before_succeeded (position (λ s. is_state s succeeded) state_sequence)
      (position (λ s. is_state s status) state_sequence)
