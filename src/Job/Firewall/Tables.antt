-- ===== src/Job/Firewall/Tables.antt =====
-- The handlers of the firewall states: what they leave alone in the tables.
use kube_shim.Prelude.{String}
use kube_shim.Db.{Db}
use kube_shim.Db.Quiet.{Quiet}
use kube_shim.Program.Keeps.{Keeps, OnDb}
use kube_shim.Context.{JobContext}
use kube_shim.Job.Records.Tables.{record_rules}
use kube_shim.Job.Volumes.Tables.{Keeps-attempt_failed}
use kube_shim.Job.Firewall.{
  apply_rules, handle_firewall_applying, check_rules, handle_firewall_verified,
}

module _ {C V F : Type 0} (ctx : JobContext C V F) {id : String} {Q : Db F → Type 0}
    (quiet : Quiet id Q) where
  Keeps-apply_rules : (vm_id : String) → Keeps (OnDb Q) (apply_rules ctx id vm_id)
  unfolding apply_rules
  Keeps-apply_rules vm_id = search (record_rules, Keeps-attempt_failed)

  pub Keeps-handle_firewall_applying : Keeps (OnDb Q) (handle_firewall_applying ctx id)
  unfolding handle_firewall_applying
  Keeps-handle_firewall_applying = search (record_rules, Keeps-apply_rules)

  pub Keeps-handle_firewall_verified : Keeps (OnDb Q) (handle_firewall_verified ctx id)
  unfolding handle_firewall_verified check_rules
  Keeps-handle_firewall_verified = search record_rules depth 7
