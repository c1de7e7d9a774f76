-- ===== src/Job/Firewall.antt =====
-- src/reconcile/job.rs: the firewall of the worker VM, `FirewallApplying` and `FirewallVerified`.
pub mod Tables
pub mod Rules
use kube_shim.Prelude.{
  is_text, Bool, true, false, Option, none, some, String, List, [], ◌∷◌, ◌++◌, ◌&&◌, any, str_eq,
  if◌then◌else◌,
}
use kube_shim.Program.{M, pure, call, ◌>>=◌, ◌>>◌, let_some, on_result}
use kube_shim.Provider.{
  error_text, FirewallRule, FirewallFamily, inbound, outbound, accept, ipv4, ipv6, is_inbound,
  is_outbound, is_accept,
}
use kube_shim.Context.{JobContext}
use kube_shim.Job.Records.{worker_vm_id}
use kube_shim.Job.Volumes.{attempt_failed}

abbrev pub upcloud_dns_resolvers : List (FirewallFamily × String)
upcloud_dns_resolvers =
    (ipv4, "94.237.127.9")
    ∷ (ipv4, "94.237.40.9")
    ∷ (ipv6, "2a04:3540:53::1")
    ∷ (ipv6, "2a04:3544:53::1")
    ∷ []

abbrev dns_reply_rule : FirewallFamily → String → String → FirewallRule
dns_reply_rule family address protocol = record {
  direction = inbound;
  action = accept;
  family = family;
  protocol = some protocol;
  source_address = some address;
  source_port_start = some "53";
  source_port_end = some "53";
  destination_port_start = none;
  destination_port_end = none;
}

dns_reply_rules_for : List (FirewallFamily × String) → List FirewallRule
dns_reply_rules_for [] = []
dns_reply_rules_for ((family, address) ∷ rest) =
    dns_reply_rule family address "udp"
    ∷ dns_reply_rule family address "tcp"
    ∷ dns_reply_rules_for rest

unfoldable pub dns_reply_rules : List FirewallRule
unfolding dns_reply_rules_for
dns_reply_rules = dns_reply_rules_for upcloud_dns_resolvers

unfoldable pub is_dns_reply_rule : FirewallRule → Bool
is_dns_reply_rule rule =
    is_inbound rule.direction && is_accept rule.action && is_text rule.source_port_start "53"

abbrev outbound_rule : FirewallFamily → FirewallRule
outbound_rule family = record {
  direction = outbound;
  action = accept;
  family = family;
  protocol = none;
  source_address = none;
  source_port_start = none;
  source_port_end = none;
  destination_port_start = none;
  destination_port_end = none;
}

abbrev ssh_rule : String → FirewallRule
ssh_rule own_ip = record {
  direction = inbound;
  action = accept;
  family = ipv4;
  protocol = some "tcp";
  source_address = some own_ip;
  source_port_start = none;
  source_port_end = none;
  destination_port_start = some "22";
  destination_port_end = some "22";
}

abbrev ssh_rules : Option String → List FirewallRule
ssh_rules none = []
ssh_rules (some own_ip) = ssh_rule own_ip ∷ []

-- the rules before those for DNS replies
unfoldable pub base_rules : Option String → List FirewallRule
base_rules own_public_ip = outbound_rule ipv4 ∷ outbound_rule ipv6 ∷ ssh_rules own_public_ip

-- the rules that `FirewallApplying` requests, DNS replies last
unfoldable pub worker_rules : Option String → List FirewallRule
unfolding base_rules dns_reply_rules
worker_rules own_public_ip = base_rules own_public_ip ++ dns_reply_rules

-- what `FirewallVerified` looks for among the rules that the provider lists
unfoldable pub rules_verified : List FirewallRule → Bool
unfolding is_dns_reply_rule
rules_verified rules =
    any (λ r. is_outbound r.direction && is_accept r.action) rules && any is_dns_reply_rule rules

module _ {C V F : Type 0} (ctx : JobContext C V F) where
  open ctx use {provider, system, dry_run, own_public_ip}

  apply_rules : String → String → M C F Bool
  apply_rules job_id vm_id = do
    applied ← call (provider.create_firewall_rules vm_id (worker_rules own_public_ip))
    on_result applied (λ _. pure true) (λ e. attempt_failed ctx job_id (error_text e))

  unfoldable pub handle_firewall_applying : String → M C F Bool
  unfolding apply_rules
  handle_firewall_applying job_id = do
    vm ← worker_vm_id system job_id
    let_some vm (pure true) (λ vm_id. if dry_run then pure true else apply_rules job_id vm_id)

  check_rules : String → M C F Bool
  check_rules vm_id = do
    listed ← call (provider.list_firewall_rules vm_id)
    on_result listed (λ rules. pure (rules_verified rules)) (λ _. pure false)

  unfoldable pub handle_firewall_verified : String → M C F Bool
  unfolding check_rules
  handle_firewall_verified job_id = do
    vm ← worker_vm_id system job_id
    let_some vm (pure true) (λ vm_id. if dry_run then pure true else check_rules vm_id)
