-- ===== src/Job/Firewall/Rules.antt =====
-- The rules of the worker's firewall (src/reconcile/job.rs), and how `FirewallVerified` recognises
-- them.
use kube_shim.Prelude.{
  is_text, ℕ, zero, suc, ◌<◌, ◌≡◌, ◌↔◌, refl, Bool, true, false, ◌&&◌, ◌||◌, Option, none, some,
  String, all, any, take, length, arith,
}
use text.Mathlib.TextPositions.{eq_refl}
use kube_shim.Provider.{FirewallRule, is_outbound}
use kube_shim.Job.Firewall.{upcloud_dns_resolvers, base_rules, worker_rules, rules_verified}

-- both ends of a range of ports
abbrev is_port : String → Option String → Option String → Bool
is_port port start end = is_text start port && is_text end port

abbrev is_own_address : Option String → Option String → Bool
is_own_address none source = false
is_own_address (some own_ip) source = is_text source own_ip

-- SSH from the shim's own address
abbrev pub admits_ssh : Option String → FirewallRule → Bool
admits_ssh own_public_ip rule =
    is_own_address own_public_ip rule.source_address
    && is_text rule.protocol "tcp"
    && is_port "22" rule.destination_port_start rule.destination_port_end

-- the answer of a DNS resolver of UpCloud
abbrev pub admits_dns_reply : FirewallRule → Bool
admits_dns_reply rule =
    any (λ resolver. is_text rule.source_address resolver.1) upcloud_dns_resolvers
    && is_port "53" rule.source_port_start rule.source_port_end

abbrev pub permitted : Option String → FirewallRule → Bool
permitted own_public_ip rule =
    is_outbound rule.direction || admits_ssh own_public_ip rule || admits_dns_reply rule

-- Every rule that is requested for a worker is an outbound one, or admits TCP to port 22 from the
-- shim's own public address, if that is known, or packets from port 53 of one of UpCloud's DNS
-- resolvers; no rule lets in anything else.
pub worker_rules-permitted :
    (own_public_ip : Option String)
    → all (permitted own_public_ip) (worker_rules own_public_ip) ≡ true
unfolding worker_rules
worker_rules-permitted none = refl
worker_rules-permitted (some own_ip) = ground (arith, eq_refl own_ip)

-- Where the provider has added the requested rules one after the other and stopped after `n` of
-- them, `FirewallVerified` accepts the list exactly when a rule after those for outbound packets
-- and SSH is there: the DNS replies, requested last, witness the rules before them.
pub rules_verified-take :
    (own_public_ip : Option String) (n : ℕ)
    → (rules_verified (take n (worker_rules own_public_ip)) ≡ true)
      ↔ (length (base_rules own_public_ip) < n)
unfolding rules_verified worker_rules
rules_verified-take none zero = ground arith
rules_verified-take none (suc zero) = ground arith
rules_verified-take none (suc (suc zero)) = ground arith
rules_verified-take none (suc (suc (suc n))) = ground arith
rules_verified-take (some own_ip) zero = ground arith
rules_verified-take (some own_ip) (suc zero) = ground arith
rules_verified-take (some own_ip) (suc (suc zero)) = ground arith
rules_verified-take (some own_ip) (suc (suc (suc zero))) = ground arith
rules_verified-take (some own_ip) (suc (suc (suc (suc n)))) = ground arith
