-- ===== src/Provider.antt =====
-- src/providers/mod.rs: the types of the cloud, and the trait `CloudProvider` as an interface: the
-- job pipeline takes an implementation of it as a parameter. The trait's methods for names, prices
-- and plans (`provider_name`, `invoice_issuer_name`, `get_zone_prices`, `list_plans`) are not
-- called by the pipeline and are left out.
use kube_shim.Prelude.{ℕ, Bool, true, false, Option, String, List, str_eq, ◌<>◌, show_ℕ}
use kube_shim.Program.{Result, Call}

pub data ProviderError : Type 0 where
  authentication_failed : String → ProviderError
  not_found : String → ProviderError
  api : ℕ → String → ProviderError
  request : String → ProviderError

-- `to_string()`
unfoldable pub error_text : ProviderError → String
error_text (authentication_failed m) = "authentication failed: " <> m
error_text (not_found m) = "resource not found: " <> m
error_text (api status m) = "provider API error (" <> show_ℕ status <> "): " <> m
error_text (request m) = "request failed: " <> m

pub record CreateVolumeRequest : Type 0 where
  pub size_gb : ℕ
  pub tier : String
  pub title : String
  pub zone : String

pub record Volume : Type 0 where
  pub id : String
  pub size_gb : ℕ
  pub tier : String
  pub title : String
  pub zone : String

pub record CreateServerRequest : Type 0 where
  pub title : String
  pub hostname : String
  pub zone : String
  pub plan : String
  pub template_uuid : String
  pub boot_disk_size_gb : ℕ
  pub boot_disk_tier : String
  pub ssh_public_keys : List String
  pub user_data : String

pub record Server : Type 0 where
  pub id : String
  pub title : String
  pub state : String
  pub public_ipv4 : Option String
  pub public_ipv6 : Option String

abbrev pub is_started : Server → Bool
is_started s = str_eq s.state "started"

abbrev pub is_stopped : Server → Bool
is_stopped s = str_eq s.state "stopped"

pub data FirewallDirection : Type 0 where
  inbound outbound : FirewallDirection

pub data FirewallAction : Type 0 where
  accept drop : FirewallAction

pub data FirewallFamily : Type 0 where
  ipv4 ipv6 : FirewallFamily

pub record FirewallRule : Type 0 where
  pub direction : FirewallDirection
  pub action : FirewallAction
  pub family : FirewallFamily
  pub protocol : Option String
  pub source_address : Option String
  pub source_port_start : Option String
  pub source_port_end : Option String
  pub destination_port_start : Option String
  pub destination_port_end : Option String

abbrev pub is_inbound : FirewallDirection → Bool
is_inbound inbound = true
is_inbound outbound = false

abbrev pub is_outbound : FirewallDirection → Bool
is_outbound inbound = false
is_outbound outbound = true

abbrev pub is_accept : FirewallAction → Bool
is_accept accept = true
is_accept drop = false

-- `C` is the state of the cloud.
pub record CloudProvider (C : Type 0) : Type 0 where
  pub create_volume : CreateVolumeRequest → Call C (Result ProviderError Volume)
  pub delete_volume : String → Call C (Result ProviderError Unit)
  pub list_volumes : String → Call C (Result ProviderError (List Volume))
  pub attach_volume : String → String → Call C (Result ProviderError Unit)
  pub detach_volume : String → String → Call C (Result ProviderError Unit)
  pub create_server : CreateServerRequest → Call C (Result ProviderError Server)
  pub get_server : String → Call C (Result ProviderError Server)
  pub stop_server : String → Call C (Result ProviderError Server)
  pub delete_server : String → Call C (Result ProviderError Unit)
  pub list_servers : String → Call C (Result ProviderError (List Server))
  pub create_firewall_rules : String → List FirewallRule → Call C (Result ProviderError Unit)
  pub list_firewall_rules : String → Call C (Result ProviderError (List FirewallRule))
