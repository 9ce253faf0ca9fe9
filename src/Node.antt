-- ===== src/Node.antt =====
-- services/node-agent/viswall_node_agent/netcfg.py and payloads.py: the data of the host's interfaces.
pub mod Plan
pub mod Guard
pub mod Netplan
pub mod Apply
pub mod Snapshots
mod Scenarios
pub use viswall.Prelude.Texts.{concat, decimal, decimal_or_none, contains}
use viswall.Prelude.{
  ℕ, zero, suc, ◌+◌, ◌/◌, ◌%◌, Bool, true, false, Option, none, some, List, [], ◌∷◌, String,
  if◌then◌else◌, ltb, truthy, ◌==◌,
}

pub record LiveAddress : Type 0 where
  pub address : String
  pub prefixlen : ℕ
  pub family : String

pub record LiveInterface : Type 0 where
  pub name : String
  pub operstate : String
  pub up : Bool
  pub mtu : Option ℕ
  pub mac : Option String
  pub addresses : List LiveAddress
  pub has_default_route : Bool

pub record RouteConfig : Type 0 where
  pub to : String
  pub via : Option String
  pub on_link : Bool

pub record InterfaceConfig : Type 0 where
  pub name : String
  pub config_type : String
  pub ip_address : Option String
  pub netmask : Option String
  pub gateway : Option String
  pub ipv6_address : Option String
  pub ipv6_gateway : Option String
  pub dns_servers : List String
  pub routes : List RouteConfig
  pub mtu : Option ℕ
  pub enabled : Bool

-- `ipaddress.IPv4Network(f"0.0.0.0/{netmask}").prefixlen`, of a netmask that was validated
abbrev pub PrefixOf : Type 0
PrefixOf = String → ℕ

abbrev pub prefixlen : PrefixOf → InterfaceConfig → Option ℕ
prefixlen prefix_of cfg = elim (truthy cfg.netmask) [ none ↦ none | some m ↦ some (prefix_of m) ]

pub data StepAction : Type 0 where
  address stale_address gateway mtu link note : StepAction

pub record PlannedStep : Type 0 where
  pub interface : String
  pub action : StepAction
  pub detail : String
  pub argv : List String
