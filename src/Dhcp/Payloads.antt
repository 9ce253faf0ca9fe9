-- ===== src/Dhcp/Payloads.antt =====
-- services/dhcp-service/dhcp_agent.py: the payload of an apply, without the fields that nothing reads, and the
-- values in the documents of Kea.
use viswall.Prelude.{ℕ, Bool, true, false, ◌&&◌, Option, List, [], ◌∷◌, String, str_eq}
use viswall.Prelude.Json.{ℤ, Value, str}

pub record DhcpOption : Type 0 where
  pub option_code : ℤ
  pub option_name : String
  pub option_value : String
  pub type : String

pub record Reservation : Type 0 where
  pub hostname : Option String
  pub ip_address : String
  pub hw_address : String
  pub type : String
  pub enabled : Bool

pub record Pool : Type 0 where
  pub start_address : String
  pub end_address : String
  pub type : String
  pub enabled : Bool

pub record Subnet : Type 0 where
  pub id : ℤ
  pub subnet : String
  pub type : String
  pub interface : Option String
  pub relay_addresses : List String
  pub domain_name : Option String
  pub dns_servers : List String
  pub ntp_servers : List String
  pub routers : List String
  pub lease_time_default : ℤ
  pub lease_time_max : ℤ
  pub lease_time_min : ℤ
  pub delegated_prefix_length : Option ℤ
  pub enabled : Bool
  pub pools : List Pool
  pub reservations : List Reservation
  pub options : List DhcpOption

pub record ServerConfig : Type 0 where
  pub name : String
  pub kea_ctrl_agent_address : String
  pub kea_ctrl_agent_port : ℤ
  pub ha_enabled : Bool
  pub ha_mode : String
  pub ha_peer_address : Option String
  pub dhcpv4_enabled : Bool
  pub dhcpv6_enabled : Bool
  pub subnets : List Subnet

-- What `ipaddress.ip_network` gives: a network of version 4 or of version 6.
pub record Network : Type 0 where
  pub is_version_6 : Bool
  pub network_address : String
  pub prefixlen : ℕ

-- Whether an entry is of the family "v4" or "v6".
abbrev pub of_family : (family type : String) → Bool
of_family family type = str_eq type family

abbrev pub is_pool : String → Pool → Bool
is_pool family p = p.enabled && of_family family p.type

abbrev pub is_reservation : String → Reservation → Bool
is_reservation family r = r.enabled && of_family family r.type

abbrev pub is_option : String → DhcpOption → Bool
is_option family o = of_family family o.type

abbrev pub is_subnet : String → Subnet → Bool
is_subnet family s = s.enabled && of_family family s.type

abbrev pub is_empty {ℓ} : {A : Type ℓ} → List A → Bool
is_empty [] = true
is_empty (x ∷ xs) = false

abbrev pub texts : List String → List Value
texts [] = []
texts (s ∷ ss) = str s ∷ texts ss
