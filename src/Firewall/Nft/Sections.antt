-- ===== src/Firewall/Nft/Sections.antt =====
-- services/firewall-service/viswall_firewall_agent/nft.py: which rules go to which section of the rule
-- set, and the lines of these sections.
pub mod Order
pub mod Meters
use Prim.Native.Char.{Char, code}
use Prim.Native.String
use Prim.Native.String.{slice, len}
use text.Mathlib.Text.{starts_with}
use viswall.Prelude.{
  ℕ, ◌+◌, ◌-◌, Bool, true, false, not, ◌&&◌, ◌||◌, Option, none, some, List, [], ◌∷◌, ◌++◌, String,
  if◌then◌else◌, str_eq, ◌==◌, leb, truthy, truthy_num, select, map,
}
use viswall.Prelude.Sort.{sort}
use viswall.Prelude.Texts.{concat, joined, decimal, contains, before_slash}
use viswall.Firewall.Nft.Rules.{
  FirewallAction, drop, FirewallRule, Family, ip, ip6, family_text, Python, is_some, or_empty,
  safe_ifname, valid_limit, after, after_all, leading,
}
use viswall.Firewall.Nft.Convert.{convert_rule_to_nft}

-- A port, or a range of ports.
pub data Ports : Type 0 where
  port : ℕ → Ports
  range : (low high : ℕ) → Ports

abbrev pub first_port : Ports → ℕ
first_port (port n) = n
first_port (range low high) = low

abbrev pub ports_text : Ports → String
ports_text (port n) = decimal n
ports_text (range low high) = concat (decimal low ∷ "-" ∷ decimal high ∷ [])

-- `_port_set`
unfoldable pub port_set : List Ports → String
port_set ports = concat ("{" ∷ joined ", " (map ports_text (sort first_port ports)) ∷ "}" ∷ [])

-- The keys of METER_SPECS, with the names and the default rates of the meters.
pub record Meter : Type 0 where
  pub proto : String
  pub port : ℕ
  pub name : String
  pub rate : String

abbrev pub meter_specs : List Meter
meter_specs =
    record { proto = "tcp"; port = 22; name = "ssh_limit"; rate = "10/minute" }
    ∷ record { proto = "tcp"; port = 80; name = "http_limit"; rate = "100/minute" }
    ∷ record { proto = "tcp"; port = 443; name = "https_limit"; rate = "100/minute" }
    ∷ record { proto = "udp"; port = 51820; name = "wireguard_limit"; rate = "20/minute" }
    ∷ []

abbrev pub is_family : Family → Family → Bool
is_family ip ip = true
is_family ip6 ip6 = true
is_family f g = false

abbrev pub equals : Option String → String → Bool
equals none s = false
equals (some t) s = str_eq t s

abbrev pub port_equals : Option ℕ → ℕ → Bool
port_equals none n = false
port_equals (some m) n = m == n

abbrev pub is_drop : FirewallAction → Bool
is_drop drop = true
is_drop action = false

abbrev ends_with : (end whole : String) → Bool
ends_with end whole =
    leb (len end) (len whole) && str_eq (slice whole (len whole - len end) (len whole)) end

-- `" burst " in limit`
unfoldable pub with_burst : String → String
with_burst limit =
    if contains " burst " limit then limit else concat (limit ∷ " burst 5 packets" ∷ [])

module _ (py : Python) where
  abbrev pub in_chain : String → FirewallRule → Bool
  in_chain chain r = str_eq (py.lower r.chain) chain

  abbrev pub lower_of : Option String → Option String
  lower_of none = none
  lower_of (some s) = some (py.lower s)

  abbrev is_v6_row : FirewallRule → Bool
  is_v6_row r = ends_with "_v6" (py.lower r.name)

  abbrev family_of_row : Bool → Family
  family_of_row true = ip6
  family_of_row false = ip

  abbrev pub is_bucket : Meter → Family → FirewallRule → Bool
  is_bucket meter family r =
      in_chain "input" r
      && equals (lower_of (truthy r.protocol)) meter.proto
      && port_equals r.destination_port meter.port
      && is_family (family_of_row (is_v6_row r)) family

  abbrev pub or_limit : Option String → String → String
  or_limit none rest = rest
  or_limit (some s) rest = if valid_limit py s then s else rest

  -- `_meter_rate`
  unfoldable pub meter_rate : List FirewallRule → Meter → Family → String
  meter_rate [] meter family = meter.rate
  meter_rate (r ∷ rules) meter family =
      let rest = meter_rate rules meter family in
      if is_bucket meter family r then or_limit (truthy r.limit) rest else rest

  abbrev is_local : Option String → Bool
  is_local none = false
  is_local (some s) = str_eq (before_slash s) "127.0.0.1"

  -- `_is_loopback_guard`
  unfoldable pub is_loopback_guard : FirewallRule → Bool
  is_loopback_guard r =
      in_chain "input" r
      && is_drop r.action
      && is_local r.destination
      && equals (lower_of (truthy r.protocol)) "tcp"
      && is_some (truthy_num r.destination_port)

  abbrev is_metered : Option String → Option ℕ → List Meter → Bool
  is_metered proto n [] = false
  is_metered proto n (m ∷ meters) =
      if equals proto m.proto && port_equals n m.port then true else is_metered proto n meters

  -- `_is_managed_meter`
  unfoldable pub is_managed_meter : FirewallRule → Bool
  is_managed_meter r =
      in_chain "input" r
      && is_some (truthy r.limit)
      && is_metered (lower_of (truthy r.protocol)) (truthy_num r.destination_port) meter_specs

  -- `_is_anti_spoof`
  unfoldable pub is_anti_spoof : FirewallRule → Bool
  is_anti_spoof r =
      r.anti_spoof
      || contains "anti-spoof" (py.lower r.name)
      || contains "anti-spoof" (py.lower (or_empty r.comment))

  -- `_is_internal_port`
  unfoldable pub is_internal_port : FirewallRule → Bool
  is_internal_port r =
      contains "internal-port" (py.lower r.name)
      || contains "internal-port" (py.lower (or_empty r.comment))

  -- A set of ports, in its order.
  abbrev has_port : ℕ → List ℕ → Bool
  has_port n [] = false
  has_port n (m ∷ ports) = if n == m then true else has_port n ports

  abbrev add_port : Option ℕ → List ℕ → List ℕ
  add_port none ports = ports
  add_port (some n) ports = if has_port n ports then ports else n ∷ ports

  abbrev pub port_values : List FirewallRule → List ℕ
  port_values [] = []
  port_values (r ∷ rules) = add_port r.destination_port (port_values rules)

  -- `_loopback_ports`
  unfoldable pub loopback_ports : List FirewallRule → List ℕ
  loopback_ports rules = sort (λ n. n) (port_values (select is_loopback_guard rules))

  abbrev pub default_internal_ports : List ℕ
  default_internal_ports =
      5000 ∷ 5055 ∷ 5678 ∷ 8000 ∷ 8001 ∷ 8080 ∷ 8089 ∷ 8090 ∷ 8091 ∷ 8096 ∷ 8100 ∷ 8201 ∷ 8502
      ∷ 8888 ∷ 9090 ∷ 10000 ∷ 11434 ∷ []

  abbrev pub or_default : List ℕ → List ℕ
  or_default [] = default_internal_ports
  or_default (n ∷ ports) = n ∷ ports

  abbrev pub guards_port : FirewallRule → Bool
  guards_port r =
      in_chain "forward" r
      && equals (lower_of (truthy r.protocol)) "tcp"
      && is_some (truthy_num r.destination_port)
      && is_internal_port r

  -- `_internal_ports`
  unfoldable pub internal_ports : List FirewallRule → List ℕ
  internal_ports rules = or_default (sort (λ n. n) (port_values (select guards_port rules)))

  -- The rules that have a section of their own.
  abbrev pub is_dedicated : (chain : String) → FirewallRule → Bool
  is_dedicated chain r =
      (str_eq chain "input" && (is_loopback_guard r || is_managed_meter r))
      || (str_eq chain "forward" && (is_anti_spoof r || is_internal_port r))

  abbrev pub is_user_rule : (chain : String) → FirewallRule → Bool
  is_user_rule chain r = in_chain chain r && not (is_dedicated chain r)

  abbrev render_each : (chain : String) → List FirewallRule → List String
  render_each chain [] = []
  render_each chain (r ∷ rules) =
      let rest = render_each chain rules in
      if is_user_rule chain r then convert_rule_to_nft py r ∷ rest else rest

  -- `_user_rules`
  unfoldable pub user_rules : List FirewallRule → (chain : String) → List String
  user_rules rules chain = render_each chain (sort (λ r. r.order) rules)
