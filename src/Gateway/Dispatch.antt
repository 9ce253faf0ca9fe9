-- ===== src/Gateway/Dispatch.antt =====
-- services/api-gateway/utils/firewall_dispatch.py: the payloads for the firewall agent and the VPN agent,
-- from the rows of the database. A column that may be NULL is optional.
use viswall.Prelude.{
  ℕ, Bool, true, false, ◌||◌, Option, none, some, List, [], ◌∷◌, String, if◌then◌else◌, str_eq,
}
use viswall.Prelude.Json.{ℤ, pos}
use viswall.Firewall.Routing.{Scalar, null, flag, int, word, Entry}

-- The rows of the tables of shared/models.py, without the columns that are not sent.
pub record RuleRow : Type 0 where
  pub id : ℕ
  pub name : String
  pub source_type : Option String
  pub source_value : Option String
  pub dest_type : Option String
  pub dest_value : Option String
  pub service_protocol : Option String
  pub service_ports : Option String
  pub action : String
  pub log_enabled : Bool
  pub order_index : ℕ
  pub limit : Option String
  pub interface_in : Option String
  pub interface_out : Option String

pub record NatRow : Type 0 where
  pub id : ℕ
  pub name : String
  pub type : String
  pub interface : Option String
  pub source_network : Option String
  pub dest_network : Option String
  pub to_source : Option String
  pub to_destination : Option String
  pub service_protocol : Option String
  pub service_ports : Option String
  pub order_index : ℕ

pub record RoutingRow : Type 0 where
  pub id : ℕ
  pub name : String
  pub source_network : Option String
  pub dest_network : Option String
  pub service : Option String
  pub inbound_interface : Option String
  pub gateway : Option String
  pub outbound_interface : Option String
  pub mark : Option ℤ
  pub order_index : ℕ

pub record VpnServer : Type 0 where
  pub protocol : String
  pub name : String
  pub tunnel_type : Option String
  pub local_address : Option String
  pub private_key : Option String
  pub endpoint : Option String
  pub peer_public_key : Option String
  pub allowed_ips : Option String
  pub persistent_keepalive : Option ℤ

abbrev pub text : Option String → Scalar
text none = null
text (some s) = word s

abbrev pub number : Option ℤ → Scalar
number none = null
number (some n) = int n

abbrev pub is_none : Scalar → Bool
is_none null = true
is_none v = false

-- `_drop_none`
unfoldable pub drop_none : Entry → Entry
drop_none [] = []
drop_none ((key, v) ∷ fields) =
    let rest = drop_none fields in if is_none v then rest else (key, v) ∷ rest

abbrev pub rule_fields : RuleRow → Entry
rule_fields r =
    ("id", int (pos r.id))
    ∷ ("name", word r.name)
    ∷ ("source_type", text r.source_type)
    ∷ ("source_value", text r.source_value)
    ∷ ("dest_type", text r.dest_type)
    ∷ ("dest_value", text r.dest_value)
    ∷ ("service_protocol", text r.service_protocol)
    ∷ ("service_ports", text r.service_ports)
    ∷ ("action", word r.action)
    ∷ ("log_enabled", flag r.log_enabled)
    ∷ ("order_index", int (pos r.order_index))
    ∷ ("limit", text r.limit)
    ∷ ("interface_in", text r.interface_in)
    ∷ ("interface_out", text r.interface_out)
    ∷ []

-- `_rule_payload`, `_nat_payload` and `_routing_payload`
abbrev pub rule_payload : RuleRow → Entry
rule_payload r = drop_none (rule_fields r)

abbrev pub nat_payload : NatRow → Entry
nat_payload n = drop_none (
    ("id", int (pos n.id))
    ∷ ("name", word n.name)
    ∷ ("type", word n.type)
    ∷ ("interface", text n.interface)
    ∷ ("source_network", text n.source_network)
    ∷ ("dest_network", text n.dest_network)
    ∷ ("to_source", text n.to_source)
    ∷ ("to_destination", text n.to_destination)
    ∷ ("service_protocol", text n.service_protocol)
    ∷ ("service_ports", text n.service_ports)
    ∷ ("order_index", int (pos n.order_index))
    ∷ [])

abbrev pub routing_fields : RoutingRow → Entry
routing_fields r =
    ("id", int (pos r.id))
    ∷ ("name", word r.name)
    ∷ ("source_network", text r.source_network)
    ∷ ("dest_network", text r.dest_network)
    ∷ ("service", text r.service)
    ∷ ("inbound_interface", text r.inbound_interface)
    ∷ ("gateway", text r.gateway)
    ∷ ("outbound_interface", text r.outbound_interface)
    ∷ ("mark", number r.mark)
    ∷ ("order_index", int (pos r.order_index))
    ∷ []

abbrev pub routing_payload : RoutingRow → Entry
routing_payload r = drop_none (routing_fields r)

abbrev pub is_tunnel : Option String → Bool
is_tunnel none = false
is_tunnel (some s) = str_eq s "client" || str_eq s "site-to-site"

abbrev pub tunnel_fields : VpnServer → Entry
tunnel_fields s =
    ("protocol", word s.protocol)
    ∷ ("name", word s.name)
    ∷ ("address", text s.local_address)
    ∷ ("private_key", text s.private_key)
    ∷ ("endpoint", text s.endpoint)
    ∷ ("peer_public_key", text s.peer_public_key)
    ∷ ("allowed_ips", text s.allowed_ips)
    ∷ ("persistent_keepalive", number s.persistent_keepalive)
    ∷ []

-- `build_instance_vpn_payload`, on the enabled servers of the instance by their ids
unfoldable pub vpn_payload : List VpnServer → Entry
vpn_payload [] = []
vpn_payload (s ∷ servers) =
    let rest = vpn_payload servers in
    if is_tunnel s.tunnel_type then drop_none (tunnel_fields s) else rest

-- Whether no key occurs twice.
abbrev pub has_key : String → Entry → Bool
has_key k [] = false
has_key k ((j, v) ∷ fields) = if str_eq j k then true else has_key k fields

abbrev pub keys_differ : Entry → Bool
keys_differ [] = true
keys_differ ((k, v) ∷ fields) = if has_key k fields then false else keys_differ fields
