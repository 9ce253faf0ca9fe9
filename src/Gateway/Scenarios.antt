-- ===== src/Gateway/Scenarios.antt =====
-- Rows as the agent reads them, and the theorems of the contract at them.
use Prim.Native.Char.{code}
use viswall.Prelude.{
  true, false, ◌&&◌, ◌≡◌, String, refl, none, some, [], ◌∷◌, map, if◌then◌else◌, str_eq, ◌==◌, leb,
}
use viswall.Prelude.Json.{pos}
use viswall.Prelude.Dict.{get, get_or}
use viswall.Firewall.Routing.{Entry, word, table_id, prefix, mark, to_int, Rule, number}
use viswall.Firewall.Routing
use viswall.Firewall.Routing.Desired.{
  Collected, parse, collect, table_routes, entry_objects, distinct, desired,
}
use viswall.Firewall.Nft.Rules.{FirewallRule, accept, ip}
use viswall.Firewall.Nft.Rules
use viswall.Firewall.Nft.Convert.{conditions, convert_rule_to_nft, ip_family}
use viswall.Firewall.Nft.Rules.{quote, safe_ifname}
use viswall.Firewall.Deploy.Entries.{parse_service_ports, per_port, rules_from_payload}
use viswall.Vpn.Config
use viswall.Vpn.Config.{valid_local_address, valid_endpoint, valid_wg_key, valid_allowed_ips}
use viswall.Gateway.Dispatch.{
  RuleRow, RoutingRow, VpnServer, drop_none, rule_payload, routing_payload, vpn_payload,
}
use viswall.Gateway.Tunnels.{
  validate_wg_key, validate_wg_cidr_list, validate_wg_local_address, validate_wg_endpoint, accepts,
  refused, vpn_apply_request, vpn_apply,
}
use viswall.Gateway.Tunnels.Arrives.{row_model, Arrives, vpn_payload-Arrives}
use viswall.Gateway.Routes.{desired-routing_payload}
use viswall.Gateway.Rows.{port_rule, rules_from_payload-rule_payload}

abbrev numbers : Routing.Python
numbers = record {
  int_of = λ s. if str_eq s "22" then some (pos 22) else none;
  int0_of = λ s. none;
  is_digit = λ s. str_eq s "22";
  network = λ s. some s;
}

abbrev texts : Rules.Python
texts = record {
  lower = λ s. s;
  upper = λ s. s;
  strip = λ s. s;
  is_space = λ c. code c == b' ';
  is_decimal = λ c. leb b'0' (code c) && leb (code c) b'9';
  is_word = λ c. leb b'a' (code c) && leb (code c) b'z';
  int_of = λ s. 22;
  ip_address = λ s. none;
  ip_network = λ s. none;
  ipv4 = λ s. none;
  ipv6 = λ s. none;
}

-- A row that lets the addresses of a range reach port 22.
abbrev row : RuleRow
row = record {
  id = 7;
  name = "office";
  source_type = some "range";
  source_value = some "198.51.100.7-198.51.100.9";
  dest_type = none;
  dest_value = none;
  service_protocol = some "tcp";
  service_ports = some "22";
  action = "accept";
  log_enabled = false;
  order_index = 3;
  limit = none;
  interface_in = none;
  interface_out = none;
}

rules_from_payload-rule_payload_example :
    rules_from_payload numbers texts (rule_payload row)
    ≡ some (
        per_port numbers texts
          (port_rule numbers texts row accept)
          (parse_service_ports numbers texts (some "22")))
rules_from_payload-rule_payload_example =
    rules_from_payload-rule_payload numbers texts row accept refl

office : FirewallRule
office = port_rule numbers texts row accept (some 22)

office_alone : rules_from_payload numbers texts (rule_payload row) ≡ some (office ∷ [])
unfolding rules_from_payload drop_none get_or parse_service_ports to_int office
office_alone = refl

-- The line of the rule has no source.
office_line : convert_rule_to_nft texts office ≡ "        ip protocol tcp tcp dport 22 accept"
unfolding convert_rule_to_nft conditions ip_family office
office_line = refl

-- What comes from 10.1.0.0/16 is to leave by a gateway of its own.
abbrev detour : RoutingRow
detour = record {
  id = 1;
  name = "detour";
  source_network = some "10.1.0.0/16";
  dest_network = none;
  service = none;
  inbound_interface = none;
  gateway = some "192.0.2.1";
  outbound_interface = some "eth1";
  mark = none;
  order_index = 5;
}

abbrev wanted : Collected
wanted = record {
  errors = [];
  rules =
      record {
        priority = pos 5;
        table = number (pos 254);
        source = some "10.1.0.0/16";
        destination = none;
        mark = none;
        interface = Routing.null;
      }
      ∷ [];
  routes = [];
}

asked : desired numbers (map routing_payload (detour ∷ [])) ≡ some wanted
unfolding desired collect parse table_id prefix mark to_int entry_objects table_routes distinct
    get_or drop_none
asked = refl

desired-routing_payload_example : wanted.routes ≡ []
desired-routing_payload_example = desired-routing_payload numbers (detour ∷ []) wanted asked

-- One tunnel; the stand-in library knows one address, one network and the blank at the end of one endpoint.
abbrev library : Config.Python
library = record {
  strip = λ s. if str_eq s "vpn.example.org " then "vpn.example.org" else s;
  is_decimal = λ c. leb b'0' (code c) && leb (code c) b'9';
  int_of = λ s. if str_eq s "51820" then some 51820 else none;
  ip_interface = λ s. str_eq s "10.80.0.2/32";
  ip_network = λ s. str_eq s "10.1.0.0/16";
}

abbrev tunnel : String → VpnServer
tunnel endpoint = record {
  protocol = "wireguard";
  name = "base";
  tunnel_type = some "client";
  local_address = some "10.80.0.2/32";
  private_key = none;
  endpoint = some endpoint;
  peer_public_key = some "AAAAAAAAAAAAAAAAAAAAAAAAAAAAAAAAAAAAAAAAAAA=";
  allowed_ips = some "10.1.0.0/16";
  persistent_keepalive = none;
}

tunnel_accepted : accepts library (tunnel "vpn.example.org:51820") ≡ true
unfolding accepts validate_wg_key validate_wg_cidr_list validate_wg_local_address
    validate_wg_endpoint
tunnel_accepted = refl

vpn_payload-Arrives_example :
    Arrives library
      (row_model (tunnel "vpn.example.org:51820"))
      (vpn_apply library (vpn_payload (tunnel "vpn.example.org:51820" ∷ [])))
vpn_payload-Arrives_example =
    vpn_payload-Arrives library (tunnel "vpn.example.org:51820") [] refl refl tunnel_accepted refl

-- An endpoint with a blank at its end is accepted, and refused by the agent.
padded_accepted : accepts library (tunnel "vpn.example.org ") ≡ true
unfolding accepts validate_wg_key validate_wg_cidr_list validate_wg_local_address
    validate_wg_endpoint
padded_accepted = refl

padded_refused : vpn_apply library (vpn_payload (tunnel "vpn.example.org " ∷ [])) ≡ refused
unfolding vpn_apply vpn_apply_request vpn_payload drop_none valid_local_address valid_endpoint
    valid_wg_key valid_allowed_ips get
padded_refused = refl
