-- ===== src/Node/Netplan.antt =====
-- services/node-agent/viswall_node_agent/netcfg.py: `render_netplan`, as the list of its lines.
use viswall.Prelude.Sort.{sort_by_name}
use viswall.Prelude.{
  Bool, true, false, ◌&&◌, ◌||◌, Option, none, some, List, [], ◌∷◌, ◌++◌, map, String,
  if◌then◌else◌, str_eq, truthy,
}
use viswall.Node.{InterfaceConfig, RouteConfig, PrefixOf, prefixlen, concat, decimal, contains}
use viswall.Node.Plan.{is_static}

abbrev pub yaml_scalar : String → String
yaml_scalar value = if contains ":" value then concat ("\"" ∷ value ∷ "\"" ∷ []) else value

abbrev pub via_line : Option String → List String
via_line none = []
via_line (some via) = concat ("  via: " ∷ via ∷ []) ∷ []

abbrev pub route_lines : (to : String) (via : Option String) (on_link : Bool) → List String
route_lines to via on_link =
    (concat ("- to: " ∷ yaml_scalar to ∷ []) ∷ [])
    ++ (via_line (truthy via) ++ (if on_link then "  on-link: true" ∷ [] else []))

abbrev comma_join : List String → String
comma_join [] = ""
comma_join (x ∷ []) = x
comma_join (x ∷ y ∷ xs) = concat (x ∷ ", " ∷ comma_join (y ∷ xs) ∷ [])

abbrev quoted : List String → String
quoted xs = comma_join (map (λ x. concat ("\"" ∷ x ∷ "\"" ∷ [])) xs)

abbrev is_some : Option String → Bool
is_some none = false
is_some (some s) = true

abbrev pub managed_static : InterfaceConfig → Bool
managed_static cfg =
    cfg.enabled
    && is_static cfg
    && (is_some (truthy cfg.ip_address) || is_some (truthy cfg.ipv6_address))

-- The rendered value of an optional text, where it is true.
abbrev each : Option String → (String → List String) → List String
each none f = []
each (some s) f = f s

abbrev ipv4_of : PrefixOf → InterfaceConfig → List String
ipv4_of prefix_of cfg = each (truthy cfg.ip_address) λ ip. elim (prefixlen prefix_of cfg) [
  | none ↦ []
  | some p ↦ concat (ip ∷ "/" ∷ decimal p ∷ []) ∷ []
]

unfoldable pub address_entries : PrefixOf → InterfaceConfig → List String
address_entries prefix_of cfg =
    if managed_static cfg
    then ipv4_of prefix_of cfg ++ each (truthy cfg.ipv6_address) (λ a. a ∷ [])
    else []

abbrev extra_routes : List RouteConfig → List String
extra_routes [] = []
extra_routes (r ∷ rs) = route_lines r.to r.via r.on_link ++ extra_routes rs

unfoldable pub route_entries : InterfaceConfig → List String
route_entries cfg =
    (if managed_static cfg
      then each (truthy cfg.gateway) (λ g. route_lines "default" (some g) false)
        ++ each (truthy cfg.ipv6_gateway) (λ g. route_lines "::/0" (some g) false)
      else [])
    ++ extra_routes cfg.routes

abbrev addresses_line : List String → List String
addresses_line [] = []
addresses_line (a ∷ rest) = concat ("      addresses: [" ∷ quoted (a ∷ rest) ∷ "]" ∷ []) ∷ []

abbrev routes_section : List String → List String
routes_section [] = []
routes_section (e ∷ es) = "      routes:" ∷ map (λ l. concat ("        " ∷ l ∷ [])) (e ∷ es)

abbrev dns_line : List String → List String
dns_line [] = []
dns_line (d ∷ ds) = concat ("      nameservers: {addresses: [" ∷ quoted (d ∷ ds) ∷ "]}" ∷ []) ∷ []

-- The lines of one interface.
unfoldable pub interface_lines : PrefixOf → InterfaceConfig → List String
interface_lines prefix_of cfg =
    concat ("    " ∷ cfg.name ∷ ":" ∷ [])
    ∷ (if cfg.enabled && str_eq cfg.config_type "dhcp"
        then "      dhcp4: true"
        else "      dhcp4: false")
    ∷ (addresses_line (address_entries prefix_of cfg)
        ++ (routes_section (route_entries cfg)
            ++ (dns_line cfg.dns_servers
                ++ ((if cfg.enabled then [] else "      optional: true" ∷ []) ++ elim cfg.mtu [
                  | none ↦ []
                  | some n ↦ concat ("      mtu: " ∷ decimal n ∷ []) ∷ []
                ]))))

unfoldable pub interfaces_lines : PrefixOf → List InterfaceConfig → List String
interfaces_lines prefix_of [] = []
interfaces_lines prefix_of (c ∷ cs) = interface_lines prefix_of c ++ interfaces_lines prefix_of cs

-- Each line ends with a line break.
abbrev unlines : List String → String
unlines [] = ""
unlines (l ∷ ls) = concat (l ∷ "\n" ∷ unlines ls ∷ [])

unfoldable pub render_netplan : PrefixOf → List InterfaceConfig → String
render_netplan prefix_of interfaces = unlines (
    "network:"
    ∷ "  version: 2"
    ∷ "  ethernets:"
    ∷ interfaces_lines prefix_of (sort_by_name (λ c. c.name) interfaces))
