-- ===== src/Dhcp/Render.antt =====
-- services/dhcp-service/dhcp_agent.py: the documents of the two Kea servers.
pub mod Families
use viswall.Prelude.{
  ℕ, Bool, true, false, not, ◌&&◌, ◌||◌, Option, none, some, List, [], ◌∷◌, ◌++◌, String, map,
  if◌then◌else◌, ltb, str_eq, truthy, select, ◌>>=◌,
}
use viswall.Prelude.Json.{ℤ, pos, negsuc, Value, str, int, bool, object, array}
use viswall.Prelude.Texts.{concat, joined, decimal_int, text_le}
use viswall.Dhcp.Payloads.{
  DhcpOption, Reservation, Pool, Subnet, ServerConfig, Network, of_family, is_pool, is_reservation,
  is_option, is_subnet, is_empty, texts,
}

abbrev pub Entries : Type 0
Entries = List (String × Value)

abbrev pub pool_range : Pool → Value
pool_range p = str (concat (p.start_address ∷ " - " ∷ p.end_address ∷ []))

abbrev joined_option : (name : String) → List String → List Value
joined_option name [] = []
joined_option name (s ∷ ss) =
    object (("name", str name) ∷ ("data", str (joined ", " (s ∷ ss))) ∷ []) ∷ []

abbrev domain_option : (name : String) → Option String → List Value
domain_option name none = []
domain_option name (some domain) = object (("name", str name) ∷ ("data", str domain) ∷ []) ∷ []

abbrev own_option : DhcpOption → Value
own_option o =
    object (
      ("name", str o.option_name) ∷ ("code", int o.option_code) ∷ ("data", str o.option_value) ∷ [])

unfoldable pub build_option_data_v4 : Subnet → List Value
build_option_data_v4 s =
    joined_option "routers" s.routers
    ++ (joined_option "domain-name-servers" s.dns_servers
        ++ (domain_option "domain-name" (truthy s.domain_name)
            ++ (joined_option "ntp-servers" s.ntp_servers
                ++ map own_option (select (is_option "v4") s.options))))

unfoldable pub build_option_data_v6 : Subnet → List Value
build_option_data_v6 s =
    joined_option "dns-servers" s.dns_servers
    ++ (domain_option "domain-search" (truthy s.domain_name)
        ++ (joined_option "sntp-servers" s.ntp_servers
            ++ map own_option (select (is_option "v6") s.options)))

abbrev host_name : Option String → Entries
host_name none = []
host_name (some name) = ("hostname", str name) ∷ []

abbrev reservation_v4 : Reservation → Value
reservation_v4 r = object (
    ("hw-address", str r.hw_address)
    ∷ ("ip-address", str r.ip_address)
    ∷ host_name (truthy r.hostname))

abbrev reservation_v6 : Reservation → Value
reservation_v6 r = object (
    ("duid", str r.hw_address)
    ∷ ("ip-addresses", array (str r.ip_address ∷ []))
    ∷ host_name (truthy r.hostname))

unfoldable pub build_reservations_v4 : Subnet → List Value
build_reservations_v4 s = map reservation_v4 (select (is_reservation "v4") s.reservations)

unfoldable pub build_reservations_v6 : Subnet → List Value
build_reservations_v6 s = map reservation_v6 (select (is_reservation "v6") s.reservations)

abbrev pool_entry : Pool → Value
pool_entry p = object (("pool", pool_range p) ∷ [])

-- The pools of one family.
unfoldable pub pools_of : String → Subnet → List Value
pools_of family s = map pool_entry (select (is_pool family) s.pools)

abbrev relay : List String → Entries
relay [] = []
relay (a ∷ as') = ("relay", object (("ip-addresses", array (texts (a ∷ as'))) ∷ [])) ∷ []

abbrev interface_entry : Option String → Entries
interface_entry none = []
interface_entry (some name) = ("interface", str name) ∷ []

unfoldable pub build_subnet4 : Subnet → Value
build_subnet4 s = object (
    ("id", int s.id)
    ∷ ("subnet", str s.subnet)
    ∷ ("valid-lifetime", int s.lease_time_default)
    ∷ ("min-valid-lifetime", int s.lease_time_min)
    ∷ ("max-valid-lifetime", int s.lease_time_max)
    ∷ ("option-data", array (build_option_data_v4 s))
    ∷ ("pools", array (pools_of "v4" s))
    ∷ ("reservations", array (build_reservations_v4 s))
    ∷ (relay s.relay_addresses ++ interface_entry (truthy s.interface)))

abbrev less_than : ℤ → ℕ → Bool
less_than (pos n) m = ltb n m
less_than (negsuc n) m = true

abbrev pd_pool : ℤ → Network → List Value
pd_pool length net =
    if not net.is_version_6 || less_than length net.prefixlen
    then []
    else object (
        ("prefix", str net.network_address)
        ∷ ("prefix-len", int (pos net.prefixlen))
        ∷ ("delegated-len", int length)
        ∷ [])
      ∷ []

abbrev pd_pools_entry : List Value → Entries
pd_pools_entry [] = []
pd_pools_entry (v ∷ vs) = ("pd-pools", array (v ∷ vs)) ∷ []

-- `sorted({...})`: without repetitions, in ascending order.
unfoldable pub add_name : String → List String → List String
add_name n [] = n ∷ []
add_name n (m ∷ ms) =
    let rest = add_name n ms in
    if str_eq n m then m ∷ ms else if text_le n m then n ∷ m ∷ ms else m ∷ rest

abbrev pub with_interface : Option String → List String → List String
with_interface none names = names
with_interface (some name) names = add_name name names

-- The interfaces of the subnets of one family, whether enabled or not.
unfoldable pub interface_names : String → List Subnet → List String
interface_names family [] = []
interface_names family (s ∷ ss) =
    let rest = interface_names family ss in
    if of_family family s.type then with_interface (truthy s.interface) rest else rest

abbrev or_any : List String → List Value
or_any [] = str "*" ∷ []
or_any (n ∷ ns) = texts (n ∷ ns)

abbrev peer_url : String → ℤ → Value
peer_url address port = str (concat ("http://" ∷ address ∷ ":" ∷ decimal_int port ∷ "/" ∷ []))

abbrev peer_entry : (name : String) (url : Value) (role : String) → Value
peer_entry name url role = object (("name", str name) ∷ ("url", url) ∷ ("role", str role) ∷ [])

abbrev ha_entry : ServerConfig → (peer : String) → Value
ha_entry c peer = object (
    ("this-server-name", str c.name)
    ∷ ("mode", str c.ha_mode)
    ∷ ("heartbeat-delay", int (pos 10000))
    ∷ ("max-response-delay", int (pos 60000))
    ∷ ("max-ack-delay", int (pos 5000))
    ∷ (
      "peers",
      array (
          peer_entry c.name (peer_url c.kea_ctrl_agent_address c.kea_ctrl_agent_port) "primary"
          ∷ peer_entry (concat (c.name ∷ "-peer" ∷ [])) (peer_url peer c.kea_ctrl_agent_port)
              "standby"
          ∷ []),
    )
    ∷ [])

abbrev ha_hook : ServerConfig → Option String → List Value
ha_hook c none = []
ha_hook c (some peer) =
    object (
      ("name", str "high-availability")
      ∷ ("library", str "/usr/lib/x86_64-linux-gnu/kea/hooks/libdhcp_ha.so")
      ∷ ("parameters", object (("high-availability", array (ha_entry c peer ∷ [])) ∷ []))
      ∷ [])
    ∷ []

unfoldable pub ha_parameters : ServerConfig → List Value
ha_parameters c = if c.ha_enabled then ha_hook c (truthy c.ha_peer_address) else []

abbrev loggers : (name : String) → Value
loggers name = array (
    object (
      ("name", str name)
      ∷ ("severity", str "INFO")
      ∷ ("output-options", array (object (("output", str "stdout") ∷ []) ∷ []))
      ∷ [])
    ∷ [])

-- The entries of a server's document in front of its timers.
abbrev head_entries : (names : List String) (leases socket : String) → Entries
head_entries names leases socket =
    ("interfaces-config", object (("interfaces", array (or_any names)) ∷ []))
    ∷ (
      "lease-database",
      object (("type", str "memfile") ∷ ("name", str leases) ∷ ("persist", bool true) ∷ []),
    )
    ∷ ("control-socket", object (("socket-type", str "unix") ∷ ("socket-name", str socket) ∷ []))
    ∷ []

unfoldable pub render_dhcp4_config : (leases : String) → ServerConfig → Value
render_dhcp4_config leases c = object (
    (
      "Dhcp4",
      object (
          head_entries (interface_names "v4" c.subnets) leases "/tmp/kea4-ctrl-socket"
          ++ ("renew-timer", int (pos 900))
            ∷ ("rebind-timer", int (pos 1800))
            ∷ ("valid-lifetime", int (pos 3600))
            ∷ ("subnet4", array (map build_subnet4 (select (is_subnet "v4") c.subnets)))
            ∷ ("hooks-libraries", array (ha_parameters c))
            ∷ ("loggers", loggers "kea-dhcp4")
            ∷ []),
    )
    ∷ [])

-- `ip_network(text, strict=False)`, where `none` is a ValueError
module _ (ip_network : String → Option Network) where
  abbrev delegated : String → Option ℤ → Option (List Value)
  delegated subnet none = some []
  delegated subnet (some length) = ip_network subnet >>= λ net. some (pd_pool length net)

  unfoldable pub build_pd_pools : Subnet → Option (List Value)
  build_pd_pools s =
      if str_eq s.type "v6" then delegated s.subnet s.delegated_prefix_length else some []

  abbrev subnet6 : Subnet → List Value → Value
  subnet6 s pd_pools = object (
      ("id", int s.id)
      ∷ ("subnet", str s.subnet)
      ∷ ("preferred-lifetime", int s.lease_time_default)
      ∷ ("valid-lifetime", int s.lease_time_max)
      ∷ ("renew-timer", int s.lease_time_min)
      ∷ ("rebind-timer", int s.lease_time_default)
      ∷ ("option-data", array (build_option_data_v6 s))
      ∷ ("pools", array (pools_of "v6" s))
      ∷ ("reservations", array (build_reservations_v6 s))
      ∷ (pd_pools_entry pd_pools
          ++ (relay s.relay_addresses ++ interface_entry (truthy s.interface))))

  unfoldable pub build_subnet6 : Subnet → Option Value
  build_subnet6 s = build_pd_pools s >>= λ pools. some (subnet6 s pools)

  unfoldable pub build_subnets6 : List Subnet → Option (List Value)
  build_subnets6 [] = some []
  build_subnets6 (s ∷ ss) = build_subnet6 s >>= λ v. build_subnets6 ss >>= λ vs. some (v ∷ vs)

  abbrev document6 : (leases : String) → ServerConfig → List Value → Value
  document6 leases c subnets = object (
      (
        "Dhcp6",
        object (
            head_entries (interface_names "v6" c.subnets) leases "/tmp/kea6-ctrl-socket"
            ++ ("preferred-lifetime", int (pos 1800))
              ∷ ("valid-lifetime", int (pos 3600))
              ∷ ("renew-timer", int (pos 900))
              ∷ ("rebind-timer", int (pos 1800))
              ∷ ("subnet6", array subnets)
              ∷ ("hooks-libraries", array (ha_parameters c))
              ∷ ("loggers", loggers "kea-dhcp6")
              ∷ []),
      )
      ∷ [])

  unfoldable pub render_dhcp6_config : (leases : String) → ServerConfig → Option Value
  render_dhcp6_config leases c = build_subnets6 (select (is_subnet "v6") c.subnets) >>= λ subnets.
      some (document6 leases c subnets)
