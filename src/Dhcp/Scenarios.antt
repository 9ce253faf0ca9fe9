-- ===== src/Dhcp/Scenarios.antt =====
-- Runs of the DHCP agent, and its theorems at them.
use Prim.Native.Char.{Char, code}
use viswall.Prelude.{
  true, false, ◌==◌, ◌≡◌, refl, none, some, List, [], ◌∷◌, String, map, if◌then◌else◌, str_eq,
}
use viswall.Prelude.Json.{pos}
use viswall.Prelude.Texts.{split}
use viswall.Dhcp.Payloads.{Subnet, ServerConfig}
use viswall.Dhcp.Render.{interface_names, add_name, render_dhcp4_config}
use viswall.Dhcp.Render.Families.{v4_part, render_dhcp4_config-v4_part}
use viswall.Dhcp.Apply.{Host, Agent, run, run_all, apply_config}
use viswall.Dhcp.Apply.Applied.{Applied, apply_config-Applied}
use viswall.Dhcp.Leases.{Python, file_text, release_lease, release_lines}
use viswall.Dhcp.Leases.Released.{Released, header, release_lease-Released}

abbrev first_line : Char → List String → List String
first_line c [] = (String.◌∷◌ c String.[]) ∷ []
first_line c (l ∷ ls) = (String.◌∷◌ c l) ∷ ls

abbrev lines_of : String → List String
lines_of String.[] = []
lines_of (String.◌∷◌ c s) =
    let rest = lines_of s in if code c == 10 then "" ∷ rest else first_line c rest

abbrev without_end : String → String
without_end String.[] = ""
without_end (String.◌∷◌ c s) =
    let rest = without_end s in
    if code c == 10 then (if str_eq s "" then "" else String.◌∷◌ c rest) else String.◌∷◌ c rest

abbrev python : Python
python = record { splitlines = lines_of; strip = without_end; reader = map (split b',') }

abbrev lease_lines : List String
lease_lines = "10.0.0.5,aa" ∷ "10.0.0.6,bb" ∷ []

abbrev head_line : String
head_line = "address,hwaddr"

release_lease-Released_example :
    Released python "v4" "10.0.0.5"
      (file_text (head_line ∷ lease_lines))
      (release_lease python "10.0.0.5" (some (file_text (head_line ∷ lease_lines))))
unfolding release_lines
release_lease-Released_example =
    release_lease-Released python "v4" "10.0.0.5" head_line lease_lines refl
      (record { strip-nil = refl }) (header ("hwaddr" ∷ []) refl refl refl)
      (record { split = refl; split-strip = refl; by_line = refl; empty = λ e. cc })
      (record { split = refl; split-strip = refl; by_line = refl; empty = λ e. cc })

-- The first line of a file without a header stays where it holds the word "address" in a host name.
never_released : release_lease python "10.0.0.5" (some "10.0.0.5,aa,address-1\n") ≡ none
unfolding release_lease release_lines
never_released = refl

-- A disabled subnet, whose interface is used.
abbrev guests : Subnet
guests = record {
  id = pos 1;
  subnet = "10.0.0.0/24";
  type = "v4";
  interface = some "eth9";
  relay_addresses = [];
  domain_name = none;
  dns_servers = [];
  ntp_servers = [];
  routers = [];
  lease_time_default = pos 3600;
  lease_time_max = pos 7200;
  lease_time_min = pos 300;
  delegated_prefix_length = none;
  enabled = false;
  pools = [];
  reservations = [];
  options = [];
}

disabled_interface : interface_names "v4" (guests ∷ []) ≡ "eth9" ∷ []
unfolding interface_names add_name
disabled_interface = refl

abbrev config : ServerConfig
config = record {
  name = "dhcp";
  kea_ctrl_agent_address = "127.0.0.1";
  kea_ctrl_agent_port = pos 8000;
  ha_enabled = false;
  ha_mode = "hot-standby";
  ha_peer_address = none;
  dhcpv4_enabled = true;
  dhcpv6_enabled = false;
  subnets = guests ∷ [];
}

-- The test of the configuration fails.
abbrev agent : Agent
agent = record {
  dhcp4_conf = "kea-dhcp4.conf";
  dhcp6_conf = "kea-dhcp6.conf";
  leases4 = "leases4.csv";
  leases6 = "leases6.csv";
  allow_commands = true;
  dumps = λ v. "{}";
  ip_network = λ s. none;
  exit_of = λ before args. elim before [ [] ↦ some 1 | _ ↦ some 0 ];
}

abbrev host : Host
host = record { dhcp4 = some "old"; dhcp6 = none; ran = [] }

restarted_nevertheless : (apply_config agent config host).1 ≡ record {
  dhcp4 = some "{}\n";
  dhcp6 = none;
  ran =
      ("kea-dhcp4" ∷ "-t" ∷ "-c" ∷ "kea-dhcp4.conf" ∷ [])
      ∷ ("service" ∷ "kea-dhcp4-server" ∷ "restart" ∷ [])
      ∷ ("service" ∷ "kea-ctrl-agent" ∷ "restart" ∷ [])
      ∷ [];
}
unfolding apply_config run_all run
restarted_nevertheless = refl

apply_config-Applied_example : Applied agent config host (apply_config agent config host)
apply_config-Applied_example = apply_config-Applied agent config host

render_dhcp4_config-v4_part_example :
    render_dhcp4_config "leases4.csv" (v4_part config) ≡ render_dhcp4_config "leases4.csv" config
render_dhcp4_config-v4_part_example = render_dhcp4_config-v4_part "leases4.csv" config
