-- ===== src/Node/Scenarios.antt =====
-- Runs of the node agent's functions on a host with two interfaces, and the theorems at them.
use viswall.Prelude.Sort.{sort_by_name, insert_by_name}
use viswall.Prelude.{
  true, false, ◌≡◌, ◌↔◌, refl, Option, none, some, List, [], ◌∷◌, String, if◌then◌else◌, str_eq,
  All, inl, inr,
}
use viswall.Prelude.Dict.{get, put}
use viswall.Node.{LiveAddress, LiveInterface, InterfaceConfig, PrefixOf, PlannedStep}
use viswall.Node.Plan.{
  set_step, unknown_interface, ipv4_addresses, desired_address, address_steps, mtu_steps,
  link_steps, gateway_steps, note_steps, steps_for, index_live, plan_interface, plan_interfaces,
  plan_changes,
}
use viswall.Node.Plan.Steps.{IsQuiet}
use viswall.Node.Plan.Matches.{IsUpToDate, plan_changes-IsQuiet}
use viswall.Node.Guard.{
  GuardrailContext, guard_plan, check_steps, check_known, check_names, check_content, check_render,
  check_wan_guardrails, is_docker_bridge, removes_wan_address,
}
use viswall.Node.Guard.Default.{StaysAsItIs, guard_plan-StaysAsItIs}
use viswall.Node.Netplan.{
  render_netplan, interfaces_lines, interface_lines, address_entries, route_entries,
}
use viswall.Node.Apply.{RunIp, HostState, ApplyRequest, Applied, apply_live}
use viswall.Node.Apply.Scenarios.{agent, trying}
use viswall.Node.Snapshots.{prune_snapshots}
use viswall.Node.Apply.Interfaces.{guarded_plan, apply_interfaces}
use viswall.Node.Apply.Interfaces.Safe.{IsHarmless, apply_interfaces-IsHarmless}

abbrev prefixes : PrefixOf
prefixes mask = if str_eq mask "255.255.255.0" then 24 else 32

abbrev wan : LiveInterface
wan = record {
  name = "eth0";
  operstate = "UP";
  up = true;
  mtu = some 1500;
  mac = none;
  addresses = record { address = "46.4.63.216"; prefixlen = 32; family = "inet" } ∷ [];
  has_default_route = true;
}

abbrev lan : LiveInterface
lan = record {
  name = "eth1";
  operstate = "DOWN";
  up = false;
  mtu = some 1500;
  mac = none;
  addresses =
      record { address = "10.0.0.1"; prefixlen = 24; family = "inet" }
      ∷ record { address = "fe80::1"; prefixlen = 64; family = "inet6" }
      ∷ [];
  has_default_route = false;
}

abbrev static : (name ip mask : String) (gateway : Option String) → InterfaceConfig
static name ip mask gateway = record {
  name = name;
  config_type = "static";
  ip_address = some ip;
  netmask = some mask;
  gateway = gateway;
  ipv6_address = none;
  ipv6_gateway = none;
  dns_servers = "9.9.9.9" ∷ [];
  routes = [];
  mtu = none;
  enabled = true;
}

abbrev hosts : List LiveInterface
hosts = wan ∷ lan ∷ []

abbrev wanted : List InterfaceConfig
wanted =
    static "eth0" "46.4.63.216" "255.255.255.255" (some "46.4.63.193")
    ∷ static "eth1" "10.0.1.1" "255.255.255.0" none
    ∷ []

abbrev planned : List PlannedStep
planned =
    set_step "eth1" ("10.0.1.1", 24)
    ∷ record {
      interface = "eth1";
      action = viswall.Node.StepAction.stale_address;
      detail = "remove address 10.0.0.1/24";
      argv = "addr" ∷ "del" ∷ "10.0.0.1/24" ∷ "dev" ∷ "eth1" ∷ [];
    }
    ∷ record {
      interface = "eth1";
      action = viswall.Node.StepAction.link;
      detail = "bring interface up";
      argv = "link" ∷ "set" ∷ "dev" ∷ "eth1" ∷ "up" ∷ [];
    }
    ∷ []

planned_lan : plan_changes prefixes hosts (some "eth0") (some "46.4.63.193") wanted ≡ inr planned
unfolding plan_changes plan_interfaces plan_interface index_live get put desired_address steps_for
    address_steps mtu_steps link_steps gateway_steps note_steps ipv4_addresses
planned_lan = refl

plan_changes-IsQuiet_example :
    IsQuiet planned
    ↔ All (IsUpToDate prefixes (index_live [] hosts) (some "eth0") (some "46.4.63.193")) wanted
plan_changes-IsQuiet_example =
    plan_changes-IsQuiet prefixes hosts (some "eth0") (some "46.4.63.193") wanted planned
      planned_lan

unknown_lan :
    plan_changes prefixes (wan ∷ []) none none (static "eth1" "10.0.1.1" "255.255.255.0" none ∷ [])
    ≡ inl (unknown_interface "eth1")
unfolding plan_changes plan_interfaces plan_interface index_live get put
unknown_lan = refl

not_refused : guard_plan planned (some "eth0") false ≡ none
unfolding guard_plan
not_refused = refl

guard_plan-StaysAsItIs_example :
    StaysAsItIs prefixes
      (index_live [] hosts)
      (some "46.4.63.193")
      (static "eth0" "46.4.63.216" "255.255.255.255" (some "46.4.63.193"))
guard_plan-StaysAsItIs_example =
    guard_plan-StaysAsItIs prefixes hosts (some "46.4.63.193") []
      (static "eth1" "10.0.1.1" "255.255.255.0" none ∷ [])
      (static "eth0" "46.4.63.216" "255.255.255.255" (some "46.4.63.193")) planned planned_lan
      not_refused

abbrev guards : List PlannedStep → GuardrailContext
guards steps = record {
  steps = steps;
  desired = wanted;
  link_rows = record { ifname = some "eth1"; master = none } ∷ [];
  known = "eth0" ∷ "eth1" ∷ [];
  old_content =
      some "      - to: default\n        via: 46.4.63.193\n      addresses: [46.4.63.216/32]";
  new_render = some (render_netplan prefixes wanted);
  wan_ip = "46.4.63.216/32";
}

not_guarded : check_wan_guardrails (guards planned) ≡ none
unfolding check_wan_guardrails check_steps check_known check_names check_content check_render
    is_docker_bridge render_netplan interfaces_lines interface_lines sort_by_name insert_by_name
    address_entries route_entries
not_guarded = refl

-- The step that takes away an address of `eth0`.
abbrev removal : (prefix : String) → PlannedStep
removal prefix = record {
  interface = "eth0";
  action = viswall.Node.StepAction.stale_address;
  detail = "remove address";
  argv = "addr" ∷ "del" ∷ prefix ∷ "dev" ∷ "eth0" ∷ [];
}

wan_kept :
    check_wan_guardrails (guards (removal "46.4.63.216/32" ∷ []))
    ≡ some (removes_wan_address "46.4.63.216/32")
unfolding check_wan_guardrails check_steps
wan_kept = refl

-- The WAN address with another prefix length is not held.
wan_with_other_prefix : check_steps (guards []) (removal "46.4.63.216/26" ∷ []) ≡ none
unfolding check_steps
wan_with_other_prefix = refl

abbrev lan_gateway : PlannedStep
lan_gateway = record {
  interface = "eth1";
  action = viswall.Node.StepAction.gateway;
  detail = "set default route via 10.0.1.254";
  argv = "route" ∷ "replace" ∷ "default" ∷ "via" ∷ "10.0.1.254" ∷ "dev" ∷ "eth1" ∷ [];
}

-- A step that moves the default route to another interface is not refused.
moved_default_route : guard_plan (lan_gateway ∷ []) (some "eth0") false ≡ none
unfolding guard_plan
moved_default_route = refl

abbrev state : HostState
state = record {
  live = hosts;
  default_iface = some "eth0";
  default_gw = some "46.4.63.193";
  link_rows = record { ifname = some "eth1"; master = none } ∷ [];
  known = "eth0" ∷ "eth1" ∷ [];
  old_content = none;
}

abbrev request : List InterfaceConfig → ApplyRequest
request interfaces = record { interfaces = interfaces; force = false; try_mode = false }

abbrev run_ok : RunIp
run_ok ran argv = record { code = 0; err = "" }

abbrev applied : List PlannedStep → Applied
applied steps = apply_live run_ok agent state none true steps

apply_lan :
    apply_interfaces run_ok (λ content. true) (trying 0) none agent state prefixes (request wanted)
    ≡ inr (applied planned)
unfolding apply_interfaces guarded_plan guard_plan plan_changes plan_interfaces plan_interface
    index_live get put desired_address steps_for address_steps mtu_steps link_steps gateway_steps
    note_steps ipv4_addresses check_wan_guardrails check_steps check_known check_names check_content
    check_render is_docker_bridge
apply_lan = refl

apply_interfaces-IsHarmless_example : All (IsHarmless "46.4.63.216/32") (applied planned).ran
apply_interfaces-IsHarmless_example =
    apply_interfaces-IsHarmless prefixes run_ok (λ content. true) (trying 0) none agent state
      (request wanted) (applied planned) apply_lan

abbrev same : List InterfaceConfig
same = static "eth0" "46.4.63.216" "255.255.255.255" (some "46.4.63.193") ∷ []

planned_nothing : plan_changes prefixes hosts (some "eth0") (some "46.4.63.193") same ≡ inr []
unfolding plan_changes plan_interfaces plan_interface index_live get put desired_address steps_for
    address_steps mtu_steps link_steps gateway_steps note_steps ipv4_addresses
planned_nothing = refl

same_is_live :
    All (IsUpToDate prefixes (index_live [] hosts) (some "eth0") (some "46.4.63.193")) same
same_is_live =
    (plan_changes-IsQuiet prefixes hosts (some "eth0") (some "46.4.63.193") same []
        planned_nothing).0
      tt

apply_same :
    apply_interfaces run_ok (λ content. true) (trying 0) none agent state prefixes (request same)
    ≡ inr (applied [])
unfolding apply_interfaces guarded_plan guard_plan plan_changes plan_interfaces plan_interface
    index_live get put desired_address steps_for address_steps mtu_steps link_steps gateway_steps
    note_steps ipv4_addresses check_wan_guardrails check_steps check_known check_names check_content
    check_render is_docker_bridge
apply_same = refl

newest_left : prune_snapshots 2 ("c" ∷ "a" ∷ "b" ∷ []) ≡ "b" ∷ "c" ∷ []
unfolding prune_snapshots sort_by_name insert_by_name
newest_left = refl
