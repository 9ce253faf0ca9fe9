-- ===== src/Simulator/Scenarios.antt =====
-- shared/firewall_simulator.py: runs of the example at the end of the file and of small topologies,
-- and the theorems at these inputs.
use viswall.Prelude.{
  ◌≡◌, ◌≢◌, ◌↔◌, refl, true, false, none, some, List, [], ◌∷◌, String, str_eq, if◌then◌else◌,
}
use viswall.Prelude.Dict
use viswall.Prelude.Dict.{Dict}
use viswall.Prelude.Sort
use viswall.Prelude.Sort.{IsSorted}
use viswall.Simulator.Packet.{accept, drop, nat, tcp, NetworkPacket, FirewallRule, Network, matches}
use viswall.Simulator.Engine.{
  FirewallSimulator, NatTranslation, DstTranslation, new, add_rule, set_interfaces, determine_chain,
  simulate_packet, visit, evaluate, check_nat, is_terminal,
}
use viswall.Simulator.Engine.Verdict.{
  decisive, applicable, action_of, any_terminal, simulate_packet-decisive, terminal-simulate_packet,
}
use viswall.Simulator.Engine.Nat.{translated-original}
use viswall.Simulator.Suite.{TestCase, run_single_test, tally, tally_all, run_test_suite}
use viswall.Simulator.Suite.Deploy.{all_pass, can_deploy-all_pass}
use viswall.Simulator.Multi.{
  MultiFirewallSimulation, EndToEnd, MultiTest, scan_neighbors, neighbors, search_path,
  calculate_path, simulate_end_to_end,
}
use viswall.Simulator.Multi.Ends.{calculate_path_total}
use viswall.Simulator.Multi.Path.{Walk, calculate_path-Walk}
use viswall.Simulator.Multi.Path.Complete.{calculate_path-nil}
use viswall.Simulator.Multi.Hops.{HopsAreLinked, simulate_end_to_end-HopsAreLinked}
use viswall.Simulator.Cases.Basic.{get_basic_connectivity_tests}

-- A stand-in for `ipaddress`: every address lies in 192.168.1.0/24, and nothing else is a network.
abbrev lan_net : Network
lan_net ip network = if str_eq network "192.168.1.0/24" then some true else none

abbrev blank : FirewallRule
blank = record {
  id = 0;
  name = "";
  chain = "forward";
  action = accept;
  src_ip = none;
  dst_ip = none;
  protocol = none;
  src_port = none;
  dst_port = none;
  interface_in = none;
  interface_out = none;
  state = none;
  log = false;
  order = 0;
  enabled = true;
}

abbrev allow_lan : FirewallRule
allow_lan = record blank {
  id = 1;
  name = "Allow LAN to WAN";
  interface_in = some "eth1";
  interface_out = some "eth0";
  order = 100;
}

abbrev block_ssh : FirewallRule
block_ssh = record blank {
  id = 2;
  name = "Block WAN SSH";
  chain = "input";
  action = drop;
  protocol = some tcp;
  dst_port = some 22;
  interface_in = some "eth0";
  order = 50;
}

abbrev block_web : FirewallRule
block_web = record blank {
  id = 3;
  name = "Block web";
  action = drop;
  src_ip = some "192.168.1.0/24";
  dst_port = some 80;
  order = 200;
}

abbrev forward_dns : FirewallRule
forward_dns = record blank {
  id = 4;
  name = "dns";
  chain = "prerouting";
  action = nat;
  dst_ip = some "8.8.8.8";
}

-- The firewall of `__main__`.
abbrev main_office : FirewallSimulator
unfolding new add_rule set_interfaces Sort.sort
main_office = add_rule block_ssh (
    add_rule allow_lan (
      set_interfaces (("eth0", "wan") ∷ ("eth1", "lan") ∷ [])
        (new "fw-001" "Main Office Firewall")))

abbrev strict_office : FirewallSimulator
strict_office = record main_office {
  rules = allow_lan ∷ block_web ∷ [];
  interfaces = ("eth0", "wan") ∷ ("eth1", "lan") ∷ [];
  nat_rules = forward_dns ∷ [];
}

abbrev browse : NetworkPacket
browse = record {
  src_ip = "192.168.1.100";
  dst_ip = some "8.8.8.8";
  protocol = tcp;
  src_port = some 12345;
  dst_port = some 80;
  interface_in = "eth1";
  interface_out = "eth0";
  flags = "SYN" ∷ [];
  payload_size = 64;
  connection_state = "NEW";
}

-- The later drop rule decides, although the accept rule in front of it matches.
accept_then_drop : (simulate_packet lan_net strict_office browse).action ≡ drop
unfolding simulate_packet determine_chain Dict.get_or evaluate visit matches check_nat
accept_then_drop = refl

main_office_deploys :
    (run_test_suite lan_net main_office get_basic_connectivity_tests).1.can_deploy ≡ true
unfolding main_office new add_rule set_interfaces Sort.sort run_test_suite tally_all tally
    run_single_test simulate_packet determine_chain Dict.get_or evaluate visit matches check_nat
    get_basic_connectivity_tests
main_office_deploys = refl

simulate_packet-decisive_example :
    ((simulate_packet lan_net strict_office browse).matched_rule
      ≡ decisive
          (applicable lan_net (determine_chain strict_office browse) browse strict_office.rules)
          none)
    × ((simulate_packet lan_net strict_office browse).action
        ≡ action_of (simulate_packet lan_net strict_office browse).matched_rule accept)
simulate_packet-decisive_example = simulate_packet-decisive lan_net strict_office browse

terminal-simulate_packet_example :
    is_terminal (simulate_packet lan_net strict_office browse).action
    ≡ any_terminal
        (applicable lan_net (determine_chain strict_office browse) browse strict_office.rules)
terminal-simulate_packet_example = terminal-simulate_packet lan_net strict_office browse

abbrev dns_translation : DstTranslation
dns_translation = record {
  type = nat;
  original_dst = some "8.8.8.8";
  translated_dst = some "8.8.8.8";
}

abbrev browse_translation : NatTranslation
browse_translation = record { prerouting = some dns_translation; postrouting = none }

browse_translated :
    (simulate_packet lan_net strict_office browse).nat_translation ≡ some browse_translation
unfolding simulate_packet determine_chain Dict.get_or evaluate visit matches check_nat
browse_translated = refl

translated-original_example : dns_translation.translated_dst ≡ dns_translation.original_dst
translated-original_example =
    translated-original lan_net strict_office browse browse_translation dns_translation
      browse_translated refl refl

abbrev web_test : TestCase
web_test = record {
  id = "web";
  name = "Web";
  description = "";
  packet = browse;
  expected_action = drop;
  expected_chain = some "forward";
  critical = false;
  tags = [];
}

can_deploy-all_pass_example :
    (run_test_suite lan_net main_office get_basic_connectivity_tests).1.can_deploy
    ≡ all_pass lan_net main_office get_basic_connectivity_tests
can_deploy-all_pass_example = can_deploy-all_pass lan_net main_office get_basic_connectivity_tests

abbrev sites : Dict (List String)
sites = ("a", "b" ∷ "c" ∷ []) ∷ ("b", "a" ∷ "d" ∷ []) ∷ ("c", "a" ∷ []) ∷ ("e", "a" ∷ []) ∷ []

abbrev network : MultiFirewallSimulation
network = record {
  firewalls = ("a", main_office) ∷ ("b", strict_office) ∷ ("d", main_office) ∷ [];
  topology = sites;
}

path_to_d : calculate_path sites "a" "d" ≡ some ("a" ∷ "b" ∷ "d" ∷ [])
unfolding calculate_path search_path scan_neighbors neighbors Dict.get_or
path_to_d = refl

calculate_path_total_example : calculate_path sites "a" "e" ≢ none
calculate_path_total_example = calculate_path_total sites "a" "e"

calculate_path-Walk_example : Walk sites "a" ("a" ∷ "b" ∷ "d" ∷ []) "d"
calculate_path-Walk_example =
    calculate_path-Walk sites "a" "d" ("a" ∷ "b" ∷ "d" ∷ []) path_to_d (λ e. cc)

calculate_path-nil_example :
    (calculate_path sites "a" "e" ≡ some []) ↔ ((path : List String) → ¬ Walk sites "a" path "e")
calculate_path-nil_example = calculate_path-nil sites "a" "e"

simulate_end_to_end-HopsAreLinked_example :
    (r : EndToEnd) × (simulate_end_to_end lan_net network "a" "d" browse ≡ some r)
    × HopsAreLinked browse r
simulate_end_to_end-HopsAreLinked_example =
    simulate_end_to_end-HopsAreLinked lan_net network "a" "d" browse

abbrev drop_at_b : MultiTest
drop_at_b = record {
  name = some "drop at b";
  source_firewall = "a";
  dest_firewall = "d";
  packet = browse;
  expected_result = some "drop";
}
