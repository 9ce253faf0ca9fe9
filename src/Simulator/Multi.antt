-- ===== src/Simulator/Multi.antt =====
-- shared/firewall_simulator.py: `MultiFirewallSimulation`.
-- `calculate_path` is given fuel: each round of its `while` loop takes one element off the queue.
pub mod Ends
pub mod Path
pub mod Hops
use viswall.Prelude.{
  ℕ, suc, zero, ◌+◌, ◌≡◌, Bool, true, false, Option, none, some, List, [], ◌∷◌, ◌++◌, String,
  str_eq, if◌then◌else◌, length, mem_str, ◌&&◌, ◌>>=◌,
}
use viswall.Prelude.Dict
use viswall.Prelude.Dict.{Dict}
use viswall.Simulator.Packet.{Action, accept, drop, reject, log, nat, NetworkPacket, Network}
use viswall.Simulator.Engine.{
  FirewallSimulator, SimulationResult, NatTranslation, DstTranslation, is_terminal, simulate_packet,
}

pub record MultiFirewallSimulation : Type 0 where
  pub firewalls : Dict FirewallSimulator
  pub topology : Dict (List String)

unfoldable pub new : MultiFirewallSimulation
new = record { firewalls = []; topology = [] }

unfoldable pub add_firewall : FirewallSimulator → MultiFirewallSimulation → MultiFirewallSimulation
add_firewall fw m = record m { firewalls = Dict.put m.firewalls fw.firewall_id fw }

unfoldable pub set_topology : Dict (List String) → MultiFirewallSimulation → MultiFirewallSimulation
set_topology topology m = record m { topology = topology }

-- An element of the queue: a firewall, and the path to it.
abbrev pub Entry : Type 0
Entry = String × List String

-- The variables of the search, or the path that it returned.
pub data Search : Type 0 where
  found : (path : List String) → Search
  searching : (visited : List String) (queue : List Entry) → Search

-- The `for` loop over the neighbours of a firewall, to which `path` leads.
unfoldable pub scan_neighbors :
    (dest : String) (path : List String) (visited : List String) (queue : List Entry)
    → List String
    → Search
scan_neighbors dest path visited queue [] = searching visited queue
scan_neighbors dest path visited queue (n ∷ ns) =
    let known = mem_str n visited in
    let rest =
      scan_neighbors dest path (if known then visited else n ∷ visited)
        (if known then queue else queue ++ (n, path ++ n ∷ []) ∷ []) ns in
    if str_eq n dest then found (path ++ n ∷ []) else rest

unfoldable pub neighbors : Dict (List String) → String → List String
neighbors topology fw = Dict.get_or topology fw []

-- The `while` loop. The empty path is the code's "no path found"; `none` is the end of the fuel.
unfoldable pub search_path :
    Dict (List String) → String → ℕ → List String → List Entry → Option (List String)
search_path topology dest fuel visited [] = some []
search_path topology dest zero visited (e ∷ queue) = none
search_path topology dest (suc fuel) visited ((current, path) ∷ queue) =
    elim (scan_neighbors dest path visited queue (neighbors topology current)) [
      | found p ↦ some p
      | searching visited' queue' ↦ search_path topology dest fuel visited' queue'
    ]

-- Every name that stands in some list of neighbours.
abbrev pub all_neighbors : Dict (List String) → List String
all_neighbors [] = []
all_neighbors ((fw, ns) ∷ topology) = ns ++ all_neighbors topology

unfoldable pub calculate_path : Dict (List String) → String → String → Option (List String)
calculate_path topology source dest =
    if str_eq source dest
    then some (source ∷ [])
    else search_path topology dest (suc (length (all_neighbors topology))) (source ∷ [])
        ((source, source ∷ []) ∷ [])

-- `nat_translation.get("translated_dst", packet.dst_ip)`
abbrev translated : Option DstTranslation → Option String → Option String
translated none dst = dst
translated (some d) dst = d.translated_dst

unfoldable pub apply_nat_to_packet : NetworkPacket → NatTranslation → NetworkPacket
apply_nat_to_packet packet t = record packet { dst_ip = translated t.prerouting packet.dst_ip }

-- `if result.nat_translation`: a dictionary with no key is false.
abbrev pub has_key : Option DstTranslation → Option String → Bool
has_key none none = false
has_key _ _ = true

abbrev pub next_packet : NetworkPacket → Option NatTranslation → NetworkPacket
next_packet packet none = packet
next_packet packet (some t) =
    if has_key t.prerouting t.postrouting then apply_nat_to_packet packet t else packet

pub record Hop : Type 0 where
  pub firewall_id : String
  pub firewall_name : String
  pub result : SimulationResult

-- A path's hops; `final_action` is the last hop's, and `none` is the text "unknown".
pub data EndToEnd : Type 0 where
  no_path : (source destination : String) → EndToEnd
  traversed : (path : List String) (hops : List Hop) (final_action : Option Action) → EndToEnd

abbrev pub last_action : List Hop → Option Action
last_action [] = none
last_action (hop ∷ []) = some hop.result.action
last_action (hop ∷ next ∷ hops) = last_action (next ∷ hops)

module _ (net : Network) (m : MultiFirewallSimulation) where
  abbrev hop_of : FirewallSimulator → String → NetworkPacket → Hop
  hop_of fw id packet = record {
    firewall_id = id;
    firewall_name = fw.firewall_name;
    result = simulate_packet net fw packet;
  }

  -- One round of the loop over the path; `rest` is the other rounds. A firewall that was not added
  -- is skipped.
  abbrev hops_at :
      Option FirewallSimulator → String → NetworkPacket → (NetworkPacket → List Hop) → List Hop
  hops_at none id packet rest = rest packet
  hops_at (some fw) id packet rest =
      let hop = hop_of fw id packet in
      if is_terminal hop.result.action
      then hop ∷ []
      else hop ∷ rest (next_packet packet hop.result.nat_translation)

  unfoldable pub traverse : NetworkPacket → List String → List Hop
  traverse packet [] = []
  traverse packet (id ∷ ids) = hops_at (Dict.get m.firewalls id) id packet (λ p. traverse p ids)

  abbrev along : String → String → NetworkPacket → List String → EndToEnd
  along source dest packet [] = no_path source dest
  along source dest packet (id ∷ ids) =
      let hops = traverse packet (id ∷ ids) in traversed (id ∷ ids) hops (last_action hops)

  -- `none`: the fuel of `calculate_path` ran out, which `calculate_path_total` excludes.
  unfoldable pub simulate_end_to_end : String → String → NetworkPacket → Option EndToEnd
  simulate_end_to_end source dest packet = elim (calculate_path m.topology source dest) [
    | none ↦ none
    | some path ↦ some (along source dest packet path)
  ]

-- One entry of the list of tests, its packet already built by `NetworkPacket(**packet_data)`.
pub record MultiTest : Type 0 where
  pub name : Option String
  pub source_firewall : String
  pub dest_firewall : String
  pub packet : NetworkPacket
  pub expected_result : Option String

pub record MultiResult : Type 0 where
  pub test_name : Option String
  pub source : String
  pub destination : String
  pub passed : Bool
  pub result : EndToEnd

pub record MultiReport : Type 0 where
  pub all_passed : Bool
  pub tests : List MultiResult
  pub can_deploy : Bool

abbrev pub action_value : Action → String
action_value accept = "accept"
action_value drop = "drop"
action_value reject = "reject"
action_value log = "log"
action_value nat = "nat"

-- `result.get("final_action")`: the error dictionary has no such key.
abbrev pub final_action : EndToEnd → Option String
final_action (no_path _ _) = none
final_action (traversed _ _ none) = some "unknown"
final_action (traversed _ _ (some a)) = some (action_value a)

abbrev same_text : Option String → Option String → Bool
same_text none none = true
same_text (some a) (some b) = str_eq a b
same_text _ _ = false

module _ (net : Network) (m : MultiFirewallSimulation) where
  abbrev report : MultiTest → EndToEnd → MultiResult
  report test result = record {
    test_name = test.name;
    source = test.source_firewall;
    destination = test.dest_firewall;
    passed = same_text (final_action result) test.expected_result;
    result = result;
  }

  abbrev add_row : MultiResult → MultiReport → MultiReport
  add_row row rest =
      let all_passed = row.passed && rest.all_passed in
      record { all_passed = all_passed; tests = row ∷ rest.tests; can_deploy = all_passed }

  unfoldable pub run_multi_firewall_tests : List MultiTest → Option MultiReport
  run_multi_firewall_tests [] = some (record { all_passed = true; tests = []; can_deploy = true })
  run_multi_firewall_tests (test ∷ tests) = do
    result ← simulate_end_to_end net m test.source_firewall test.dest_firewall test.packet
    rest ← run_multi_firewall_tests tests
    some (add_row (report test result) rest)
