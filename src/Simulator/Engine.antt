-- ===== src/Simulator/Engine.antt =====
-- shared/firewall_simulator.py: `FirewallSimulator` and `simulate_packet`.
-- The clock (`processing_time_ms`) is left out, and a log line is the data that its f-string shows.
pub mod Rules
pub mod Verdict
pub mod Nat
use viswall.Prelude.{
  ℕ, ◌+◌, Bool, true, false, not, ◌&&◌, Option, none, some, List, [], ◌∷◌, ◌++◌, String, str_eq,
  if◌then◌else◌,
}
use viswall.Prelude.Dict
use viswall.Prelude.Dict.{Dict}
use viswall.Prelude.Sort
use viswall.Simulator.Packet.{
  Action, accept, drop, reject, NetworkPacket, FirewallRule, Network, matches, action_eq,
}

pub record FirewallSimulator : Type 0 where
  pub firewall_id : String
  pub firewall_name : String
  pub rules : List FirewallRule
  pub interfaces : Dict String
  pub nat_rules : List FirewallRule

pub data LogEntry : Type 0 where
  nat_applied : (name : String) → LogEntry
  rule_logged : (id : ℕ) (name : String) (action : Action) → LogEntry

-- The dictionary that `_apply_nat` returns.
pub record DstTranslation : Type 0 where
  pub type : Action
  pub original_dst : Option String
  pub translated_dst : Option String

-- `nat_translation` as a dictionary: the three keys of `_apply_nat`, and "postrouting".
pub record NatTranslation : Type 0 where
  pub prerouting : Option DstTranslation
  pub postrouting : Option String

pub record SimulationResult : Type 0 where
  pub packet : NetworkPacket
  pub matched_rule : Option FirewallRule
  pub action : Action
  pub chain_traversed : List String
  pub rules_evaluated : ℕ
  pub logs : List LogEntry
  pub nat_translation : Option NatTranslation

unfoldable pub new : String → String → FirewallSimulator
new id name = record {
  firewall_id = id;
  firewall_name = name;
  rules = [];
  interfaces = [];
  nat_rules = [];
}

unfoldable pub add_rule : FirewallRule → FirewallSimulator → FirewallSimulator
add_rule rule fw = record fw { rules = Sort.sort (λ r. r.order) (fw.rules ++ rule ∷ []) }

unfoldable pub add_nat_rule : FirewallRule → FirewallSimulator → FirewallSimulator
add_nat_rule rule fw = record fw {
  nat_rules = Sort.sort (λ r. r.order) (fw.nat_rules ++ rule ∷ []);
}

unfoldable pub set_interfaces : Dict String → FirewallSimulator → FirewallSimulator
set_interfaces interfaces fw = record fw { interfaces = interfaces }

unfoldable pub determine_chain : FirewallSimulator → NetworkPacket → String
determine_chain fw packet =
    let src_type = Dict.get_or fw.interfaces packet.interface_in "unknown" in
    let dst_type = Dict.get_or fw.interfaces packet.interface_out "unknown" in
    if str_eq src_type "wan"
    then "input"
    else if str_eq src_type "lan" && str_eq dst_type "wan"
    then "forward"
    else "output"

abbrev pub is_terminal : Action → Bool
is_terminal drop = true
is_terminal reject = true
is_terminal _ = false

unfoldable pub apply_nat : NetworkPacket → FirewallRule → DstTranslation
apply_nat packet rule = record {
  type = rule.action;
  original_dst = packet.dst_ip;
  translated_dst = rule.dst_ip;
}

-- The variables of the loop over the rules.
pub record Scan : Type 0 where
  pub matched_rule : Option FirewallRule
  pub final_action : Action
  pub rules_evaluated : ℕ
  pub logs : List LogEntry

abbrev log_rule : FirewallRule → List LogEntry → List LogEntry
log_rule rule logs =
    if rule.log then logs ++ rule_logged rule.id rule.name rule.action ∷ [] else logs

abbrev translation : NetworkPacket → Option FirewallRule → Option NatTranslation
translation packet none = none
translation packet (some rule) =
    some (record { prerouting = some (apply_nat packet rule); postrouting = none })

abbrev nat_logs : Option FirewallRule → List LogEntry
nat_logs none = []
nat_logs (some rule) = nat_applied rule.name ∷ []

abbrev add_postrouting : Option NatTranslation → Option FirewallRule → Option NatTranslation
add_postrouting t none = t
add_postrouting none (some rule) = some (record { prerouting = none; postrouting = some rule.name })
add_postrouting (some t) (some rule) = some (record t { postrouting = some rule.name })

module _ (net : Network) where
  unfoldable pub check_nat : List FirewallRule → NetworkPacket → String → Option FirewallRule
  check_nat [] packet nat_chain = none
  check_nat (rule ∷ rules) packet nat_chain =
      let rest = check_nat rules packet nat_chain in
      if str_eq rule.chain nat_chain && matches net rule packet then some rule else rest

  -- The body of the loop, and whether it ends in `break`.
  unfoldable pub visit : String → NetworkPacket → Scan → FirewallRule → Scan × Bool
  visit chain packet s rule =
      let counted = record s { rules_evaluated = s.rules_evaluated + 1 } in
      if not (str_eq rule.chain chain)
      then (s, false)
      else if matches net rule packet
      then (
        record counted {
          matched_rule = some rule;
          final_action = rule.action;
          logs = log_rule rule s.logs;
        },
        is_terminal rule.action,
      )
      else (counted, false)

  unfoldable pub evaluate : String → NetworkPacket → Scan → List FirewallRule → Scan
  evaluate chain packet s [] = s
  evaluate chain packet s (rule ∷ rules) =
      let (s', stop) = visit chain packet s rule in
      let rest = evaluate chain packet s' rules in if stop then s' else rest

  -- The destination translation of the packet, before the rules are read.
  unfoldable pub prerouting : FirewallSimulator → NetworkPacket → String → Option FirewallRule
  prerouting fw packet chain =
      if str_eq chain "forward" then check_nat fw.nat_rules packet "prerouting" else none

  unfoldable pub simulate_packet : FirewallSimulator → NetworkPacket → SimulationResult
  unfolding prerouting apply_nat
  simulate_packet fw packet =
      let chain = determine_chain fw packet in
      let nat_rule = prerouting fw packet chain in
      let start : Scan = record {
        matched_rule = none;
        final_action = accept;
        rules_evaluated = 0;
        logs = nat_logs nat_rule;
      } in
      let scan = evaluate chain packet start fw.rules in
      let post =
        if str_eq chain "forward" && action_eq scan.final_action accept
        then check_nat fw.nat_rules packet "postrouting"
        else none in
      record {
        packet = packet;
        matched_rule = scan.matched_rule;
        action = scan.final_action;
        chain_traversed = chain ∷ [];
        rules_evaluated = scan.rules_evaluated;
        logs = scan.logs;
        nat_translation = add_postrouting (translation packet nat_rule) post;
      }
