-- ===== src/Simulator/Engine/Verdict.antt =====
-- The loop of `simulate_packet` against a description of its verdict: the first matching rule that
-- drops or rejects, or else the last matching rule, or else the default policy.
use viswall.Prelude.{
  ◌+◌, ◌≤◌, ◌≡◌, refl, Bool, true, false, ◌&&◌, Option, none, some, List, [], ◌∷◌, String, arith,
  str_eq, if◌then◌else◌, select, length, sym, ◌∙◌,
}
use viswall.Simulator.Packet.{Action, accept, NetworkPacket, FirewallRule, Network, matches}
use viswall.Simulator.Engine.{
  FirewallSimulator, Scan, is_terminal, visit, evaluate, determine_chain, simulate_packet,
}

-- The first rule that ends the traversal, or else the last rule.
pub decisive : List FirewallRule → Option FirewallRule → Option FirewallRule
decisive [] last = last
decisive (rule ∷ rules) last =
    let rest = decisive rules (some rule) in if is_terminal rule.action then some rule else rest

abbrev pub action_of : Option FirewallRule → Action → Action
action_of none policy = policy
action_of (some rule) policy = rule.action

-- The rules of a chain that match a packet.
abbrev pub applicable : Network → String → NetworkPacket → List FirewallRule → List FirewallRule
applicable net chain packet rules = select (λ r. str_eq r.chain chain && matches net r packet) rules

module _ (net : Network) (chain : String) (packet : NetworkPacket) where
  evaluate-matched :
      (rules : List FirewallRule) (s : Scan)
      → (evaluate net chain packet s rules).matched_rule
        ≡ decisive (applicable net chain packet rules) s.matched_rule
  unfolding evaluate visit decisive
  evaluate-matched [] s = refl
  evaluate-matched (rule ∷ rules) s =
      ground (arith, evaluate-matched rules (visit net chain packet s rule).0)

  evaluate-action :
      (rules : List FirewallRule) (s : Scan)
      → s.final_action ≡ action_of s.matched_rule accept
      → (evaluate net chain packet s rules).final_action
        ≡ action_of (evaluate net chain packet s rules).matched_rule accept
  unfolding evaluate visit
  evaluate-action [] s h = h
  evaluate-action (rule ∷ rules) s h =
      ground (arith, evaluate-action rules (visit net chain packet s rule).0)

-- The verdict on a packet: its rule is the first rule of the chain that matches and drops or
-- rejects, or else the last that matches, and the action is that rule's, or accept without a rule.
pub simulate_packet-decisive :
    (net : Network) (fw : FirewallSimulator) (packet : NetworkPacket)
    → ((simulate_packet net fw packet).matched_rule
        ≡ decisive (applicable net (determine_chain fw packet) packet fw.rules) none)
      × ((simulate_packet net fw packet).action
          ≡ action_of (simulate_packet net fw packet).matched_rule accept)
unfolding simulate_packet
simulate_packet-decisive net fw packet = (
  evaluate-matched net (determine_chain fw packet) packet fw.rules _,
  evaluate-action net (determine_chain fw packet) packet fw.rules _ refl,
)

abbrev pub any_terminal : List FirewallRule → Bool
any_terminal [] = false
any_terminal (rule ∷ rules) = if is_terminal rule.action then true else any_terminal rules

terminal-decisive :
    (rules : List FirewallRule) (last : Option FirewallRule)
    → is_terminal (action_of last accept) ≡ false
    → is_terminal (action_of (decisive rules last) accept) ≡ any_terminal rules
unfolding decisive
terminal-decisive [] last h = h
terminal-decisive (rule ∷ rules) last h = ground (arith, terminal-decisive rules (some rule))

-- A packet is dropped or rejected exactly if some rule of its chain that matches it drops or
-- rejects, whatever accept rules stand before that rule.
pub terminal-simulate_packet :
    (net : Network) (fw : FirewallSimulator) (packet : NetworkPacket)
    → is_terminal (simulate_packet net fw packet).action
      ≡ any_terminal (applicable net (determine_chain fw packet) packet fw.rules)
terminal-simulate_packet net fw packet =
    let (rule, action) = simulate_packet-decisive net fw packet in
    let apps = applicable net (determine_chain fw packet) packet fw.rules in
    ground (arith, rule, action, terminal-decisive apps none refl)

module _ (net : Network) (chain : String) (packet : NetworkPacket) where
  evaluate-le :
      (rules : List FirewallRule) (s : Scan)
      → (evaluate net chain packet s rules).rules_evaluated
        ≤ s.rules_evaluated + length (select (λ r. str_eq r.chain chain) rules)
  unfolding evaluate visit
  evaluate-le [] s = omega arith
  evaluate-le (rule ∷ rules) s = ground (arith, evaluate-le rules (visit net chain packet s rule).0)

  evaluate-all :
      (rules : List FirewallRule) (s : Scan)
      → any_terminal (applicable net chain packet rules) ≡ false
      → (evaluate net chain packet s rules).rules_evaluated
        ≡ s.rules_evaluated + length (select (λ r. str_eq r.chain chain) rules)
  unfolding evaluate visit
  evaluate-all [] s h = omega arith
  evaluate-all (rule ∷ rules) s h =
      ground (arith, evaluate-all rules (visit net chain packet s rule).0)

-- The count of evaluated rules is at most the number of rules of the packet's chain, and is that
-- number if the packet is not dropped or rejected.
evaluated-simulate_packet :
    (net : Network) (fw : FirewallSimulator) (packet : NetworkPacket)
    → ((simulate_packet net fw packet).rules_evaluated
        ≤ length (select (λ r. str_eq r.chain (determine_chain fw packet)) fw.rules))
      × (is_terminal (simulate_packet net fw packet).action ≡ false
          → (simulate_packet net fw packet).rules_evaluated
            ≡ length (select (λ r. str_eq r.chain (determine_chain fw packet)) fw.rules))
evaluated-simulate_packet net fw packet = (
  unfold simulate_packet in
      omega (arith, evaluate-le net (determine_chain fw packet) packet fw.rules _),
  λ h.
      let none_stops = sym (terminal-simulate_packet net fw packet) ∙ h in
      unfold simulate_packet in
      omega (arith, evaluate-all net (determine_chain fw packet) packet fw.rules _ none_stops),
)
