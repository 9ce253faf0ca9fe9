-- ===== src/Simulator/Engine/Nat.antt =====
-- The destination translation of `simulate_packet`. A rule's `dst_ip` is both what the packet has to
-- match and what it is translated to.
use viswall.Prelude.{
  ◌≡◌, Bool, true, false, Option, none, some, List, [], ◌∷◌, String, arith, str_eq, if◌then◌else◌,
  has_slash, opt_eq→eq, truthy, refl,
}
use viswall.Simulator.Packet.{NetworkPacket, FirewallRule, Network, matches, address_matches}
use viswall.Simulator.Engine.{
  FirewallSimulator, DstTranslation, NatTranslation, check_nat, apply_nat, prerouting,
  determine_chain, simulate_packet, add_postrouting, translation,
}

pub check_nat-matches :
    (net : Network) (rules : List FirewallRule) (packet : NetworkPacket) (chain : String)
    (rule : FirewallRule)
    → check_nat net rules packet chain ≡ some rule
    → (matches net rule packet ≡ true) × (str_eq rule.chain chain ≡ true)
unfolding check_nat
check_nat-matches net [] packet chain rule h = cc
check_nat-matches net (r ∷ rules) packet chain rule h =
    ground (arith, check_nat-matches net rules packet chain rule)

matches-dst :
    (net : Network) (rule : FirewallRule) (packet : NetworkPacket)
    → matches net rule packet ≡ true
    → address_matches net rule.dst_ip packet.dst_ip ≡ true
unfolding matches
matches-dst net rule packet h = ground arith

-- A single address: no wildcard and no network.
abbrev pub is_address : Option String → Bool
is_address wanted = elim (truthy wanted) [
  | none ↦ false
  | some a ↦ if str_eq a "any" then false else if has_slash a then false else true
]

address_matches-eq :
    (net : Network) (wanted ip : Option String)
    → is_address wanted ≡ true
    → address_matches net wanted ip ≡ true
    → wanted ≡ ip
unfolding address_matches
address_matches-eq net none ip a h = cc
address_matches-eq net (some w) ip a h = ground (arith, opt_eq→eq ip w)

translation-eq :
    (packet : NetworkPacket) (rule post : Option FirewallRule) (t : NatTranslation)
    (d : DstTranslation)
    → add_postrouting (translation packet rule) post ≡ some t
    → t.prerouting ≡ some d
    → (r : FirewallRule) × (rule ≡ some r) × (d ≡ apply_nat packet r)
translation-eq packet none none t d h p = cc
translation-eq packet none (some r') t d h p = ground arith
translation-eq packet (some r) none t d h p = (r, refl, ground arith)
translation-eq packet (some r) (some r') t d h p = (r, refl, ground arith)

prerouting-matches :
    (net : Network) (fw : FirewallSimulator) (packet : NetworkPacket) (chain : String)
    (r : FirewallRule)
    → prerouting net fw packet chain ≡ some r
    → address_matches net r.dst_ip packet.dst_ip ≡ true
unfolding prerouting
prerouting-matches net fw packet chain r h =
    ground
      (arith, check_nat-matches net fw.nat_rules packet "prerouting" r, matches-dst net r packet)

-- If the destination that the simulator reports as the translated one is a single address, then it
-- is the destination that the packet had: such a translation changes nothing.
pub translated-original :
    (net : Network) (fw : FirewallSimulator) (packet : NetworkPacket) (t : NatTranslation)
    (d : DstTranslation)
    → (simulate_packet net fw packet).nat_translation ≡ some t
    → t.prerouting ≡ some d
    → is_address d.translated_dst ≡ true
    → d.translated_dst ≡ d.original_dst
unfolding simulate_packet apply_nat
translated-original net fw packet t d h p a =
    let (r, picked, e) = translation-eq packet _ _ t d h p in
    let m = prerouting-matches net fw packet (determine_chain fw packet) r picked in
    ground (arith, e, address_matches-eq net r.dst_ip packet.dst_ip)
