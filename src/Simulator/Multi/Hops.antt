-- ===== src/Simulator/Multi/Hops.antt =====
-- What `simulate_end_to_end` reports: it returns, "no path" means that there is none, and each hop
-- gets the packet that the hop before it let through.
use viswall.Prelude.{
  ℕ, suc, ◌≤◌, ◌≡◌, ◌↔◌, refl, Bool, true, false, ◌&&◌, Option, none, some, List, [], ◌∷◌, String,
  arith, length, Option-cases, Bool-cases, inl, inr,
}
use viswall.Prelude.Dict
use viswall.Simulator.Packet.{NetworkPacket, Network}
use viswall.Simulator.Engine.{FirewallSimulator, is_terminal, simulate_packet}
use viswall.Simulator.Multi.{
  MultiFirewallSimulation, Hop, EndToEnd, no_path, traversed, next_packet, traverse, along, hops_at,
  hop_of, calculate_path, simulate_end_to_end, MultiTest, MultiResult, MultiReport, add_row, report,
  run_multi_firewall_tests,
}
use viswall.Simulator.Multi.Ends.{calculate_path_total}
use viswall.Simulator.Multi.Path.{Walk}
use viswall.Simulator.Multi.Path.Complete.{calculate_path-nil}

-- The hops of a packet: each hop but the last neither drops nor rejects, and the next one gets the
-- packet that the translation of this one leaves.
abbrev pub Linked : NetworkPacket → List Hop → Type 0
Linked packet [] = Unit
Linked packet (hop ∷ []) = hop.result.packet ≡ packet
Linked packet (hop ∷ next ∷ hops) =
    (hop.result.packet ≡ packet)
    × (is_terminal hop.result.action ≡ false)
    × Linked (next_packet packet hop.result.nat_translation) (next ∷ hops)

packet-simulate_packet :
    (net : Network) (fw : FirewallSimulator) (packet : NetworkPacket)
    → (simulate_packet net fw packet).packet ≡ packet
unfolding simulate_packet
packet-simulate_packet net fw packet = refl

Linked-cons :
    (packet : NetworkPacket) (hop : Hop) (hops : List Hop)
    → hop.result.packet ≡ packet
    → is_terminal hop.result.action ≡ false
    → Linked (next_packet packet hop.result.nat_translation) hops
    → Linked packet (hop ∷ hops)
Linked-cons packet hop [] e t l = e
Linked-cons packet hop (next ∷ hops) e t l = (e, t, l)

module _ (net : Network) (m : MultiFirewallSimulation) where
  hops_at-Linked :
      (fw : Option FirewallSimulator) (id : String) (packet : NetworkPacket)
      (rest : NetworkPacket → List Hop)
      → ((p : NetworkPacket) → Linked p (rest p))
      → Linked packet (hops_at net m fw id packet rest)
  hops_at-Linked none id packet rest ih = ih packet
  hops_at-Linked (some fw) id packet rest ih =
      elim (Bool-cases (is_terminal (simulate_packet net fw packet).action)) [
        | inl stop ↦ rw stop (packet-simulate_packet net fw packet)
        | inr go ↦ rw go (
            Linked-cons packet (hop_of net m fw id packet) _ (packet-simulate_packet net fw packet)
              go (ih (next_packet packet (simulate_packet net fw packet).nat_translation)))
      ]

  traverse-Linked :
      (path : List String) (packet : NetworkPacket) → Linked packet (traverse net m packet path)
  unfolding traverse
  traverse-Linked [] packet = tt
  traverse-Linked (id ∷ ids) packet =
      hops_at-Linked (Dict.get m.firewalls id) id packet (λ p. traverse net m p ids)
        (traverse-Linked ids)

  hops_at-le :
      (fw : Option FirewallSimulator) (id : String) (packet : NetworkPacket)
      (rest : NetworkPacket → List Hop) (n : ℕ)
      → ((p : NetworkPacket) → length (rest p) ≤ n)
      → length (hops_at net m fw id packet rest) ≤ suc n
  hops_at-le none id packet rest n ih = omega (arith, ih packet)
  hops_at-le (some fw) id packet rest n ih =
      ground (arith, ih (next_packet packet (simulate_packet net fw packet).nat_translation))

  length-traverse-le :
      (path : List String) (packet : NetworkPacket)
      → length (traverse net m packet path) ≤ length path
  unfolding traverse
  length-traverse-le [] packet = omega arith
  length-traverse-le (id ∷ ids) packet =
      hops_at-le (Dict.get m.firewalls id) id packet (λ p. traverse net m p ids) (length ids)
        (length-traverse-le ids)

abbrev pub HopsAreLinked : NetworkPacket → EndToEnd → Type 0
HopsAreLinked packet (no_path _ _) = Unit
HopsAreLinked packet (traversed path hops _) = Linked packet hops × (length hops ≤ length path)

along-Linked :
    (net : Network) (m : MultiFirewallSimulation) (source dest : String) (packet : NetworkPacket)
    (path : List String)
    → HopsAreLinked packet (along net m source dest packet path)
along-Linked net m source dest packet [] = tt
along-Linked net m source dest packet (id ∷ ids) =
    (traverse-Linked net m (id ∷ ids) packet, length-traverse-le net m (id ∷ ids) packet)

-- The simulation between two firewalls returns; its first hop gets the given packet, each further
-- hop gets what the translation of the hop before it leaves, no hop follows one that drops or
-- rejects, and there are at most as many hops as firewalls on the path.
pub simulate_end_to_end-HopsAreLinked :
    (net : Network) (m : MultiFirewallSimulation) (source dest : String) (packet : NetworkPacket)
    → (r : EndToEnd) × (simulate_end_to_end net m source dest packet ≡ some r)
      × HopsAreLinked packet r
unfolding simulate_end_to_end
simulate_end_to_end-HopsAreLinked net m source dest packet =
    elim (Option-cases (calculate_path m.topology source dest)) [
      | inl e ↦ absurd (calculate_path_total m.topology source dest e)
      | inr (path, e) ↦ (
        along net m source dest packet path,
        rw (e, simulate_end_to_end),
        along-Linked net m source dest packet path,
      )
    ]

along-no_path :
    (net : Network) (m : MultiFirewallSimulation) (source dest : String) (packet : NetworkPacket)
    (path : List String)
    → (along net m source dest packet path ≡ no_path source dest) ↔ (path ≡ [])
along-no_path net m source dest packet [] = (λ _. refl, λ _. refl)
along-no_path net m source dest packet (id ∷ ids) = (λ e. cc, λ e. cc)

end_to_end-no_path :
    (net : Network) (m : MultiFirewallSimulation) (source dest : String) (packet : NetworkPacket)
    → (simulate_end_to_end net m source dest packet ≡ some (no_path source dest))
      ↔ (calculate_path m.topology source dest ≡ some [])
unfolding simulate_end_to_end
end_to_end-no_path net m source dest packet =
    elim (Option-cases (calculate_path m.topology source dest)) [
      | inl e ↦ absurd (calculate_path_total m.topology source dest e)
      | inr (path, e) ↦ ground (arith, e, along-no_path net m source dest packet path)
    ]

-- The simulation reports "no path" exactly if no walk through the topology leads from the source
-- to the destination.
no_path-simulate_end_to_end :
    (net : Network) (m : MultiFirewallSimulation) (source dest : String) (packet : NetworkPacket)
    → (simulate_end_to_end net m source dest packet ≡ some (no_path source dest))
      ↔ ((path : List String) → ¬ Walk m.topology source path dest)
no_path-simulate_end_to_end net m source dest packet =
    let (forth, back) = end_to_end-no_path net m source dest packet in
    let (none_leads, empty) = calculate_path-nil m.topology source dest in
    (λ e. none_leads (forth e), λ h. back (empty h))

abbrev pub all_rows_pass : List MultiResult → Bool
all_rows_pass [] = true
all_rows_pass (row ∷ rows) = row.passed && all_rows_pass rows

-- The tests across firewalls return one row for each test, and the configuration can be deployed
-- exactly if every row passed.
run_multi_firewall_tests-returns :
    (net : Network) (m : MultiFirewallSimulation) (tests : List MultiTest)
    → (report : MultiReport) × (run_multi_firewall_tests net m tests ≡ some report)
      × (report.can_deploy ≡ all_rows_pass report.tests)
      × (report.all_passed ≡ all_rows_pass report.tests)
      × (length report.tests ≡ length tests)
unfolding run_multi_firewall_tests
run_multi_firewall_tests-returns net m [] = (_, refl, refl, refl, refl)
run_multi_firewall_tests-returns net m (test ∷ tests) =
    let (result, e, linked) =
      simulate_end_to_end-HopsAreLinked net m test.source_firewall test.dest_firewall test.packet in
    let (rest, es, d, a, l) = run_multi_firewall_tests-returns net m tests in
    (
      add_row net m (report net m test result) rest,
      ground (arith, e, es),
      ground (arith, a),
      ground (arith, a),
      omega (arith, l),
    )
