-- ===== src/Firewall/Deploy/Answers.antt =====
-- services/firewall-service/viswall_firewall_agent/api.py: what an answer of `deploy_firewall_config` says
-- about the host.
use viswall.Prelude.{
  ℕ, Bool, true, false, ◌⊎◌, inl, inr, ◌≡◌, refl, sym, subst, some, List, Bool-cases,
}
use viswall.Firewall.Routing.Apply.{Outcome, apply_routing}
use viswall.Firewall.Routing.Apply
use viswall.Firewall.Nft.{Firewall, apply_ruleset}
use viswall.Firewall.Nft.Steps.{LoadsAtOnce}
use viswall.Firewall.Nft.Swap.{apply_ruleset-installs}
use viswall.Firewall.Nft.Rules.{FirewallRule, NatRule}
use viswall.Firewall.Deploy.{
  Payload, Agent, World, Answer, applied, refused, crashed, snapshot_failed, invalid_rule,
  invalid_nat, nft_failed, convert_rules, convert_nat, rendered, marker, after_routing, after_nft,
  install, deploy_firewall_config,
}

-- Neither the routing state nor the tc commands nor the marker changed.
abbrev pub IsUntouched : (before after : Agent) → Type 0
IsUntouched before after =
    (after.routing ≡ before.routing)
    × (after.ran ≡ before.ran)
    × (after.applied_at ≡ before.applied_at)

-- All rules of the payload were converted, and their rule set is in the table and in the file.
abbrev pub IsInForce : World → Payload → Agent → Type 0
IsInForce w payload after =
    (rules : List FirewallRule) × (nat_rules : List NatRule) × (convert_rules w 0 payload.rules
      ≡ inr rules)
    × (convert_nat w 0 payload.nat_rules ≡ inr nat_rules)
    × (after.nft.table ≡ some (rendered w payload rules nat_rules))
    × (after.nft.conf ≡ some (rendered w payload rules nat_rules))

-- What each answer promises.
abbrev pub Promise : World → Payload → (before after : Agent) → Answer → Type 0
Promise w payload before after (refused nft_failed) = IsUntouched before after
Promise w payload before after (refused snapshot_failed) = after ≡ before
Promise w payload before after (refused (invalid_rule index)) = after ≡ before
Promise w payload before after (refused (invalid_nat index)) = after ≡ before
Promise w payload before after (applied problems) = IsInForce w payload after
Promise w payload before after crashed = IsInForce w payload after

module _ (w : World) (payload : Payload) (before : Agent) where
  abbrev Keeps : Answer × Agent → Type 0
  Keeps (answer, after) = Promise w payload before after answer

  after_routing-InForce :
      (a : Agent) (o : Outcome) → IsInForce w payload a → Keeps (after_routing w payload.qos a o)
  after_routing-InForce a (Apply.raised m) h = h
  after_routing-InForce a (Apply.returned ok m) h = h

  after_nft-Promise :
      (rules : List FirewallRule) (nat_rules : List NatRule) (done : Bool × Firewall)
      → convert_rules w 0 payload.rules ≡ inr rules
      → convert_nat w 0 payload.nat_rules ≡ inr nat_rules
      → (done.0 ≡ true
          → (done.1.table ≡ some (rendered w payload rules nat_rules))
            × (done.1.conf ≡ some (rendered w payload rules nat_rules)))
      → Keeps (after_nft w payload before done)
  after_nft-Promise rules nat_rules (false, fw) r n installed = (refl, refl, refl)
  after_nft-Promise rules nat_rules (true, fw) r n installed =
      let (table, conf) = installed refl in
      let a : Agent = record {
        nft = fw;
        routing = before.routing;
        ran = before.ran;
        applied_at = marker w w.marker_fails before.applied_at;
      } in
      after_routing-InForce a
        (apply_routing w.numbers w.host false payload.routing_rules before.routing)
        (rules, nat_rules, r, n, table, conf)

  install-Promise :
      (rules : ℕ ⊎ List FirewallRule) (nat_rules : ℕ ⊎ List NatRule)
      → LoadsAtOnce w.nft
      → convert_rules w 0 payload.rules ≡ rules
      → convert_nat w 0 payload.nat_rules ≡ nat_rules
      → Keeps (install w payload before rules nat_rules)
  install-Promise (inl index) nat_rules whole r n = refl
  install-Promise (inr rules) (inl index) whole r n = refl
  install-Promise (inr rules) (inr nat_rules) whole r n =
      let text = rendered w payload rules nat_rules in
      after_nft-Promise rules nat_rules (apply_ruleset w.nft w.faults text before.nft) r n (λ h.
        let (table, conf, k) = apply_ruleset-installs w.nft w.faults text before.nft whole h in
        (table, conf))

-- If `nft delete table` removes the table, and `nft -f` loads a file as a whole where there is no table and,
-- when it fails, leaves the table as it was: where a deployment is refused because of the snapshot or of a
-- rule, nothing changed; where it is refused because of nft, routing, traffic shaping and the marker are as
-- before; and where it is answered, or an exception of policy routing leaves it, all rules of the payload
-- were converted, and their rule set is the live table and the configuration file.
pub deploy_firewall_config-Promise :
    (w : World) (payload : Payload) (before : Agent)
    → LoadsAtOnce w.nft
    → Promise w payload before
        (deploy_firewall_config w payload before).1
        (deploy_firewall_config w payload before).0
unfolding deploy_firewall_config
deploy_firewall_config-Promise w payload before whole = elim (Bool-cases w.snapshot_fails) [
  | inl e ↦ rw e refl
  | inr e ↦
      let step : deploy_firewall_config w payload before
          ≡ install w payload before (convert_rules w 0 payload.rules)
              (convert_nat w 0 payload.nat_rules) =
        rw e refl in
      subst (λ x. Promise w payload before x.1 x.0) (sym step)
        (install-Promise w payload before (convert_rules w 0 payload.rules)
          (convert_nat w 0 payload.nat_rules) whole refl refl)
]
