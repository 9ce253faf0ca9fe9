-- ===== src/Firewall/Nft/Render/Chains.antt =====
-- services/firewall-service/viswall_firewall_agent/nft.py: the chains of the rules that the rule set depends on.
use mathlib.Core.Path.{ap₂}
use viswall.Prelude.{
  select, inl, inr, Bool-cases, ◌||◌, arith, if◌then◌else◌, Bool, true, false, ◌≡◌, refl, sym, ap,
  ◌∙◌, List, [], ◌∷◌, String, map,
}
use viswall.Prelude.Sort.{sort, select-sort_all}
use viswall.Prelude.Dict.{Dict}
use viswall.Firewall.Nft.Rules.{FirewallRule, NatRule, Family, ip, ip6, Python}
use viswall.Firewall.Nft.Convert.{convert_rule_to_nft}
use viswall.Firewall.Nft.Sections.{
  Meter, meter_specs, in_chain, guards_port, port_values, or_default, meter_rate, is_loopback_guard,
  loopback_ports, internal_ports, is_user_rule, user_rules,
}
use viswall.Firewall.Nft.AntiSpoof.{anti_spoof_lines}
use viswall.Firewall.Nft.Sections.Order.{render_each_lem}
use viswall.Firewall.Nft.InputChain.{meter_lines, input_text, render_input}
use viswall.Firewall.Nft.Render.{render_prerouting, render_forward, generate_ruleset}

module _ {A : Type 0} (p keep : A → Bool) (only : (a : A) → keep a ≡ false → p a ≡ false) where
  -- What passes the stricter test does not depend on the rest.
  select-select : (xs : List A) → select p (select keep xs) ≡ select p xs
  select-select [] = refl
  select-select (x ∷ xs) = elim (Bool-cases (keep x)) [
    | inl e ↦
        ap (λ b. select p (if b then x ∷ select keep xs else select keep xs)) e
        ∙ ap (λ ys. if p x then x ∷ ys else ys) (select-select xs)
    | inr e ↦
        ap (λ b. select p (if b then x ∷ select keep xs else select keep xs)) e
        ∙ (select-select xs ∙ sym (ap (λ b. if b then x ∷ select p xs else select p xs) (only x e)))
  ]

module _ (py : Python) where
  -- A rule of the chain input or of the chain forward.
  abbrev pub is_seen : FirewallRule → Bool
  is_seen r = in_chain py "input" r || in_chain py "forward" r

  abbrev seen : List FirewallRule → List FirewallRule
  seen = select is_seen

  not_input : (r : FirewallRule) → is_seen r ≡ false → in_chain py "input" r ≡ false
  not_input r h = ground arith

  not_forward : (r : FirewallRule) → is_seen r ≡ false → in_chain py "forward" r ≡ false
  not_forward r h = ground arith

  meter_rate-seen :
      (rules : List FirewallRule) (m : Meter) (family : Family)
      → meter_rate py (seen rules) m family ≡ meter_rate py rules m family
  unfolding meter_rate
  meter_rate-seen [] m family = refl
  meter_rate-seen (r ∷ rules) m family = elim (Bool-cases (is_seen r)) [
    | inl e ↦ rw (e, meter_rate-seen rules m family) refl
    | inr e ↦ rw (e, not_input r e, meter_rate-seen rules m family) refl
  ]

  meter_lines-seen :
      (rules : List FirewallRule) (meters : List Meter)
      → meter_lines py (seen rules) meters ≡ meter_lines py rules meters
  meter_lines-seen rules [] = refl
  meter_lines-seen rules (m ∷ meters) =
      rw (meter_rate-seen rules m ip, meter_rate-seen rules m ip6, meter_lines-seen rules meters)
        refl

  loopback_ports-seen :
      (rules : List FirewallRule) → loopback_ports py (seen rules) ≡ loopback_ports py rules
  unfolding loopback_ports is_loopback_guard
  loopback_ports-seen rules =
      ap (λ rs. sort (λ n. n) (port_values py rs))
        (select-select (is_loopback_guard py) is_seen (λ r h. rw (not_input r h) refl) rules)

  internal_ports-seen :
      (rules : List FirewallRule) → internal_ports py (seen rules) ≡ internal_ports py rules
  unfolding internal_ports
  internal_ports-seen rules =
      ap (λ rs. or_default py (sort (λ n. n) (port_values py rs)))
        (select-select (guards_port py) is_seen (λ r h. rw (not_forward r h) refl) rules)

  anti_spoof_lines-seen :
      (rules : List FirewallRule) → anti_spoof_lines py (seen rules) ≡ anti_spoof_lines py rules
  unfolding anti_spoof_lines
  anti_spoof_lines-seen [] = refl
  anti_spoof_lines-seen (r ∷ rules) = elim (Bool-cases (is_seen r)) [
    | inl e ↦ rw (e, anti_spoof_lines-seen rules) refl
    | inr e ↦ rw (e, not_forward r e, anti_spoof_lines-seen rules) refl
  ]

  user_rules-seen :
      (rules : List FirewallRule) (chain : String)
      → ((r : FirewallRule) → is_seen r ≡ false → in_chain py chain r ≡ false)
      → user_rules py (seen rules) chain ≡ user_rules py rules chain
  unfolding user_rules
  user_rules-seen rules chain other =
      let order = λ (q : FirewallRule). q.order in
      let is_own = is_user_rule py chain in
      let own : select is_own (seen rules) ≡ select is_own rules =
        select-select is_own is_seen (λ r h. rw (other r h) refl) rules in
      render_each_lem py chain (sort order (seen rules))
      ∙ (ap (map (convert_rule_to_nft py)) (
            select-sort_all order is_own (seen rules)
            ∙ (ap (sort order) own ∙ sym (select-sort_all order is_own rules)))
          ∙ sym (render_each_lem py chain (sort order rules)))

  render_prerouting-seen :
      (validation : Bool) (rules : List FirewallRule)
      → render_prerouting py validation (seen rules) ≡ render_prerouting py validation rules
  unfolding render_prerouting
  render_prerouting-seen true rules = refl
  render_prerouting-seen false rules =
      rw (loopback_ports-seen rules, anti_spoof_lines-seen rules) refl

  render_input-seen :
      (validation : Bool) (rules : List FirewallRule) (conntrack logging : Bool)
      → render_input py validation (seen rules) conntrack logging
        ≡ render_input py validation rules conntrack logging
  unfolding render_input
  render_input-seen true rules conntrack logging = refl
  render_input-seen false rules conntrack logging =
      ap₂ (λ meters users. input_text py meters users conntrack logging)
        (meter_lines-seen rules meter_specs) (user_rules-seen rules "input" not_input)

  render_forward-seen :
      (validation : Bool) (rules : List FirewallRule) (wans : List String) (conntrack : Bool)
      → render_forward py validation (seen rules) wans conntrack
        ≡ render_forward py validation rules wans conntrack
  unfolding render_forward
  render_forward-seen true rules wans conntrack = refl
  render_forward-seen false rules wans conntrack =
      rw (internal_ports-seen rules, user_rules-seen rules "forward" not_forward) refl

-- The rule set is the one of those rules alone whose chain is input or forward, so a rule of any other chain, wherever
-- it stands in the list, leaves no trace in it.
pub generate_ruleset-seen :
    (py : Python) (now : String) (validation : Bool) (interfaces : List (Dict String))
    (rules : List FirewallRule) (nat_rules : List NatRule) (logging conntrack : Bool)
    → generate_ruleset py now validation interfaces rules nat_rules logging conntrack
      ≡ generate_ruleset py now validation interfaces
          (select (is_seen py) rules)
          nat_rules
          logging
          conntrack
unfolding generate_ruleset
generate_ruleset-seen py now validation interfaces rules nat_rules logging conntrack = sym (
    rw
      (
        render_prerouting-seen py validation rules,
        render_input-seen py validation rules conntrack logging,
        render_forward-seen py validation rules _ conntrack,
      )
      refl)
