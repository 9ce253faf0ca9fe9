-- ===== src/Firewall/Nft/Render.antt =====
-- services/firewall-service/viswall_firewall_agent/nft.py: `generate_ruleset` and the chains it renders.
-- The time of the rendering and the setting VALIDATION_MODE are arguments.
pub mod Chains
use viswall.Prelude.{
  ℕ, Bool, true, false, not, ◌&&◌, ◌||◌, Option, none, some, List, [], ◌∷◌, ◌++◌, String,
  if◌then◌else◌, str_eq, map, truthy,
}
use viswall.Prelude.Dict.{Dict, get}
use viswall.Prelude.Texts.{concat, joined, decimal}
use viswall.Firewall.Nft.Rules.{
  FirewallRule, NatRule, Family, ip, ip6, Python, is_some, or_empty, safe_ifname,
}
use viswall.Firewall.Nft.Convert.{normalize_to_addr, convert_nat_rule_to_nft}
use viswall.Firewall.Nft.Sections.{
  Ports, port, range, port_set, Meter, meter_specs, with_burst, meter_rate, loopback_ports,
  internal_ports, user_rules, equals,
}
use viswall.Firewall.Nft.AntiSpoof.{anti_spoof_lines}
use viswall.Firewall.Nft.InputChain.{unlines, when, policy_text, ports, render_input}
use viswall.Firewall.Nft.NatChains.{render_nat}

-- `_render_header`
unfoldable pub render_header : (now : String) → String
render_header now = concat (
    "#!/usr/sbin/nft -f\n\n# Viswall Firewall Configuration (docker-safe renderer)\n# Generated: "
    ∷ now ∷ "\n# Replaces ONLY `table inet viswall`; Docker keeps its own tables.\n\n" ∷ [])

module _ (py : Python) where
  abbrev guard_section : List ℕ → List String
  guard_section [] = []
  guard_section (n ∷ ns) =
      "        # Loopback guards (live raw PREROUTING: -d 127.0.0.1/32 ! -i lo)"
      ∷ concat (
          "        iifname != \"lo\" ip daddr 127.0.0.1 tcp dport " ∷ ports (n ∷ ns) ∷ " drop" ∷ [])
      ∷ []

  abbrev anti_spoof_section : List String → List String
  anti_spoof_section [] = []
  anti_spoof_section (l ∷ lines) =
      "        # Container-IP anti-spoof drops (live raw PREROUTING)" ∷ l ∷ lines

  abbrev raw_prerouting : List String → String
  raw_prerouting [] = ""
  raw_prerouting (l ∷ lines) = unlines (
      "    chain raw_prerouting {"
      ∷ "        type filter hook prerouting priority -300; policy accept;"
      ∷ ((l ∷ lines) ++ "    }" ∷ []))

  -- `_render_prerouting`
  unfoldable pub render_prerouting : (validation : Bool) → List FirewallRule → String
  render_prerouting true rules = ""
  render_prerouting false rules =
      raw_prerouting
        (guard_section (loopback_ports py rules) ++ anti_spoof_section (anti_spoof_lines py rules))

  abbrev or_default_wan : List String → List String
  or_default_wan [] = "enp0s31f6" ∷ []
  or_default_wan (w ∷ wans) = w ∷ wans

  abbrev internal_drop : (set wan : String) → String
  internal_drop set wan = concat (
      "        iifname \"" ∷ wan
      ∷ "\" meta l4proto tcp ct direction original ct original proto-dst " ∷ set ∷ " drop" ∷ [])

  -- `_render_forward`
  unfoldable pub render_forward :
      (validation : Bool)
      → List FirewallRule
      → (wan_ifaces : List String) → (conntrack : Bool) → String
  render_forward true rules wans conntrack = unlines (
      "    chain forward {" ∷ "        type filter hook forward priority -150; policy accept;"
      ∷ "        log prefix \"VW-VALIDATION: forward \" limit rate 10/minute accept" ∷ "    }" ∷ [])
  render_forward false rules wans conntrack = unlines (
      "    chain forward {"
      ∷ "        type filter hook forward priority -150; policy drop;"
      ∷ (when conntrack ("        ct state established,related accept" ∷ [])
          ++ "        # DOCKER-USER replacement: external access to internal ports"
            ∷ (map (internal_drop (ports (internal_ports py rules))) (or_default_wan wans)
                ++ "        # Container bridge traffic (docker coexistence)"
                  ∷ "        iifname \"docker0\" accept"
                  ∷ "        oifname \"docker0\" accept"
                  ∷ "        iifname \"br-*\" accept"
                  ∷ "        oifname \"br-*\" accept"
                  ∷ (user_rules py rules "forward" ++ "        accept" ∷ "    }" ∷ []))))

  -- `_render_output`
  unfoldable pub render_output : (validation conntrack : Bool) → String
  render_output validation conntrack = unlines (
      "    chain output {"
      ∷ "        type filter hook output priority -200; policy accept;"
      ∷ ((if validation
            then "        log prefix \"VW-VALIDATION: output \" limit rate 10/minute accept" ∷ []
            else when conntrack ("        ct state established,related accept" ∷ []))
          ++ "    }" ∷ []))

  -- `_render_blacklist_sets`
  abbrev pub blacklist_sets : String
  blacklist_sets = concat (
      "    set blacklist_v4 {\n        type ipv4_addr\n        flags timeout\n    }\n"
      ∷ "    set blacklist_v6 {\n        type ipv6_addr\n        flags timeout\n    }\n" ∷ [])

  -- The names of the wan interfaces; a `KeyError` cannot occur, as the name has been read before.
  abbrev pub wan_names : List (Dict String) → List String
  wan_names [] = []
  wan_names (i ∷ interfaces) =
      let rest = wan_names interfaces in
      if equals (get i "type") "wan" && safe_ifname (or_empty (get i "name"))
      then or_empty (get i "name") ∷ rest
      else rest

  abbrev nat_part : (validation : Bool) → List NatRule → List String
  nat_part validation [] = []
  nat_part true (r ∷ rules) = []
  nat_part false (r ∷ rules) = render_nat py (r ∷ rules) ∷ []

  -- `generate_ruleset`
  unfoldable pub generate_ruleset :
      (now : String)
      → (validation : Bool) → List (Dict String)
      → List FirewallRule
      → List NatRule
      → (enable_logging enable_conntrack : Bool) → String
  generate_ruleset now validation interfaces rules nat_rules logging conntrack = concat (
      unlines (
        render_header now
        ∷ "table inet viswall {"
        ∷ blacklist_sets
        ∷ render_prerouting validation rules
        ∷ render_input py validation rules conntrack logging
        ∷ render_forward validation rules (wan_names interfaces) conntrack
        ∷ render_output validation conntrack
        ∷ (nat_part validation nat_rules ++ "}" ∷ []))
      ∷ "\n"
      ∷ [])
