-- ===== src/Firewall/Nft/NatChains.antt =====
-- services/firewall-service/viswall_firewall_agent/nft.py: `_render_nat`.
use viswall.Prelude.{
  Bool, false, ◌&&◌, Option, none, some, List, [], ◌∷◌, ◌++◌, String, if◌then◌else◌, str_eq, truthy,
}
use viswall.Prelude.Texts.{concat}
use viswall.Firewall.Nft.Rules.{NatRule, Python, is_some}
use viswall.Firewall.Nft.Convert.{normalize_to_addr, convert_nat_rule_to_nft}
use viswall.Firewall.Nft.InputChain.{unlines}

module _ (py : Python) where
  -- `rule.to_destination and _valid_to_addr(rule.to_destination)`
  abbrev has_target : Option String → Bool
  has_target none = false
  has_target (some s) = is_some (normalize_to_addr py s)

  abbrev line_or_none : Option String → List String
  line_or_none none = []
  line_or_none (some l) = l ∷ []

  abbrev pub dnat_lines : List NatRule → List String
  dnat_lines [] = []
  dnat_lines (r ∷ rules) =
      let rest = dnat_lines rules in
      if str_eq r.type "dnat" && has_target (truthy r.to_destination)
      then line_or_none (convert_nat_rule_to_nft py r) ++ rest
      else rest

  abbrev pub snat_lines : List NatRule → List String
  snat_lines [] = []
  snat_lines (r ∷ rules) =
      let rest = snat_lines rules in
      if str_eq r.type "snat" && has_target (truthy r.to_source)
      then line_or_none (convert_nat_rule_to_nft py r) ++ rest
      else if str_eq r.type "masquerade"
      then concat ("        # masquerade skipped (docker owns NAT): " ∷ r.name ∷ []) ∷ rest
      else rest

  -- `_render_nat`
  unfoldable pub render_nat : List NatRule → String
  render_nat rules = unlines (
      "    chain prerouting {"
      ∷ "        type nat hook prerouting priority -110; policy accept;"
      ∷ (dnat_lines rules
          ++ "    }"
            ∷ "    chain postrouting {"
            ∷ "        type nat hook postrouting priority 90; policy accept;"
            ∷ (snat_lines rules ++ "    }" ∷ [])))
