-- ===== src/Firewall/Nft/AntiSpoof.antt =====
-- services/firewall-service/viswall_firewall_agent/nft.py: the lines against forged addresses of containers.
use viswall.Prelude.{
  Bool, true, false, not, ◌&&◌, Option, none, some, List, [], ◌∷◌, ◌++◌, String, if◌then◌else◌,
  str_eq, truthy,
}
use viswall.Prelude.Texts.{concat}
use viswall.Firewall.Nft.Rules.{
  FirewallRule, Family, family_text, Python, safe_ifname, after, after_all, leading,
}
use viswall.Firewall.Nft.Sections.{in_chain, is_anti_spoof}

module _ (py : Python) where
  -- `_parse_addr_family`
  abbrev or_network : Option Family → Option Family → Option Family
  or_network (some f) network = some f
  or_network none network = network

  unfoldable pub parse_addr_family : String → Option Family
  parse_addr_family s = or_network (py.ip_address s) (py.ip_network s)

  -- `re.search(r"\bvia\s+(\S+)", name)`, its group: at each position that no word character stands before.
  -- Where the search fails after "via" at one place, it goes on at the next.
  abbrev token : String → Option String
  token s = if str_eq s "" then none else some (leading (λ c. not (py.is_space c)) s)

  abbrev after_via : Option String → Option String
  after_via none = none
  after_via (some s) = token s

  abbrev after_spaces : Option String → Option String
  after_spaces none = none
  after_spaces (some String.[]) = none
  after_spaces (some (String.◌∷◌ c s)) =
      if py.is_space c then some (after_all py.is_space s) else none

  abbrev or_token : Option String → Option String → Option String
  or_token (some t) rest = some t
  or_token none rest = rest

  abbrev here : (in_word : Bool) → String → Option String
  here true s = none
  here false s = after_via (after_spaces (after "via" s))

  abbrev search_via : (in_word : Bool) → String → Option String
  search_via in_word String.[] = none
  search_via in_word (String.◌∷◌ c s) =
      or_token (here in_word (String.◌∷◌ c s)) (search_via (py.is_word c) s)

  abbrev checked_bridge : Option String → Option String
  checked_bridge none = none
  checked_bridge (some s) = if safe_ifname s then some s else none

  -- `_anti_spoof_bridge`
  unfoldable pub anti_spoof_bridge : FirewallRule → Option String
  anti_spoof_bridge r =
      or_token (checked_bridge (truthy r.interface_in)) (checked_bridge (search_via false r.name))

  abbrev anti_spoof_line : Option String → Option String → List String
  anti_spoof_line none destination = []
  anti_spoof_line (some bridge) none = []
  anti_spoof_line (some bridge) (some s) = guarded_line bridge s (parse_addr_family s)
    where
      guarded_line : String → String → Option Family → List String
      guarded_line bridge s none = []
      guarded_line bridge s (some f) =
          concat (
            "        iifname != \"" ∷ bridge ∷ "\" " ∷ family_text f ∷ " daddr " ∷ s ∷ " drop" ∷ [])
          ∷ []

  -- `_anti_spoof_lines`
  unfoldable pub anti_spoof_lines : List FirewallRule → List String
  anti_spoof_lines [] = []
  anti_spoof_lines (r ∷ rules) =
      let rest = anti_spoof_lines rules in
      if in_chain py "forward" r && is_anti_spoof py r
      then anti_spoof_line (anti_spoof_bridge r) (truthy r.destination) ++ rest
      else rest
