-- ===== src/Firewall/Nft/Sections/Order.antt =====
-- services/firewall-service/viswall_firewall_agent/nft.py: the rules of a chain are rendered once each, in
-- their order.
use mathlib.Core.List.{Perm}
use viswall.Prelude.{◌≡◌, refl, ap, List, [], ◌∷◌, String, select, map, Bool-cases, inl, inr}
use viswall.Prelude.Sort.{sort, IsSorted, sort-IsSorted, select-sort_perm, select-IsSorted}
use viswall.Firewall.Nft.Rules.{FirewallRule, Python}
use viswall.Firewall.Nft.Convert.{convert_rule_to_nft}
use viswall.Firewall.Nft.Sections.{is_user_rule, render_each, user_rules}

pub render_each_lem :
    (py : Python) (chain : String) (rules : List FirewallRule)
    → render_each py chain rules
      ≡ map (convert_rule_to_nft py) (select (is_user_rule py chain) rules)
render_each_lem py chain [] = refl
render_each_lem py chain (r ∷ rules) = elim (Bool-cases (is_user_rule py chain r)) [
  | inl e ↦ rw e (ap (λ ls. convert_rule_to_nft py r ∷ ls) (render_each_lem py chain rules))
  | inr e ↦ rw e (render_each_lem py chain rules)
]

-- The lines of a chain are those of its rules without a section of their own, each as often as it is given,
-- by ascending order.
pub user_rules-IsSorted :
    (py : Python) (chain : String) (rules : List FirewallRule)
    → (shown : List FirewallRule) × (user_rules py rules chain ≡ map (convert_rule_to_nft py) shown)
      × (IsSorted (λ r. r.order) shown)
      × (Perm shown (select (is_user_rule py chain) rules))
unfolding user_rules
user_rules-IsSorted py chain rules = (
  select (is_user_rule py chain) (sort (λ r. r.order) rules),
  render_each_lem py chain (sort (λ r. r.order) rules),
  select-IsSorted (λ r. r.order) (is_user_rule py chain) _ (sort-IsSorted (λ r. r.order) rules),
  select-sort_perm (λ r. r.order) (is_user_rule py chain) rules,
)
