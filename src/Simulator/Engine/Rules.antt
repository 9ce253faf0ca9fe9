-- ===== src/Simulator/Engine/Rules.antt =====
-- What `add_rule` keeps: the rules of a simulator are sorted, and rules of one order stay as added.
use mathlib.Core.List.{Perm}
use viswall.Prelude.{ℕ, ◌≡◌, [], ◌∷◌, ◌++◌, ◌==◌, select}
use viswall.Prelude.Sort
use viswall.Prelude.Sort.{IsSorted}
use viswall.Simulator.Packet.{FirewallRule}
use viswall.Simulator.Engine.{FirewallSimulator, add_rule}

abbrev pub order_of : FirewallRule → ℕ
order_of r = r.order

-- After `add_rule` the rules are sorted by order and are the old rules and the new one, and among
-- the rules of any one order the old ones keep their places and the new one is last.
add_rule-IsSorted :
    (rule : FirewallRule) (fw : FirewallSimulator)
    → IsSorted order_of (add_rule rule fw).rules
      × Perm (add_rule rule fw).rules (fw.rules ++ rule ∷ [])
      × ((k : ℕ)
          → select (λ r. r.order == k) (add_rule rule fw).rules
            ≡ select (λ r. r.order == k) (fw.rules ++ rule ∷ []))
unfolding add_rule
add_rule-IsSorted rule fw = (
  Sort.sort-IsSorted order_of (fw.rules ++ rule ∷ []),
  Sort.sort-perm order_of (fw.rules ++ rule ∷ []),
  λ k. Sort.select-sort order_of k (fw.rules ++ rule ∷ []),
)
