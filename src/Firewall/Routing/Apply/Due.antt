-- ===== src/Firewall/Routing/Apply/Due.antt =====
-- services/firewall-service/viswall_firewall_agent/routing.py: which live and which wanted objects `apply_routing`
-- issues a command for, told of each object on its own.
use viswall.Prelude.{
  Bool, true, false, ◌≡◌, refl, sym, subst, some, List, [], ◌∷◌, ◌++◌, String, All, Bool-cases, inl,
  inr, arith,
}
use viswall.Prelude.Json.{ℤ}
use viswall.Firewall.Routing.{Entry, Python, Rule, Route, same_rule, same_route}
use viswall.Firewall.Routing.Desired.{Collected, holds, desired}
use viswall.Firewall.Routing.Live.{Live, live_rule, live_route, read_rows}
use viswall.Firewall.Routing.Reconcile.{keys, stale, missing}
use viswall.Firewall.Routing.Commands.{Argv, rule_args, route_args}
use viswall.Firewall.Routing.Apply.{Manager, Host, returned, apply_routing}
use viswall.Firewall.Routing.Apply.Delta.{entries_of, commands, delta, issued_delta}

-- The second list has, in their order, what `f` gives for the members of the first that have the property.
pub data Picked {A B : Type 0} (P : A → Type 0) (f : A → B) : List A → List B → Type 0 where
  none_left : Picked P f [] []
  picked :
      {x : A} {xs : List A} {ys : List B} → P x → Picked P f xs ys → Picked P f (x ∷ xs) (f x ∷ ys)
  passed : {x : A} {xs : List A} {ys : List B} → ¬ (P x) → Picked P f xs ys → Picked P f (x ∷ xs) ys

module _ {A : Type 0} (same : A → A → Bool) where
  -- A live object that the agent owns and that is the same as no wanted one.
  abbrev pub IsLeftover : List A → Live A → Type 0
  IsLeftover wanted l = (l.is_owned ≡ true) × All (λ w. same l.key w ≡ false) wanted

  -- A wanted object that is the same as no live one.
  abbrev pub IsAbsent : List (Live A) → A → Type 0
  IsAbsent live w = All (λ (l : Live A). same w l.key ≡ false) live

  holds-false : (a : A) (xs : List A) → holds same a xs ≡ false → All (λ x. same a x ≡ false) xs
  holds-false a [] h = tt
  holds-false a (x ∷ xs) h = elim (Bool-cases (same a x)) [
    | inl e ↦ ground arith
    | inr e ↦ (e, holds-false a xs (ground arith))
  ]

  holds-true : (a : A) (xs : List A) → holds same a xs ≡ true → ¬ (All (λ x. same a x ≡ false) xs)
  holds-true a [] h all = cc
  holds-true a (x ∷ xs) h all = holds-true a xs (rw all.0 at h) all.1

  IsAbsent-keys :
      (w : A) (live : List (Live A))
      → All (λ x. same w x ≡ false) (keys same live)
      → IsAbsent live w
  IsAbsent-keys w [] all = tt
  IsAbsent-keys w (l ∷ live) all = (all.0, IsAbsent-keys w live all.1)

  keys-IsAbsent :
      (w : A) (live : List (Live A))
      → IsAbsent live w
      → All (λ x. same w x ≡ false) (keys same live)
  keys-IsAbsent w [] all = tt
  keys-IsAbsent w (l ∷ live) all = (all.0, keys-IsAbsent w live all.1)

  stale-Picked :
      (wanted : List A) (live : List (Live A))
      → Picked (IsLeftover wanted) (λ l. l.key) live (stale same wanted live)
  unfolding stale
  stale-Picked wanted [] = none_left
  stale-Picked wanted (l ∷ live) =
      let rest = stale-Picked wanted live in
      elim (Bool-cases l.is_owned) [
        | inr e ↦
            let step : stale same wanted (l ∷ live) ≡ stale same wanted live = rw e refl in
            subst (Picked (IsLeftover wanted) (λ (x : Live A). x.key) (l ∷ live)) (sym step)
              (passed (λ is. cc) rest)
        | inl own ↦ elim (Bool-cases (holds same l.key wanted)) [
          | inl e ↦
              let step : stale same wanted (l ∷ live) ≡ stale same wanted live = rw (own, e) refl in
              subst (Picked (IsLeftover wanted) (λ (x : Live A). x.key) (l ∷ live)) (sym step)
                (passed (λ is. holds-true l.key wanted e is.1) rest)
          | inr e ↦
              let step : stale same wanted (l ∷ live) ≡ l.key ∷ stale same wanted live =
                rw (own, e) refl in
              subst (Picked (IsLeftover wanted) (λ (x : Live A). x.key) (l ∷ live)) (sym step)
                (picked (own, holds-false l.key wanted e) rest)
        ]
      ]

  missing-Picked :
      (live : List (Live A)) (wanted : List A)
      → Picked (IsAbsent live) (λ w. w) wanted (missing same (keys same live) wanted)
  unfolding missing
  missing-Picked live [] = none_left
  missing-Picked live (w ∷ wanted) =
      let rest = missing-Picked live wanted in
      elim (Bool-cases (holds same w (keys same live))) [
        | inl e ↦
            rw e (passed (λ is. holds-true w (keys same live) e (keys-IsAbsent w live is)) rest)
        | inr e ↦ rw e (picked (IsAbsent-keys w live (holds-false w (keys same live) e)) rest)
      ]

-- The commands that are due for the wanted and the live objects.
pub record Due (names : List (ℤ × String)) (c : Collected) (rules : List (Live Rule))
    (routes : List (Live Route)) (issued : List Argv) : Type 0 where
  pub old_rules : List Rule
  pub old_routes : List Route
  pub new_rules : List Rule
  pub new_routes : List Route
  pub rules_deleted : Picked (IsLeftover same_rule c.rules) (λ l. l.key) rules old_rules
  pub routes_deleted : Picked (IsLeftover same_route c.routes) (λ l. l.key) routes old_routes
  pub rules_added : Picked (IsAbsent same_rule rules) (λ w. w) c.rules new_rules
  pub routes_added : Picked (IsAbsent same_route routes) (λ w. w) c.routes new_routes
  pub in_order :
      issued
      ≡ commands (rule_args names "del") old_rules
        ++ (commands (route_args names "del") old_routes
            ++ (commands (rule_args names "add") new_rules
                ++ commands (route_args names "add") new_routes))

delta-Due :
    (names : List (ℤ × String)) (c : Collected) (rules : List (Live Rule))
    (routes : List (Live Route))
    → Due names c rules routes (delta names c rules routes)
unfolding delta
delta-Due names c rules routes = record {
  old_rules = stale same_rule c.rules rules;
  old_routes = stale same_route c.routes routes;
  new_rules = missing same_rule (keys same_rule rules) c.rules;
  new_routes = missing same_route (keys same_route routes) c.routes;
  rules_deleted = stale-Picked same_rule c.rules rules;
  routes_deleted = stale-Picked same_route c.routes routes;
  rules_added = missing-Picked same_rule rules c.rules;
  routes_added = missing-Picked same_route routes c.routes;
  in_order = refl;
}

-- An apply that returns has issued, on top of what was issued before, first a deletion of each live rule, then one
-- of each live route, that the agent owns and that is the same as no wanted one, then an addition of each wanted
-- rule, and then one of each wanted route, that is the same as no live one, and no other command; in each of the
-- four groups the commands have the order of the objects.
pub apply_routing-Due :
    (py : Python) (host : Host) (dry_run : Bool) (entries : List Entry) (m after : Manager)
    (ok : Bool)
    → apply_routing py host dry_run entries m ≡ returned ok after
    → (c : Collected) × (rules : List (Live Rule)) × (routes : List (Live Route)) × (issued : List
        Argv)
      × (desired py entries ≡ some c)
      × (read_rows (live_rule py) (entries_of host.rules) ≡ some rules)
      × (read_rows (live_route py) (entries_of host.routes) ≡ some routes)
      × (after.mutations ≡ m.mutations ++ issued)
      × Due after.rt_tables c rules routes issued
apply_routing-Due py host dry_run entries m after ok h =
    let (c, rules, routes, e, read_rules, read_routes, grown) =
      issued_delta py host dry_run entries m after ok h in
    (
      c,
      rules,
      routes,
      delta after.rt_tables c rules routes,
      e,
      read_rules,
      read_routes,
      grown,
      delta-Due after.rt_tables c rules routes,
    )
