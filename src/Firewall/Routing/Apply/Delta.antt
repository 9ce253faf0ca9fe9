-- ===== src/Firewall/Routing/Apply/Delta.antt =====
-- The commands that `apply_routing` issues: what is stale and owned goes, what is missing comes.
use mathlib.Core.List.{append_assoc, append-nil}
use mathlib.Core.Path.{ap₂}
use viswall.Prelude.{
  Bool, true, false, ◌≡◌, refl, sym, subst, ap, ◌∙◌, Option, none, some, List, [], ◌∷◌, ◌++◌,
  String, ◌==◌, Bool-cases, Option-cases, inl, inr,
}
use viswall.Prelude.Json.{ℤ}
use viswall.Firewall.Routing.{
  Entry, Python, TableId, number, named, is_reserved, Rule, Route, same_rule, same_route,
}
use viswall.Firewall.Routing.Desired.{Collected, desired}
use viswall.Firewall.Routing.Live.{Live, live_rule, live_route, read_rows}
use viswall.Firewall.Routing.Reconcile.{keys, stale, missing}
use viswall.Firewall.Routing.Commands.{Argv, rule_args, route_args}
use viswall.Firewall.Routing.Apply.{
  Manager, Host, Reading, rows, unreadable, rows_of, find_line, register, ensure_table, mutate,
  and_before, each, reconcile, returned, reconcile_read, tables_of, started, bad_entries,
  apply_collected, apply_routing,
}

abbrev pub entries_of : Reading → List Entry
entries_of (rows entries) = entries
entries_of unreadable = []

-- The commands on the objects of a list.
abbrev pub commands : {A : Type 0} → (A → Argv) → List A → List Argv
commands args [] = []
commands args (a ∷ as_) = ("ip" ∷ args a) ∷ commands args as_

-- What is issued for the wanted and the live objects.
unfoldable pub delta :
    List (ℤ × String) → Collected → List (Live Rule) → List (Live Route) → List Argv
delta names c rules routes =
    commands (rule_args names "del") (stale same_rule c.rules rules)
    ++ (commands (route_args names "del") (stale same_route c.routes routes)
        ++ (commands (rule_args names "add") (missing same_rule (keys same_rule rules) c.rules)
            ++ commands (route_args names "add")
                (missing same_route (keys same_route routes) c.routes)))

mutate-mutations :
    (host : Host) (dry_run : Bool) (args : Argv) (m : Manager)
    → ((mutate host dry_run args m).1.mutations ≡ m.mutations ++ ("ip" ∷ args) ∷ [])
      × ((mutate host dry_run args m).1.rt_tables ≡ m.rt_tables)
unfolding mutate
mutate-mutations host true args m = (refl, refl)
mutate-mutations host false args m = elim (Bool-cases ((host.ip m.mutations args).code == 0)) [
  | inl e ↦ rw e (refl, refl)
  | inr e ↦ rw e (refl, refl)
]

module _ {A : Type 0} (host : Host) (dry_run : Bool) (args : List (ℤ × String) → A → Argv) where
  abbrev change : A → Manager → Bool × Manager
  change a m = mutate host dry_run (args m.rt_tables a) m

  each-mutations :
      (xs : List A) (names : List (ℤ × String)) (before : List Argv) (s : Bool × Manager)
      → s.1.rt_tables ≡ names
      → s.1.mutations ≡ before
      → ((each change xs s).1.mutations ≡ before ++ commands (args names) xs)
        × ((each change xs s).1.rt_tables ≡ names)
  unfolding each
  each-mutations [] names before (ok, m) same is = (is ∙ sym (append-nil before), same)
  each-mutations (x ∷ xs) names before (ok, m) same is =
      let (grown, kept) = mutate-mutations host dry_run (args m.rt_tables x) m in
      let next =
        each-mutations xs names (before ++ ("ip" ∷ args names x) ∷ [])
          (and_before change ok (change x m)) (kept ∙ same)
          (grown ∙ ap₂ (λ b n. b ++ ("ip" ∷ args n x) ∷ []) is same) in
      (next.0 ∙ append_assoc before (("ip" ∷ args names x) ∷ []) (commands (args names) xs), next.1)

append_four : (a b c d e : List Argv) → (((a ++ b) ++ c) ++ d) ++ e ≡ a ++ (b ++ (c ++ (d ++ e)))
append_four a b c d e =
    append_assoc ((a ++ b) ++ c) d e
    ∙ (append_assoc (a ++ b) c (d ++ e) ∙ append_assoc a b (c ++ (d ++ e)))

reconcile-mutations :
    (host : Host) (dry_run : Bool) (c : Collected) (rules : List (Live Rule))
    (routes : List (Live Route)) (s : Bool × Manager)
    → ((reconcile host dry_run c rules routes s).1.mutations
        ≡ s.1.mutations ++ delta s.1.rt_tables c rules routes)
      × ((reconcile host dry_run c rules routes s).1.rt_tables ≡ s.1.rt_tables)
unfolding reconcile delta
reconcile-mutations host dry_run c rules routes s =
    let names = s.1.rt_tables in
    let r1 =
      each-mutations host dry_run (λ n. rule_args n "del") (stale same_rule c.rules rules) names
        s.1.mutations s refl refl in
    let r2 =
      each-mutations host dry_run (λ n. route_args n "del") (stale same_route c.routes routes) names
        _ _ r1.1 r1.0 in
    let r3 =
      each-mutations host dry_run (λ n. rule_args n "add")
        (missing same_rule (keys same_rule rules) c.rules) names _ _ r2.1 r2.0 in
    let r4 =
      each-mutations host dry_run (λ n. route_args n "add")
        (missing same_route (keys same_route routes) c.routes) names _ _ r3.1 r3.0 in
    (r4.0 ∙ append_four s.1.mutations _ _ _ _, r4.1)

register-mutations :
    (writable : Bool) (n : ℤ) (found : Option String) (m : Manager)
    → (register writable n found m).1.mutations ≡ m.mutations
register-mutations writable n (some name) m = refl
register-mutations false n none m = refl
register-mutations true n none m = refl

ensure_table-mutations :
    (host : Host) (t : TableId) (m : Manager) → (ensure_table host t m).1.mutations ≡ m.mutations
unfolding ensure_table
ensure_table-mutations host (named s) m = refl
ensure_table-mutations host (number n) m = elim (Bool-cases (is_reserved (number n))) [
  | inl e ↦ rw e refl
  | inr e ↦ rw e (register-mutations host.writable n (find_line n m.file) m)
]

ensured-mutations :
    (host : Host) (ts : List TableId) (s : Bool × Manager)
    → (each (ensure_table host) ts s).1.mutations ≡ s.1.mutations
unfolding each
ensured-mutations host [] (ok, m) = refl
ensured-mutations host (t ∷ ts) (ok, m) =
    ensured-mutations host ts (and_before (ensure_table host) ok (ensure_table host t m))
    ∙ ensure_table-mutations host t m

rows_of-entries :
    (what : String) (r : Reading) (m : Manager)
    → ((rows_of what r m).0 ≡ entries_of r) × ((rows_of what r m).1.mutations ≡ m.mutations)
rows_of-entries what (rows entries) m = (refl, refl)
rows_of-entries what unreadable m = (refl, refl)

read_returns :
    (host : Host) (dry_run : Bool) (c : Collected) (ok : Bool) (m : Manager)
    (rules : Option (List (Live Rule))) (routes : Option (List (Live Route))) (result : Bool)
    (after : Manager)
    → reconcile_read host dry_run c ok m rules routes ≡ returned result after
    → (rs : List (Live Rule)) × (ts : List (Live Route)) × (rules ≡ some rs)
      × (routes ≡ some ts)
      × (after.mutations ≡ m.mutations ++ delta after.rt_tables c rs ts)
read_returns host dry_run c ok m none routes result after h = cc
read_returns host dry_run c ok m (some rs) none result after h = cc
read_returns host dry_run c ok m (some rs) (some ts) result after h =
    let done = reconcile host dry_run c rs ts (ok, m) in
    let is : done.1 ≡ after = cc in
    let (grown, kept) = reconcile-mutations host dry_run c rs ts (ok, m) in
    (
      rs,
      ts,
      refl,
      refl,
      subst (λ x. x.mutations ≡ m.mutations ++ delta x.rt_tables c rs ts) is
          (grown ∙ ap (λ n. m.mutations ++ delta n c rs ts) (sym kept)),
    )

-- The commands of an apply, with its own loops.
pub issued_delta :
    (py : Python) (host : Host) (dry_run : Bool) (entries : List Entry) (m after : Manager)
    (ok : Bool)
    → apply_routing py host dry_run entries m ≡ returned ok after
    → (c : Collected) × (rules : List (Live Rule)) × (routes : List (Live Route)) × (desired py
          entries
        ≡ some c)
      × (read_rows (live_rule py) (entries_of host.rules) ≡ some rules)
      × (read_rows (live_route py) (entries_of host.routes) ≡ some routes)
      × (after.mutations ≡ m.mutations ++ delta after.rt_tables c rules routes)
unfolding apply_routing
issued_delta py host dry_run entries m after ok h = elim (Option-cases (desired py entries)) [
  | inl e ↦ cc
  | inr (c, e) ↦
      let s1 = each (ensure_table host) (tables_of c) (true, started (bad_entries c.errors) m) in
      let (rule_rows, kept2) = rows_of-entries "rule" host.rules s1.1 in
      let s2 = rows_of "rule" host.rules s1.1 in
      let (route_rows, kept3) = rows_of-entries "route show table all" host.routes s2.1 in
      let collected : apply_collected py host dry_run c m ≡ returned ok after = cc in
      let (rules, routes, r1, r2, grown) =
        read_returns host dry_run c s1.0 _ _ _ ok after collected in
      (
        c,
        rules,
        routes,
        e,
        ap (λ x. read_rows (live_rule py) x) (sym rule_rows) ∙ r1,
        ap (λ x. read_rows (live_route py) x) (sym route_rows) ∙ r2,
        grown
            ∙ ap (λ b. b ++ delta after.rt_tables c rules routes)
                (kept3
                  ∙ (kept2
                      ∙ ensured-mutations host (tables_of c)
                          (true, started (bad_entries c.errors) m))),
      )
]
