-- ===== src/Firewall/Routing/Single.antt =====
-- services/firewall-service/viswall_firewall_agent/routing.py: the operations of `RoutingManager` on one
-- object, `add_routing_table`, `add_route` and `add_policy_rule`, and `setup_load_balancing`.
use viswall.Prelude.{
  ℕ, ◌+◌, Bool, true, false, Option, none, some, List, [], ◌∷◌, ◌++◌, String, if◌then◌else◌, str_eq,
}
use viswall.Prelude.Json.{ℤ, pos}
use viswall.Prelude.Dict.{Dict, get}
use viswall.Prelude.Texts.{concat, decimal}
use viswall.Firewall.Routing.{
  Python, Scalar, null, int, word, TableId, number, table_id, prefix, route_prefix, mark, Rule,
  Route, same_rule, same_route,
}
use viswall.Firewall.Routing.Desired.{holds}
use viswall.Firewall.Routing.Live.{Live, live_rule, live_route, read_rows}
use viswall.Firewall.Routing.Reconcile.{keys}
use viswall.Firewall.Routing.Commands.{Argv, rule_args, route_args}
use viswall.Firewall.Routing.Apply.{
  TableLine, Manager, Host, Outcome, returned, raised, not_registered, with_error, ensure_table,
  rows_of, mutate,
}

-- `any(fields[1] == name)` over the lines with two fields at least
abbrev has_name : String → List TableLine → Bool
has_name name [] = false
has_name name (l ∷ lines) = if str_eq l.name name then true else has_name name lines

abbrev append_name : Bool → String → ℤ → Manager → Bool × Manager
append_name false name n m = (false, with_error (not_registered n) m)
append_name true name n m = (
  true,
  record {
    rt_tables = (n, name) ∷ m.rt_tables;
    file = m.file ++ record { table = some n; name = name } ∷ [];
    mutations = m.mutations;
    file_mutations = m.file_mutations ++ (n, name) ∷ [];
    errors = m.errors;
  },
)

unfoldable pub add_routing_table : Host → (name : String) → ℤ → Manager → Bool × Manager
add_routing_table host name n m =
    if has_name name m.file then (true, m) else append_name host.writable name n m

-- Where the object is live, nothing is done.
module _ {A : Type 0} (same : A → A → Bool) (host : Host) (dry_run : Bool) where
  abbrev add_unless_live : Argv → A → Option (List (Live A)) → Manager → Outcome
  add_unless_live args a none m = raised m
  add_unless_live args a (some live) m =
      let done = mutate host dry_run args m in
      if holds same a (keys same live) then returned true m else returned done.0 done.1

module _ (py : Python) (host : Host) (dry_run : Bool) where
  abbrev add_known_route :
      Option String → TableId → (gateway interface source metric : Scalar) → Manager → Outcome
  add_known_route none table gateway interface source metric m = raised m
  add_known_route (some destination) table gateway interface source metric m =
      let route : Route = record {
        destination = destination;
        table = table;
        gateway = gateway;
        interface = interface;
        source = source;
        metric = metric;
      } in
      let (rows, read) = rows_of "route show table all" host.routes m in
      add_unless_live same_route host dry_run (route_args read.rt_tables "add" route) route
        (read_rows (live_route py) rows) read

  abbrev add_route_to :
      Option TableId → (destination gateway interface source metric : Scalar) → Manager → Outcome
  add_route_to none destination gateway interface source metric m = raised m
  add_route_to (some table) destination gateway interface source metric m =
      add_known_route (route_prefix py destination) table gateway interface source metric
        (ensure_table host table m).1

  unfoldable pub add_route :
      (destination gateway interface table source metric : Scalar) → Manager → Outcome
  add_route destination gateway interface table source metric m =
      add_route_to (table_id py table) destination gateway interface source metric m

  abbrev add_known_rule :
      TableId
      → ℤ
      → Option (Option String)
      → Option (Option String)
      → Option (Option ℤ)
      → Scalar
      → Manager
      → Outcome
  add_known_rule table priority (some source) (some destination) (some read_mark) interface m =
      let rule : Rule = record {
        priority = priority;
        table = table;
        source = source;
        destination = destination;
        mark = read_mark;
        interface = interface;
      } in
      let (rows, read) = rows_of "rule" host.rules m in
      add_unless_live same_rule host dry_run (rule_args read.rt_tables "add" rule) rule
        (read_rows (live_rule py) rows) read
  add_known_rule table priority source destination read_mark interface m = raised m

  unfoldable pub add_policy_rule :
      TableId → ℤ → (source destination mark interface : Scalar) → Manager → Outcome
  add_policy_rule table priority source destination mark_value interface m =
      add_known_rule table priority (prefix py source) (prefix py destination) (mark py mark_value)
        interface (ensure_table host table m).1

abbrev and_then : Outcome → (Manager → Outcome) → Outcome
and_then (returned ok m) next = next m
and_then (raised m) next = raised m

-- `hosts` is the host after the commands that were issued before.
module _ (py : Python) (hosts : List Argv → Host) (dry_run : Bool) where
  abbrev wan_name : ℕ → String
  wan_name i = concat ("wan" ∷ decimal (i + 1) ∷ [])

  -- `gw["gateway"]` and `gw["interface"]`
  abbrev add_gateway : ℕ → Option String → Option String → Manager → Outcome
  add_gateway i (some gateway) (some interface) m =
      add_route py (hosts m.mutations) dry_run (word "default") (word gateway) (word interface)
        (word (wan_name i)) null null m
  add_gateway i gateway interface m = raised m

  abbrev add_gateways : ℕ → List (Dict String) → Manager → Outcome
  add_gateways i [] m = returned true m
  add_gateways i (gw ∷ gateways) m =
      and_then
        (add_gateway i (get gw "gateway") (get gw "interface")
          (add_routing_table (hosts m.mutations) (wan_name i) (pos (100 + i)) m).1)
        (λ n. add_gateways (i + 1) gateways n)

  abbrev add_marks : ℕ → List (Dict String) → Manager → Outcome
  add_marks i [] m = returned true m
  add_marks i (gw ∷ gateways) m =
      and_then
        (add_policy_rule py (hosts m.mutations) dry_run (number (pos (100 + i))) (pos (100 + i))
          null null (int (pos (i + 1))) null m)
        (λ n. add_marks (i + 1) gateways n)

  abbrev add_fallbacks : Manager → Outcome
  add_fallbacks m =
      and_then
        (add_policy_rule py (hosts m.mutations) dry_run (number (pos 100)) (pos 100) null null null
          null m)
        (λ n.
          add_policy_rule py (hosts n.mutations) dry_run (number (pos 101)) (pos 200) null null null
            null n)

  abbrev add_method_rules : String → List (Dict String) → Manager → Outcome
  add_method_rules method gateways m =
      if str_eq method "round_robin"
      then add_marks 0 gateways m
      else if str_eq method "failover"
      then add_fallbacks m
      else returned true m

  -- An exception is caught; its message is printed.
  abbrev without_exception : Outcome → Bool × Manager
  without_exception (returned ok m) = (true, m)
  without_exception (raised m) = (false, m)

  unfoldable pub setup_load_balancing :
      List (Dict String) → (method : String) → Manager → Bool × Manager
  setup_load_balancing gateways method m =
      without_exception
        (and_then (add_gateways 0 gateways m) (λ n. add_method_rules method gateways n))
