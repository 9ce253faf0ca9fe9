-- ===== src/Firewall/Routing/Scenarios.antt =====
-- Runs of the routing manager and its theorems at them.
use viswall.Prelude.{
  true, false, ◌≡◌, refl, none, some, List, [], ◌∷◌, ◌++◌, All, if◌then◌else◌, str_eq,
}
use viswall.Prelude.Json.{pos}
use viswall.Prelude.Dict.{get_or}
use viswall.Firewall.Routing.{
  Python, null, int, word, Entry, number, is_reserved, table_id, prefix, route_prefix, mark, to_int,
  Rule, Route, same_rule, same_route,
}
use viswall.Firewall.Routing.Desired.{
  Collected, parse, table_routes, entry_objects, collect, distinct, desired,
}
use viswall.Firewall.Routing.Live.{Live, owned, live_prefix, live_rule, live_route, read_rows}
use viswall.Firewall.Routing.Reconcile.{stale, missing, reconciled}
use viswall.Firewall.Routing.Commands.{Argv, table_name, rule_args, route_args}
use viswall.Firewall.Routing.Apply.{
  Manager, Host, Outcome, returned, raised, rows, unreadable, find_line, ensure_table, mutate, each,
  tables_of, reconcile, apply_routing,
}
use viswall.Firewall.Routing.Apply.Due.{Due, apply_routing-Due}
use viswall.Firewall.Routing.Apply.Settles.{apply_routing-settles}
use viswall.Firewall.Routing.Main.{desired-IsOutside}

abbrev python : Python
python = record {
  int_of = λ s. if str_eq s "100" then some (pos 100) else none;
  int0_of = λ s. none;
  is_digit = λ s. str_eq s "100";
  network = λ s. if str_eq s "nonsense" then none else some s;
}

-- Packets that come in at eth1 leave by a gateway of their own.
abbrev entry : Entry
entry =
    ("inbound_interface", word "eth1")
    ∷ ("outbound_interface", word "eth0")
    ∷ ("gateway", word "192.0.2.1")
    ∷ ("table", int (pos 100))
    ∷ ("priority", int (pos 50))
    ∷ []

abbrev rule : Rule
rule = record {
  priority = pos 50;
  table = number (pos 100);
  source = none;
  destination = none;
  mark = none;
  interface = word "eth1";
}

abbrev route : Route
route = record {
  destination = "default";
  table = number (pos 100);
  gateway = word "192.0.2.1";
  interface = word "eth0";
  source = null;
  metric = null;
}

abbrev wanted : Collected
wanted = record { errors = []; rules = rule ∷ []; routes = route ∷ [] }

asked_once : desired python (entry ∷ []) ≡ some wanted
unfolding get_or desired collect parse table_id prefix mark to_int entry_objects table_routes
    route_prefix distinct
asked_once = refl

desired-IsOutside_example : All (λ r. is_reserved r.table ≡ false) wanted.routes
unfolding get_or
desired-IsOutside_example = desired-IsOutside python (entry ∷ []) wanted (refl, tt) asked_once

-- An entry of the kind "route" can ask for a default route in table main.
abbrev to_main : Entry
to_main = ("kind", word "route") ∷ ("gateway", word "192.0.2.1") ∷ []

abbrev main_default : Route
main_default = record {
  destination = "default";
  table = number (pos 254);
  gateway = word "192.0.2.1";
  interface = null;
  source = null;
  metric = null;
}

wanted_main :
    desired python (to_main ∷ [])
    ≡ some (record { errors = []; rules = []; routes = main_default ∷ [] })
unfolding get_or desired collect parse table_id prefix mark to_int entry_objects route_prefix
    distinct
wanted_main = refl

-- A malformed destination of a route leaves the loop as an exception; a malformed priority does not.
malformed_destination :
    desired python ((("route_destination", word "nonsense") ∷ entry) ∷ []) ≡ none
unfolding get_or desired collect parse table_id prefix mark to_int entry_objects table_routes
    route_prefix
malformed_destination = refl

malformed_priority :
    desired python ((("priority", word "high") ∷ entry) ∷ [])
    ≡ some (record { errors = 0 ∷ []; rules = []; routes = [] })
unfolding get_or desired collect parse table_id prefix mark to_int distinct
malformed_priority = refl

abbrev manager : Manager
manager = record { rt_tables = []; file = []; mutations = []; file_mutations = []; errors = [] }

abbrev rule_row : Entry
rule_row =
    ("priority", int (pos 50))
    ∷ ("src", word "all")
    ∷ ("iif", word "eth1")
    ∷ ("table", word "vw-table-100")
    ∷ ("protocol", word "30")
    ∷ []

abbrev route_row : Entry
route_row =
    ("dst", word "default")
    ∷ ("gateway", word "192.0.2.1")
    ∷ ("dev", word "eth0")
    ∷ ("protocol", word "30")
    ∷ ("table", word "vw-table-100")
    ∷ []

-- The host's own default route.
abbrev host_route : Entry
host_route = ("dst", word "default") ∷ ("gateway", word "198.51.100.1") ∷ ("dev", word "eth0") ∷ []

abbrev host : List Entry → List Entry → Host
host rules routes = record {
  ip = λ ran argv. record { code = 0; err = "" };
  writable = true;
  rules = rows rules;
  routes = rows routes;
}

abbrev manager_of : Outcome → Manager
manager_of (returned ok m) = m
manager_of (raised m) = m

abbrev first : Manager
first = manager_of (apply_routing python (host [] (host_route ∷ [])) false (entry ∷ []) manager)

first_time :
    apply_routing python (host [] (host_route ∷ [])) false (entry ∷ []) manager
    ≡ returned true first
unfolding get_or apply_routing desired collect parse table_id prefix mark to_int entry_objects
    table_routes route_prefix distinct tables_of each ensure_table find_line read_rows live_rule
    live_route live_prefix owned reconcile stale missing same_rule same_route mutate rule_args
    route_args table_name
first_time = refl

first_commands :
    first.mutations
    ≡ ("ip" ∷ "rule" ∷ "add" ∷ "iif" ∷ "eth1" ∷ "table" ∷ "vw-table-100" ∷ "prio" ∷ "50"
        ∷ "protocol" ∷ "30" ∷ [])
      ∷ ("ip" ∷ "route" ∷ "add" ∷ "default" ∷ "via" ∷ "192.0.2.1" ∷ "dev" ∷ "eth0" ∷ "table"
          ∷ "vw-table-100" ∷ "proto" ∷ "30" ∷ [])
      ∷ []
unfolding get_or apply_routing desired collect parse table_id prefix mark to_int entry_objects
    table_routes route_prefix distinct tables_of each ensure_table find_line read_rows live_rule
    live_route live_prefix owned reconcile stale missing same_rule same_route mutate rule_args
    route_args table_name
first_commands = refl

abbrev host_live : Live Route
host_live = record {
  is_owned = false;
  key = record {
    destination = "default";
    table = number (pos 254);
    gateway = word "198.51.100.1";
    interface = word "eth0";
    source = null;
    metric = null;
  };
}

apply_routing-Due_example :
    (c : Collected) × (rules : List (Live Rule)) × (routes : List (Live Route)) × (issued : List
      Argv)
    × (desired python (entry ∷ []) ≡ some c)
    × (read_rows (live_rule python) [] ≡ some rules)
    × (read_rows (live_route python) (host_route ∷ []) ≡ some routes)
    × (first.mutations ≡ [] ++ issued)
    × Due first.rt_tables c rules routes issued
apply_routing-Due_example =
    apply_routing-Due python (host [] (host_route ∷ [])) false (entry ∷ []) manager first true
      first_time

abbrev synced : Host
synced = host (rule_row ∷ []) (host_route ∷ route_row ∷ [])

abbrev second : Manager
second = manager_of (apply_routing python synced false (entry ∷ []) manager)

second_time : apply_routing python synced false (entry ∷ []) manager ≡ returned true second
unfolding get_or apply_routing desired collect parse table_id prefix mark to_int entry_objects
    table_routes route_prefix distinct tables_of each ensure_table find_line read_rows live_rule
    live_route live_prefix owned reconcile stale missing same_rule same_route mutate rule_args
    route_args table_name
second_time = refl

second_commands : second.mutations ≡ []
unfolding get_or apply_routing desired collect parse table_id prefix mark to_int entry_objects
    table_routes route_prefix distinct tables_of each ensure_table find_line read_rows live_rule
    live_route live_prefix owned reconcile stale missing same_rule same_route mutate rule_args
    route_args table_name
second_commands = refl

synced_rules :
    read_rows (live_rule python) (rule_row ∷ []) ≡ some (reconciled same_rule wanted.rules [])
unfolding get_or read_rows live_rule live_route live_prefix table_id route_prefix mark to_int owned
    reconciled missing same_rule same_route
synced_rules = refl

synced_routes :
    read_rows (live_route python) (host_route ∷ route_row ∷ [])
    ≡ some (reconciled same_route wanted.routes (host_live ∷ []))
unfolding get_or read_rows live_rule live_route live_prefix table_id route_prefix mark to_int owned
    reconciled missing same_rule same_route
synced_routes = refl

apply_routing-settles_example : second.mutations ≡ []
apply_routing-settles_example =
    apply_routing-settles python synced false (entry ∷ []) manager second true wanted []
      (host_live ∷ []) asked_once synced_rules synced_routes second_time

ensured : (ensure_table synced (number (pos 100)) manager).0 ≡ true
unfolding ensure_table find_line
ensured = refl

-- Where the live objects cannot be read, all that is wanted is added, and the result is still true.
abbrev blind : Host
blind = record {
  ip = λ ran argv. record { code = 0; err = "" };
  writable = true;
  rules = unreadable;
  routes = unreadable;
}

abbrev blindly : Manager
blindly = manager_of (apply_routing python blind false (entry ∷ []) manager)

blind_time : apply_routing python blind false (entry ∷ []) manager ≡ returned true blindly
unfolding get_or apply_routing desired collect parse table_id prefix mark to_int entry_objects
    table_routes route_prefix distinct tables_of each ensure_table find_line read_rows live_rule
    live_route live_prefix owned reconcile stale missing same_rule same_route mutate rule_args
    route_args table_name
blind_time = refl

blindly_commands : blindly.mutations ≡ first.mutations
unfolding get_or apply_routing desired collect parse table_id prefix mark to_int entry_objects
    table_routes route_prefix distinct tables_of each ensure_table find_line read_rows live_rule
    live_route live_prefix owned reconcile stale missing same_rule same_route mutate rule_args
    route_args table_name
blindly_commands = refl
