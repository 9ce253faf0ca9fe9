-- ===== src/Firewall/Routing/Desired.antt =====
-- services/firewall-service/viswall_firewall_agent/routing.py: `_desired`, the rules and routes that a
-- payload asks for.
use viswall.Prelude.{
  ℕ, ◌+◌, Bool, true, false, not, ◌&&◌, ◌||◌, Option, none, some, List, [], ◌∷◌, ◌++◌, String,
  if◌then◌else◌, str_eq, ◌>>=◌,
}
use viswall.Prelude.Json.{ℤ, pos, is_zero}
use viswall.Prelude.Dict.{get_or}
use viswall.Firewall.Routing.{
  Scalar, null, flag, int, word, Entry, Python, is_true, or_else, value, TableId, is_reserved,
  table_id, prefix, route_prefix, mark, to_int, Rule, Route, same_rule, same_route,
}

-- The values that are read inside `try`.
pub record Parsed : Type 0 where
  pub kind : Scalar
  pub table : TableId
  pub priority : ℤ
  pub source : Option String
  pub destination : Option String
  pub outbound : Scalar
  pub interface : Scalar
  pub mark : Option ℤ
  pub gateway : Scalar
  pub metric : Scalar

abbrev pub is_null : Scalar → Bool
is_null null = true
is_null v = false

abbrev pub is_word : Scalar → String → Bool
is_word (word s) t = str_eq s t
is_word v t = false

-- `entry.get("enabled", True) is False`
abbrev is_disabled : Scalar → Bool
is_disabled (flag b) = not b
is_disabled v = false

abbrev is_empty : Entry → Bool
is_empty [] = true
is_empty (item ∷ items) = false

abbrev pub skipped : Entry → Bool
skipped entry = is_empty entry || is_disabled (get_or entry "enabled" (flag true))

abbrev text_or_null : Option String → Scalar
text_or_null none = null
text_or_null (some s) = word s

abbrev has_text : Option String → Bool
has_text none = false
has_text (some s) = not (str_eq s "")

abbrev has_mark : Option ℤ → Bool
has_mark none = false
has_mark (some n) = not (is_zero n)

-- `any((source, destination, mark, interface))`
abbrev matched : Parsed → Bool
matched p = has_text p.source || has_text p.destination || has_mark p.mark || is_true p.interface

-- What the loop collects: the indices of the entries with an error, the rules and the routes.
pub record Collected : Type 0 where
  pub errors : List ℕ
  pub rules : List Rule
  pub routes : List Route

module _ (py : Python) where
  -- `none` is a `ValueError` or a `TypeError`.
  unfoldable pub parse : Entry → Option Parsed
  parse entry = do
    table ← table_id py (get_or entry "table" (int (pos 254)))
    priority ← to_int py (
        or_else (get_or entry "priority" (get_or entry "order_index" (int (pos 100))))
          (int (pos 100)))
    source ← prefix py (get_or entry "source" (value entry "source_network"))
    destination ← prefix py (get_or entry "destination" (value entry "dest_network"))
    read ← mark py (value entry "mark")
    some (record {
      kind = value entry "kind";
      table = table;
      priority = priority;
      source = source;
      destination = destination;
      outbound = or_else (value entry "outbound_interface") (value entry "interface");
      interface =
          or_else (or_else (value entry "inbound_interface") (value entry "iif"))
            (value entry "interface");
      mark = read;
      gateway = value entry "gateway";
      metric = value entry "metric";
    })

  abbrev pub route_to : Entry → Parsed → String → Route
  route_to entry p destination = record {
    destination = destination;
    table = p.table;
    gateway = p.gateway;
    interface = p.outbound;
    source = or_else (value entry "route_source") (text_or_null p.source);
    metric = p.metric;
  }

  -- The entry's route, where `kind` is "route"; `none` is a `ValueError` that leaves the loop.
  abbrev explicit_route : Entry → Parsed → Option Route
  explicit_route entry p = do
    destination ← route_prefix py (
        or_else (value entry "route_destination")
          (or_else (value entry "destination") (word "default")))
    some (route_to entry p destination)

  abbrev pub one_route : Option Route → Option (List Route)
  one_route found = do r ← found; some (r ∷ [])

  -- The route of a matched entry's lookup table.
  unfoldable pub table_routes : Entry → Parsed → Option (List Route)
  table_routes entry p =
      if is_null p.kind && is_true p.gateway && not (is_reserved p.table)
      then one_route (do
        destination ← route_prefix py (or_else (value entry "route_destination") (word "default"))
        some (route_to entry p destination))
      else some []

  abbrev pub rules_of : Parsed → List Rule
  rules_of p =
      if is_null p.kind && not (matched p) && (is_true p.gateway || is_reserved p.table)
      then []
      else record {
        priority = p.priority;
        table = p.table;
        source = p.source;
        destination = p.destination;
        mark = p.mark;
        interface = p.interface;
      }
        ∷ []

  -- The rules and routes of one entry that was read.
  unfoldable pub entry_objects : Entry → Parsed → Option (List Rule × List Route)
  entry_objects entry p =
      if is_word p.kind "route"
      then (do r ← explicit_route entry p; some ([], r ∷ []))
      else (do routes ← table_routes entry p; some (rules_of p, routes))

  abbrev pub add_objects : Option (List Rule × List Route) → Option Collected → Option Collected
  add_objects none rest = none
  add_objects (some objects) none = none
  add_objects (some (rules, routes)) (some c) =
      some (record { errors = c.errors; rules = rules ++ c.rules; routes = routes ++ c.routes })

  abbrev pub add_error : ℕ → Option Collected → Option Collected
  add_error index none = none
  add_error index (some c) =
      some (record { errors = index ∷ c.errors; rules = c.rules; routes = c.routes })

  abbrev pub collect_one : ℕ → Entry → Option Parsed → Option Collected → Option Collected
  collect_one index entry none rest = add_error index rest
  collect_one index entry (some p) rest = add_objects (entry_objects entry p) rest

  -- The loop; `none` is an exception that leaves it.
  unfoldable pub collect : ℕ → List Entry → Option Collected
  collect index [] = some (record { errors = []; rules = []; routes = [] })
  collect index (entry ∷ entries) =
      let rest = collect (index + 1) entries in
      if skipped entry then rest else collect_one index entry (parse entry) rest

  abbrev error_before : ℕ → Option Parsed → Option (List Rule × List Route) → List ℕ → List ℕ
  error_before index none objects rest = index ∷ rest
  error_before index (some p) none rest = []
  error_before index (some p) (some objects) rest = rest

  abbrev objects_of : Entry → Option Parsed → Option (List Rule × List Route)
  objects_of entry none = none
  objects_of entry (some p) = entry_objects entry p

  -- The errors that stand in `errors` when an exception leaves the loop.
  abbrev pub errors_before : ℕ → List Entry → List ℕ
  errors_before index [] = []
  errors_before index (entry ∷ entries) =
      let rest = errors_before (index + 1) entries in
      if skipped entry
      then rest
      else error_before index (parse entry) (objects_of entry (parse entry)) rest

-- `list({key(x): x for x in xs}.values())`; two objects with the same key are the same, but for 1 and True.
module _ {A : Type 0} (same : A → A → Bool) where
  abbrev pub holds : A → List A → Bool
  holds a [] = false
  holds a (x ∷ xs) = if same a x then true else holds a xs

  abbrev pub without : A → List A → List A
  without a [] = []
  without a (x ∷ xs) = let rest = without a xs in if same a x then rest else x ∷ rest

  unfoldable pub distinct : List A → List A
  distinct [] = []
  distinct (x ∷ xs) = x ∷ without x (distinct xs)

-- `_desired`
unfoldable pub desired : Python → List Entry → Option Collected
desired py entries = do
  c ← collect py 0 entries
  some (record {
    errors = c.errors;
    rules = distinct same_rule c.rules;
    routes = distinct same_route c.routes;
  })
