-- ===== src/Firewall/Routing/Apply.antt =====
-- services/firewall-service/viswall_firewall_agent/routing.py: `RoutingManager`, its state and
-- `apply_routing`.
pub mod Delta
pub mod Due
pub mod Settles
use viswall.Prelude.{
  ℕ, Bool, true, false, not, ◌&&◌, Option, none, some, List, [], ◌∷◌, ◌++◌, map, String,
  if◌then◌else◌, str_eq, ◌==◌,
}
use viswall.Prelude.Json.{ℤ, pos, negsuc, int_eq, is_zero}
use viswall.Prelude.Texts.{concat, decimal_int, text_le}
use viswall.Firewall.Routing.{
  Scalar, null, Entry, Python, is_true, text_of, TableId, number, named, table_eq, is_reserved,
  Rule, Route, same_rule, same_route,
}
use viswall.Firewall.Routing.Desired.{Collected, desired, distinct, errors_before}
use viswall.Firewall.Routing.Commands.{Argv, table_text, rule_args, route_args}
use viswall.Firewall.Routing.Live.{Live, live_rule, live_route, read_rows}
use viswall.Firewall.Routing.Reconcile.{keys, stale, missing}

pub record Exit : Type 0 where
  pub code : ℕ
  pub err : String

-- A line of rt_tables with two fields at least: the first one where it is a number, and the second.
pub record TableLine : Type 0 where
  pub table : Option ℤ
  pub name : String

-- The texts in `errors`.
pub data Problem : Type 0 where
  bad_entry : (index : ℕ) → Problem
  not_registered : ℤ → Problem
  not_read : (what : String) → Problem
  failed : Argv → (code : ℕ) → (err : String) → Problem

-- `self`, and the file rt_tables
pub record Manager : Type 0 where
  pub rt_tables : List (ℤ × String)
  pub file : List TableLine
  pub mutations : List Argv
  pub file_mutations : List (ℤ × String)
  pub errors : List Problem

-- The rows that an `ip -j` command prints, or why there are none.
pub data Reading : Type 0 where
  rows : List Entry → Reading
  unreadable : Reading

-- The host: the answer to a command after those that were issued before, whether rt_tables can be
-- written, and what is live.
pub record Host : Type 0 where
  pub ip : List Argv → Argv → Exit
  pub writable : Bool
  pub rules : Reading
  pub routes : Reading

abbrev pub with_error : Problem → Manager → Manager
with_error e m = record {
  rt_tables = m.rt_tables;
  file = m.file;
  mutations = m.mutations;
  file_mutations = m.file_mutations;
  errors = m.errors ++ e ∷ [];
}

abbrev pub line_name : ℤ → Option ℤ → String → Option String → Option String
line_name n none name rest = rest
line_name n (some k) name rest = if int_eq k n then some name else rest

unfoldable pub find_line : ℤ → List TableLine → Option String
find_line n [] = none
find_line n (l ∷ lines) = line_name n l.table l.name (find_line n lines)

abbrev pub register : Bool → ℤ → Option String → Manager → Bool × Manager
register writable n (some name) m = (
  true,
  record {
    rt_tables = (n, name) ∷ m.rt_tables;
    file = m.file;
    mutations = m.mutations;
    file_mutations = m.file_mutations;
    errors = m.errors;
  },
)
register false n none m = (false, with_error (not_registered n) m)
register true n none m = (
  true,
  record {
    rt_tables = (n, table_text n) ∷ m.rt_tables;
    file = m.file ++ record { table = some n; name = table_text n } ∷ [];
    mutations = m.mutations;
    file_mutations = m.file_mutations ++ (n, table_text n) ∷ [];
    errors = m.errors;
  },
)

-- `_ensure_table`
unfoldable pub ensure_table : Host → TableId → Manager → Bool × Manager
ensure_table host (named s) m = (true, m)
ensure_table host (number n) m =
    if is_reserved (number n) then (true, m) else register host.writable n (find_line n m.file) m

abbrev pub recorded : Argv → Manager → Manager
recorded command m = record {
  rt_tables = m.rt_tables;
  file = m.file;
  mutations = m.mutations ++ command ∷ [];
  file_mutations = m.file_mutations;
  errors = m.errors;
}

-- `_mutate`, where `dry_run` is set or not. A start of ip that raises, here or at a read, is not modelled.
unfoldable pub mutate : Host → (dry_run : Bool) → Argv → Manager → Bool × Manager
mutate host true args m = (true, recorded ("ip" ∷ args) m)
mutate host false args m =
    let exit = host.ip m.mutations args in
    let done = recorded ("ip" ∷ args) m in
    if exit.code == 0
    then (true, done)
    else (false, with_error (failed ("ip" ∷ args) exit.code exit.err) done)

-- A loop of `ok = (await ...) and ok`.
module _ {A : Type 0} (step : A → Manager → Bool × Manager) where
  abbrev pub and_before : Bool → Bool × Manager → Bool × Manager
  and_before ok (done, m) = (done && ok, m)

  unfoldable pub each : List A → Bool × Manager → Bool × Manager
  each [] s = s
  each (a ∷ as_) (ok, m) = each as_ (and_before ok (step a m))

-- `sorted(tables, key=str)`
abbrev table_id_text : TableId → String
table_id_text (number n) = decimal_int n
table_id_text (named s) = s

abbrev insert_table : TableId → List TableId → List TableId
insert_table t [] = t ∷ []
insert_table t (u ∷ us) =
    if text_le (table_id_text t) (table_id_text u) then t ∷ u ∷ us else u ∷ insert_table t us

abbrev sort_tables : List TableId → List TableId
sort_tables [] = []
sort_tables (t ∷ ts) = insert_table t (sort_tables ts)

-- The tables of the wanted objects, once each; a table that `_table` returned is its own `_table`.
unfoldable pub tables_of : Collected → List TableId
tables_of c =
    sort_tables (distinct table_eq (map (λ r. r.table) c.rules ++ map (λ r. r.table) c.routes))

-- `_json`
abbrev pub rows_of : (what : String) → Reading → Manager → List Entry × Manager
rows_of what (rows entries) m = (entries, m)
rows_of what unreadable m = ([], with_error (not_read what) m)

-- The four loops.
module _ (host : Host) (dry_run : Bool) (c : Collected) where
  abbrev change_rule : (action : String) → Rule → Manager → Bool × Manager
  change_rule action r m = mutate host dry_run (rule_args m.rt_tables action r) m

  abbrev change_route : (action : String) → Route → Manager → Bool × Manager
  change_route action r m = mutate host dry_run (route_args m.rt_tables action r) m

  unfoldable pub reconcile : List (Live Rule) → List (Live Route) → Bool × Manager → Bool × Manager
  reconcile rules routes s =
      each (change_route "add") (missing same_route (keys same_route routes) c.routes) (
        each (change_rule "add") (missing same_rule (keys same_rule rules) c.rules) (
          each (change_route "del") (stale same_route c.routes routes)
            (each (change_rule "del") (stale same_rule c.rules rules) s)))

-- What leaves `apply_routing`: a result, or an exception.
pub data Outcome : Type 0 where
  returned : Bool → Manager → Outcome
  raised : Manager → Outcome

abbrev pub reconcile_read :
    Host
    → (dry_run : Bool) → Collected
    → Bool
    → Manager
    → Option (List (Live Rule))
    → Option (List (Live Route))
    → Outcome
reconcile_read host dry_run c ok m (some rules) (some routes) =
    let done = reconcile host dry_run c rules routes (ok, m) in returned done.0 done.1
reconcile_read host dry_run c ok m none routes = raised m
reconcile_read host dry_run c ok m (some rules) none = raised m

abbrev bad_entries : List ℕ → List Problem
bad_entries [] = []
bad_entries (n ∷ ns) = bad_entry n ∷ bad_entries ns

abbrev pub started : List Problem → Manager → Manager
started errors m = record {
  rt_tables = m.rt_tables;
  file = m.file;
  mutations = m.mutations;
  file_mutations = m.file_mutations;
  errors = errors;
}

abbrev pub apply_collected : Python → Host → (dry_run : Bool) → Collected → Manager → Outcome
apply_collected py host dry_run c m0 =
    let (ok, m1) =
      each (ensure_table host) (tables_of c) (true, started (bad_entries c.errors) m0) in
    let (rule_rows, m2) = rows_of "rule" host.rules m1 in
    let (route_rows, m3) = rows_of "route show table all" host.routes m2 in
    reconcile_read host dry_run c ok m3 (read_rows (live_rule py) rule_rows)
      (read_rows (live_route py) route_rows)

-- An exception in `_desired` leaves before anything is changed.
unfoldable pub apply_routing : Python → Host → (dry_run : Bool) → List Entry → Manager → Outcome
apply_routing py host dry_run entries m = elim (desired py entries) [
  | none ↦ raised (started (bad_entries (errors_before py 0 entries)) m)
  | some c ↦ apply_collected py host dry_run c m
]
