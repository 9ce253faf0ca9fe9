-- ===== src/Gateway/Routes.antt =====
-- services/api-gateway/utils/firewall_dispatch.py against routing.py of the firewall agent: a payload of
-- the gateway never asks for a route.
use viswall.Prelude.{
  true, false, ◌≡◌, refl, sym, subst, ap, ◌∙◌, some, List, [], ◌∷◌, map, String, All, arith,
}
use viswall.Prelude.Json.{pos}
use viswall.Prelude.Dict.{get_or}
use viswall.Firewall.Routing.{
  Scalar, null, int, Entry, Python, value, number, is_reserved, table_id, Route,
}
use viswall.Firewall.Routing.Desired.{
  Parsed, is_word, rules_of, table_routes, entry_objects, Collected, desired,
}
use viswall.Firewall.Routing.Main.{parse-kind_and_table, Gives, desired-All}
use viswall.Gateway.Dispatch.{RoutingRow, has_key, drop_none, routing_fields, routing_payload}

get_or-absent :
    (fields : Entry) (key : String) (default : Scalar)
    → has_key key fields ≡ false
    → get_or (drop_none fields) key default ≡ default
unfolding get_or drop_none
get_or-absent [] key default h = refl
get_or-absent ((k, v) ∷ fields) key default h = ground (arith, get_or-absent fields key default)

-- The keys table and kind are not in a payload.
routing_payload-table :
    (py : Python) (row : RoutingRow)
    → (table_id py (get_or (routing_payload row) "table" (int (pos 254))) ≡ some (number (pos 254)))
      × (value (routing_payload row) "kind" ≡ null)
unfolding table_id
routing_payload-table py row = (
  ap (table_id py) (get_or-absent (routing_fields row) "table" (int (pos 254)) refl),
  get_or-absent (routing_fields row) "kind" null refl,
)

abbrev IsNone : Route → Type 0
IsNone r = ⊥

table_routes-nil :
    (py : Python) (entry : Entry) (p : Parsed)
    → p.table ≡ number (pos 254)
    → table_routes py entry p ≡ some []
unfolding table_routes
table_routes-nil py entry p h =
    let reserved : is_reserved p.table ≡ true = subst (λ t. is_reserved t ≡ true) (sym h) refl in
    ground (arith, reserved)

routing_payload-Gives : (py : Python) (row : RoutingRow) → Gives py IsNone (routing_payload row)
unfolding entry_objects
routing_payload-Gives py row p rules routes is e =
    let (kind_is, table_is) = parse-kind_and_table py (routing_payload row) p is in
    let (at_main, no_kind) = routing_payload-table py row in
    let kind : p.kind ≡ null = kind_is ∙ no_kind in
    let table : p.table ≡ number (pos 254) = cc in
    let nothing = table_routes-nil py (routing_payload row) p table in
    let policy : is_word p.kind "route" ≡ false =
      subst (λ k. is_word k "route" ≡ false) (sym kind) refl in
    let step : entry_objects py (routing_payload row) p ≡ some (rules_of py p, []) =
      rw (policy, nothing) refl in
    let same : routes ≡ [] = cc in rw same tt

payloads-Give :
    (py : Python) (rows : List RoutingRow) → All (Gives py IsNone) (map routing_payload rows)
payloads-Give py [] = tt
payloads-Give py (row ∷ rows) = (routing_payload-Gives py row, payloads-Give py rows)

no_routes : (routes : List Route) → All IsNone routes → routes ≡ []
no_routes [] all = refl
no_routes (r ∷ routes) all = elim all.0 [ ]

-- Whatever the routing rules of an instance say, gateways and interfaces included, the firewall agent finds
-- no route in what the gateway sends for them.
pub desired-routing_payload :
    (py : Python) (rows : List RoutingRow) (c : Collected)
    → desired py (map routing_payload rows) ≡ some c
    → c.routes ≡ []
desired-routing_payload py rows c h =
    no_routes c.routes
      (desired-All py IsNone (map routing_payload rows) c (payloads-Give py rows) h)
