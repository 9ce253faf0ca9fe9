-- ===== src/Firewall/Routing/Commands.antt =====
-- services/firewall-service/viswall_firewall_agent/routing.py: the arguments of `ip` for a rule and for a
-- route, with the names of their tables.
use viswall.Prelude.{Option, none, some, List, [], ◌∷◌, ◌++◌, String, if◌then◌else◌, str_eq}
use viswall.Prelude.Json.{ℤ, pos, int_eq, is_zero}
use viswall.Prelude.Texts.{concat, decimal_int}
use viswall.Firewall.Routing.{
  Scalar, null, is_true, text_of, TableId, number, named, is_reserved, Rule, Route,
}

abbrev pub Argv : Type 0
Argv = List String

abbrev pub table_text : ℤ → String
table_text n = concat ("vw-table-" ∷ decimal_int n ∷ [])

abbrev registered : ℤ → List (ℤ × String) → String
registered n [] = table_text n
registered n ((k, name) ∷ names) = if int_eq k n then name else registered n names

-- `_table_name`
unfoldable pub table_name : List (ℤ × String) → TableId → String
table_name names (named s) = s
table_name names (number n) =
    if is_reserved (number n)
    then (if int_eq n (pos 0)
        then "unspec"
        else if int_eq n (pos 253)
        then "default"
        else if int_eq n (pos 254)
        then "main"
        else "local")
    else registered n names

abbrev option_args : String → Option String → List String
option_args word none = []
option_args word (some s) = if str_eq s "" then [] else word ∷ s ∷ []

abbrev scalar_args : String → Scalar → List String
scalar_args word v = if is_true v then word ∷ text_of v ∷ [] else []

abbrev mark_args : Option ℤ → List String
mark_args none = []
mark_args (some n) = if is_zero n then [] else "fwmark" ∷ decimal_int n ∷ []

-- `if route.metric is not None`
abbrev metric_args : Scalar → List String
metric_args null = []
metric_args v = "metric" ∷ text_of v ∷ []

-- `_rule_args`, after "ip"
unfoldable pub rule_args : List (ℤ × String) → (action : String) → Rule → Argv
rule_args names action r =
    "rule"
    ∷ action
    ∷ (option_args "from" r.source
        ++ (option_args "to" r.destination
            ++ (mark_args r.mark
                ++ (scalar_args "iif" r.interface
                    ++ "table"
                      ∷ table_name names r.table
                      ∷ "prio"
                      ∷ decimal_int r.priority
                      ∷ "protocol"
                      ∷ "30"
                      ∷ []))))

-- `_route_args`, after "ip"
unfoldable pub route_args : List (ℤ × String) → (action : String) → Route → Argv
route_args names action r =
    "route"
    ∷ action
    ∷ r.destination
    ∷ (scalar_args "via" r.gateway
        ++ (scalar_args "dev" r.interface
            ++ (scalar_args "src" r.source
                ++ (metric_args r.metric
                    ++ "table" ∷ table_name names r.table ∷ "proto" ∷ "30" ∷ []))))
