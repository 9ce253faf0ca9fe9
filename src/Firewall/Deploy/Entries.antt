-- ===== src/Firewall/Deploy/Entries.antt =====
-- services/firewall-service/viswall_firewall_agent/api.py: the rules of a payload of the gateway as rules of
-- the renderer.
use Prim.Native.Char.{code}
use viswall.Prelude.{
  ℕ, ◌+◌, ◌-◌, zero, suc, Bool, true, false, ◌&&◌, ◌||◌, Option, none, some, List, [], ◌∷◌, ◌++◌,
  map, String, if◌then◌else◌, str_eq, ◌==◌, leb, ltb, truthy, ◌>>=◌,
}
use viswall.Prelude.Json.{ℤ, pos, negsuc}
use viswall.Prelude.Texts.{contains, split}
use viswall.Firewall.Routing.{Scalar, null, flag, int, word, Entry, is_true, value, to_int, or_else}
use viswall.Firewall.Routing
use viswall.Firewall.Nft.Rules.{
  FirewallAction, accept, drop, reject, log, queue, FirewallRule, NatRule, Python, is_some,
  has_char,
}
use viswall.Firewall.Nft.Convert.{normalize_to_addr}

-- `part.partition("-")`, for a part that has a dash
abbrev pub before_dash : String → String
before_dash String.[] = ""
before_dash (String.◌∷◌ c s) = if code c == b'-' then "" else String.◌∷◌ c (before_dash s)

abbrev pub after_dash : String → String
after_dash String.[] = ""
after_dash (String.◌∷◌ c s) = if code c == b'-' then s else after_dash s

-- `range(low, low + count)`
abbrev pub range_from : (low count : ℕ) → List ℕ
range_from low zero = []
range_from low (suc count) = low ∷ range_from (low + 1) count

-- A number that is no natural one is out of range.
abbrev natural : Option ℤ → Option ℕ
natural none = none
natural (some (pos n)) = some n
natural (some (negsuc n)) = none

abbrev pub in_order : (low high : ℕ) → Bool
in_order low high = leb 1 low && leb low high && leb high 65535

-- `none` is a range that is too wide, which empties the whole list.
abbrev pub port_range : Option ℕ → Option ℕ → Option (List ℕ)
port_range none high = some []
port_range (some low) none = some []
port_range (some low) (some high) =
    if in_order low high
    then (if ltb 256 (high - low + 1) then none else some (range_from low (high - low + 1)))
    else some []

abbrev pub one_port : Option ℕ → List ℕ
one_port none = []
one_port (some n) = if leb 1 n && leb n 65535 then n ∷ [] else []

abbrev pub or_nothing : Option (List ℕ) → List ℕ
or_nothing none = []
or_nothing (some ports) = ports

-- The value of a text; a value of another type counts as absent, as the gateway sends texts.
abbrev pub text_value : Scalar → Option String
text_value (word s) = some s
text_value v = none

-- `name` is read with `name or ""` throughout, so a null counts as the empty text.
abbrev pub name_value : Scalar → Option String
name_value null = some ""
name_value (word s) = some s
name_value v = none

abbrev pub is_given : String → Entry → Bool
is_given key [] = false
is_given key ((k, v) ∷ entry) = if str_eq k key then true else is_given key entry

module _ (texts : Routing.Python) (py : Python) where
  abbrev pub ports_of_part : String → Option (List ℕ)
  ports_of_part s =
      if str_eq s ""
      then some []
      else if has_char b'-' s
      then port_range (natural (texts.int_of (before_dash s)))
          (natural (texts.int_of (after_dash s)))
      else some (one_port (natural (texts.int_of s)))

  abbrev pub ports_of_parts : List String → Option (List ℕ)
  ports_of_parts [] = some []
  ports_of_parts (s ∷ parts) = do
    ports ← ports_of_part (py.strip s)
    rest ← ports_of_parts parts
    some (ports ++ rest)

  -- `_parse_service_ports`
  unfoldable pub parse_service_ports : Option String → List ℕ
  parse_service_ports none = []
  parse_service_ports (some raw) = or_nothing (ports_of_parts (split b',' raw))

  -- `_rule_chain`
  unfoldable pub rule_chain : String → String
  rule_chain name =
      if contains "anti-spoof" (py.lower name) || contains "internal-port" (py.lower name)
      then "forward"
      else "input"

  abbrev is_source_type : Option String → Bool
  is_source_type none = false
  is_source_type (some s) = str_eq s "host" || str_eq s "network" || str_eq s "range"

  abbrev pub if_typed : (kind given : Option String) → Option String
  if_typed kind given = if is_source_type kind then given else none

  -- `FirewallAction(text)`; `none` is a `ValueError`.
  abbrev pub action_of : String → Option FirewallAction
  action_of s =
      if str_eq s "accept"
      then some accept
      else if str_eq s "drop"
      then some drop
      else if str_eq s "reject"
      then some reject
      else if str_eq s "log"
      then some log
      else if str_eq s "queue"
      then some queue
      else none

  abbrev pub or_text : Option String → String → String
  or_text none s = s
  or_text (some t) s = if str_eq t "" then s else t

  -- `int(value or 0)` as an order; an order below 0 is not modelled.
  abbrev pub order_of : Scalar → Option ℕ
  order_of v = natural (to_int texts (or_else v (int (pos 0))))

  abbrev id_of : Scalar → ℕ
  id_of (int (pos n)) = n
  id_of v = 0

  -- The rule that the values of an entry describe, without a destination port.
  abbrev pub base_rule :
      (String → Scalar) → (name : String) → FirewallAction → (order : ℕ) → Option ℕ → FirewallRule
  base_rule at name action order destination_port = record {
    id = id_of (at "id");
    name = name;
    chain = rule_chain name;
    source = if_typed (text_value (at "source_type")) (text_value (at "source_value"));
    destination = if_typed (text_value (at "dest_type")) (text_value (at "dest_value"));
    protocol = truthy (text_value (at "service_protocol"));
    source_port = none;
    destination_port = destination_port;
    interface_in = text_value (at "interface_in");
    interface_out = text_value (at "interface_out");
    action = action;
    log_matches = is_true (at "log_enabled");
    state = none;
    limit = text_value (at "limit");
    comment = none;
    order = order;
    anti_spoof = contains "anti-spoof" (py.lower name);
  }

  abbrev pub per_port : (Option ℕ → FirewallRule) → List ℕ → List FirewallRule
  per_port rule [] = rule none ∷ []
  per_port rule (n ∷ ports) = map (λ p. rule (some p)) (n ∷ ports)

  abbrev pub rules_of_values : (String → Scalar) → Option (List FirewallRule)
  rules_of_values at = do
    name ← name_value (at "name")
    action ← action_of (py.lower (or_text (text_value (at "action")) "accept"))
    order ← order_of (at "order_index")
    some (
        per_port (base_rule at name action order)
          (parse_service_ports (text_value (at "service_ports"))))

  -- `_rules_from_payload`; `none` is a `FirewallApplyError`, as for an entry without a name.
  unfoldable pub rules_from_payload : Entry → Option (List FirewallRule)
  rules_from_payload entry = if is_given "name" entry then rules_of_values (value entry) else none

  abbrev lone : List ℕ → Option ℕ
  lone (n ∷ []) = some n
  lone ports = none

  abbrev pub is_allowed_target : Option String → Bool
  is_allowed_target none = true
  is_allowed_target (some s) = is_some (normalize_to_addr py s)

  abbrev nat_chain : String → String
  nat_chain type =
      if str_eq type "snat" || str_eq type "masquerade" then "postrouting" else "prerouting"

  abbrev pub nat_rule : (String → Scalar) → (name type : String) → NatRule
  nat_rule at name type = record {
    id = id_of (at "id");
    name = name;
    type = type;
    chain = nat_chain type;
    source = text_value (at "source_network");
    destination = text_value (at "dest_network");
    to_source = text_value (at "to_source");
    to_destination = text_value (at "to_destination");
    protocol = truthy (text_value (at "service_protocol"));
    port = lone (parse_service_ports (text_value (at "service_ports")));
    interface = text_value (at "interface");
    comment = none;
  }

  abbrev pub nat_of_values : (String → Scalar) → Option NatRule
  nat_of_values at =
      if is_allowed_target (text_value (at "to_source"))
        && is_allowed_target (text_value (at "to_destination"))
      then (do
        name ← text_value (at "name")
        some (nat_rule at name (py.lower (or_text (text_value (at "type")) "snat"))))
      else none

  -- `_nat_from_payload`
  unfoldable pub nat_from_payload : Entry → Option NatRule
  nat_from_payload entry = nat_of_values (value entry)
