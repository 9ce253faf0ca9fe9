-- ===== src/Gateway/Rows.antt =====
-- services/api-gateway/utils/firewall_dispatch.py against api.py of the firewall agent: a row of the
-- gateway as the agent reads it.
use mathlib.Core.Path.{ap₂}
use viswall.Prelude.{
  ℕ, zero, suc, true, false, ◌≡◌, refl, ap, ◌∙◌, Option, none, some, [], ◌∷◌, String, truthy, arith,
  eq_iff,
}
use viswall.Prelude.Json.{pos}
use viswall.Prelude.Dict.{get_or}
use viswall.Prelude.Texts.{contains}
use viswall.Firewall.Routing.{Scalar, null, flag, int, word, Entry, value, to_int, or_else}
use viswall.Firewall.Routing
use viswall.Firewall.Nft.Rules.{FirewallAction, FirewallRule, Python}
use viswall.Firewall.Deploy.Entries.{
  text_value, parse_service_ports, rule_chain, if_typed, action_of, or_text, order_of, base_rule,
  per_port, rules_of_values, rules_from_payload,
}
use viswall.Gateway.Dispatch.{
  RuleRow, text, is_none, drop_none, has_key, keys_differ, rule_fields, rule_payload,
}

value-absent :
    (fields : Entry) (key : String)
    → has_key key fields ≡ false
    → value (drop_none fields) key ≡ null
unfolding get_or drop_none
value-absent [] key h = refl
value-absent ((k, v) ∷ fields) key h = ground (arith, value-absent fields key)

is_none-null : (v : Scalar) → is_none v ≡ true → v ≡ null
is_none-null null h = refl
is_none-null (flag b) h = ground arith
is_none-null (int n) h = ground arith
is_none-null (word s) h = ground arith

-- A null that is dropped is read as null.
value-drop_none :
    (fields : Entry) (key : String)
    → keys_differ fields ≡ true
    → value (drop_none fields) key ≡ value fields key
unfolding get_or drop_none
value-drop_none [] key h = refl
value-drop_none ((k, v) ∷ fields) key h =
    ground
      (arith, value-drop_none fields key, value-absent fields key, is_none-null v, eq_iff k key)

text_value-text : (o : Option String) → text_value (text o) ≡ o
text_value-text none = refl
text_value-text (some s) = refl

order_of-pos :
    (texts : Routing.Python) (py : Python) (n : ℕ) → order_of texts py (int (pos n)) ≡ some n
unfolding to_int
order_of-pos texts py zero = refl
order_of-pos texts py (suc n) = refl

-- The rules that the agent makes of a row: one for each port, or one without a port.
module _ (texts : Routing.Python) (py : Python) where
  abbrev pub port_rule : RuleRow → FirewallAction → Option ℕ → FirewallRule
  port_rule r action destination_port = record {
    id = r.id;
    name = r.name;
    chain = rule_chain texts py r.name;
    source = if_typed texts py r.source_type r.source_value;
    destination = if_typed texts py r.dest_type r.dest_value;
    protocol = truthy r.service_protocol;
    source_port = none;
    destination_port = destination_port;
    interface_in = r.interface_in;
    interface_out = r.interface_out;
    action = action;
    log_matches = r.log_enabled;
    state = none;
    limit = r.limit;
    comment = none;
    order = r.order_index;
    anti_spoof = contains "anti-spoof" (py.lower r.name);
  }

  base_rule-port_rule :
      (r : RuleRow) (action : FirewallAction) (port : Option ℕ)
      → base_rule texts py (value (rule_fields r)) r.name action r.order_index port
        ≡ port_rule r action port
  unfolding get_or
  base_rule-port_rule r action port = λ i. record {
    id = r.id;
    name = r.name;
    chain = rule_chain texts py r.name;
    source = if_typed texts py (text_value-text r.source_type i) (text_value-text r.source_value i);
    destination =
        if_typed texts py (text_value-text r.dest_type i) (text_value-text r.dest_value i);
    protocol = truthy (text_value-text r.service_protocol i);
    source_port = none;
    destination_port = port;
    interface_in = text_value-text r.interface_in i;
    interface_out = text_value-text r.interface_out i;
    action = action;
    log_matches = r.log_enabled;
    state = none;
    limit = text_value-text r.limit i;
    comment = none;
    order = r.order_index;
    anti_spoof = contains "anti-spoof" (py.lower r.name);
  }

  read_fields :
      (r : RuleRow) (action : FirewallAction)
      → action_of texts py (py.lower (or_text texts py (some r.action) "accept")) ≡ some action
      → rules_of_values texts py (value (rule_fields r))
        ≡ some
            (per_port texts py (port_rule r action) (parse_service_ports texts py r.service_ports))
  unfolding get_or
  read_fields r action h =
      let read : rules_of_values texts py (value (rule_fields r))
          ≡ some (
              per_port texts py
                (base_rule texts py (value (rule_fields r)) r.name action r.order_index)
                (parse_service_ports texts py (text_value (text r.service_ports)))) =
        rw (h, order_of-pos texts py r.order_index) refl in
      read
      ∙ ap₂ (λ rule ports. some (per_port texts py rule ports))
          (λ i port. base_rule-port_rule r action port i)
          (ap (parse_service_ports texts py) (text_value-text r.service_ports))

-- A row whose action the agent knows arrives as it is: the agent reads back each column that it uses, whether
-- it was sent or left out as NULL, and makes one rule for each port of the row, or one without a port.
pub rules_from_payload-rule_payload :
    (texts : Routing.Python) (py : Python) (r : RuleRow) (action : FirewallAction)
    → action_of texts py (py.lower (or_text texts py (some r.action) "accept")) ≡ some action
    → rules_from_payload texts py (rule_payload r)
      ≡ some (
          per_port texts py
            (port_rule texts py r action)
            (parse_service_ports texts py r.service_ports))
unfolding rules_from_payload drop_none get_or
rules_from_payload-rule_payload texts py r action h =
    let same : value (rule_payload r) ≡ value (rule_fields r) =
      λ i key. value-drop_none (rule_fields r) key refl i in
    ap (rules_of_values texts py) same ∙ read_fields texts py r action h
