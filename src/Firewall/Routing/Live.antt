-- ===== src/Firewall/Routing/Live.antt =====
-- services/firewall-service/viswall_firewall_agent/routing.py: the live rules and routes, as rows of
-- `ip -j`, and which of them the agent owns.
use text.Mathlib.Text.{starts_with}
use viswall.Prelude.{
  Bool, false, ◌||◌, Option, none, some, List, [], ◌∷◌, String, if◌then◌else◌, str_eq, ◌>>=◌,
}
use viswall.Prelude.Json.{pos}
use viswall.Prelude.Dict.{get_or}
use viswall.Prelude.Texts.{concat}
use viswall.Firewall.Routing.{
  Scalar, null, int, word, Entry, Python, is_true, value, text_of, table_id, route_prefix, mark,
  to_int, Rule, Route,
}

-- `_owned`
unfoldable pub owned : Entry → Bool
owned entry = str_eq (text_of (value entry "protocol")) "30" || has_tag (value entry "table")
  where
    has_tag : Scalar → Bool
    has_tag (word s) = starts_with s "vw-table-"
    has_tag v = false

-- A live object, and whether the agent owns it.
pub record Live (A : Type 0) : Type 0 where
  pub is_owned : Bool
  pub key : A

module _ (py : Python) where
  abbrev some_network : String → Option (Option String)
  some_network s = do n ← py.network s; some (some n)

  abbrev with_length : Scalar → Scalar → Option (Option String)
  with_length address null = some_network (text_of address)
  with_length address length = some_network (concat (text_of address ∷ "/" ∷ text_of length ∷ []))

  abbrev is_all : Scalar → Bool
  is_all (word s) = str_eq s "all"
  is_all v = false

  -- `_live_prefix`
  unfoldable pub live_prefix : (address length : Scalar) → Option (Option String)
  live_prefix address length =
      if is_true address
      then (if is_all address then some none else with_length address length)
      else some none

  -- `_live_rule_obj`; `none` is an exception.
  unfoldable pub live_rule : Entry → Option Rule
  live_rule row = do
    priority ← to_int py (get_or row "priority" (int (pos 0)))
    table ← table_id py (value row "table")
    source ← live_prefix (value row "src") (value row "srclen")
    destination ← live_prefix (value row "dst") (value row "dstlen")
    read ← mark py (value row "fwmark")
    some (record {
      priority = priority;
      table = table;
      source = source;
      destination = destination;
      mark = read;
      interface = value row "iif";
    })

  -- `_live_route_obj`
  unfoldable pub live_route : Entry → Option Route
  live_route row = do
    destination ← route_prefix py (value row "dst")
    table ← table_id py (value row "table")
    some (record {
      destination = destination;
      table = table;
      gateway = value row "gateway";
      interface = value row "dev";
      source = value row "prefsrc";
      metric = value row "metric";
    })

-- Each row, with what `read` makes of it.
unfoldable pub read_rows : {A : Type 0} → (Entry → Option A) → List Entry → Option (List (Live A))
read_rows read [] = some []
read_rows read (row ∷ rows) = do
  key ← read row
  rest ← read_rows read rows
  some (record { is_owned = owned row; key = key } ∷ rest)
