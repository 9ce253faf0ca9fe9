-- ===== src/Firewall/Routing.antt =====
-- services/firewall-service/viswall_firewall_agent/routing.py: the values of routing entries, and how
-- they are read. What Python's library does to them is the record `Python`.
pub mod Desired
pub mod Live
pub mod Reconcile
pub mod Commands
pub mod Apply
pub mod Main
pub mod Single
mod Scenarios
use text.Mathlib.Text.{starts_with}
use Prim.Native.String.{slice, len}
use viswall.Prelude.{
  ℕ, Bool, true, false, not, ◌&&◌, ◌||◌, Option, none, some, List, [], ◌∷◌, String, if◌then◌else◌,
  str_eq, ◌==◌, ◌>>=◌,
}
use viswall.Prelude.Json.{ℤ, pos, negsuc, int_eq, is_zero}
use viswall.Prelude.Dict.{Dict, get, get_or}
use viswall.Prelude.Texts.{decimal_int, before_slash}

-- A value of an entry.
pub data Scalar : Type 0 where
  null : Scalar
  flag : Bool → Scalar
  int : ℤ → Scalar
  word : String → Scalar

abbrev pub Entry : Type 0
Entry = Dict Scalar

-- `int(text)`, `int(text, 0)`, `text.isdigit()` and `str(ipaddress.ip_network(text, strict=False))`;
-- `none` is a `ValueError`.
pub record Python : Type 0 where
  pub int_of : String → Option ℤ
  pub int0_of : String → Option ℤ
  pub is_digit : String → Bool
  pub network : String → Option String

abbrev pub as_int : Bool → ℤ
as_int true = pos 1
as_int false = pos 0

-- `==`, where True is 1 and False is 0
abbrev pub scalar_eq : Scalar → Scalar → Bool
scalar_eq null null = true
scalar_eq (flag a) (flag b) = int_eq (as_int a) (as_int b)
scalar_eq (flag a) (int n) = int_eq (as_int a) n
scalar_eq (int n) (flag b) = int_eq n (as_int b)
scalar_eq (int m) (int n) = int_eq m n
scalar_eq (word s) (word t) = str_eq s t
scalar_eq a b = false

-- Whether a value is true in a condition.
abbrev pub is_true : Scalar → Bool
is_true null = false
is_true (flag b) = b
is_true (int n) = not (is_zero n)
is_true (word s) = not (str_eq s "")

abbrev pub or_else : Scalar → Scalar → Scalar
or_else a b = if is_true a then a else b

-- `str(value)`
abbrev pub text_of : Scalar → String
text_of null = "None"
text_of (flag true) = "True"
text_of (flag false) = "False"
text_of (int n) = decimal_int n
text_of (word s) = s

-- `entry.get(key)`
abbrev pub value : Entry → String → Scalar
value entry key = get_or entry key null

pub data TableId : Type 0 where
  number : ℤ → TableId
  named : String → TableId

abbrev pub table_eq : TableId → TableId → Bool
table_eq (number m) (number n) = int_eq m n
table_eq (named s) (named t) = str_eq s t
table_eq a b = false

abbrev pub is_reserved : TableId → Bool
is_reserved (number (pos n)) = n == 0 || n == 253 || n == 254 || n == 255
is_reserved (number (negsuc n)) = false
is_reserved (named s) = false

abbrev reserved_name : String → TableId
reserved_name s =
    if str_eq s "unspec"
    then number (pos 0)
    else if str_eq s "default"
    then number (pos 253)
    else if str_eq s "main"
    then number (pos 254)
    else if str_eq s "local"
    then number (pos 255)
    else named s

module _ (py : Python) where
  -- A text that is no number keeps its name.
  abbrev table_suffix : (whole : String) → Option ℤ → TableId
  table_suffix whole none = named whole
  table_suffix whole (some n) = number n

  abbrev table_text : String → Option TableId
  table_text s =
      if starts_with s "vw-table-"
      then some (table_suffix s (py.int_of (slice s 9 (len s))))
      else if py.is_digit s
      then (do n ← py.int_of s; some (number n))
      else some (reserved_name s)

  -- `_table`
  unfoldable pub table_id : Scalar → Option TableId
  table_id null = some (number (pos 254))
  table_id (flag b) = some (number (as_int b))
  table_id (int n) = some (number n)
  table_id (word s) = table_text s

  -- `_prefix`
  unfoldable pub prefix : Scalar → Option (Option String)
  prefix null = some none
  prefix (word s) =
      if str_eq s "" || str_eq s "all" then some none else (do n ← py.network s; some (some n))
  prefix v = do n ← py.network (text_of v); some (some n)

  abbrev is_default : String → Bool
  is_default s = str_eq s "default" || str_eq s "0.0.0.0/0" || str_eq s "::/0"

  -- `_route_prefix`
  unfoldable pub route_prefix : Scalar → Option String
  route_prefix v =
      let text = text_of (or_else v (word "default")) in
      if is_default text then some "default" else py.network text

  abbrev mark_text : String → Option (Option ℤ)
  mark_text s =
      if str_eq s "" || str_eq s "0"
      then some none
      else (do n ← py.int0_of (before_slash s); some (some n))

  abbrev mark_int : ℤ → Option ℤ
  mark_int n = if is_zero n then none else some n

  -- `_mark`
  unfoldable pub mark : Scalar → Option (Option ℤ)
  mark null = some none
  mark (flag b) = some (mark_int (as_int b))
  mark (int n) = some (mark_int n)
  mark (word s) = mark_text s

  -- `int(value)`
  unfoldable pub to_int : Scalar → Option ℤ
  to_int null = none
  to_int (flag b) = some (as_int b)
  to_int (int n) = some n
  to_int (word s) = py.int_of s

-- `_Rule` and `_Route`
pub record Rule : Type 0 where
  pub priority : ℤ
  pub table : TableId
  pub source : Option String
  pub destination : Option String
  pub mark : Option ℤ
  pub interface : Scalar

pub record Route : Type 0 where
  pub destination : String
  pub table : TableId
  pub gateway : Scalar
  pub interface : Scalar
  pub source : Scalar
  pub metric : Scalar

abbrev pub option_text_eq : Option String → Option String → Bool
option_text_eq none none = true
option_text_eq (some s) (some t) = str_eq s t
option_text_eq a b = false

abbrev pub option_int_eq : Option ℤ → Option ℤ → Bool
option_int_eq none none = true
option_int_eq (some m) (some n) = int_eq m n
option_int_eq a b = false

-- `_rule_key(a) == _rule_key(b)`
unfoldable pub same_rule : Rule → Rule → Bool
same_rule a b =
    int_eq a.priority b.priority
    && option_text_eq a.source b.source
    && option_text_eq a.destination b.destination
    && option_int_eq a.mark b.mark
    && scalar_eq a.interface b.interface
    && table_eq a.table b.table

-- `_route_key(a) == _route_key(b)`
unfoldable pub same_route : Route → Route → Bool
same_route a b =
    str_eq a.destination b.destination
    && table_eq a.table b.table
    && scalar_eq a.gateway b.gateway
    && scalar_eq a.interface b.interface
    && scalar_eq a.source b.source
    && scalar_eq a.metric b.metric
