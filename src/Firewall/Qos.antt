-- ===== src/Firewall/Qos.antt =====
-- services/firewall-service/viswall_firewall_agent/qos.py: the validation of the gateway's classes.
-- A message's text is the constructor of its error and the index of the class.
pub mod Valid
pub mod Commands
pub mod Setup
use Prim.Native.Char.{code}
use Prim.Native.String
use viswall.Prelude.{
  ℕ, suc, ◌+◌, ◌≡◌, Bool, true, false, ◌&&◌, Option, none, some, List, [], ◌∷◌, String, str_eq,
  if◌then◌else◌, leb, ltb, ◌==◌,
}
use viswall.Prelude.Json.{
  ℤ, pos, negsuc, Value, null, bool, int, float, str, list, dict, Items, no_items, item, Fields,
  is_falsy, find, find_or,
}

-- `QoSValidationError`
pub data QosError : Type 0 where
  classes_not_list : QosError
  not_object not_number not_integer too_small min_rate_required : (index : ℕ) → QosError
  ports_not_list port_too_large protocol_not_string unsupported_protocol : (index : ℕ) → QosError
  priority_not_integer priority_out_of_range : (index : ℕ) → QosError

-- What a step of the validation gives, where the source raises or returns.
pub data Checked {ℓ} (A : Type ℓ) : Type ℓ where
  err : (why : QosError) → Checked A
  ok : (value : A) → Checked A

infixl 5 ◌>>=◌
abbrev pub ◌>>=◌ {ℓ κ} : {A : Type ℓ} {B : Type κ} → Checked A → (A → Checked B) → Checked B
err why >>= next = err why
ok value >>= next = next value

pub data MatchProtocol : Type 0 where
  any tcp udp : MatchProtocol

-- `str(entry.get("name") or f"class-{index}")`
pub data ClassName : Type 0 where
  given : Value → ClassName
  numbered : (index : ℕ) → ClassName

pub record QosClass : Type 0 where
  pub name : ClassName
  pub priority : ℕ
  pub min_rate_kbps : ℕ
  pub max_rate_kbps : Option ℕ
  pub match_ports : List ℕ
  pub match_protocol : MatchProtocol

abbrev at_least : ℕ → ℕ → ℤ → Checked ℕ
at_least index minimum (pos n) = if ltb n minimum then err (too_small index) else ok n
at_least index minimum (negsuc n) = err (too_small index)

unfoldable pub number : Value → ℕ → ℕ → Checked ℕ
number (int n) index minimum = at_least index minimum n
number (float none) index minimum = err (not_integer index)
number (float (some n)) index minimum = at_least index minimum n
number _ index minimum = err (not_number index)

unfoldable pub optional_number : Value → ℕ → ℕ → Checked (Option ℕ)
unfolding number
optional_number null index minimum = ok none
optional_number value index minimum = do n ← number value index minimum; ok (some n)

abbrev in_range : ℕ → ℕ → Checked ℕ
in_range index n = if ltb 65535 n then err (port_too_large index) else ok n

unfoldable pub clean_ports : Items → ℕ → Checked (List ℕ)
unfolding number
clean_ports no_items index = ok []
clean_ports (item port ports) index = do
  n ← number port index 1
  checked ← in_range index n
  rest ← clean_ports ports index
  ok (checked ∷ rest)

-- `entry.get("match_ports") or []`
abbrev ports_of : Value → ℕ → Checked Items
ports_of (list ports) index = ok ports
ports_of value index = if is_falsy value then ok no_items else err (ports_not_list index)

abbrev lower_codes : String → List ℕ
lower_codes String.[] = []
lower_codes (String.◌∷◌ c s) =
    (if leb b'A' (code c) && leb (code c) b'Z' then code c + 32 else code c) ∷ lower_codes s

abbrev same_codes : List ℕ → List ℕ → Bool
same_codes [] [] = true
same_codes (a ∷ as') (b ∷ bs) = a == b && same_codes as' bs
same_codes _ _ = false

-- `protocol.lower()`, if it is in `_SUPPORTED_PROTOCOLS`. No letter but those of ASCII lowers to a
-- letter of these three words.
unfoldable pub supported : String → Option MatchProtocol
supported s =
    let lowered = lower_codes s in
    if same_codes lowered (lower_codes "any")
    then some any
    else if same_codes lowered (lower_codes "tcp")
    then some tcp
    else if same_codes lowered (lower_codes "udp")
    then some udp
    else none

-- `entry.get("match_protocol") or "any"`
unfoldable pub protocol_of : Value → ℕ → Checked MatchProtocol
unfolding supported
protocol_of (str s) index =
    if str_eq s ""
    then ok any
    else elim (supported s) [ none ↦ err (unsupported_protocol index) | some p ↦ ok p ]
protocol_of value index = if is_falsy value then ok any else err (protocol_not_string index)

abbrev priority_of : Value → ℕ → Checked ℕ
priority_of (int (pos n)) index = if leb n 7 then ok n else err (priority_out_of_range index)
priority_of (int (negsuc n)) index = err (priority_out_of_range index)
priority_of value index = err (priority_not_integer index)

abbrev required : Value → ℕ → Checked Value
required null index = err (min_rate_required index)
required value index = ok value

abbrev name_of : Value → ℕ → ClassName
name_of value index = if is_falsy value then numbered index else given value

-- The body of the loop of `_normalize_classes`, for an entry that is an object.
unfoldable pub normalize_class : Fields → ℕ → Checked QosClass
unfolding number optional_number clean_ports protocol_of
normalize_class entry index = do
  min_rate ← required (find_or entry "min_rate_kbps" (find_or entry "min_rate" null)) index
  let max_rate = find_or entry "max_rate_kbps" (find_or entry "max_rate" null)
  ports ← ports_of (find_or entry "match_ports" null) index
  clean ← clean_ports ports index
  protocol ← protocol_of (find_or entry "match_protocol" null) index
  priority ← priority_of (find_or entry "priority" (int (pos (index + 1)))) index
  min ← number min_rate index 1
  max ← optional_number max_rate index 1
  ok (record {
    name = name_of (find_or entry "name" null) index;
    priority = priority;
    min_rate_kbps = min;
    max_rate_kbps = max;
    match_ports = clean;
    match_protocol = protocol;
  })

abbrev normalize_entry : Value → ℕ → Checked QosClass
normalize_entry (dict entry) index = normalize_class entry index
normalize_entry value index = err (not_object index)

unfoldable pub normalize_items : Items → ℕ → Checked (List QosClass)
normalize_items no_items index = ok []
normalize_items (item entry entries) index = do
  c ← normalize_entry entry index
  rest ← normalize_items entries (index + 1)
  ok (c ∷ rest)

unfoldable pub normalize_classes : Value → Checked (List QosClass)
unfolding normalize_items
normalize_classes (list entries) = normalize_items entries 0
normalize_classes value = err classes_not_list
