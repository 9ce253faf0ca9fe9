-- ===== src/Prelude/Json.antt =====
-- The values of a decoded JSON document, as the agents receive them.
use Prim.Native.Nat.{ℕ, zero}
use Prim.Native.String.{String}
use mathlib.Core.Bool.{Bool, true, false}
use mathlib.Core.Option.{Option, none, some}
use mathlib.Core.List.{List, [], ◌∷◌}
use text.Mathlib.Text.{◌==◌ as str_eq}
use package.viswall.Prelude.Tests.{if◌then◌else◌, ◌==◌}

-- `negsuc n` is -(n + 1).
pub data ℤ : Type 0 where
  pos : ℕ → ℤ
  negsuc : ℕ → ℤ

-- `float` holds the integer that the number is, or `none` if it is none.
mutual
  pub data Fields : Type 0 where
    no_fields : Fields
    field : (key : String) → Value → Fields → Fields

  pub data Items : Type 0 where
    no_items : Items
    item : Value → Items → Items

  pub data Value : Type 0 where
    dict : Fields → Value
    list : Items → Value
    str : String → Value
    float : Option ℤ → Value
    int : ℤ → Value
    bool : Bool → Value
    null : Value

abbrev pub int_eq : ℤ → ℤ → Bool
int_eq (pos m) (pos n) = m == n
int_eq (negsuc m) (negsuc n) = m == n
int_eq a b = false

abbrev pub is_zero : ℤ → Bool
is_zero (pos zero) = true
is_zero _ = false

-- Whether a value is false in a Python condition.
abbrev pub is_falsy : Value → Bool
is_falsy null = true
is_falsy (bool true) = false
is_falsy (bool false) = true
is_falsy (int n) = is_zero n
is_falsy (float none) = false
is_falsy (float (some n)) = is_zero n
is_falsy (str s) = str_eq s ""
is_falsy (list no_items) = true
is_falsy (list (item v vs)) = false
is_falsy (dict no_fields) = true
is_falsy (dict (field k v fs)) = false

-- `entry.get(key)`; `none` is a key that is not there, and an explicit null is `some null`.
unfoldable pub find : Fields → String → Option Value
find no_fields key = none
find (field k v fs) key = if str_eq k key then some v else find fs key

-- `entry.get(key, default)`
abbrev pub find_or : Fields → String → Value → Value
find_or fs key default = elim (find fs key) [ none ↦ default | some v ↦ v ]

-- A dictionary display, and a list display.
abbrev pub fields_of : List (String × Value) → Fields
fields_of [] = no_fields
fields_of ((key, v) ∷ entries) = field key v (fields_of entries)

abbrev pub items_of : List Value → Items
items_of [] = no_items
items_of (v ∷ vs) = item v (items_of vs)

abbrev pub object : List (String × Value) → Value
object entries = dict (fields_of entries)

abbrev pub array : List Value → Value
array vs = list (items_of vs)
