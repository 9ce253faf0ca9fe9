-- ===== src/Firewall/Qos/Valid.antt =====
-- What a class list has passed when `_normalize_classes` returns it.
use viswall.Prelude.{
  ℕ, suc, ◌+◌, ◌≤◌, ◌≡◌, refl, none, some, List, [], ◌∷◌, arith, length, All, ◌∙◌, ap, subst,
}
use viswall.Prelude.Json.{
  pos, negsuc, Value, null, bool, int, float, str, list, dict, Items, no_items, item, Fields,
  find_or,
}
use viswall.Firewall.Qos.{
  QosClass, Checked, ok, err, ◌>>=◌, number, optional_number, clean_ports, normalize_class,
  normalize_items, normalize_classes, priority_of, normalize_entry, required, ports_of, protocol_of,
  name_of,
}

-- The values of a class that tc is given are in range.
pub record IsValid (c : QosClass) : Type 0 where
  pub priority : c.priority ≤ 7
  pub min_rate : 1 ≤ c.min_rate_kbps
  pub max_rate : (n : ℕ) → c.max_rate_kbps ≡ some n → 1 ≤ n
  pub ports : All (λ p. (1 ≤ p) × (p ≤ 65535)) c.match_ports

number-le : (v : Value) (index minimum n : ℕ) → number v index minimum ≡ ok n → minimum ≤ n
unfolding number
number-le (int (pos m)) index minimum n h = ground arith
number-le (int (negsuc m)) index minimum n h = cc
number-le (float none) index minimum n h = cc
number-le (float (some (pos m))) index minimum n h = ground arith
number-le (float (some (negsuc m))) index minimum n h = cc
number-le null index minimum n h = cc
number-le (bool b) index minimum n h = cc
number-le (str s) index minimum n h = cc
number-le (list l) index minimum n h = cc
number-le (dict d) index minimum n h = cc

optional_number-le :
    (v : Value) (index minimum n : ℕ) → optional_number v index minimum ≡ ok (some n) → minimum ≤ n
unfolding optional_number
optional_number-le null index minimum n h = cc
optional_number-le v index minimum n h = ground (arith, number-le v index minimum n)

clean_ports-All :
    (ports : Items) (index : ℕ) (clean : List ℕ)
    → clean_ports ports index ≡ ok clean
    → All (λ p. (1 ≤ p) × (p ≤ 65535)) clean
unfolding clean_ports
clean_ports-All no_items index [] h = tt
clean_ports-All no_items index (x ∷ xs) h = cc
clean_ports-All (item v vs) index [] h = ground arith
clean_ports-All (item v vs) index (x ∷ xs) h =
    ground (arith, number-le v index 1 x, clean_ports-All vs index xs)

bind_inversion {ℓ κ} :
    {A : Type ℓ} {B : Type κ} (step : Checked A) (next : A → Checked B) {result : B}
    → (step >>= next) ≡ ok result
    → (value : A) × (step ≡ ok value) × (next value ≡ ok result)
bind_inversion (err why) next returned = cc
bind_inversion (ok value) next returned = (value, refl, returned)

ok-injective : {a b : QosClass} → ok a ≡ ok b → a ≡ b
ok-injective h = cc

priority_of-le : (v : Value) (index n : ℕ) → priority_of v index ≡ ok n → n ≤ 7
priority_of-le (int (pos m)) index n h = ground arith
priority_of-le (int (negsuc m)) index n h = cc
priority_of-le v index n h = cc

normalize_class-IsValid :
    (entry : Fields) (index : ℕ) (c : QosClass) → normalize_class entry index ≡ ok c → IsValid c
unfolding normalize_class
normalize_class-IsValid entry index c h =
    let (min_rate, e1, h1) =
      bind_inversion
        (required (find_or entry "min_rate_kbps" (find_or entry "min_rate" null)) index) _ h in
    let (ports, e2, h2) = bind_inversion (ports_of (find_or entry "match_ports" null) index) _ h1 in
    let (clean, e3, h3) = bind_inversion (clean_ports ports index) _ h2 in
    let (protocol, e4, h4) =
      bind_inversion (protocol_of (find_or entry "match_protocol" null) index) _ h3 in
    let (priority, e5, h5) =
      bind_inversion (priority_of (find_or entry "priority" (int (pos (index + 1)))) index) _ h4 in
    let (min, e6, h6) = bind_inversion (number min_rate index 1) _ h5 in
    let (max, e7, h7) =
      bind_inversion
        (optional_number (find_or entry "max_rate_kbps" (find_or entry "max_rate" null)) index 1) _
        h6 in
    let made : QosClass = record {
      name = name_of (find_or entry "name" null) index;
      priority = priority;
      min_rate_kbps = min;
      max_rate_kbps = max;
      match_ports = clean;
      match_protocol = protocol;
    } in
    subst IsValid (ok-injective {a = made} h7) (record {
      priority =
          priority_of-le (find_or entry "priority" (int (pos (index + 1)))) index priority e5;
      min_rate = number-le min_rate index 1 min e6;
      max_rate = λ n k.
          optional_number-le (find_or entry "max_rate_kbps" (find_or entry "max_rate" null)) index 1
            n (e7 ∙ ap ok k);
      ports = clean_ports-All ports index clean e3;
    })

normalize_entry-IsValid :
    (v : Value) (index : ℕ) (c : QosClass) → normalize_entry v index ≡ ok c → IsValid c
normalize_entry-IsValid (dict entry) index c h = normalize_class-IsValid entry index c h
normalize_entry-IsValid v index c h = cc

All-normalize_items :
    (entries : Items) (index : ℕ) (classes : List QosClass)
    → normalize_items entries index ≡ ok classes
    → All IsValid classes
unfolding normalize_items
All-normalize_items no_items index [] h = tt
All-normalize_items no_items index (c ∷ cs) h = cc
All-normalize_items (item v vs) index classes h =
    let (c, e1, h1) = bind_inversion (normalize_entry v index) _ h in
    let (rest, e2, h2) = bind_inversion (normalize_items vs (index + 1)) _ h1 in
    let e : c ∷ rest ≡ classes = ground arith in
    subst (All IsValid) e
      (normalize_entry-IsValid v index c e1, All-normalize_items vs (index + 1) rest e2)

abbrev pub size : Items → ℕ
size no_items = 0
size (item v vs) = suc (size vs)

length-normalize_items :
    (entries : Items) (index : ℕ) (classes : List QosClass)
    → normalize_items entries index ≡ ok classes
    → length classes ≡ size entries
unfolding normalize_items
length-normalize_items no_items index classes h = ground arith
length-normalize_items (item v vs) index classes h =
    let (c, e1, h1) = bind_inversion (normalize_entry v index) _ h in
    let (rest, e2, h2) = bind_inversion (normalize_items vs (index + 1)) _ h1 in
    ground (arith, length-normalize_items vs (index + 1) rest e2)

-- A class list that the validation returns has one class for each entry, and in each class the
-- priority is at most 7, the rates are positive and the ports lie between 1 and 65535.
pub normalize_classes-IsValid :
    (entries : Items) (classes : List QosClass)
    → normalize_classes (list entries) ≡ ok classes
    → All IsValid classes × (length classes ≡ size entries)
unfolding normalize_classes
normalize_classes-IsValid entries classes h =
    (All-normalize_items entries 0 classes h, length-normalize_items entries 0 classes h)
