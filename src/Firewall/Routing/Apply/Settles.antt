-- ===== src/Firewall/Routing/Apply/Settles.antt =====
-- Applying the same payload again changes nothing.
use mathlib.Core.List.{append-nil}
use viswall.Prelude.{
  Bool, true, false, ◌≡◌, refl, sym, subst, ap, ◌∙◌, Option, none, some, List, [], ◌∷◌, ◌++◌,
  String, arith, Bool-cases, inl, inr, str_eq, str_eq_refl, eq_iff,
}
use viswall.Prelude.Json.{ℤ, pos, negsuc, int_eq}
use viswall.Firewall.Routing.{
  Entry, Python, Scalar, null, flag, int, word, as_int, scalar_eq, TableId, number, named, table_eq,
  is_reserved, Rule, Route, option_text_eq, option_int_eq, same_rule, same_route,
}
use viswall.Firewall.Routing.Desired.{Collected, desired}
use viswall.Firewall.Routing.Live.{Live, live_rule, live_route, read_rows}
use viswall.Firewall.Routing.Reconcile.{reconciled, stale-reconciled, missing-reconciled}
use viswall.Firewall.Routing.Apply.{
  Manager, Host, TableLine, line_name, find_line, register, ensure_table, returned, apply_routing,
}
use viswall.Firewall.Routing.Apply.Delta.{entries_of, delta, issued_delta}

int_eq_refl : (a : ℤ) → int_eq a a ≡ true
int_eq_refl (pos n) = ground arith
int_eq_refl (negsuc n) = ground arith

int_eq_comm : (a b : ℤ) → int_eq a b ≡ int_eq b a
int_eq_comm (pos m) (pos n) = ground arith
int_eq_comm (negsuc m) (negsuc n) = ground arith
int_eq_comm (pos m) (negsuc n) = refl
int_eq_comm (negsuc m) (pos n) = refl

str_eq_comm : (s t : String) → str_eq s t ≡ str_eq t s
str_eq_comm s t = ground (arith, eq_iff s t, eq_iff t s)

scalar_eq_refl : (a : Scalar) → scalar_eq a a ≡ true
scalar_eq_refl null = refl
scalar_eq_refl (flag b) = int_eq_refl (as_int b)
scalar_eq_refl (int n) = int_eq_refl n
scalar_eq_refl (word s) = str_eq_refl s

scalar_eq_comm : (a b : Scalar) → scalar_eq a b ≡ scalar_eq b a
scalar_eq_comm null null = refl
scalar_eq_comm null (flag b) = refl
scalar_eq_comm null (int n) = refl
scalar_eq_comm null (word s) = refl
scalar_eq_comm (flag a) null = refl
scalar_eq_comm (flag a) (flag b) = int_eq_comm (as_int a) (as_int b)
scalar_eq_comm (flag a) (int n) = int_eq_comm (as_int a) n
scalar_eq_comm (flag a) (word s) = refl
scalar_eq_comm (int n) null = refl
scalar_eq_comm (int n) (flag b) = int_eq_comm n (as_int b)
scalar_eq_comm (int m) (int n) = int_eq_comm m n
scalar_eq_comm (int n) (word s) = refl
scalar_eq_comm (word s) null = refl
scalar_eq_comm (word s) (flag b) = refl
scalar_eq_comm (word s) (int n) = refl
scalar_eq_comm (word s) (word t) = str_eq_comm s t

table_eq_refl : (t : TableId) → table_eq t t ≡ true
table_eq_refl (number n) = int_eq_refl n
table_eq_refl (named s) = str_eq_refl s

table_eq_comm : (t u : TableId) → table_eq t u ≡ table_eq u t
table_eq_comm (number m) (number n) = int_eq_comm m n
table_eq_comm (named s) (named t) = str_eq_comm s t
table_eq_comm (number n) (named s) = refl
table_eq_comm (named s) (number n) = refl

option_text_eq_refl : (a : Option String) → option_text_eq a a ≡ true
option_text_eq_refl none = refl
option_text_eq_refl (some s) = str_eq_refl s

option_text_eq_comm : (a b : Option String) → option_text_eq a b ≡ option_text_eq b a
option_text_eq_comm none none = refl
option_text_eq_comm none (some t) = refl
option_text_eq_comm (some s) none = refl
option_text_eq_comm (some s) (some t) = str_eq_comm s t

option_int_eq_refl : (a : Option ℤ) → option_int_eq a a ≡ true
option_int_eq_refl none = refl
option_int_eq_refl (some n) = int_eq_refl n

option_int_eq_comm : (a b : Option ℤ) → option_int_eq a b ≡ option_int_eq b a
option_int_eq_comm none none = refl
option_int_eq_comm none (some n) = refl
option_int_eq_comm (some m) none = refl
option_int_eq_comm (some m) (some n) = int_eq_comm m n

same_rule_refl : (a : Rule) → same_rule a a ≡ true
unfolding same_rule
same_rule_refl a =
    rw
      (
        int_eq_refl a.priority,
        option_text_eq_refl a.source,
        option_text_eq_refl a.destination,
        option_int_eq_refl a.mark,
        scalar_eq_refl a.interface,
        table_eq_refl a.table,
      )
      refl

same_rule_comm : (a b : Rule) → same_rule a b ≡ same_rule b a
unfolding same_rule
same_rule_comm a b =
    rw
      (
        int_eq_comm a.priority b.priority,
        option_text_eq_comm a.source b.source,
        option_text_eq_comm a.destination b.destination,
        option_int_eq_comm a.mark b.mark,
        scalar_eq_comm a.interface b.interface,
        table_eq_comm a.table b.table,
      )
      refl

same_route_refl : (a : Route) → same_route a a ≡ true
unfolding same_route
same_route_refl a =
    rw
      (
        str_eq_refl a.destination,
        table_eq_refl a.table,
        scalar_eq_refl a.gateway,
        scalar_eq_refl a.interface,
        scalar_eq_refl a.source,
        scalar_eq_refl a.metric,
      )
      refl

same_route_comm : (a b : Route) → same_route a b ≡ same_route b a
unfolding same_route
same_route_comm a b =
    rw
      (
        str_eq_comm a.destination b.destination,
        table_eq_comm a.table b.table,
        scalar_eq_comm a.gateway b.gateway,
        scalar_eq_comm a.interface b.interface,
        scalar_eq_comm a.source b.source,
        scalar_eq_comm a.metric b.metric,
      )
      refl

delta-nil :
    (names : List (ℤ × String)) (c : Collected) (rules : List (Live Rule))
    (routes : List (Live Route))
    → delta names c (reconciled same_rule c.rules rules) (reconciled same_route c.routes routes)
      ≡ []
unfolding delta
delta-nil names c rules routes =
    rw
      (
        stale-reconciled same_rule same_rule_refl same_rule_comm c.rules rules,
        stale-reconciled same_route same_route_refl same_route_comm c.routes routes,
        missing-reconciled same_rule same_rule_refl same_rule_comm c.rules rules,
        missing-reconciled same_route same_route_refl same_route_comm c.routes routes,
      )
      refl

-- If the live rules and routes are those that some earlier ones become by the deletions and additions
-- for the same payload, then an apply that returns issues no command.
pub apply_routing-settles :
    (py : Python) (host : Host) (dry_run : Bool) (entries : List Entry) (m after : Manager)
    (ok : Bool) (c : Collected) (rules : List (Live Rule)) (routes : List (Live Route))
    → desired py entries ≡ some c
    → read_rows (live_rule py) (entries_of host.rules) ≡ some (reconciled same_rule c.rules rules)
    → read_rows (live_route py) (entries_of host.routes)
      ≡ some (reconciled same_route c.routes routes)
    → apply_routing py host dry_run entries m ≡ returned ok after
    → after.mutations ≡ m.mutations
apply_routing-settles py host dry_run entries m after ok c rules routes wanted r1 r2 h =
    let (c2, rs, ts, e, d1, d2, grown) = issued_delta py host dry_run entries m after ok h in
    let same : c2 ≡ c = cc in
    let rs_is : rs ≡ reconciled same_rule c.rules rules = cc in
    let ts_is : ts ≡ reconciled same_route c.routes routes = cc in
    let empty : delta after.rt_tables c2 rs ts ≡ [] =
      rw (same, rs_is, ts_is) (delta-nil after.rt_tables c rules routes) in
    grown ∙ (ap (λ d. m.mutations ++ d) empty ∙ append-nil m.mutations)

Found : Option String → Type 0
Found o = (name : String) × (o ≡ some name)

line_name-Found :
    (n : ℤ) (k : Option ℤ) (name : String) (rest : Option String)
    → Found rest
    → Found (line_name n k name rest)
unfolding Found
line_name-Found n none name rest f = f
line_name-Found n (some k) name rest f = elim (Bool-cases (int_eq k n)) [
  | inl e ↦ (name, rw e refl)
  | inr e ↦ (f.0, rw e f.1)
]

find_line-append :
    (n : ℤ) (name : String) (file : List TableLine)
    → Found (find_line n (file ++ record { table = some n; name = name } ∷ []))
unfolding find_line Found
find_line-append n name [] = (name, rw (int_eq_refl n) refl)
find_line-append n name (l ∷ file) =
    line_name-Found n l.table l.name _ (find_line-append n name file)

-- The parts of the state that tell which tables the file names.
abbrev SameFile : Manager → Manager → Type 0
SameFile a b = (a.file ≡ b.file) × (a.file_mutations ≡ b.file_mutations)

register-SameFile :
    (writable : Bool) (n : ℤ) (found : Option String) (m : Manager)
    → Found found
    → SameFile (register writable n found m).1 m
unfolding Found
register-SameFile writable n none m f = cc
register-SameFile writable n (some name) m f = (refl, refl)

registered_twice :
    (writable : Bool) (n : ℤ) (found : Option String) (m : Manager)
    → found ≡ find_line n m.file
    → (register writable n found m).0 ≡ true
    → Found (find_line n (register writable n found m).1.file)
unfolding Found
registered_twice writable n (some name) m is h = (name, sym is)
registered_twice false n none m is h = cc
registered_twice true n none m is h = find_line-append n _ m.file

-- A table that was registered is not registered again: a second call changes neither the file nor the
-- record of its changes.
ensure_table_twice :
    (host : Host) (t : TableId) (m : Manager)
    → (ensure_table host t m).0 ≡ true
    → ((ensure_table host t (ensure_table host t m).1).1.file ≡ (ensure_table host t m).1.file)
      × ((ensure_table host t (ensure_table host t m).1).1.file_mutations
          ≡ (ensure_table host t m).1.file_mutations)
unfolding ensure_table
ensure_table_twice host (named s) m h = (refl, refl)
ensure_table_twice host (number n) m h = elim (Bool-cases (is_reserved (number n))) [
  | inl e ↦ rw e (refl, refl)
  | inr e ↦
      let once = register host.writable n (find_line n m.file) m in
      let first : ensure_table host (number n) m ≡ once = rw e refl in
      let again : ensure_table host (number n) once.1
          ≡ register host.writable n (find_line n once.1.file) once.1 =
        rw e refl in
      let found =
        registered_twice host.writable n (find_line n m.file) m refl
          (sym (ap (λ r. r.0) first) ∙ h) in
      subst (λ r. SameFile (ensure_table host (number n) r.1).1 r.1) (sym first)
        (subst (λ r. SameFile r.1 once.1) (sym again)
          (register-SameFile host.writable n (find_line n once.1.file) once.1 found))
]
