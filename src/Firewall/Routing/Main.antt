-- ===== src/Firewall/Routing/Main.antt =====
-- Policy entries put no route into the reserved tables.
use viswall.Prelude.{
  ℕ, ◌+◌, false, not, ◌&&◌, ◌≡◌, refl, sym, subst, ap, ◌∙◌, Option, none, some, List, [], ◌∷◌, ◌++◌,
  All, arith, Bool-cases, Option-cases, inl, inr, bind_found,
}
use viswall.Prelude.Json.{pos}
use viswall.Prelude.Dict.{get_or}
use viswall.Firewall.Routing.{
  int, table_id, prefix, mark, to_int, Entry, Python, is_true, or_else, word, value, route_prefix,
  is_reserved, Rule, Route, same_route,
}
use viswall.Firewall.Routing.Desired.{
  Parsed, Collected, is_null, is_word, skipped, parse, route_to, table_routes, entry_objects,
  add_objects, add_error, collect_one, collect, without, distinct, desired,
}

abbrev IsOutside : Route → Type 0
IsOutside r = is_reserved r.table ≡ false

-- The entry is no explicit route.
abbrev pub IsPolicy : Entry → Type 0
IsPolicy entry = is_word (value entry "kind") "route" ≡ false

table_routes-IsOutside :
    (py : Python) (entry : Entry) (p : Parsed) (routes : List Route)
    → table_routes py entry p ≡ some routes
    → All IsOutside routes
unfolding table_routes
table_routes-IsOutside py entry p routes h =
    elim (Bool-cases (is_null p.kind && is_true p.gateway && not (is_reserved p.table))) [
      | inr e ↦ let is : routes ≡ [] = ground arith in rw is tt
      | inl e ↦
          elim (Option-cases
            (route_prefix py (or_else (value entry "route_destination") (word "default")))) [
              | inl n ↦ ground arith
              | inr (d, n) ↦
                  let is : routes ≡ route_to py entry p d ∷ [] = ground arith in
                  rw is (ground arith, tt)
            ]
    ]

objects-IsOutside :
    (py : Python) (entry : Entry) (p : Parsed) (rules : List Rule) (routes : List Route)
    → is_word p.kind "route" ≡ false
    → entry_objects py entry p ≡ some (rules, routes)
    → All IsOutside routes
unfolding entry_objects
objects-IsOutside py entry p rules routes kind h = elim (Option-cases (table_routes py entry p)) [
  | inl n ↦ ground arith
  | inr (rs, n) ↦
      let is : rs ≡ routes = ground arith in
      subst (λ x. All IsOutside x) is (table_routes-IsOutside py entry p rs n)
]

pub parse-kind_and_table :
    (py : Python) (entry : Entry) (p : Parsed)
    → parse py entry ≡ some p
    → (p.kind ≡ value entry "kind")
      × (table_id py (get_or entry "table" (int (pos 254))) ≡ some p.table)
unfolding parse
parse-kind_and_table py entry p h =
    let (table, e1, h1) = bind_found (table_id py (get_or entry "table" (int (pos 254)))) _ h in
    let (priority, e2, h2) =
      bind_found
        (to_int py (
          or_else (get_or entry "priority" (get_or entry "order_index" (int (pos 100))))
            (int (pos 100))))
        _ h1 in
    let (source, e3, h3) =
      bind_found (prefix py (get_or entry "source" (value entry "source_network"))) _ h2 in
    let (destination, e4, h4) =
      bind_found (prefix py (get_or entry "destination" (value entry "dest_network"))) _ h3 in
    let (read, e5, h5) = bind_found (mark py (value entry "mark")) _ h4 in (cc, e1 ∙ ap some (cc))

-- A predicate that holds of the routes of each entry holds of all that are collected.
module _ (P : Route → Type 0) where
  All-append : (xs ys : List Route) → All P xs → All P ys → All P (xs ++ ys)
  All-append [] ys a b = b
  All-append (x ∷ xs) ys a b = (a.0, All-append xs ys a.1 b)

  without-All : (r : Route) (xs : List Route) → All P xs → All P (without same_route r xs)
  without-All r [] all = tt
  without-All r (x ∷ xs) all = elim (Bool-cases (same_route r x)) [
    | inl e ↦ rw e (without-All r xs all.1)
    | inr e ↦ rw e (all.0, without-All r xs all.1)
  ]

  distinct-All : (xs : List Route) → All P xs → All P (distinct same_route xs)
  unfolding distinct
  distinct-All [] all = tt
  distinct-All (x ∷ xs) all = (all.0, without-All x _ (distinct-All xs all.1))

module _ (py : Python) (P : Route → Type 0) where
  -- The routes of the entry satisfy the predicate.
  abbrev pub Gives : Entry → Type 0
  Gives entry =
      (p : Parsed) (rules : List Rule) (routes : List Route)
      → parse py entry ≡ some p
      → entry_objects py entry p ≡ some (rules, routes)
      → All P routes

  added-All :
      (objects : Option (List Rule × List Route)) (rest : Option Collected) (c : Collected)
      → ((rules : List Rule) (routes : List Route) → objects ≡ some (rules, routes) → All P routes)
      → ((d : Collected) → rest ≡ some d → All P d.routes)
      → add_objects py objects rest ≡ some c
      → All P c.routes
  added-All none rest c new old h = cc
  added-All (some o) none c new old h = cc
  added-All (some (rules, routes)) (some d) c new old h =
      let is : c.routes ≡ routes ++ d.routes = cc in
      subst (λ x. All P x) (sym is)
        (All-append P routes d.routes (new rules routes refl) (old d refl))

  error-All :
      (index : ℕ) (rest : Option Collected) (c : Collected)
      → ((d : Collected) → rest ≡ some d → All P d.routes)
      → add_error py index rest ≡ some c
      → All P c.routes
  error-All index none c old h = cc
  error-All index (some d) c old h =
      let is : c.routes ≡ d.routes = cc in subst (λ x. All P x) (sym is) (old d refl)

  collect_one-All :
      (index : ℕ) (entry : Entry) (read : Option Parsed) (rest : Option Collected) (c : Collected)
      → Gives entry
      → parse py entry ≡ read
      → ((d : Collected) → rest ≡ some d → All P d.routes)
      → collect_one py index entry read rest ≡ some c
      → All P c.routes
  collect_one-All index entry none rest c gives is old h = error-All index rest c old h
  collect_one-All index entry (some p) rest c gives is old h =
      added-All (entry_objects py entry p) rest c (λ rules routes e. gives p rules routes is e) old
        h

  collect-All :
      (index : ℕ) (entries : List Entry) (c : Collected)
      → All Gives entries
      → collect py index entries ≡ some c
      → All P c.routes
  unfolding collect
  collect-All index [] c gives h = let is : c.routes ≡ [] = cc in rw is tt
  collect-All index (entry ∷ entries) c gives h =
      let old : (d : Collected) → collect py (index + 1) entries ≡ some d → All P d.routes =
        λ d e. collect-All (index + 1) entries d gives.1 e in
      elim (Bool-cases (skipped entry)) [
        | inl s ↦ old c (ground arith)
        | inr s ↦
            collect_one-All index entry (parse py entry) (collect py (index + 1) entries) c gives.0
              refl old (ground arith)
      ]

  pub desired-All :
      (entries : List Entry) (c : Collected)
      → All Gives entries
      → desired py entries ≡ some c
      → All P c.routes
  unfolding desired
  desired-All entries c gives h = elim (Option-cases (collect py 0 entries)) [
    | inl n ↦ ground arith
    | inr (d, n) ↦
        let is : distinct same_route d.routes ≡ c.routes = ground arith in
        subst (λ x. All P x) is (distinct-All P d.routes (collect-All 0 entries d gives n))
  ]

policy-Gives : (py : Python) (entry : Entry) → IsPolicy entry → Gives py IsOutside entry
policy-Gives py entry policy p rules routes is e =
    let kind : is_word p.kind "route" ≡ false =
      subst (λ k. is_word k "route" ≡ false) (sym (parse-kind_and_table py entry p is).0) policy in
    objects-IsOutside py entry p rules routes kind e

policies-Give :
    (py : Python) (entries : List Entry) → All IsPolicy entries → All (Gives py IsOutside) entries
policies-Give py [] policy = tt
policies-Give py (entry ∷ entries) policy =
    (policy-Gives py entry policy.0, policies-Give py entries policy.1)

-- If no entry has the kind "route", no route that the payload asks for lies in a reserved table, so
-- none lies in table main.
pub desired-IsOutside :
    (py : Python) (entries : List Entry) (c : Collected)
    → All IsPolicy entries
    → desired py entries ≡ some c
    → All (λ r. is_reserved r.table ≡ false) c.routes
desired-IsOutside py entries c policy h =
    desired-All py IsOutside entries c (policies-Give py entries policy) h
