-- ===== src/Simulator/Multi/Ends.antt =====
-- The search for a path ends: its fuel, one more than the number of neighbours that the topology
-- lists, is enough.
use viswall.Prelude.{
  ℕ, zero, suc, ◌+◌, ◌≤◌, ◌<◌, ◌≡◌, ◌≢◌, refl, true, false, Option, none, some, List, [], ◌∷◌, ◌++◌,
  String, arith, str_eq, eq_iff, if◌then◌else◌, length, length-append, mem_str, All, Bool-cases,
  inl, inr,
}
use viswall.Prelude.Dict
use viswall.Prelude.Dict.{Dict}
use viswall.Simulator.Multi.{
  Entry, Search, found, searching, scan_neighbors, neighbors, search_path, all_neighbors,
  calculate_path,
}

-- How many names of a list were not visited.
unseen : List String → List String → ℕ
unseen visited [] = 0
unseen visited (u ∷ us) = if mem_str u visited then unseen visited us else suc (unseen visited us)

unseen-le : (n : String) (visited us : List String) → unseen (n ∷ visited) us ≤ unseen visited us
unfolding unseen
unseen-le n visited [] = omega arith
unseen-le n visited (u ∷ us) = ground (arith, unseen-le n visited us)

-- To visit a name of the list for the first time lowers the number.
unseen-lt :
    (n : String) (visited us : List String)
    → mem_str n us ≡ true
    → mem_str n visited ≡ false
    → unseen (n ∷ visited) us < unseen visited us
unfolding unseen
unseen-lt n visited [] m new = cc
unseen-lt n visited (u ∷ us) m new =
    ground (arith, eq_iff u n, eq_iff n u, unseen-lt n visited us, unseen-le n visited us)

unseen-le-length : (visited us : List String) → unseen visited us ≤ length us
unfolding unseen
unseen-le-length visited [] = omega arith
unseen-le-length visited (u ∷ us) = ground (arith, unseen-le-length visited us)

-- What a search has still to do, at most.
abbrev work : List String → Search → ℕ
work us (found p) = 0
work us (searching visited queue) = length queue + unseen visited us

abbrev AllIn : List String → List String → Type 0
AllIn us = All (λ n. mem_str n us ≡ true)

scan-work :
    (dest : String) (path us ns visited : List String) (queue : List Entry)
    → AllIn us ns
    → work us (scan_neighbors dest path visited queue ns) ≤ length queue + unseen visited us
unfolding scan_neighbors
scan-work dest path us [] visited queue a = omega arith
scan-work dest path us (n ∷ ns) visited queue a = elim (Bool-cases (mem_str n visited)) [
  | inl old ↦ rw old (ground (arith, scan-work dest path us ns visited queue a.1))
  | inr new ↦
      let entry : Entry = (n, path ++ n ∷ []) in
      rw new (
        ground (
          arith,
          scan-work dest path us ns (n ∷ visited) (queue ++ entry ∷ []) a.1,
          unseen-lt n visited us a.0 new,
          length-append queue (entry ∷ []),
        ))
]

mem_str-append :
    (n : String) (xs ys : List String)
    → mem_str n (xs ++ ys) ≡ (if mem_str n xs then true else mem_str n ys)
mem_str-append n [] ys = refl
mem_str-append n (x ∷ xs) ys = ground (arith, mem_str-append n xs ys)

AllIn-right : (xs us ns : List String) → AllIn us ns → AllIn (xs ++ us) ns
AllIn-right xs us [] a = tt
AllIn-right xs us (n ∷ ns) a =
    (ground (arith, mem_str-append n xs us, a.0), AllIn-right xs us ns a.1)

AllIn-cons : (x : String) (us ns : List String) → AllIn us ns → AllIn (x ∷ us) ns
AllIn-cons x us ns a = AllIn-right (x ∷ []) us ns a

AllIn-self : (ns us : List String) → AllIn (ns ++ us) ns
AllIn-self [] us = tt
AllIn-self (n ∷ ns) us = (ground (arith, eq_iff n n), AllIn-cons n (ns ++ us) ns (AllIn-self ns us))

neighbors-AllIn :
    (topology : Dict (List String)) (fw : String)
    → AllIn (all_neighbors topology) (neighbors topology fw)
unfolding neighbors Dict.get_or
neighbors-AllIn [] fw = tt
neighbors-AllIn ((j, ns) ∷ topology) fw = elim (Bool-cases (str_eq j fw)) [
  | inl e ↦ rw e (AllIn-self ns (all_neighbors topology))
  | inr e ↦ rw e (AllIn-right ns (all_neighbors topology) _ (neighbors-AllIn topology fw))
]

module _ (topology : Dict (List String)) (dest : String) where
  search_path-ends :
      (fuel : ℕ) (visited : List String) (queue : List Entry)
      → length queue + unseen visited (all_neighbors topology) ≤ fuel
      → search_path topology dest fuel visited queue ≢ none
  unfolding search_path
  search_path-ends fuel visited [] h = λ e. cc
  search_path-ends zero visited (e ∷ queue) h = absurd (omega arith)
  search_path-ends (suc fuel) visited ((current, path) ∷ queue) h =
      go (scan_neighbors dest path visited queue (neighbors topology current))
        (omega (
          arith,
          scan-work dest path (all_neighbors topology) (neighbors topology current) visited queue
              (neighbors-AllIn topology current),
        ))
        (search_path-ends fuel)
    where
      go :
          (r : Search)
          → work (all_neighbors topology) r ≤ fuel
          → ((v : List String) (q : List Entry)
              → length q + unseen v (all_neighbors topology) ≤ fuel
              → search_path topology dest fuel v q ≢ none)
          → ◌≢◌ {A = Option (List String)}
              (elim r [ found p ↦ some p | searching v q ↦ search_path topology dest fuel v q ])
              none
      go (found p) w ih = λ e. cc
      go (searching v q) w ih = ih v q w

-- The search for a path returns on every topology and for every pair of firewalls: it never runs
-- out of the fuel that it is given.
pub calculate_path_total :
    (topology : Dict (List String)) (source dest : String)
    → calculate_path topology source dest ≢ none
unfolding calculate_path
calculate_path_total topology source dest = elim (Bool-cases (str_eq source dest)) [
  | inl e ↦ rw e (λ h. cc)
  | inr e ↦ rw e (
      search_path-ends topology dest _ (source ∷ []) ((source, source ∷ []) ∷ [])
        (omega (arith, unseen-le-length (source ∷ []) (all_neighbors topology))))
]
