-- ===== src/Simulator/Multi/Path.antt =====
-- The path that the search returns is a walk through the topology, and no walk is missed.
pub mod Complete
use viswall.Prelude.{
  ℕ, zero, suc, ◌≡◌, ◌≢◌, refl, ◌⊎◌, inl, inr, Bool, true, false, Option, none, some, List, [], ◌∷◌,
  ◌++◌, String, arith, str_eq, str_eq_refl, eq_iff, if◌then◌else◌, mem_str, All, Bool-cases, subst,
}
use viswall.Prelude.Dict.{Dict}
use viswall.Simulator.Multi.{
  Entry, Search, found, searching, scan_neighbors, neighbors, search_path, calculate_path,
}

-- The walks of a topology from `source`, each with its end.
pub data Walk (topology : Dict (List String)) (source : String)
    : List String → String → Type 0 where
  here :
      {path : List String} {u : String}
      → path ≡ source ∷ []
      → u ≡ source
      → Walk topology source path u
  step :
      {path longer : List String} {u v : String}
      → Walk topology source path u
      → mem_str v (neighbors topology u) ≡ true
      → longer ≡ path ++ v ∷ []
      → Walk topology source longer v

module _ (topology : Dict (List String)) (source : String) where
  abbrev Walks : List Entry → Type 0
  Walks = All (λ e. Walk topology source e.1 e.0)

  abbrev Sound : String → Search → Type 0
  Sound dest (found p) = Walk topology source p dest
  Sound dest (searching v q) = Walks q

  Walks-append : (q r : List Entry) → Walks q → Walks r → Walks (q ++ r)
  Walks-append [] r a b = b
  Walks-append (e ∷ q) r a b = (a.0, Walks-append q r a.1 b)

  scan-Sound :
      (dest current : String) (path ns visited : List String) (queue : List Entry)
      → Walk topology source path current
      → All (λ n. mem_str n (neighbors topology current) ≡ true) ns
      → Walks queue
      → Sound dest (scan_neighbors dest path visited queue ns)
  unfolding scan_neighbors
  scan-Sound dest current path [] visited queue w a q = q
  scan-Sound dest current path (n ∷ ns) visited queue w a q = elim (Bool-cases (str_eq n dest)) [
    | inl e ↦ rw e (
        subst (λ v. Walk topology source (path ++ n ∷ []) v) ((eq_iff n dest).0 e)
          (step w a.0 refl))
    | inr e ↦ rw e (elim (Bool-cases (mem_str n visited)) [
      | inl old ↦ rw old (scan-Sound dest current path ns visited queue w a.1 q)
      | inr new ↦ rw new (
          scan-Sound dest current path ns (n ∷ visited) _ w a.1
            (Walks-append queue _ q (step w a.0 refl, tt)))
    ])
  ]

  All-weaken :
      (x : String) (ms ns : List String)
      → All (λ n. mem_str n ms ≡ true) ns
      → All (λ n. mem_str n (x ∷ ms) ≡ true) ns
  All-weaken x ms [] a = tt
  All-weaken x ms (n ∷ ns) a = (ground arith, All-weaken x ms ns a.1)

  All-self : (ns : List String) → All (λ n. mem_str n ns ≡ true) ns
  All-self [] = tt
  All-self (n ∷ ns) = (rw str_eq_refl refl, All-weaken n ns ns (All-self ns))

  search_path-Walk :
      (dest : String) (fuel : ℕ) (visited : List String) (queue : List Entry) (p : List String)
      → Walks queue
      → search_path topology dest fuel visited queue ≡ some p
      → p ≢ []
      → Walk topology source p dest
  unfolding search_path
  search_path-Walk dest fuel visited [] p q h ne = absurd (ne (cc))
  search_path-Walk dest zero visited (e ∷ queue) p q h ne = cc
  search_path-Walk dest (suc fuel) visited ((current, path) ∷ queue) p q h ne =
      go (scan_neighbors dest path visited queue (neighbors topology current))
        (scan-Sound dest current path (neighbors topology current) visited queue q.0
          (All-self (neighbors topology current)) q.1)
        (λ v r. search_path-Walk dest fuel v r p) h
    where
      go :
          (r : Search)
          → Sound dest r
          → ((v : List String) (r : List Entry)
              → Walks r
              → search_path topology dest fuel v r ≡ some p
              → p ≢ []
              → Walk topology source p dest)
          → ◌≡◌ {A = Option (List String)}
              (elim r [ found p ↦ some p | searching v q ↦ search_path topology dest fuel v q ])
              (some p)
          → Walk topology source p dest
      go (found p') s ih e =
          let same : p' ≡ p = cc in subst (λ l. Walk topology source l dest) same s
      go (searching v r) s ih e = ih v r s e ne

  -- What a finished search tells of the visited firewalls.
  abbrev Expanded : String → List String → String → Type 0
  Expanded dest visited u =
      (n : String)
      → mem_str n (neighbors topology u) ≡ true
      → (mem_str n visited ≡ true) × (str_eq n dest ≡ false)

  abbrev waits : String → List Entry → Bool
  waits u [] = false
  waits u (e ∷ queue) = if str_eq e.0 u then true else waits u queue

  abbrev IsClosed : String → List String → List Entry → Type 0
  IsClosed dest visited queue =
      (u : String) → mem_str u visited ≡ true → (waits u queue ≡ true) ⊎ Expanded dest visited u

  -- What one `for` loop that does not return leaves.
  record Scanned (dest : String) (ns visited : List String) (queue : List Entry)
      (visited' : List String) (queue' : List Entry) : Type 0 where
    kept : (u : String) → mem_str u visited ≡ true → mem_str u visited' ≡ true
    waiting : (u : String) → waits u queue ≡ true → waits u queue' ≡ true
    seen :
        (n : String) → mem_str n ns ≡ true → (mem_str n visited' ≡ true) × (str_eq n dest ≡ false)
    fresh :
        (u : String)
        → mem_str u visited' ≡ true
        → (mem_str u visited ≡ true) ⊎ (waits u queue' ≡ true)

  waits-append :
      (u : String) (q r : List Entry) → waits u (q ++ r) ≡ (if waits u q then true else waits u r)
  waits-append u [] r = refl
  waits-append u (e ∷ q) r = ground (arith, waits-append u q r)

  module _ (dest n : String) (ns visited : List String) (queue : List Entry) (path : List String)
      (visited' : List String) (queue' : List Entry) (other : str_eq n dest ≡ false) where
    Scanned-old :
        mem_str n visited ≡ true
        → Scanned dest ns visited queue visited' queue'
        → Scanned dest (n ∷ ns) visited queue visited' queue'
    Scanned-old old s = record {
      kept = s.kept;
      waiting = s.waiting;
      seen = λ m h. ground (arith, s.kept m, s.seen m, eq_iff n m);
      fresh = s.fresh;
    }

    Scanned-new :
        Scanned dest ns (n ∷ visited) (queue ++ (n, path) ∷ []) visited' queue'
        → Scanned dest (n ∷ ns) visited queue visited' queue'
    Scanned-new s = record {
      kept = λ u m. ground (arith, s.kept u);
      waiting = λ u w. ground (arith, s.waiting u, waits-append u queue ((n, path) ∷ []));
      seen = λ m h. ground (arith, s.kept m, s.seen m, eq_iff n m);
      fresh =
          λ u m. ground (arith, s.fresh u m, s.waiting u, waits-append u queue ((n, path) ∷ []));
    }

  scan-Scanned :
      (dest : String) (path ns visited : List String) (queue : List Entry) (visited' : List String)
      (queue' : List Entry)
      → scan_neighbors dest path visited queue ns ≡ searching visited' queue'
      → Scanned dest ns visited queue visited' queue'
  unfolding scan_neighbors
  scan-Scanned dest path [] visited queue visited' queue' h = record {
    kept = λ u m. ground arith;
    waiting = λ u m. ground arith;
    seen = λ n m. cc;
    fresh = λ u m. inl (ground arith);
  }
  scan-Scanned dest path (n ∷ ns) visited queue visited' queue' h =
      let other : str_eq n dest ≡ false = ground arith in
      elim (Bool-cases (mem_str n visited)) [
        | inl old ↦
            Scanned-old dest n ns visited queue path visited' queue' other old
              (scan-Scanned dest path ns visited queue visited' queue' (ground arith))
        | inr new ↦
            let longer = path ++ n ∷ [] in
            Scanned-new dest n ns visited queue longer visited' queue' other (
              scan-Scanned dest path ns (n ∷ visited) (queue ++ (n, longer) ∷ []) visited' queue'
                (ground arith))
      ]

-- A path that the search returns, if it is not the empty "no path", is a walk through the topology
-- from the source to the destination.
pub calculate_path-Walk :
    (topology : Dict (List String)) (source dest : String) (p : List String)
    → calculate_path topology source dest ≡ some p
    → p ≢ []
    → Walk topology source p dest
unfolding calculate_path
calculate_path-Walk topology source dest p h ne = elim (Bool-cases (str_eq source dest)) [
  | inl e ↦ here (ground arith) (ground (arith, eq_iff source dest))
  | inr e ↦
      search_path-Walk topology source dest _ (source ∷ []) ((source, source ∷ []) ∷ []) p
        (here refl refl, tt) (rw e at h) ne
]
