-- ===== src/Simulator/Multi/Path/Complete.antt =====
-- The search misses no walk: it answers "no path" exactly where there is none.
use viswall.Prelude.{
  ℕ, zero, suc, ◌≡◌, ◌≢◌, ◌↔◌, refl, inl, inr, true, false, Option, some, List, [], ◌∷◌, ◌++◌,
  String, arith, str_eq, str_eq_refl, eq_iff, mem_str, Bool-cases, Option-cases, subst,
}
use viswall.Prelude.Dict.{Dict}
use viswall.Simulator.Multi.{
  Entry, Search, found, searching, scan_neighbors, neighbors, search_path, calculate_path,
}
use viswall.Simulator.Multi.Ends.{calculate_path_total}
use viswall.Simulator.Multi.Path.{
  Walk, here, step, IsClosed, Scanned, scan-Scanned, calculate_path-Walk,
}

append-ne-nil : (xs : List String) (n : String) → xs ++ n ∷ [] ≢ []
append-ne-nil [] n = λ e. cc
append-ne-nil (x ∷ xs) n = λ e. cc

scan-found :
    (dest : String) (path ns visited : List String) (queue : List Entry) (p : List String)
    → scan_neighbors dest path visited queue ns ≡ found p
    → p ≢ []
unfolding scan_neighbors
scan-found dest path [] visited queue p h = cc
scan-found dest path (n ∷ ns) visited queue p h = elim (Bool-cases (str_eq n dest)) [
  | inl e ↦
      let same : path ++ n ∷ [] ≡ p = ground arith in
      subst (λ l. l ≢ []) same (append-ne-nil path n)
  | inr e ↦ scan-found dest path ns _ _ p (rw e at h)
]

module _ (topology : Dict (List String)) (source dest : String) where
  IsClosed-step :
      (current : String) (path visited visited' : List String) (queue queue' : List Entry)
      → IsClosed topology source dest visited ((current, path) ∷ queue)
      → Scanned topology source dest (neighbors topology current) visited queue visited' queue'
      → IsClosed topology source dest visited' queue'
  IsClosed-step current path visited visited' queue queue' c s u m = elim (s.fresh u m) [
    | inr w ↦ inl w
    | inl old ↦ elim (c u old) [
      | inr ex ↦ inr (λ n h. (s.kept n (ex n h).0, (ex n h).1))
      | inl w ↦ elim (Bool-cases (str_eq current u)) [
        | inl e ↦ inr (λ n h. s.seen n (rw ((eq_iff current u).0 e) h))
        | inr e ↦ inl (s.waiting u (rw e at w))
      ]
    ]
  ]

  -- What is left when the search has found no path.
  Exhausted : Type 0
  Exhausted =
      (visited : List String) × (mem_str source visited ≡ true)
      × IsClosed topology source dest visited []

  search_path-Exhausted :
      (fuel : ℕ) (visited : List String) (queue : List Entry)
      → IsClosed topology source dest visited queue
      → mem_str source visited ≡ true
      → search_path topology dest fuel visited queue ≡ some []
      → Exhausted
  unfolding search_path Exhausted
  search_path-Exhausted fuel visited [] c m h = (visited, m, c)
  search_path-Exhausted zero visited (e ∷ queue) c m h = cc
  search_path-Exhausted (suc fuel) visited ((current, path) ∷ queue) c m h =
      go (scan_neighbors dest path visited queue (neighbors topology current)) refl
        (search_path-Exhausted fuel) h
    where
      go :
          (r : Search)
          → scan_neighbors dest path visited queue (neighbors topology current) ≡ r
          → ((v : List String) (q : List Entry)
              → IsClosed topology source dest v q
              → mem_str source v ≡ true
              → search_path topology dest fuel v q ≡ some []
              → Exhausted)
          → ◌≡◌ {A = Option (List String)}
              (elim r [ found p ↦ some p | searching v q ↦ search_path topology dest fuel v q ])
              (some [])
          → Exhausted
      go (found p) e ih k =
          absurd (scan-found dest path (neighbors topology current) visited queue p e (cc))
      go (searching v q) e ih k =
          let s =
            scan-Scanned topology source dest path (neighbors topology current) visited queue v q
              e in
          ih v q (IsClosed-step current path visited v queue q c s) (s.kept source m) k

  Walk-visited :
      (visited : List String) {path : List String} {u : String}
      → str_eq source dest ≡ false
      → mem_str source visited ≡ true
      → IsClosed topology source dest visited []
      → Walk topology source path u
      → (mem_str u visited ≡ true) × (str_eq u dest ≡ false)
  Walk-visited visited d m c (here e r) = rw r (m, d)
  Walk-visited visited d m c (step {u} {v} w edge e) = elim (c u (Walk-visited visited d m c w).0) [
    | inl waits ↦ cc
    | inr ex ↦ ex v edge
  ]

  no-Walk :
      {path : List String}
      → calculate_path topology source dest ≡ some []
      → ¬ Walk topology source path dest
  unfolding calculate_path Exhausted
  no-Walk h w = elim (Bool-cases (str_eq source dest)) [
    | inl e ↦ ground arith
    | inr e ↦
        let start : IsClosed topology source dest (source ∷ []) ((source, source ∷ []) ∷ []) =
          λ u m. inl (ground arith) in
        let (visited, m, c) =
          search_path-Exhausted _ (source ∷ []) ((source, source ∷ []) ∷ []) start
            (rw str_eq_refl refl) (rw e at h) in
        let stuck = (Walk-visited visited e m c w).1 in
        let equal = str_eq_refl dest in cc (stuck, equal)
  ]

-- The search answers "no path" exactly if no walk through the topology leads from the source to
-- the destination.
pub calculate_path-nil :
    (topology : Dict (List String)) (source dest : String)
    → (calculate_path topology source dest ≡ some [])
      ↔ ((path : List String) → ¬ Walk topology source path dest)
calculate_path-nil topology source dest = (
  λ h path w. no-Walk topology source dest h w,
  λ none_leads. elim (Option-cases (calculate_path topology source dest)) [
    | inl e ↦ absurd (calculate_path_total topology source dest e)
    | inr (p, e) ↦
        decide_nil p e (λ ne. none_leads p (calculate_path-Walk topology source dest p e ne))
  ],
)
  where
    decide_nil :
        (p : List String)
        → calculate_path topology source dest ≡ some p
        → ¬ (p ≢ [])
        → calculate_path topology source dest ≡ some []
    decide_nil [] e n = e
    decide_nil (x ∷ p) e n = absurd (n (λ k. cc))
