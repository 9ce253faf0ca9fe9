-- ===== src/Firewall/Snapshots/Pruned.antt =====
-- services/firewall-service/viswall_firewall_agent/snapshots.py: what `_prune_old_snapshots` leaves.
use viswall.Prelude.{
  ℕ, zero, suc, ◌-◌, ◌≤◌, Bool, true, false, ◌≡◌, refl, ap, ◌∙◌, List, [], ◌∷◌, ◌++◌, String, All,
  length, Bool-cases, inl, inr, arith, subst, sym, ◌+◌,
}
use viswall.Prelude.Texts.{text_le}
use viswall.Prelude.Sort.{insert_by_name, sort_by_name, length-sort_by_name}
use viswall.Firewall.Snapshots.{Host, keep_snapshots, remove_first, prune_old_snapshots}

-- Names that are all before a stamp.
abbrev pub AllBefore : String → List String → Type 0
AllBefore stamp = All (λ n. text_le stamp n ≡ false)

insert_last :
    (stamp : String) (xs : List String)
    → AllBefore stamp xs
    → insert_by_name (λ n. n) stamp xs ≡ xs ++ stamp ∷ []
unfolding insert_by_name
insert_last stamp [] all = refl
insert_last stamp (x ∷ xs) all = rw all.0 (ap (λ ys. x ∷ ys) (insert_last stamp xs all.1))

AllBefore-insert_by_name :
    (stamp n : String) (xs : List String)
    → text_le stamp n ≡ false
    → AllBefore stamp xs
    → AllBefore stamp (insert_by_name (λ n. n) n xs)
unfolding insert_by_name
AllBefore-insert_by_name stamp n [] h all = (h, tt)
AllBefore-insert_by_name stamp n (x ∷ xs) h all = elim (Bool-cases (text_le n x)) [
  | inl e ↦ rw e (h, all)
  | inr e ↦ rw e (all.0, AllBefore-insert_by_name stamp n xs h all.1)
]

AllBefore-sort_by_name :
    (stamp : String) (xs : List String)
    → AllBefore stamp xs
    → AllBefore stamp (sort_by_name (λ n. n) xs)
unfolding sort_by_name
AllBefore-sort_by_name stamp [] all = tt
AllBefore-sort_by_name stamp (x ∷ xs) all =
    AllBefore-insert_by_name stamp x (sort_by_name (λ n. n) xs) all.0
      (AllBefore-sort_by_name stamp xs all.1)

module _ (host : Host) where
  -- The removal of `n` of the directories `xs` leaves those of `older`, before the newest one: all but `n`, or, where
  -- one of the `n` cannot be removed, this one and those after it.
  abbrev Removed : ℕ → (xs older : List String) → Bool → Type 0
  Removed n xs older true = length older + n ≡ length xs
  Removed n xs older false =
      (suc zero ≤ n)
      × (suc (length xs) ≤ length older + n)
      × (name : String) × (rest : List String) × (older ≡ name ∷ rest)
      × (host.removable name ≡ false)

  Removed-suc :
      (b : Bool) (n : ℕ) (x : String) (xs older : List String)
      → Removed n xs older b
      → Removed (suc n) (x ∷ xs) older b
  Removed-suc true n x xs older r = omega (arith, r)
  Removed-suc false n x xs older (some_due, more, n', rest, is, e) =
      (omega (arith, some_due), omega (arith, more), n', rest, is, e)

  remove_first-Removed :
      (n : ℕ) (xs : List String) (stamp : String)
      → n ≤ length xs
      → (older : List String) × ((remove_first host n (xs ++ stamp ∷ [])).1 ≡ older ++ stamp ∷ [])
        × Removed n xs older (remove_first host n (xs ++ stamp ∷ [])).0
  unfolding remove_first
  remove_first-Removed zero xs stamp h = (xs, refl, omega arith)
  remove_first-Removed (suc n) [] stamp h = absurd (omega arith)
  remove_first-Removed (suc n) (x ∷ xs) stamp h = elim (Bool-cases (host.removable x)) [
    | inl e ↦
        let (older, left, removed) = remove_first-Removed n xs stamp (omega arith) in
        rw e
          (older, left, Removed-suc (remove_first host n (xs ++ stamp ∷ [])).0 n x xs older removed)
    | inr e ↦ rw e (x ∷ xs, refl, (omega arith, omega arith, x, xs, refl, e))
  ]

  -- What the pruning leaves, with the newest directory: ten at most where it ends, and more than ten, from one that
  -- cannot be removed on, where it raises.
  abbrev pub Pruned : Bool → (left older : List String) → Type 0
  Pruned true left older = length left ≤ 10
  Pruned false left older =
      (suc 10 ≤ length left)
      × (name : String) × (rest : List String) × (older ≡ name ∷ rest)
      × (host.removable name ≡ false)

  length-snoc : (xs : List String) (x : String) → length (xs ++ x ∷ []) ≡ suc (length xs)
  length-snoc [] x = refl
  length-snoc (y ∷ ys) x = ap suc (length-snoc ys x)

  Removed-Pruned :
      (b : Bool) (count : ℕ) (xs older : List String) (stamp : String)
      → length xs ≡ count
      → Removed (suc count - 10) xs older b
      → Pruned b (older ++ stamp ∷ []) older
  Removed-Pruned true count xs older stamp c r =
      let l = length-snoc older stamp in omega (arith, c, r, l)
  Removed-Pruned false count xs older stamp c (some_due, more, n, rest, is, e) =
      let l = length-snoc older stamp in (omega (arith, c, some_due, more, l), n, rest, is, e)

  pub kept_last :
      (stamp : String) (names : List String)
      → AllBefore stamp names
      → (older : List String) × ((prune_old_snapshots host keep_snapshots (stamp ∷ names)).1
          ≡ older ++ stamp ∷ [])
        × Pruned
            (prune_old_snapshots host keep_snapshots (stamp ∷ names)).0
            (older ++ stamp ∷ [])
            older
  unfolding sort_by_name
  kept_last stamp names all =
      let sorted = sort_by_name (λ n. n) names in
      let count : length sorted ≡ length names = length-sort_by_name (λ n. n) names in
      let due = suc (length names) - 10 in
      let (older, left, removed) = remove_first-Removed due sorted stamp (omega (arith, count)) in
      let last : prune_old_snapshots host keep_snapshots (stamp ∷ names)
          ≡ remove_first host due (sorted ++ stamp ∷ []) =
        ap (remove_first host due)
          (insert_last stamp sorted (AllBefore-sort_by_name stamp names all)) in
      (
        older,
        ap (λ r. r.1) last ∙ left,
        subst (λ r. Pruned r.0 (older ++ stamp ∷ []) older) (sym last)
            (Removed-Pruned (remove_first host due (sorted ++ stamp ∷ [])).0 (length names) sorted
              older stamp count removed),
      )
