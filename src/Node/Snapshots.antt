-- ===== src/Node/Snapshots.antt =====
-- services/node-agent/viswall_node_agent/netcfg.py: `_prune_snapshots`, on the names of the
-- directories below the snapshots' root.
use viswall.Prelude.{
  ℕ, zero, suc, ◌-◌, ◌≤◌, ◌≡◌, refl, ◌∙◌, ap, List, [], ◌∷◌, ◌++◌, String, length, arith,
}
use viswall.Prelude.Sort.{sort_by_name, length-sort_by_name}

abbrev pub drop : ℕ → List String → List String
drop zero xs = xs
drop (suc n) [] = []
drop (suc n) (x ∷ xs) = drop n xs

abbrev pub take : ℕ → List String → List String
take zero xs = []
take (suc n) [] = []
take (suc n) (x ∷ xs) = x ∷ take n xs

-- `entries[:-keep] if keep > 0 else entries`: the directories that are removed
unfoldable pub stale_snapshots : (keep : ℕ) → List String → List String
stale_snapshots keep names = take (length names - keep) (sort_by_name (λ n. n) names)

-- The directories that are left, where each removal works.
unfoldable pub prune_snapshots : (keep : ℕ) → List String → List String
prune_snapshots keep names = drop (length names - keep) (sort_by_name (λ n. n) names)

take-append-drop : (n : ℕ) (xs : List String) → take n xs ++ drop n xs ≡ xs
take-append-drop zero xs = refl
take-append-drop (suc n) [] = refl
take-append-drop (suc n) (x ∷ xs) = ap (λ ys. x ∷ ys) (take-append-drop n xs)

length-drop : (n : ℕ) (xs : List String) → length (drop n xs) ≡ length xs - n
length-drop zero xs = omega arith
length-drop (suc n) [] = omega arith
length-drop (suc n) (x ∷ xs) = length-drop n xs ∙ omega arith

-- The removed and the left snapshots are, one after the other, the list sorted by name, and of `n`
-- snapshots all but `n - keep` are left, so at most `keep`.
prune_snapshots-stale_snapshots :
    (keep : ℕ) (names : List String)
    → (stale_snapshots keep names ++ prune_snapshots keep names ≡ sort_by_name (λ n. n) names)
      × (length (prune_snapshots keep names) ≡ length names - (length names - keep))
      × (length (prune_snapshots keep names) ≤ keep)
unfolding prune_snapshots stale_snapshots
prune_snapshots-stale_snapshots keep names =
    let left : length (drop (length names - keep) (sort_by_name (λ n. n) names))
        ≡ length names - (length names - keep) =
      length-drop (length names - keep) (sort_by_name (λ n. n) names)
      ∙ ap (λ n. n - (length names - keep)) (length-sort_by_name (λ n. n) names) in
    (
      take-append-drop (length names - keep) (sort_by_name (λ n. n) names),
      left,
      omega (arith, left),
    )
