-- ===== src/Firewall/Snapshots/Scenarios.antt =====
-- Snapshots of a host without WireGuard.
use viswall.Prelude.{
  Bool, true, false, ◌≡◌, refl, none, some, List, [], ◌∷◌, ◌++◌, String, if◌then◌else◌, str_eq,
}
use viswall.Prelude.Sort.{insert_by_name, sort_by_name}
use viswall.Firewall.Snapshots.{
  Host, failed, output, remove_first, prune_old_snapshots, snapshot_state,
}
use viswall.Firewall.Snapshots.Kept.{taken, snapshot_state-taken}
use viswall.Firewall.Snapshots.Pruned.{Pruned}

abbrev host : Host
host = record {
  run = λ argv. elim argv [
    | [] ↦ failed "no command"
    | tool ∷ args ↦ if str_eq tool "wg" then failed "cannot run wg" else output tool
  ];
  writable = λ name. true;
  netplan_error = none;
  removable = λ name. true;
}

abbrev names : List String
names = "20260101-000000" ∷ "20260102-000000" ∷ []

snapshot_state-taken_example :
    (left : List String) × (older : List String) × (pruned : Bool) × (snapshot_state host
        "20260103-000000" names
      ≡ some (taken host, (pruned, left)))
    × (left ≡ older ++ "20260103-000000" ∷ [])
    × Pruned host pruned left older
snapshot_state-taken_example =
    snapshot_state-taken host "20260103-000000" names (λ name. refl) (refl, (refl, tt))

-- With a clock that was set back, the new snapshot is the oldest, and the first to be removed.
lost_at_once : prune_old_snapshots host 2 ("20251231-000000" ∷ names) ≡ (true, names)
unfolding remove_first sort_by_name insert_by_name
lost_at_once = refl

-- A directory that cannot be removed stops the pruning before the others.
stuck : prune_old_snapshots (record host { removable = λ name. false }) 1 names ≡ (false, names)
unfolding remove_first sort_by_name insert_by_name
stuck = refl
