-- ===== src/Firewall/Snapshots.antt =====
-- services/firewall-service/viswall_firewall_agent/snapshots.py: `snapshot_state`, on the files of the new
-- snapshot and the names of the directories below the snapshots' root.
pub mod Pruned
pub mod Kept
mod Scenarios
use viswall.Prelude.{
  ℕ, Bool, true, false, Option, none, some, List, [], ◌∷◌, ◌++◌, String, if◌then◌else◌, mem_str,
  ◌>>=◌, zero, suc, ◌-◌, length,
}
use viswall.Prelude.Sort.{sort_by_name}

abbrev pub Argv : Type 0
Argv = List String

-- `_ARTIFACTS`
abbrev pub artifacts : List (String × Argv)
artifacts =
    ("rules.v4", "iptables-save" ∷ [])
    ∷ ("rules.v6", "ip6tables-save" ∷ [])
    ∷ ("nft-ruleset.txt", "nft" ∷ "list" ∷ "ruleset" ∷ [])
    ∷ ("ip-addr.json", "ip" ∷ "-j" ∷ "addr" ∷ [])
    ∷ ("ip-route.json", "ip" ∷ "-j" ∷ "route" ∷ [])
    ∷ ("ip-rule.json", "ip" ∷ "-j" ∷ "rule" ∷ [])
    ∷ ("tc-qdisc.txt", "tc" ∷ "qdisc" ∷ "show" ∷ [])
    ∷ ("wg-show.txt", "wg" ∷ "show" ∷ [])
    ∷ []

-- What a capture command leaves: its output, or the reason of the RuntimeError.
pub data Capture : Type 0 where
  output : String → Capture
  failed : (reason : String) → Capture

-- What the commands leave, whether a file can be written, why the copy of /etc/netplan fails, if it does, and whether
-- a directory can be removed.
pub record Host : Type 0 where
  pub run : Argv → Capture
  pub writable : String → Bool
  pub netplan_error : Option String
  pub removable : String → Bool

-- The files with their content, whether netplan was copied, and the failures, as names with reasons.
pub record Snapshot : Type 0 where
  pub files : List (String × String)
  pub netplan : Bool
  pub failures : List (String × String)

abbrev pub empty : Snapshot
empty = record { files = []; netplan = false; failures = [] }

abbrev pub keep_snapshots : ℕ
keep_snapshots = 10

module _ (host : Host) where
  -- `_capture_command` with its handler; `none` is the OSError of a write, which nothing catches.
  abbrev pub captured : (name : String) → Capture → Snapshot → Option Snapshot
  captured name (output text) s =
      if host.writable name then some (record s { files = s.files ++ (name, text) ∷ [] }) else none
  captured name (failed reason) s = some (record s { failures = s.failures ++ (name, reason) ∷ [] })

  unfoldable pub capture_all : List (String × Argv) → Snapshot → Option Snapshot
  capture_all [] s = some s
  capture_all ((name, argv) ∷ rest) s = captured name (host.run argv) s >>= λ t. capture_all rest t

  -- `_capture_netplan` with its handler
  abbrev pub capture_netplan : Option String → Snapshot → Snapshot
  capture_netplan none s = record s { netplan = true }
  capture_netplan (some reason) s = record s { failures = s.failures ++ ("netplan/", reason) ∷ [] }

  -- `failures.txt` is written where there are failures.
  abbrev pub noted : Snapshot → Option Snapshot
  noted s = elim s.failures [
    | [] ↦ some s
    | f ∷ fs ↦ if host.writable "failures.txt" then some s else none
  ]

  -- The loop of `rmtree`: the removal of the first directories, whether it ends, and the directories that are left.
  -- A removal that raises leaves the loop.
  unfoldable pub remove_first : ℕ → List String → Bool × List String
  remove_first zero names = (true, names)
  remove_first (suc n) [] = (true, [])
  remove_first (suc n) (name ∷ names) =
      let rest = remove_first n names in if host.removable name then rest else (false, name ∷ names)

  -- `_prune_old_snapshots`
  abbrev pub prune_old_snapshots : (keep : ℕ) → List String → Bool × List String
  prune_old_snapshots keep names = remove_first (length names - keep) (sort_by_name (λ n. n) names)

  -- The snapshot, whether the pruning ends or raises, and the directories that are left; `none` is an exception
  -- before the pruning, as from a directory that exists.
  unfoldable pub snapshot_state :
      (stamp : String) → List String → Option (Snapshot × (Bool × List String))
  snapshot_state stamp names =
      if mem_str stamp names
      then none
      else capture_all artifacts empty >>= λ s.
          noted (capture_netplan host.netplan_error s) >>= λ t.
          some (t, prune_old_snapshots keep_snapshots (stamp ∷ names))
