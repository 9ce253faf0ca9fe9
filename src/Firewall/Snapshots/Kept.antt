-- ===== src/Firewall/Snapshots/Kept.antt =====
-- services/firewall-service/viswall_firewall_agent/snapshots.py: what `snapshot_state` takes, and what it leaves.
use text.Mathlib.TextPositions.{compare_refl}
use mathlib.Core.List.{append_assoc, append-nil}
use viswall.Prelude.{
  Bool, true, false, ◌≡◌, refl, ap, ◌∙◌, Option, none, some, List, [], ◌∷◌, ◌++◌, String,
  if◌then◌else◌, mem_str, ◌>>=◌, str_eq, eq_iff, Bool-cases, inl, inr, arith, subst, sym,
}
use viswall.Prelude.Texts.{text_le}
use viswall.Firewall.Snapshots.Pruned.{AllBefore, Pruned, kept_last}
use viswall.Firewall.Snapshots.{
  Argv, artifacts, Capture, output, failed, Host, Snapshot, keep_snapshots, empty, captured,
  capture_all, capture_netplan, noted, prune_old_snapshots, snapshot_state,
}

module _ (host : Host) where
  abbrev add_output : String → Capture → List (String × String) → List (String × String)
  add_output name (output text) files = (name, text) ∷ files
  add_output name (failed reason) files = files

  abbrev add_reason : String → Capture → List (String × String) → List (String × String)
  add_reason name (output text) failures = failures
  add_reason name (failed reason) failures = (name, reason) ∷ failures

  -- The files of the commands that give an output, and the reasons of the others, in their order.
  abbrev pub outputs : List (String × Argv) → List (String × String)
  outputs [] = []
  outputs ((name, argv) ∷ rest) = add_output name (host.run argv) (outputs rest)

  abbrev pub reasons : List (String × Argv) → List (String × String)
  reasons [] = []
  reasons ((name, argv) ∷ rest) = add_reason name (host.run argv) (reasons rest)

  abbrev pub netplan_reason : Option String → List (String × String)
  netplan_reason none = []
  netplan_reason (some reason) = ("netplan/", reason) ∷ []

  abbrev is_done : Option String → Bool
  is_done none = true
  is_done (some reason) = false

  module _ (writable : (name : String) → host.writable name ≡ true) where
    -- The snapshot to which these files and reasons are added.
    abbrev added : (files failures : List (String × String)) → Snapshot → Snapshot
    added files failures s = record {
      files = s.files ++ files;
      netplan = s.netplan;
      failures = s.failures ++ failures;
    }

    captured_lem :
        (name : String) (c : Capture) (rest : List (String × Argv)) (s : Snapshot)
        → ((t : Snapshot) → capture_all host rest t ≡ some (added (outputs rest) (reasons rest) t))
        → (captured host name c s >>= λ t. capture_all host rest t)
          ≡ some (added (add_output name c (outputs rest)) (add_reason name c (reasons rest)) s)
    captured_lem name (output text) rest s next = rw (writable name) (
        next (record s { files = s.files ++ (name, text) ∷ [] })
        ∙ ap
            (λ (files : List (String × String)). some (record {
              files = files;
              netplan = s.netplan;
              failures = s.failures ++ reasons rest;
            }))
            (append_assoc s.files ((name, text) ∷ []) (outputs rest)))
    captured_lem name (failed reason) rest s next =
        next (record s { failures = s.failures ++ (name, reason) ∷ [] })
        ∙ ap
            (λ (failures : List (String × String)). some (record {
              files = s.files ++ outputs rest;
              netplan = s.netplan;
              failures = failures;
            }))
            (append_assoc s.failures ((name, reason) ∷ []) (reasons rest))

    capture_all_lem :
        (due : List (String × Argv)) (s : Snapshot)
        → capture_all host due s ≡ some (added (outputs due) (reasons due) s)
    unfolding capture_all
    capture_all_lem [] s = rw (append-nil s.files, append-nil s.failures) refl
    capture_all_lem ((name, argv) ∷ rest) s =
        captured_lem name (host.run argv) rest s (capture_all_lem rest)

    noted_lem : (s : Snapshot) → noted host s ≡ some s
    noted_lem s = by_failures s.failures
      where
        by_failures :
            (failures : List (String × String))
            → (elim failures [
              | [] ↦ some s
              | f ∷ fs ↦ if host.writable "failures.txt" then some s else none
            ])
              ≡ some s
        by_failures [] = refl
        by_failures (f ∷ fs) = rw (writable "failures.txt") refl

  -- What a snapshot of the host holds.
  abbrev pub taken : Snapshot
  taken = record {
    files = outputs artifacts;
    netplan = is_done host.netplan_error;
    failures = reasons artifacts ++ netplan_reason host.netplan_error;
  }

  capture_netplan_lem :
      (e : Option String)
      → capture_netplan host e
          (record { files = outputs artifacts; netplan = false; failures = reasons artifacts })
        ≡ record {
          files = outputs artifacts;
          netplan = is_done e;
          failures = reasons artifacts ++ netplan_reason e;
        }
  capture_netplan_lem none = rw (append-nil (reasons artifacts)) refl
  capture_netplan_lem (some reason) = refl

new_name :
    (stamp : String) (names : List String) → AllBefore stamp names → mem_str stamp names ≡ false
new_name stamp [] all = refl
new_name stamp (n ∷ names) all = elim (Bool-cases (str_eq n stamp)) [
  | inl e ↦
      let same : n ≡ stamp = ground (arith, eq_iff n stamp) in
      let before : text_le stamp stamp ≡ false = rw same at all.0 in
      let not_before : text_le stamp stamp ≡ true = rw (text_le, compare_refl stamp) refl in cc
  | inr e ↦ rw e (new_name stamp names all.1)
]

-- If every file can be written, a snapshot whose stamp comes after those of the directories that are there is taken
-- whatever tools are missing or fail: it holds the output of each command that gives one, and its failures name the
-- other commands and netplan, where its copy fails, with the reasons. The new directory is kept in any case. Where the
-- pruning ends, ten directories at most are left; where it raises, more than ten are, the first of them one that
-- cannot be removed.
pub snapshot_state-taken :
    (host : Host) (stamp : String) (names : List String)
    → ((name : String) → host.writable name ≡ true)
    → AllBefore stamp names
    → (left : List String) × (older : List String) × (pruned : Bool) × (snapshot_state host stamp
          names
        ≡ some (taken host, (pruned, left)))
      × (left ≡ older ++ stamp ∷ [])
      × Pruned host pruned left older
unfolding snapshot_state
snapshot_state-taken host stamp names writable all =
    let (older, last, ends) = kept_last host stamp names all in
    let result = prune_old_snapshots host keep_snapshots (stamp ∷ names) in
    (
      result.1,
      older,
      result.0,
      rw
          (
            new_name stamp names all,
            capture_all_lem host writable artifacts empty,
            capture_netplan_lem host host.netplan_error,
            noted_lem host writable (taken host),
          )
          refl,
      last,
      subst (λ l. Pruned host result.0 l older) (sym last) ends,
    )
