-- ===== src/Firewall/Deploy/Rollback.antt =====
-- services/firewall-service/viswall_firewall_agent/api.py: `_rollback_direct`, the restoration of a
-- snapshot, and `_reapply_last_good`.
pub mod Ran
use viswall.Prelude.{
  Bool, true, false, ◌≡◌, refl, sym, subst, Option, none, some, List, [], ◌∷◌, ◌++◌, String,
  if◌then◌else◌, Bool-cases, inl, inr,
}

-- The commands that run; each names the artifact it reads.
pub data Command : Type 0 where
  test : (artifact : String) → Command
  delete_table : Command
  restore : (artifact : String) → Command
  load_last_good : Command

-- How a command ends: with exit 0, with another exit, or not run, where the artifact cannot be read or the program
-- cannot be started, an `OSError`.
pub data Answer : Type 0 where
  succeeded : Answer
  failed : Answer
  not_run : Answer

-- The files of the snapshot, whether the last good configuration is there, and how a command ends after those that
-- ran before it.
pub record Machine : Type 0 where
  pub is_file : String → Bool
  pub has_last_good : Bool
  pub answer : List Command → Command → Answer

-- What `FirewallApplyError` tells, or an `OSError`.
pub data RollbackError : Type 0 where
  missing : (artifact : String) → RollbackError
  test_failed : (artifact : String) → RollbackError
  restore_failed : (artifact : String) → RollbackError
  os_error : RollbackError

abbrev pub artifacts : List String
artifacts = "rules.v4" ∷ "rules.v6" ∷ []

module _ (machine : Machine) where
  -- A command, with the error of another exit than 0, if that is one.
  abbrev pub ended :
      Answer
      → Command
      → (on_failure : Option RollbackError) → List Command
      → Option RollbackError × List Command
  ended succeeded command on_failure ran = (none, ran ++ command ∷ [])
  ended failed command on_failure ran = (on_failure, ran ++ command ∷ [])
  ended not_run command on_failure ran = (some os_error, ran)

  abbrev run : Command → Option RollbackError → List Command → Option RollbackError × List Command
  run command on_failure ran = ended (machine.answer ran command) command on_failure ran

  abbrev test_one : String → List Command → Option RollbackError × List Command
  test_one name ran =
      if machine.is_file name
      then run (test name) (some (test_failed name)) ran
      else (some (missing name), ran)

  -- The loop stops at the first error.
  abbrev pub unless_failed :
      (List Command → Option RollbackError × List Command)
      → Option RollbackError × List Command
      → Option RollbackError × List Command
  unless_failed next (some e, ran) = (some e, ran)
  unless_failed next (none, ran) = next ran

  unfoldable pub test_all : List String → List Command → Option RollbackError × List Command
  test_all [] ran = (none, ran)
  test_all (name ∷ names) ran = unless_failed (test_all names) (test_one name ran)

  abbrev restore_one : String → List Command → Option RollbackError × List Command
  restore_one name ran = run (restore name) (some (restore_failed name)) ran

  unfoldable pub restore_all : List String → List Command → Option RollbackError × List Command
  restore_all [] ran = (none, ran)
  restore_all (name ∷ names) ran = unless_failed (restore_all names) (restore_one name ran)

  abbrev pub loaded : Answer → RollbackError → List Command → RollbackError × List Command
  loaded succeeded e ran = (e, ran ++ load_last_good ∷ [])
  loaded failed e ran = (e, ran ++ load_last_good ∷ [])
  loaded not_run e ran = (os_error, ran)

  -- `_reapply_last_good`, after which the error is raised again; another exit of nft is only logged.
  abbrev pub reapply_last_good : RollbackError → List Command → RollbackError × List Command
  reapply_last_good e ran =
      if machine.has_last_good then loaded (machine.answer ran load_last_good) e ran else (e, ran)

  -- `except FirewallApplyError`, which an `OSError` passes.
  abbrev pub handled : RollbackError → List Command → RollbackError × List Command
  handled os_error ran = (os_error, ran)
  handled (missing name) ran = reapply_last_good (missing name) ran
  handled (test_failed name) ran = reapply_last_good (test_failed name) ran
  handled (restore_failed name) ran = reapply_last_good (restore_failed name) ran

  abbrev pub after_restore :
      Option RollbackError × List Command → Option RollbackError × List Command
  after_restore (none, ran) = (none, ran)
  after_restore (some e, ran) = let (e', ran') = handled e ran in (some e', ran')

  abbrev pub restore_artifacts : List Command → Option RollbackError × List Command
  restore_artifacts ran = after_restore (restore_all artifacts ran)

  -- Another exit of the deletion is tolerated.
  abbrev pub after_tests : List Command → Option RollbackError × List Command
  after_tests ran = unless_failed restore_artifacts (run delete_table none ran)

  -- `_rollback_direct`: `none` is a roll-back that returns.
  unfoldable pub rollback_direct : List Command → Option RollbackError × List Command
  rollback_direct ran = unless_failed after_tests (test_all artifacts ran)
