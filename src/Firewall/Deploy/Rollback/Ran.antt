-- ===== src/Firewall/Deploy/Rollback/Ran.antt =====
-- services/firewall-service/viswall_firewall_agent/api.py: which commands ran where `_rollback_direct` ends.
use viswall.Prelude.{
  Bool, true, false, ◌≡◌, refl, sym, subst, Option, none, some, List, [], ◌∷◌, ◌++◌, String,
  if◌then◌else◌, Bool-cases, inl, inr,
}
use viswall.Firewall.Deploy.Rollback.{
  Command, test, delete_table, restore, load_last_good, Answer, succeeded, failed, not_run, Machine,
  RollbackError, missing, test_failed, restore_failed, os_error, ended, loaded, unless_failed,
  test_all, restore_all, after_restore, restore_artifacts, after_tests, rollback_direct,
}

-- Commands that change nothing.
abbrev pub only_tests : List Command → Bool
only_tests [] = true
only_tests (test name ∷ commands) = only_tests commands
only_tests (delete_table ∷ commands) = false
only_tests (restore name ∷ commands) = false
only_tests (load_last_good ∷ commands) = false

-- What ran up to the deletion of the table.
abbrev pub deleted : List Command
deleted = test "rules.v4" ∷ test "rules.v6" ∷ delete_table ∷ []

-- The artifact that is due after these restorations.
pub data Next : List Command → String → Type 0 where
  first : Next deleted "rules.v4"
  second : Next (deleted ++ restore "rules.v4" ∷ []) "rules.v6"

-- Where an `OSError` leaves a roll-back.
pub data Raised (machine : Machine) : List Command → Type 0 where
  before_deletion : {ran : List Command} → only_tests ran ≡ true → Raised machine ran
  -- At a restoration: the last good configuration is not loaded, whether it is there or not.
  at_restoration :
      {ran : List Command} (name : String)
      → Next ran name
      → machine.answer ran (restore name) ≡ not_run
      → Raised machine ran
  -- At the load of the last good configuration, after a restoration that failed.
  at_load :
      (before : List Command) (name : String)
      → Next before name
      → machine.answer before (restore name) ≡ failed
      → machine.answer (before ++ restore name ∷ []) load_last_good ≡ not_run
      → Raised machine (before ++ restore name ∷ [])

-- The end of a roll-back after a restoration that failed.
abbrev pub with_last_good : Bool → List Command → List Command
with_last_good true ran = ran ++ load_last_good ∷ []
with_last_good false ran = ran

-- What an end of the roll-back tells of the commands that ran.
abbrev pub Ran : Machine → Option RollbackError → List Command → Type 0
Ran machine (some (missing name)) ran = only_tests ran ≡ true
Ran machine (some (test_failed name)) ran = only_tests ran ≡ true
Ran machine (some (restore_failed name)) ran =
    (before : List Command) × Next before name
    × (machine.answer before (restore name) ≡ failed)
    × (ran ≡ with_last_good machine.has_last_good (before ++ restore name ∷ []))
Ran machine (some os_error) ran = Raised machine ran
Ran machine none ran = ran ≡ deleted ++ restore "rules.v4" ∷ restore "rules.v6" ∷ []

module _ (machine : Machine) where
  RanOf : Option RollbackError × List Command → Type 0
  RanOf (e, ran) = Ran machine e ran

  load-Ran :
      (a : Answer) (before : List Command) (name : String)
      → Next before name
      → machine.answer before (restore name) ≡ failed
      → machine.has_last_good ≡ true
      → machine.answer (before ++ restore name ∷ []) load_last_good ≡ a
      → RanOf (
        some (loaded machine a (restore_failed name) (before ++ restore name ∷ [])).0,
        (loaded machine a (restore_failed name) (before ++ restore name ∷ [])).1,
      )
  unfolding RanOf
  load-Ran succeeded before name due f good h = (before, due, f, rw good refl)
  load-Ran failed before name due f good h = (before, due, f, rw good refl)
  load-Ran not_run before name due f good h = at_load before name due f h

  fallen_back-Ran :
      (before : List Command) (name : String)
      → Next before name
      → machine.answer before (restore name) ≡ failed
      → RanOf (after_restore machine (some (restore_failed name), before ++ restore name ∷ []))
  unfolding RanOf
  fallen_back-Ran before name due f =
      let ran = before ++ restore name ∷ [] in
      elim (Bool-cases machine.has_last_good) [
        | inl good ↦
            let end =
              loaded machine (machine.answer ran load_last_good) (restore_failed name) ran in
            let step : after_restore machine (some (restore_failed name), ran)
                ≡ (some end.0, end.1) =
              rw good refl in
            subst (λ r. Ran machine r.0 r.1) (sym step)
              (load-Ran (machine.answer ran load_last_good) before name due f good refl)
        | inr none_there ↦
            let step : after_restore machine (some (restore_failed name), ran)
                ≡ (some (restore_failed name), ran) =
              rw none_there refl in
            subst (λ r. Ran machine r.0 r.1) (sym step) (before, due, f, rw none_there refl)
      ]

  second_restore-Ran :
      (a : Answer)
      → machine.answer (deleted ++ restore "rules.v4" ∷ []) (restore "rules.v6") ≡ a
      → RanOf (
          after_restore machine (
            unless_failed machine (restore_all machine []) (
              ended machine a
                (restore "rules.v6")
                (some (restore_failed "rules.v6"))
                (deleted ++ restore "rules.v4" ∷ []))))
  unfolding RanOf restore_all
  second_restore-Ran succeeded h = refl
  second_restore-Ran failed h =
      fallen_back-Ran (deleted ++ restore "rules.v4" ∷ []) "rules.v6" second h
  second_restore-Ran not_run h = at_restoration "rules.v6" second h

  first_restore-Ran :
      (a : Answer)
      → machine.answer deleted (restore "rules.v4") ≡ a
      → RanOf (
          after_restore machine (
            unless_failed machine
              (restore_all machine ("rules.v6" ∷ []))
              (ended machine a (restore "rules.v4") (some (restore_failed "rules.v4")) deleted)))
  unfolding RanOf restore_all
  first_restore-Ran succeeded h =
      second_restore-Ran (machine.answer (deleted ++ restore "rules.v4" ∷ []) (restore "rules.v6"))
        refl
  first_restore-Ran failed h = fallen_back-Ran deleted "rules.v4" first h
  first_restore-Ran not_run h = at_restoration "rules.v4" first h

  delete-Ran :
      (a : Answer)
      → RanOf (
          unless_failed machine
            (restore_artifacts machine)
            (ended machine a delete_table none (test "rules.v4" ∷ test "rules.v6" ∷ [])))
  unfolding RanOf restore_all
  delete-Ran succeeded = first_restore-Ran (machine.answer deleted (restore "rules.v4")) refl
  delete-Ran failed = first_restore-Ran (machine.answer deleted (restore "rules.v4")) refl
  delete-Ran not_run = before_deletion refl

  second_test-Ran :
      (there : Bool) (a : Answer)
      → RanOf (
          unless_failed machine (after_tests machine) (
            unless_failed machine (test_all machine []) (
              if there
              then ended machine a
                  (test "rules.v6")
                  (some (test_failed "rules.v6"))
                  (test "rules.v4" ∷ [])
              else (some (missing "rules.v6"), test "rules.v4" ∷ []))))
  unfolding RanOf test_all
  second_test-Ran false a = refl
  second_test-Ran true succeeded =
      delete-Ran (machine.answer (test "rules.v4" ∷ test "rules.v6" ∷ []) delete_table)
  second_test-Ran true failed = refl
  second_test-Ran true not_run = before_deletion refl

  first_test-Ran :
      (there : Bool) (a : Answer)
      → RanOf (
          unless_failed machine (after_tests machine) (
            unless_failed machine (test_all machine ("rules.v6" ∷ [])) (
              if there
              then ended machine a (test "rules.v4") (some (test_failed "rules.v4")) []
              else (some (missing "rules.v4"), []))))
  unfolding RanOf test_all
  first_test-Ran false a = refl
  first_test-Ran true succeeded =
      second_test-Ran (machine.is_file "rules.v6")
        (machine.answer (test "rules.v4" ∷ []) (test "rules.v6"))
  first_test-Ran true failed = refl
  first_test-Ran true not_run = before_deletion refl

-- A roll-back that fails at a missing or invalid artifact has only tested artifacts, so the table viswall is still
-- there. One that fails at a restoration, because its command exits with another code than 0, ends with the load of
-- the last good configuration, where there is one. An `OSError` leaves it after tests alone, or at a restoration
-- after the table was deleted, and then the last good configuration is not loaded, or at that load. One that returns
-- has tested both artifacts, then deleted the table, then restored both.
pub rollback_direct-Ran :
    (machine : Machine) → Ran machine (rollback_direct machine []).0 (rollback_direct machine []).1
unfolding rollback_direct test_all RanOf
rollback_direct-Ran machine =
    first_test-Ran machine (machine.is_file "rules.v4") (machine.answer [] (test "rules.v4"))
