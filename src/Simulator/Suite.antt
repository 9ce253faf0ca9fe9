-- ===== src/Simulator/Suite.antt =====
-- shared/firewall_simulator.py: `TestCase`, `TestResult` and the test suites of `FirewallSimulator`.
-- Execution times are left out, and an error message is the data that its f-string shows.
pub mod Deploy
use viswall.Prelude.{
  ℕ, ◌+◌, ◌*◌, Bool, true, false, not, ◌&&◌, Option, none, some, List, [], ◌∷◌, ◌++◌, String, ◌==◌,
  if◌then◌else◌, length, mem_str, truthy,
}
use viswall.Simulator.Packet.{Action, NetworkPacket, FirewallRule, Network, action_eq}
use viswall.Simulator.Engine.{FirewallSimulator, SimulationResult, simulate_packet}

pub record TestCase : Type 0 where
  pub id : String
  pub name : String
  pub description : String
  pub packet : NetworkPacket
  pub expected_action : Action
  pub expected_chain : Option String
  pub critical : Bool
  pub tags : List String

pub data ErrorMessage : Type 0 where
  wrong_action : (expected got : Action) → ErrorMessage
  wrong_chain : (expected : String) (traversed : List String) → ErrorMessage

pub record TestResult : Type 0 where
  pub test_case : TestCase
  pub passed : Bool
  pub actual_action : Action
  pub actual_rule : Option FirewallRule
  pub error_message : Option ErrorMessage

-- The float `passed / len(test_cases) * 100`, as a fraction.
pub record Ratio : Type 0 where
  pub numerator : ℕ
  pub denominator : ℕ

pub record Summary : Type 0 where
  pub total : ℕ
  pub passed : ℕ
  pub failed : ℕ
  pub pass_rate : Ratio
  pub critical_failures : List String
  pub can_deploy : Bool

-- The verdict before and after the check of the chain.
abbrev check_action : TestCase → SimulationResult → Bool × Option ErrorMessage
check_action test result =
    if action_eq result.action test.expected_action
    then (true, none)
    else (false, some (wrong_action test.expected_action result.action))

abbrev check_chain :
    Option String → List String → Bool × Option ErrorMessage → Bool × Option ErrorMessage
check_chain none traversed verdict = verdict
check_chain (some chain) traversed verdict =
    if mem_str chain traversed then verdict else (false, some (wrong_chain chain traversed))

-- The variables of the loop of `run_test_suite`.
pub record Tally : Type 0 where
  pub results : List TestResult
  pub passed : ℕ
  pub failed : ℕ
  pub critical_failures : List String

module _ (net : Network) (fw : FirewallSimulator) where
  unfoldable pub run_single_test : TestCase → TestResult
  run_single_test test =
      let result = simulate_packet net fw test.packet in
      let (passed, error_msg) =
        check_chain (truthy test.expected_chain) result.chain_traversed
          (check_action test result) in
      record {
        test_case = test;
        passed = passed;
        actual_action = result.action;
        actual_rule = result.matched_rule;
        error_message = error_msg;
      }

  unfoldable pub tally : Tally → TestCase → Tally
  tally t test =
      let result = run_single_test test in
      let results = t.results ++ result ∷ [] in
      if result.passed then record t { results = results; passed = t.passed + 1 } else record t {
        results = results;
        failed = t.failed + 1;
        critical_failures =
            if test.critical then t.critical_failures ++ test.id ∷ [] else t.critical_failures;
      }

  unfoldable pub tally_all : Tally → List TestCase → Tally
  tally_all t [] = t
  tally_all t (test ∷ tests) = tally_all (tally t test) tests

  abbrev no_results : Tally
  no_results = record { results = []; passed = 0; failed = 0; critical_failures = [] }

  unfoldable pub run_test_suite : List TestCase → List TestResult × Summary
  run_test_suite tests =
      let t = tally_all no_results tests in
      (
        t.results,
        record {
          total = length tests;
          passed = t.passed;
          failed = t.failed;
          pass_rate =
              if length tests == 0
              then record { numerator = 0; denominator = 1 }
              else record { numerator = t.passed * 100; denominator = length tests };
          critical_failures = t.critical_failures;
          can_deploy = length t.critical_failures == 0 && t.failed == 0;
        },
      )
