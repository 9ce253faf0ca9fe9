-- ===== src/Simulator/Suite/Deploy.antt =====
-- What a test suite's results and summary say: the verdict of one test, the counts, and when a
-- configuration can be deployed.
use mathlib.Core.List.{append_assoc, append-nil}
use viswall.Prelude.{
  ◌+◌, ◌≤◌, ◌≡◌, ◌↔◌, refl, Bool, true, false, not, ◌&&◌, Option, none, some, List, [], ◌∷◌, ◌++◌,
  map, String, arith, eq_iff, ◌==◌, if◌then◌else◌, length, select, truthy, str_eq_refl,
}
use viswall.Simulator.Packet.{Action, accept, drop, reject, log, nat, Network, action_eq}
use viswall.Simulator.Engine.{FirewallSimulator, simulate_packet, determine_chain}
use viswall.Simulator.Suite.{
  TestCase, Tally, run_single_test, tally, tally_all, run_test_suite, no_results,
}

action_eq→eq : (a b : Action) → action_eq a b ≡ true → a ≡ b
action_eq→eq accept b h = ground arith
action_eq→eq drop b h = ground arith
action_eq→eq reject b h = ground arith
action_eq→eq log b h = ground arith
action_eq→eq nat b h = ground arith

action_eq_refl : (a : Action) → action_eq a a ≡ true
action_eq_refl accept = refl
action_eq_refl drop = refl
action_eq_refl reject = refl
action_eq_refl log = refl
action_eq_refl nat = refl

-- The chain that a test names, if it names one, is the chain of its packet.
abbrev pub ChainAsExpected : FirewallSimulator → TestCase → Type 0
ChainAsExpected fw test =
    (c : String) → truthy test.expected_chain ≡ some c → determine_chain fw test.packet ≡ c

module _ (net : Network) (fw : FirewallSimulator) where
  passed_sound :
      (test : TestCase)
      → (run_single_test net fw test).passed ≡ true
      → ((simulate_packet net fw test.packet).action ≡ test.expected_action)
        × ChainAsExpected fw test
  unfolding run_single_test
  passed_sound test h = (
    ground (arith, action_eq→eq (simulate_packet net fw test.packet).action test.expected_action),
    λ c e. unfold simulate_packet in ground (arith, eq_iff (determine_chain fw test.packet) c),
  )

  chain-traversed :
      (test : TestCase)
      → (simulate_packet net fw test.packet).chain_traversed ≡ determine_chain fw test.packet ∷ []
  unfolding simulate_packet
  chain-traversed test = refl

  passed_complete :
      (test : TestCase) (named : Option String)
      → truthy test.expected_chain ≡ named
      → (simulate_packet net fw test.packet).action ≡ test.expected_action
      → ChainAsExpected fw test
      → (run_single_test net fw test).passed ≡ true
  unfolding run_single_test
  passed_complete test none e a h = rw (e, a) (rw action_eq_refl refl)
  passed_complete test (some c) e a h =
      rw (e, chain-traversed test, a, h c e) (rw (str_eq_refl, action_eq_refl) refl)

-- A test passes exactly if the packet's verdict is the expected action and the chain that the test
-- names, if it names one, is the packet's chain.
passed-run_single_test :
    (net : Network) (fw : FirewallSimulator) (test : TestCase)
    → ((run_single_test net fw test).passed ≡ true) ↔ (
        ((simulate_packet net fw test.packet).action ≡ test.expected_action)
        × ChainAsExpected fw test)
passed-run_single_test net fw test = (
  passed_sound net fw test,
  λ (a, h). passed_complete net fw test (truthy test.expected_chain) refl a h,
)

module _ (net : Network) (fw : FirewallSimulator) where
  abbrev pub passes : TestCase → Bool
  passes test = (run_single_test net fw test).passed

  tally_all-results :
      (tests : List TestCase) (t : Tally)
      → (tally_all net fw t tests).results ≡ t.results ++ map (run_single_test net fw) tests
  unfolding tally_all tally
  tally_all-results [] t = rw append-nil
  tally_all-results (test ∷ tests) t = ground (
    arith,
    tally_all-results tests (tally net fw t test),
    append_assoc t.results (run_single_test net fw test ∷ []) (map (run_single_test net fw) tests),
  )

  tally_all-counts :
      (tests : List TestCase) (t : Tally)
      → ((tally_all net fw t tests).passed ≡ t.passed + length (select passes tests))
        × ((tally_all net fw t tests).failed
            ≡ t.failed + length (select (λ c. not (passes c)) tests))
  unfolding tally_all tally
  tally_all-counts [] t = omega arith
  tally_all-counts (test ∷ tests) t = ground (arith, tally_all-counts tests (tally net fw t test))

  abbrev pub is_critical_failure : TestCase → Bool
  is_critical_failure test = not (passes test) && test.critical

  tally_all-critical :
      (tests : List TestCase) (t : Tally)
      → (tally_all net fw t tests).critical_failures
        ≡ t.critical_failures ++ map (λ c. c.id) (select is_critical_failure tests)
  unfolding tally_all tally
  tally_all-critical [] t = rw append-nil
  tally_all-critical (test ∷ tests) t =
      let failures : List String = map (λ c. c.id) (select is_critical_failure tests) in
      ground (
        arith,
        tally_all-critical tests (tally net fw t test),
        append_assoc t.critical_failures (test.id ∷ []) failures,
      )

  count-split :
      (tests : List TestCase)
      → length (select passes tests) + length (select (λ c. not (passes c)) tests) ≡ length tests
  count-split [] = omega arith
  count-split (test ∷ tests) = ground (arith, count-split tests)

  critical-le-failed :
      (tests : List TestCase)
      → length (map (λ (c : TestCase). c.id) (select is_critical_failure tests))
        ≤ length (select (λ c. not (passes c)) tests)
  critical-le-failed [] = omega arith
  critical-le-failed (test ∷ tests) = ground (arith, critical-le-failed tests)

-- A suite's results are those of its tests, one by one and in their order, and the summary counts
-- the tests that pass and those that fail, which together are all, and lists the identifiers of
-- the critical tests that fail.
run_test_suite-counts :
    (net : Network) (fw : FirewallSimulator) (tests : List TestCase)
    → ((run_test_suite net fw tests).0 ≡ map (run_single_test net fw) tests)
      × ((run_test_suite net fw tests).1.passed ≡ length (select (passes net fw) tests))
      × ((run_test_suite net fw tests).1.passed + (run_test_suite net fw tests).1.failed
          ≡ (run_test_suite net fw tests).1.total)
      × ((run_test_suite net fw tests).1.critical_failures
          ≡ map (λ c. c.id) (select (is_critical_failure net fw) tests))
unfolding run_test_suite
run_test_suite-counts net fw tests = (
  tally_all-results net fw tests _,
  omega (arith, tally_all-counts net fw tests _),
  omega (arith, tally_all-counts net fw tests _, count-split net fw tests),
  tally_all-critical net fw tests _,
)

abbrev pub all_pass : Network → FirewallSimulator → List TestCase → Bool
all_pass net fw [] = true
all_pass net fw (test ∷ tests) = if passes net fw test then all_pass net fw tests else false

module _ (net : Network) (fw : FirewallSimulator) where
  all_pass-failed :
      (tests : List TestCase)
      → all_pass net fw tests ≡ (length (select (λ c. not (passes net fw c)) tests) == 0)
  all_pass-failed [] = refl
  all_pass-failed (test ∷ tests) = ground (arith, all_pass-failed tests)

-- A configuration can be deployed exactly if every test of the suite passes, critical or not.
pub can_deploy-all_pass :
    (net : Network) (fw : FirewallSimulator) (tests : List TestCase)
    → (run_test_suite net fw tests).1.can_deploy ≡ all_pass net fw tests
unfolding run_test_suite
can_deploy-all_pass net fw tests = ground (
  arith,
  tally_all-counts net fw tests (no_results net fw),
  tally_all-critical net fw tests (no_results net fw),
  critical-le-failed net fw tests,
  all_pass-failed net fw tests,
)
