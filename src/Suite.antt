-- ===== src/Suite.antt =====
-- src/ccnxTestrig_Suite.c: the test cases, running one of them by its number, and running all.
pub mod RandomName
pub mod Drawn
pub mod Basic
pub mod Errors
pub mod Restrictions
pub mod RestrictionErrors
mod Cases
pub mod Results
pub mod Plans
mod Leading
mod Planned
mod Restricted
pub mod Refined
pub mod Judged
pub mod Completed
pub mod OverUdp
use ccnx_testrig.Prelude.{
  ℕ, zero, suc, pos, ◌+◌, String, Option, none, some, List, [], ◌∷◌, get_elem?,
}
use ccnx_testrig.Run.{Cmd, pure, ◌>>=◌, ◌>>◌}
use ccnx_testrig.Platform.{Platform}
use ccnx_testrig.Reporter.{Reporter, Console, stdout, stderr, numbered, print}
use ccnx_testrig.TestResult.{TestResult, report_result}
use ccnx_testrig.World.{Rig, World, on_net, on_console}
use ccnx_testrig.Rig.{get_reporter, flush_links}
use ccnx_testrig.Suite.Basic.{
  fib_test_basic_interest_1a_case, fib_test_basic_interest_1b_case, content_object_test_1_case,
  content_object_test_2_case, content_object_test_3_case, content_object_test_4_case,
  content_object_test_5_case, content_object_test_6_case,
}
use ccnx_testrig.Suite.Errors.{
  content_object_test_errors_1_case, content_object_test_errors_2_case,
  content_object_test_errors_3_case,
}
use ccnx_testrig.Suite.Restrictions.{
  content_object_test_restrictions_1_case, content_object_test_restrictions_2_case,
  content_object_test_restrictions_3_case, content_object_test_restrictions_4_case,
}
use ccnx_testrig.Suite.RestrictionErrors.{
  content_object_test_restriction_errors_1_case, content_object_test_restriction_errors_2_case,
  content_object_test_restriction_errors_3_case, content_object_test_restriction_errors_4_case,
  content_object_test_restriction_errors_5_case, content_object_test_restriction_errors_6_case,
}

-- CCNxTestrigSuiteTest
pub data SuiteTest : Type 0 where
  fib_test_basic_interest_1a : SuiteTest
  fib_test_basic_interest_1b : SuiteTest
  content_object_test_1 : SuiteTest
  content_object_test_2 : SuiteTest
  content_object_test_3 : SuiteTest
  content_object_test_4 : SuiteTest
  content_object_test_5 : SuiteTest
  content_object_test_6 : SuiteTest
  content_object_errors_1 : SuiteTest
  content_object_errors_2 : SuiteTest
  content_object_errors_3 : SuiteTest
  content_object_restrictions_1 : SuiteTest
  content_object_restrictions_2 : SuiteTest
  content_object_restrictions_3 : SuiteTest
  content_object_restrictions_4 : SuiteTest
  content_object_restriction_errors_1 : SuiteTest
  content_object_restriction_errors_2 : SuiteTest
  content_object_restriction_errors_3 : SuiteTest
  content_object_restriction_errors_4 : SuiteTest
  content_object_restriction_errors_5 : SuiteTest
  content_object_restriction_errors_6 : SuiteTest

-- CCNxTestrigSuiteTest_LastEntry
abbrev pub last_entry : ℕ
last_entry = 21

-- The enumerators in the order of their numbers.
abbrev pub all_tests : List SuiteTest
all_tests =
    fib_test_basic_interest_1a ∷ fib_test_basic_interest_1b ∷ content_object_test_1
    ∷ content_object_test_2 ∷ content_object_test_3 ∷ content_object_test_4 ∷ content_object_test_5
    ∷ content_object_test_6 ∷ content_object_errors_1 ∷ content_object_errors_2
    ∷ content_object_errors_3 ∷ content_object_restrictions_1 ∷ content_object_restrictions_2
    ∷ content_object_restrictions_3 ∷ content_object_restrictions_4
    ∷ content_object_restriction_errors_1 ∷ content_object_restriction_errors_2
    ∷ content_object_restriction_errors_3 ∷ content_object_restriction_errors_4
    ∷ content_object_restriction_errors_5 ∷ content_object_restriction_errors_6 ∷ []

-- `_testCaseNames[test]`
unfoldable pub test_case_name : SuiteTest → String
test_case_name fib_test_basic_interest_1a = "CCNxTestrigSuiteTest_FIBTest_BasicInterest_1a"
test_case_name fib_test_basic_interest_1b = "CCNxTestrigSuiteTest_FIBTest_BasicInterest_1b"
test_case_name content_object_test_1 = "CCNxTestrigSuiteTest_ContentObjectTest_1"
test_case_name content_object_test_2 = "CCNxTestrigSuiteTest_ContentObjectTest_2"
test_case_name content_object_test_3 = "CCNxTestrigSuiteTest_ContentObjectTest_3"
test_case_name content_object_test_4 = "CCNxTestrigSuiteTest_ContentObjectTest_4"
test_case_name content_object_test_5 = "CCNxTestrigSuiteTest_ContentObjectTest_5"
test_case_name content_object_test_6 = "CCNxTestrigSuiteTest_ContentObjectTest_6"
test_case_name content_object_errors_1 = "CCNxTestrigSuiteTest_ContentObjectErrors_1"
test_case_name content_object_errors_2 = "CCNxTestrigSuiteTest_ContentObjectErrors_2"
test_case_name content_object_errors_3 = "CCNxTestrigSuiteTest_ContentObjectErrors_3"
test_case_name content_object_restrictions_1 = "CCNxTestrigSuiteTest_ContentObjectRestrictions_1"
test_case_name content_object_restrictions_2 = "CCNxTestrigSuiteTest_ContentObjectRestrictions_2"
test_case_name content_object_restrictions_3 = "CCNxTestrigSuiteTest_ContentObjectRestrictions_3"
test_case_name content_object_restrictions_4 = "CCNxTestrigSuiteTest_ContentObjectRestrictions_4"
test_case_name content_object_restriction_errors_1 =
    "CCNxTestrigSuiteTest_ContentObjectRestrictionErrors_1"
test_case_name content_object_restriction_errors_2 =
    "CCNxTestrigSuiteTest_ContentObjectRestrictionErrors_2"
test_case_name content_object_restriction_errors_3 =
    "CCNxTestrigSuiteTest_ContentObjectRestrictionErrors_3"
test_case_name content_object_restriction_errors_4 =
    "CCNxTestrigSuiteTest_ContentObjectRestrictionErrors_4"
test_case_name content_object_restriction_errors_5 =
    "CCNxTestrigSuiteTest_ContentObjectRestrictionErrors_5"
test_case_name content_object_restriction_errors_6 =
    "CCNxTestrigSuiteTest_ContentObjectRestrictionErrors_6"

module _ ⦃p : Platform⦄ (rig : Rig) where
  -- The `switch`, each function with the name that it is called with.
  unfoldable pub run_case : SuiteTest → Cmd World TestResult
  unfolding test_case_name
  run_case fib_test_basic_interest_1a =
      fib_test_basic_interest_1a_case rig (test_case_name fib_test_basic_interest_1a)
  run_case fib_test_basic_interest_1b =
      fib_test_basic_interest_1b_case rig (test_case_name fib_test_basic_interest_1b)
  run_case content_object_test_1 =
      content_object_test_1_case rig (test_case_name content_object_test_1)
  run_case content_object_test_2 =
      content_object_test_2_case rig (test_case_name content_object_test_2)
  run_case content_object_test_3 =
      content_object_test_3_case rig (test_case_name content_object_test_3)
  run_case content_object_test_4 =
      content_object_test_4_case rig (test_case_name content_object_test_4)
  run_case content_object_test_5 =
      content_object_test_5_case rig (test_case_name content_object_test_5)
  run_case content_object_test_6 =
      content_object_test_6_case rig (test_case_name content_object_test_6)
  run_case content_object_errors_1 =
      content_object_test_errors_1_case rig (test_case_name content_object_errors_1)
  run_case content_object_errors_2 =
      content_object_test_errors_2_case rig (test_case_name content_object_errors_2)
  run_case content_object_errors_3 =
      content_object_test_errors_3_case rig (test_case_name content_object_errors_3)
  run_case content_object_restrictions_1 =
      content_object_test_restrictions_1_case rig (test_case_name content_object_restrictions_1)
  run_case content_object_restrictions_2 =
      content_object_test_restrictions_2_case rig (test_case_name content_object_restrictions_2)
  run_case content_object_restrictions_3 =
      content_object_test_restrictions_3_case rig (test_case_name content_object_restrictions_3)
  run_case content_object_restrictions_4 =
      content_object_test_restrictions_4_case rig (test_case_name content_object_restrictions_4)
  run_case content_object_restriction_errors_1 =
      content_object_test_restriction_errors_1_case rig
        (test_case_name content_object_restriction_errors_1)
  run_case content_object_restriction_errors_2 =
      content_object_test_restriction_errors_2_case rig
        (test_case_name content_object_restriction_errors_2)
  run_case content_object_restriction_errors_3 =
      content_object_test_restriction_errors_3_case rig
        (test_case_name content_object_restriction_errors_3)
  run_case content_object_restriction_errors_4 =
      content_object_test_restriction_errors_4_case rig
        (test_case_name content_object_restriction_errors_4)
  run_case content_object_restriction_errors_5 =
      content_object_test_restriction_errors_5_case rig
        (test_case_name content_object_restriction_errors_5)
  run_case content_object_restriction_errors_6 =
      content_object_test_restriction_errors_6_case rig
        (test_case_name content_object_restriction_errors_6)

  -- The result is none where the test is not supported.
  unfoldable pub run_test : ℕ → Cmd World (Option TestResult)
  run_test test = elim (get_elem? all_tests test) [
    | some known ↦ do r ← run_case known; pure (some r)
    | none ↦ do
      on_console (print stderr (numbered "Error: unsupported test case: " (pos test)))
      pure none
  ]

  -- `printf("Running test %d\n", i)`
  unfoldable pub announce_test : ℕ → Cmd World Unit
  announce_test i = on_console (print stdout (numbered "Running test " (pos i)))

  -- `if (result != NULL)`
  unfoldable pub report_if_any : Option TestResult → Cmd World Unit
  report_if_any none = pure tt
  report_if_any (some r) = on_console (report_result r (get_reporter rig))

  -- One round of the loop: the test is run, reported and the links are flushed.
  unfoldable pub run_and_report : ℕ → ℕ → Cmd World (Option TestResult)
  run_and_report rounds i = do
    announce_test i
    result ← run_test i
    report_if_any result
    on_net (flush_links rounds rig)
    pure result

  -- The loop from test `i` on, with `left` tests to go.
  run_from : ℕ → ℕ → ℕ → Cmd World (List (Option TestResult))
  run_from rounds i zero = pure []
  run_from rounds i (suc left) = do
    result ← run_and_report rounds i
    results ← run_from rounds (i + 1) left
    pure (result ∷ results)

  -- `rounds` bounds what one flush receives on one link.
  unfoldable pub run_all : ℕ → Cmd World (List (Option TestResult))
  unfolding run_from
  run_all rounds = run_from rounds 0 last_entry
