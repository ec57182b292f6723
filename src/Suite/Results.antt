-- ===== src/Suite/Results.antt =====
-- What running one test of the suite, and all of them, returns.
use ccnx_testrig.Prelude.{
  ℕ, pos, ◌+◌, ◌≡◌, refl, ◌∙◌, subst, Option, none, some, List, [], ◌∷◌, ◌++◌, length,
  length-append, append_assoc, get_elem?, get_elem?-append_next,
}
use ccnx_testrig.Run.{ok}
use ccnx_testrig.Platform.{Platform}
use ccnx_testrig.Reporter.{stderr, numbered}
use ccnx_testrig.TestResult.{TestResult}
use ccnx_testrig.World.{Rig, World, on_net}
use ccnx_testrig.Rig.{flush_links}
use ccnx_testrig.Script.Execute.Ensures.{Ensures, Ensures-after, Ensures-bind, Ensures-pure}
use ccnx_testrig.Script.Execute.Keeps.{IsResultOf}
use ccnx_testrig.Suite.{
  SuiteTest, all_tests, test_case_name, run_case, run_test, announce_test, report_if_any,
  run_and_report, run_from, run_all, fib_test_basic_interest_1a, fib_test_basic_interest_1b,
  content_object_test_1, content_object_test_2, content_object_test_3, content_object_test_4,
  content_object_test_5, content_object_test_6, content_object_errors_1, content_object_errors_2,
  content_object_errors_3, content_object_restrictions_1, content_object_restrictions_2,
  content_object_restrictions_3, content_object_restrictions_4, content_object_restriction_errors_1,
  content_object_restriction_errors_2, content_object_restriction_errors_3,
  content_object_restriction_errors_4, content_object_restriction_errors_5,
  content_object_restriction_errors_6,
}
use ccnx_testrig.Suite.Cases.{
  fib_test_basic_interest_1a_case-IsResultOf, fib_test_basic_interest_1b_case-IsResultOf,
  content_object_test_1_case-IsResultOf, content_object_test_2_case-IsResultOf,
  content_object_test_3_case-IsResultOf, content_object_test_4_case-IsResultOf,
  content_object_test_5_case-IsResultOf, content_object_test_6_case-IsResultOf,
  content_object_test_errors_1_case-IsResultOf, content_object_test_errors_2_case-IsResultOf,
  content_object_test_errors_3_case-IsResultOf, content_object_test_restrictions_1_case-IsResultOf,
  content_object_test_restrictions_2_case-IsResultOf,
  content_object_test_restrictions_3_case-IsResultOf,
  content_object_test_restrictions_4_case-IsResultOf,
  content_object_test_restriction_errors_1_case-IsResultOf,
  content_object_test_restriction_errors_2_case-IsResultOf,
  content_object_test_restriction_errors_3_case-IsResultOf,
  content_object_test_restriction_errors_4_case-IsResultOf,
  content_object_test_restriction_errors_5_case-IsResultOf,
  content_object_test_restriction_errors_6_case-IsResultOf,
}

module _ ⦃p : Platform⦄ (rig : Rig) where
  pub run_case-IsResultOf :
      (test : SuiteTest) → Ensures (IsResultOf (test_case_name test)) (run_case rig test)
  unfolding run_case
  run_case-IsResultOf fib_test_basic_interest_1a = fib_test_basic_interest_1a_case-IsResultOf rig _
  run_case-IsResultOf fib_test_basic_interest_1b = fib_test_basic_interest_1b_case-IsResultOf rig _
  run_case-IsResultOf content_object_test_1 = content_object_test_1_case-IsResultOf rig _
  run_case-IsResultOf content_object_test_2 = content_object_test_2_case-IsResultOf rig _
  run_case-IsResultOf content_object_test_3 = content_object_test_3_case-IsResultOf rig _
  run_case-IsResultOf content_object_test_4 = content_object_test_4_case-IsResultOf rig _
  run_case-IsResultOf content_object_test_5 = content_object_test_5_case-IsResultOf rig _
  run_case-IsResultOf content_object_test_6 = content_object_test_6_case-IsResultOf rig _
  run_case-IsResultOf content_object_errors_1 = content_object_test_errors_1_case-IsResultOf rig _
  run_case-IsResultOf content_object_errors_2 = content_object_test_errors_2_case-IsResultOf rig _
  run_case-IsResultOf content_object_errors_3 = content_object_test_errors_3_case-IsResultOf rig _
  run_case-IsResultOf content_object_restrictions_1 =
      content_object_test_restrictions_1_case-IsResultOf rig _
  run_case-IsResultOf content_object_restrictions_2 =
      content_object_test_restrictions_2_case-IsResultOf rig _
  run_case-IsResultOf content_object_restrictions_3 =
      content_object_test_restrictions_3_case-IsResultOf rig _
  run_case-IsResultOf content_object_restrictions_4 =
      content_object_test_restrictions_4_case-IsResultOf rig _
  run_case-IsResultOf content_object_restriction_errors_1 =
      content_object_test_restriction_errors_1_case-IsResultOf rig _
  run_case-IsResultOf content_object_restriction_errors_2 =
      content_object_test_restriction_errors_2_case-IsResultOf rig _
  run_case-IsResultOf content_object_restriction_errors_3 =
      content_object_test_restriction_errors_3_case-IsResultOf rig _
  run_case-IsResultOf content_object_restriction_errors_4 =
      content_object_test_restriction_errors_4_case-IsResultOf rig _
  run_case-IsResultOf content_object_restriction_errors_5 =
      content_object_test_restriction_errors_5_case-IsResultOf rig _
  run_case-IsResultOf content_object_restriction_errors_6 =
      content_object_test_restriction_errors_6_case-IsResultOf rig _

  -- The result of a test that the suite has.
  pub data ResultOf (test : SuiteTest) : Option TestResult → Type 0 where
    result_of : {r : TestResult} → IsResultOf (test_case_name test) r → ResultOf test (some r)

  run_test-known :
      (i : ℕ) (test : SuiteTest)
      → get_elem? all_tests i ≡ some test
      → Ensures (ResultOf test) (run_test rig i)
  unfolding run_test
  run_test-known i test known = rw known (
      Ensures-bind (IsResultOf (test_case_name test)) (run_case rig test) (λ r. ok (some r))
        (run_case-IsResultOf test) λ r h. Ensures-pure (some r) (result_of h))

  -- Running a test by its number: with the number of one of the 21 tests, a run that returns gives a
  -- result that carries that test's name and, if it has failed, a reason; with any other number it
  -- returns no result and has done nothing but write to the error stream.
  pub run_test-ResultOf :
      (i : ℕ) (w : World)
      → ((test : SuiteTest) (result : Option TestResult) (w' : World)
          → get_elem? all_tests i ≡ some test
          → run_test rig i w ≡ ok result w'
          → ResultOf test result)
        × (get_elem? all_tests i ≡ none
            → run_test rig i w
              ≡ ok none (record w {
                net = record w.net {
                  console =
                      w.net.console
                      ++ (stderr, numbered "Error: unsupported test case: " (pos i)) ∷ [];
                };
              }))
  unfolding run_test
  run_test-ResultOf i w = (
    λ test result w' known e. (run_test-known i test known).ensured w result w' e,
    λ unknown. rw unknown refl,
  )

  -- One result for each of the tests, in their order.
  pub data ResultsOf : List SuiteTest → List (Option TestResult) → Type 0 where
    no_results : ResultsOf [] []
    results_of :
        {test : SuiteTest} {tests : List SuiteTest} {result : Option TestResult}
        {results : List (Option TestResult)}
        → ResultOf test result
        → ResultsOf tests results
        → ResultsOf (test ∷ tests) (result ∷ results)

  run_and_report-known :
      (rounds i : ℕ) (test : SuiteTest)
      → get_elem? all_tests i ≡ some test
      → Ensures (ResultOf test) (run_and_report rig rounds i)
  unfolding run_and_report
  run_and_report-known rounds i test known = Ensures-after (announce_test rig i) _ λ _.
      Ensures-bind (ResultOf test) (run_test rig i) _ (run_test-known i test known) λ result h.
        Ensures-after (report_if_any rig result) _
          λ _. Ensures-after (on_net (flush_links rounds rig)) _ λ _. Ensures-pure result h

  run_from-ResultsOf :
      (rounds : ℕ) (done todo : List SuiteTest)
      → done ++ todo ≡ all_tests
      → Ensures (ResultsOf todo) (run_from rig rounds (length done) (length todo))
  unfolding run_from
  run_from-ResultsOf rounds done [] e = Ensures-pure [] no_results
  run_from-ResultsOf rounds done (test ∷ todo) e =
      let known : get_elem? all_tests (length done) ≡ some test =
        subst (λ tests. get_elem? tests (length done) ≡ some test) e
          (get_elem?-append_next done test todo) in
      let rest : Ensures (ResultsOf todo) (run_from rig rounds (length done + 1) (length todo)) =
        subst (λ n. Ensures (ResultsOf todo) (run_from rig rounds n (length todo)))
          (length-append done (test ∷ []))
          (run_from-ResultsOf rounds (done ++ test ∷ []) todo
            (append_assoc done (test ∷ []) todo ∙ e)) in
      Ensures-bind (ResultOf test) (run_and_report rig rounds (length done)) _
        (run_and_report-known rounds (length done) test known)
        λ result h.
          Ensures-bind (ResultsOf todo) (run_from rig rounds (length done + 1) (length todo)) _ rest
            λ results hs. Ensures-pure (result ∷ results) (results_of h hs)

  -- Running the suite, if it returns, gives 21 results: for each test in the order of the
  -- enumeration a result that is there, that carries the test's name and, if it has failed, a reason.
  pub run_all-ResultsOf :
      (rounds : ℕ) (w : World) (results : List (Option TestResult)) (w' : World)
      → run_all rig rounds w ≡ ok results w'
      → ResultsOf all_tests results
  unfolding run_all
  run_all-ResultsOf rounds w results w' e =
      (run_from-ResultsOf rounds [] all_tests refl).ensured w results w' e
