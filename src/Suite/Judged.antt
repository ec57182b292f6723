-- ===== src/Suite/Judged.antt =====
-- What a run of the whole suite on channels comes to: each test is run in the world that the one before
-- it has left, and judged by its plan.
use ccnx_testrig.Prelude.{ℕ, ◌+◌, ◌<◌, ◌≡◌, Option, some, List, [], ◌∷◌}
use ccnx_testrig.Run.{ok}
use ccnx_testrig.Platform.{Platform}
use ccnx_testrig.Platform.Laws.{BufferLaws, CodecLaws}
use ccnx_testrig.TestResult.{TestResult, is_failure, HasReason}
use ccnx_testrig.Link.{Net}
use ccnx_testrig.World.{Rig, World, on_net}
use ccnx_testrig.Rig.{flush_links}
use ccnx_testrig.Rig.Flush.{Answers}
use ccnx_testrig.Channels.{Channels}
use ccnx_testrig.Suite.{SuiteTest, test_case_name, run_test, report_if_any}
use ccnx_testrig.Suite.Refined.{verdict_of, is_failed}
use ccnx_testrig.Script.Execute.Steps.{said}

module _ ⦃p : Platform⦄ {rig : Rig} (channels : Channels rig) where
  -- The net is one on which the channels work.
  abbrev pub Works : Net → Type 0
  Works n = (e : channels.Env) × channels.Holds e n

  -- What flushing needs of the channels: receives without a wait bring what is pending, which is
  -- below the given number, to an end.
  pub record CanFlush (rounds : ℕ) : Type 0 where
    pub pending : Net → ℕ
    pub bounded : (n : Net) → Works n → pending n < rounds
    pub on_a : (n : Net) → Works n → Answers Works pending rig.link_a n
    pub on_b : (n : Net) → Works n → Answers Works pending rig.link_b n
    pub on_c : (n : Net) → Works n → Answers Works pending rig.link_c n

module _ ⦃p : Platform⦄ (buffers : BufferLaws p) (codec : CodecLaws p) {rig : Rig}
    (channels : Channels rig) (rounds : ℕ) where
  -- The `i`-th test, run from the world `w` to the world `w'`. The test is announced, and in the world
  -- that this leaves it returns a result that carries the test's name, and that has failed, with a
  -- reason, exactly if the test's plan fails with the name that is drawn next on what surrounds the
  -- rig there. The result is reported and the links are flushed.
  pub record Judged (i : ℕ) (test : SuiteTest) (w : World) (result : Option TestResult) (w' : World)
      : Type 0 where
    pub r : TestResult
    pub returned : result ≡ some r
    pub works : Works channels (said "Running test " i w).net
    pub tested : World
    pub run : run_test rig i (said "Running test " i w) ≡ ok (some r) tested
    pub named : r.test_case ≡ test_case_name test
    pub has_reason : HasReason r
    pub verdict :
        (e : channels.Env)
        → channels.Holds e (said "Running test " i w).net
        → is_failure r ≡ is_failed channels (verdict_of buffers codec channels w.draws test e)
    pub told : World
    pub reported : report_if_any rig (some r) tested ≡ ok tt told
    pub flushed : on_net (flush_links rounds rig) told ≡ ok tt w'

  -- The tests from the `i`-th on, one after the other, with one result for each.
  pub data AllJudged : ℕ → List SuiteTest → World → List (Option TestResult) → World → Type 0 where
    none_judged : {i : ℕ} {w : World} → AllJudged i [] w [] w
    all_judged :
        {i : ℕ} {test : SuiteTest} {tests : List SuiteTest} {w w1 w2 : World}
        {result : Option TestResult} {results : List (Option TestResult)}
        → Judged i test w result w1
        → AllJudged (i + 1) tests w1 results w2
        → AllJudged i (test ∷ tests) w (result ∷ results) w2
