-- ===== src/Suite/Refined.antt =====
-- The suite against its plans: each test comes to what its plan comes to, and returns.
use ccnx_testrig.Prelude.{ℕ, ◌≤◌, ◌≡◌, ◌≢◌, refl, String, Bool, true, false, none, [], length}
use ccnx_testrig.Run.{Run, Returns, returns}
use ccnx_testrig.Platform.{Platform}
use ccnx_testrig.Platform.Laws.{BufferLaws, BitVectorLaws, CodecLaws}
use ccnx_testrig.TestResult.{TestResult, is_failure}
use ccnx_testrig.World.{Rig, World}
use ccnx_testrig.Rig.Listed.{starts_over}
use ccnx_testrig.Channels.{Channels}
use ccnx_testrig.Script.{empty_script}
use ccnx_testrig.Script.Plan.{Verdict, passed, failed, crashed, perform_all}
use ccnx_testrig.Script.Plan.Executing.{MeetsAll}
use ccnx_testrig.Script.Plan.Answerable.{is_answerable, perform_all-answerable}
use ccnx_testrig.Script.Plan.Built.{begin}
use ccnx_testrig.Script.Plan.Grown.{Built}
use ccnx_testrig.Suite.{
  SuiteTest, test_case_name, run_case, fib_test_basic_interest_1a, fib_test_basic_interest_1b,
  content_object_test_1, content_object_test_2, content_object_test_3, content_object_test_4,
  content_object_test_5, content_object_test_6, content_object_errors_1, content_object_errors_2,
  content_object_errors_3, content_object_restrictions_1, content_object_restrictions_2,
  content_object_restrictions_3, content_object_restrictions_4, content_object_restriction_errors_1,
  content_object_restriction_errors_2, content_object_restriction_errors_3,
  content_object_restriction_errors_4, content_object_restriction_errors_5,
  content_object_restriction_errors_6,
}
use ccnx_testrig.Suite.Plans.{plan_of}
use ccnx_testrig.Suite.Planned.{
  fib_test_basic_interest_1a_case-Leads, fib_test_basic_interest_1b_case-Leads,
  content_object_test_1_case-Leads, content_object_test_2_case-Leads,
  content_object_test_3_case-Leads, content_object_test_4_case-Leads,
  content_object_test_5_case-Leads, content_object_test_6_case-Leads,
  content_object_test_errors_1_case-Leads, content_object_test_errors_2_case-Leads,
  content_object_test_errors_3_case-Leads,
}
use ccnx_testrig.Suite.Restricted.{
  content_object_test_restrictions_1_case-Leads, content_object_test_restrictions_2_case-Leads,
  content_object_test_restrictions_3_case-Leads, content_object_test_restrictions_4_case-Leads,
  content_object_test_restriction_errors_1_case-Leads,
  content_object_test_restriction_errors_2_case-Leads,
  content_object_test_restriction_errors_3_case-Leads,
  content_object_test_restriction_errors_4_case-Leads,
  content_object_test_restriction_errors_5_case-Leads,
  content_object_test_restriction_errors_6_case-Leads,
}

module _ ⦃p : Platform⦄ (laws : BitVectorLaws p) {rig : Rig} (channels : Channels rig) where
  -- A script without steps, in any world.
  Built-begin :
      (name : String) (e : channels.Env) (w : World)
      → channels.Holds e w.net
      → Built laws channels begin (empty_script name) e w.draws w
  Built-begin name e w holds = record {
    owner = λ _. none;
    injective = λ x y j owned_x owned_y. absurd (cc);
    noted = λ x j owned. absurd (cc);
    used = λ x j owned. absurd (cc);
    all = tt;
    steps = unfold empty_script in refl;
    holds = holds;
    draws = refl;
  }

module _ ⦃p : Platform⦄ {rig : Rig} (channels : Channels rig) where
  -- Whether a plan fails.
  unfoldable pub is_failed : Verdict channels → Bool
  is_failed (passed e) = false
  is_failed failed = true
  is_failed crashed = false

  -- What a run that meets a verdict other than a crash returns.
  MeetsAll-Returns :
      (v : Verdict channels) (run : Run World TestResult)
      → v ≢ crashed
      → MeetsAll channels v run
      → Returns
          (λ r w. (is_failure r ≡ is_failed v) × ((e : channels.Env) × channels.Holds e w.net))
          run
  unfolding is_failed
  MeetsAll-Returns (passed e) run decided (r, w, same, fine, holds) =
      rw same (returns (fine, (e, holds)))
  MeetsAll-Returns failed run decided (r, w, same, wrong, holds) = rw same (returns (wrong, holds))
  MeetsAll-Returns crashed run decided meets = absurd (decided refl)

module _ ⦃p : Platform⦄ (buffers : BufferLaws p) (codec : CodecLaws p) {rig : Rig}
    (channels : Channels rig) where
  -- What performing the plan of a test comes to.
  abbrev pub verdict_of : ℕ → SuiteTest → channels.Env → Verdict channels
  verdict_of d test e = perform_all channels (plan_of buffers codec d test) 0 (λ _. []) e

module _ ⦃p : Platform⦄ (buffers : BufferLaws p) (laws : BitVectorLaws p) (codec : CodecLaws p)
    {rig : Rig} (channels : Channels rig) (fits : (n : ℕ) → length (p.next_bytes n) ≤ 16)
    (over : (n : ℕ) → starts_over (p.words_behind n) ≡ true) where
  -- Let PARC's buffers and bit vectors and the codec behave as documented, let a draw of random bytes
  -- have at most 16, and let the word behind the arguments of each variadic call be CCNxTestrigLinkID_NULL
  -- or more. In any world, on links that work as channels, where what is written to the console does
  -- not concern them, each receive brings nothing or a message that the codec reads, and the heap has
  -- a byte to spare behind each block, a test comes to what its plan comes to with the name
  -- that is drawn next: if the plan passes the test returns a result that has not failed, if it
  -- fails the test returns a failed result, and only if it crashes the test reads through `NULL`.
  pub run_case-MeetsAll :
      (test : SuiteTest) (e : channels.Env) (w : World)
      → channels.Holds e w.net
      → MeetsAll channels (verdict_of buffers codec channels w.draws test e) (run_case rig test w)
  unfolding run_case test_case_name
  run_case-MeetsAll fib_test_basic_interest_1a e w holds =
      (fib_test_basic_interest_1a_case-Leads buffers laws codec channels fits over
          (test_case_name fib_test_basic_interest_1a) e w.draws).leads
        w (Built-begin laws channels (test_case_name fib_test_basic_interest_1a) e w holds)
  run_case-MeetsAll fib_test_basic_interest_1b e w holds =
      (fib_test_basic_interest_1b_case-Leads buffers laws codec channels fits over
          (test_case_name fib_test_basic_interest_1b) e w.draws).leads
        w (Built-begin laws channels (test_case_name fib_test_basic_interest_1b) e w holds)
  run_case-MeetsAll content_object_test_1 e w holds =
      (content_object_test_1_case-Leads buffers laws codec channels fits over
          (test_case_name content_object_test_1) e w.draws).leads
        w (Built-begin laws channels (test_case_name content_object_test_1) e w holds)
  run_case-MeetsAll content_object_test_2 e w holds =
      (content_object_test_2_case-Leads buffers laws codec channels fits over
          (test_case_name content_object_test_2) e w.draws).leads
        w (Built-begin laws channels (test_case_name content_object_test_2) e w holds)
  run_case-MeetsAll content_object_test_3 e w holds =
      (content_object_test_3_case-Leads buffers laws codec channels fits over
          (test_case_name content_object_test_3) e w.draws).leads
        w (Built-begin laws channels (test_case_name content_object_test_3) e w holds)
  run_case-MeetsAll content_object_test_4 e w holds =
      (content_object_test_4_case-Leads buffers laws codec channels fits over
          (test_case_name content_object_test_4) e w.draws).leads
        w (Built-begin laws channels (test_case_name content_object_test_4) e w holds)
  run_case-MeetsAll content_object_test_5 e w holds =
      (content_object_test_5_case-Leads buffers laws codec channels fits over
          (test_case_name content_object_test_5) e w.draws).leads
        w (Built-begin laws channels (test_case_name content_object_test_5) e w holds)
  run_case-MeetsAll content_object_test_6 e w holds =
      (content_object_test_6_case-Leads buffers laws codec channels fits over
          (test_case_name content_object_test_6) e w.draws).leads
        w (Built-begin laws channels (test_case_name content_object_test_6) e w holds)
  run_case-MeetsAll content_object_errors_1 e w holds =
      (content_object_test_errors_1_case-Leads buffers laws codec channels fits over
          (test_case_name content_object_errors_1) e w.draws).leads
        w (Built-begin laws channels (test_case_name content_object_errors_1) e w holds)
  run_case-MeetsAll content_object_errors_2 e w holds =
      (content_object_test_errors_2_case-Leads buffers laws codec channels fits over
          (test_case_name content_object_errors_2) e w.draws).leads
        w (Built-begin laws channels (test_case_name content_object_errors_2) e w holds)
  run_case-MeetsAll content_object_errors_3 e w holds =
      (content_object_test_errors_3_case-Leads buffers laws codec channels fits over
          (test_case_name content_object_errors_3) e w.draws).leads
        w (Built-begin laws channels (test_case_name content_object_errors_3) e w holds)
  run_case-MeetsAll content_object_restrictions_1 e w holds =
      (content_object_test_restrictions_1_case-Leads buffers laws codec channels fits over
          (test_case_name content_object_restrictions_1) e w.draws).leads
        w (Built-begin laws channels (test_case_name content_object_restrictions_1) e w holds)
  run_case-MeetsAll content_object_restrictions_2 e w holds =
      (content_object_test_restrictions_2_case-Leads buffers laws codec channels fits over
          (test_case_name content_object_restrictions_2) e w.draws).leads
        w (Built-begin laws channels (test_case_name content_object_restrictions_2) e w holds)
  run_case-MeetsAll content_object_restrictions_3 e w holds =
      (content_object_test_restrictions_3_case-Leads buffers laws codec channels fits over
          (test_case_name content_object_restrictions_3) e w.draws).leads
        w (Built-begin laws channels (test_case_name content_object_restrictions_3) e w holds)
  run_case-MeetsAll content_object_restrictions_4 e w holds =
      (content_object_test_restrictions_4_case-Leads buffers laws codec channels fits over
          (test_case_name content_object_restrictions_4) e w.draws).leads
        w (Built-begin laws channels (test_case_name content_object_restrictions_4) e w holds)
  run_case-MeetsAll content_object_restriction_errors_1 e w holds =
      (content_object_test_restriction_errors_1_case-Leads buffers laws codec channels fits over
          (test_case_name content_object_restriction_errors_1) e w.draws).leads
        w (Built-begin laws channels (test_case_name content_object_restriction_errors_1) e w holds)
  run_case-MeetsAll content_object_restriction_errors_2 e w holds =
      (content_object_test_restriction_errors_2_case-Leads buffers laws codec channels fits over
          (test_case_name content_object_restriction_errors_2) e w.draws).leads
        w (Built-begin laws channels (test_case_name content_object_restriction_errors_2) e w holds)
  run_case-MeetsAll content_object_restriction_errors_3 e w holds =
      (content_object_test_restriction_errors_3_case-Leads buffers laws codec channels fits over
          (test_case_name content_object_restriction_errors_3) e w.draws).leads
        w (Built-begin laws channels (test_case_name content_object_restriction_errors_3) e w holds)
  run_case-MeetsAll content_object_restriction_errors_4 e w holds =
      (content_object_test_restriction_errors_4_case-Leads buffers laws codec channels fits over
          (test_case_name content_object_restriction_errors_4) e w.draws).leads
        w (Built-begin laws channels (test_case_name content_object_restriction_errors_4) e w holds)
  run_case-MeetsAll content_object_restriction_errors_5 e w holds =
      (content_object_test_restriction_errors_5_case-Leads buffers laws codec channels fits over
          (test_case_name content_object_restriction_errors_5) e w.draws).leads
        w (Built-begin laws channels (test_case_name content_object_restriction_errors_5) e w holds)
  run_case-MeetsAll content_object_restriction_errors_6 e w holds =
      (content_object_test_restriction_errors_6_case-Leads buffers laws codec channels fits over
          (test_case_name content_object_restriction_errors_6) e w.draws).leads
        w (Built-begin laws channels (test_case_name content_object_restriction_errors_6) e w holds)

  -- No plan of the suite crashes.
  plan_of-answerable :
      (d : ℕ) (test : SuiteTest) → is_answerable (plan_of buffers codec d test) 0 [] ≡ true
  plan_of-answerable d fib_test_basic_interest_1a = refl
  plan_of-answerable d fib_test_basic_interest_1b = refl
  plan_of-answerable d content_object_test_1 = refl
  plan_of-answerable d content_object_test_2 = refl
  plan_of-answerable d content_object_test_3 = refl
  plan_of-answerable d content_object_test_4 = refl
  plan_of-answerable d content_object_test_5 = refl
  plan_of-answerable d content_object_test_6 = refl
  plan_of-answerable d content_object_errors_1 = refl
  plan_of-answerable d content_object_errors_2 = refl
  plan_of-answerable d content_object_errors_3 = refl
  plan_of-answerable d content_object_restrictions_1 = refl
  plan_of-answerable d content_object_restrictions_2 = refl
  plan_of-answerable d content_object_restrictions_3 = refl
  plan_of-answerable d content_object_restrictions_4 = refl
  plan_of-answerable d content_object_restriction_errors_1 = refl
  plan_of-answerable d content_object_restriction_errors_2 = refl
  plan_of-answerable d content_object_restriction_errors_3 = refl
  plan_of-answerable d content_object_restriction_errors_4 = refl
  plan_of-answerable d content_object_restriction_errors_5 = refl
  plan_of-answerable d content_object_restriction_errors_6 = refl

  -- Let PARC's buffers and bit vectors and the codec behave as documented, let a draw of random bytes
  -- have at most 16, and let the word behind the arguments of each variadic call be CCNxTestrigLinkID_NULL
  -- or more. In any world, on links that work as channels, where what is written to the console does
  -- not concern them, each receive brings nothing or a message that the codec reads, and the heap has
  -- a byte to spare behind each block, each test returns a result. The result has failed exactly if the
  -- test's plan fails, and the links still work as channels.
  pub run_case-Returns :
      (test : SuiteTest) (e : channels.Env) (w : World)
      → channels.Holds e w.net
      → Returns
          (λ r w'.
            (is_failure r ≡ is_failed channels (verdict_of buffers codec channels w.draws test e))
            × ((e' : channels.Env) × channels.Holds e' w'.net))
          (run_case rig test w)
  run_case-Returns test e w holds =
      MeetsAll-Returns channels (verdict_of buffers codec channels w.draws test e)
        (run_case rig test w)
        (perform_all-answerable channels (plan_of buffers codec w.draws test) 0 [] (λ _. []) e
          (plan_of-answerable w.draws test) (λ k heard. absurd (cc)))
        (run_case-MeetsAll test e w holds)
