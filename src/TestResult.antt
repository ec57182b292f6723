-- ===== src/TestResult.antt =====
-- src/ccnxTestrig_SuiteTestResult.c: the outcome of one test case. A result has one owner, so a
-- function that writes to it returns the new value.
pub mod Report
use ccnx_testrig.Prelude.{
  String, str_append, Bool, true, false, not, Option, none, some, List, [], ◌∷◌, ◌++◌,
  if◌then◌else◌, ◌≡◌, ◌≢◌, refl,
}
use ccnx_testrig.Heap.{copy_string, HasSpareBytes}
use ccnx_testrig.Run.{Cmd, ok, pure, or_stop, null_pointer, ◌>>=◌}
use ccnx_testrig.Platform.{Platform}
use ccnx_testrig.Reporter.{Reporter, Console, report_message}

-- `reason` is `none` until it is written: `Create` leaves the pointer as the allocator gave it.
pub record TestResult ⦃p : Platform⦄ : Type 0 where
  pub test_case : String
  pub packet_list : List p.Buffer
  pub passed : Bool
  pub reason : Option String

module _ ⦃p : Platform⦄ where
  unfoldable pub fresh_result : String → TestResult
  fresh_result test_case = record {
    test_case = test_case;
    packet_list = [];
    passed = true;
    reason = none;
  }

  unfoldable pub create_result : {S : Type 0} → String → Cmd S TestResult
  unfolding fresh_result
  create_result test_case = do copied ← copy_string test_case; pure (fresh_result copied)

  unfoldable pub set_pass : TestResult → TestResult
  set_pass r = record r { passed = true }

  -- The copy of the reason is made by `settle`.
  unfoldable pub set_fail : TestResult → String → TestResult
  set_fail r reason = record r { reason = some reason; passed = false }

  -- The copy of the reason that `set_fail` was called with, where the step that called it is left.
  unfoldable pub settle : {S : Type 0} → TestResult → Cmd S TestResult
  settle r = elim r.reason [ none ↦ pure r | some why ↦ do copied ← copy_string why; pure r ]

  unfoldable pub is_failure : TestResult → Bool
  is_failure r = not r.passed

  unfoldable pub log_packet : TestResult → p.Buffer → TestResult
  log_packet r packet = record r { packet_list = r.packet_list ++ packet ∷ [] }

  -- `"Test %s FAIL: %s"`
  report_failed : TestResult → Reporter → Cmd Console Unit
  report_failed r reporter = do
    reason ← or_stop r.reason null_pointer
    report_message reporter
        (str_append "Test " (str_append r.test_case (str_append " FAIL: " reason)))

  -- `"Test %s PASS"`
  report_passed : TestResult → Reporter → Cmd Console Unit
  report_passed r reporter =
      report_message reporter (str_append "Test " (str_append r.test_case " PASS"))

  unfoldable pub report_result : TestResult → Reporter → Cmd Console Unit
  unfolding report_failed report_passed report_message
  report_result r reporter = if r.passed then report_passed r reporter else report_failed r reporter

  -- With a spare byte behind every block, a copy is not noticed.
  pub settle-spare : {S : Type 0} (r : TestResult) (s : S) → HasSpareBytes → settle r s ≡ ok r s
  unfolding settle copy_string
  settle-spare {S} r s spare = by_reason r.reason
    where
      by_reason :
          (reason : Option String)
          → (elim reason as (λ _. Cmd S TestResult) [
            | none ↦ pure r
            | some why ↦ do copied ← copy_string why; pure r
          ])
              s
            ≡ ok r s
      by_reason none = refl
      by_reason (some why) = rw (spare why) refl

  -- A result that has failed says why.
  abbrev pub HasReason : TestResult → Type 0
  HasReason r = r.passed ≡ false → r.reason ≢ none
