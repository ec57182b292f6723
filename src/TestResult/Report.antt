-- ===== src/TestResult/Report.antt =====
-- What is reported of a result, and the operations on results.
use ccnx_testrig.Prelude.{
  String, str_append, true, false, some, [], ◌∷◌, ◌++◌, if◌then◌else◌, ◌≡◌, refl, arith, inl, inr,
  Bool-cases, Option-cases,
}
use ccnx_testrig.Run.{ok}
use ccnx_testrig.Platform.{Platform}
use ccnx_testrig.Reporter.{Reporter, Console, text}
use ccnx_testrig.TestResult.{
  TestResult, fresh_result, set_pass, set_fail, is_failure, log_packet, report_result, HasReason,
}

module _ ⦃p : Platform⦄ where
  -- The line that a result is summed up in.
  abbrev pub verdict : TestResult → String → String
  verdict r why =
      if r.passed
      then str_append "Test " (str_append r.test_case " PASS")
      else str_append "Test " (str_append r.test_case (str_append " FAIL: " why))

  -- A result that has a reason if it failed is reported in exactly one line, on the reporter's
  -- stream: the PASS line if it passed, else the FAIL line with the reason that it carries.
  pub report_result-verdict :
      (r : TestResult) (reporter : Reporter) (c : Console)
      → HasReason r
      → (why : String) × (r.passed ≡ false → r.reason ≡ some why)
        × (report_result r reporter c ≡ ok tt (c ++ (reporter.fp, text (verdict r why)) ∷ []))
  unfolding report_result
  report_result-verdict r reporter c h = elim (Bool-cases r.passed) [
    | inl passed ↦ ("", ground arith, ground arith)
    | inr failed ↦ elim (Option-cases r.reason) [
      | inl missing ↦ absurd (h failed missing)
      | inr (why, e) ↦ (why, λ _. e, ground arith)
    ]
  ]

  pub fresh_result-HasReason : (name : String) → HasReason (fresh_result name)
  unfolding fresh_result
  fresh_result-HasReason name = λ e. absurd (cc)

  pub set_fail-HasReason : (r : TestResult) (why : String) → HasReason (set_fail r why)
  unfolding set_fail
  set_fail-HasReason r why = λ e. cc

  pub set_pass-HasReason : (r : TestResult) → HasReason (set_pass r)
  unfolding set_pass
  set_pass-HasReason r = λ e. absurd (cc)

  pub log_packet-HasReason :
      (r : TestResult) (b : p.Buffer) → HasReason r → HasReason (log_packet r b)
  unfolding log_packet
  log_packet-HasReason r b h = h

  pub is_failure-set_fail : (r : TestResult) (why : String) → is_failure (set_fail r why) ≡ true
  unfolding is_failure set_fail
  is_failure-set_fail r why = refl

  pub is_failure-set_pass : (r : TestResult) → is_failure (set_pass r) ≡ false
  unfolding is_failure set_pass
  is_failure-set_pass r = refl

  pub is_failure-log_packet :
      (r : TestResult) (b : p.Buffer) → is_failure (log_packet r b) ≡ is_failure r
  unfolding is_failure log_packet
  is_failure-log_packet r b = refl
