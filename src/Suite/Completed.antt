-- ===== src/Suite/Completed.antt =====
-- Running the whole suite on channels that can be flushed: it comes to an end.
use ccnx_testrig.Prelude.{
  ℕ, ap, ◌≤◌, ◌≡◌, refl, sym, ◌∙◌, subst, true, some, List, [], ◌∷◌, ◌++◌, length, length-append,
  append_assoc, get_elem?, get_elem?-append_next,
}
use ccnx_testrig.Run.{Run, ok, stop, Cmd, Returns, Returns-eq, returns, and_then}
use ccnx_testrig.Platform.{Platform}
use ccnx_testrig.Platform.Laws.{BufferLaws, BitVectorLaws, CodecLaws}
use ccnx_testrig.Reporter.{Console}
use ccnx_testrig.TestResult.{TestResult, is_failure, HasReason}
use ccnx_testrig.TestResult.Report.{report_result-verdict}
use ccnx_testrig.Link.{Net}
use ccnx_testrig.World.{Rig, World, on_net}
use ccnx_testrig.Rig.{flush_links, get_reporter}
use ccnx_testrig.Rig.Flush.{flush_links-Ready}
use ccnx_testrig.Rig.Listed.{starts_over}
use ccnx_testrig.Channels.{Channels}
use ccnx_testrig.Suite.{
  SuiteTest, all_tests, test_case_name, run_test, announce_test, report_if_any, run_and_report,
  run_from, run_all,
}
use ccnx_testrig.Suite.Refined.{verdict_of, is_failed, run_case-Returns}
use ccnx_testrig.Script.Execute.Keeps.{IsResultOf}
use ccnx_testrig.Script.Execute.Steps.{said}
use ccnx_testrig.Script.Plan.Rounds.{ok-injective}
use ccnx_testrig.Suite.Results.{run_case-IsResultOf}
use ccnx_testrig.Suite.Judged.{Works, CanFlush, Judged, AllJudged, none_judged, all_judged}

module _ {S A B : Type 0} where
  Returns-after :
      {P : A → S → Type 0} {Q : B → S → Type 0} {r : Run S A} (k : A → Cmd S B)
      → Returns P r
      → ((a : A) (s : S) → P a s → Returns Q (k a s))
      → Returns Q (and_then r k)
  Returns-after k (returns h) f = f _ _ h

module _ ⦃p : Platform⦄ {A : Type 0} {P : A → Net → Type 0} where
  -- What a command on the net leaves is left in the world.
  Returns-on_net :
      (w : World) {r : Run Net A}
      → Returns P r
      → Returns
          (λ a w'. P a w'.net)
          (elim r as (λ _. Run World A) [
            | ok a n ↦ ok a (record w { net = n })
            | stop why n ↦ stop why (record w { net = n })
          ])
  Returns-on_net w (returns h) = returns h

  -- The same of a command on the console.
  Returns-on_console :
      (n : Net) {r : Run Console A}
      → Returns (λ a c. P a (record n { console = c })) r
      → Returns P (elim r as (λ _. Run Net A) [
        | ok a c ↦ ok a (record n { console = c })
        | stop why c ↦ stop why (record n { console = c })
      ])
  Returns-on_console n (returns h) = returns h

module _ ⦃p : Platform⦄ (buffers : BufferLaws p) (laws : BitVectorLaws p) (codec : CodecLaws p)
    {rig : Rig} (channels : Channels rig) (fits : (n : ℕ) → length (p.next_bytes n) ≤ 16)
    (over : (n : ℕ) → starts_over (p.words_behind n) ≡ true) (rounds : ℕ)
    (flush : CanFlush channels rounds) where
  -- The result of a test, and that it fails as its plan does whatever is taken to surround the rig.
  run_test-Judged :
      (i : ℕ) (test : SuiteTest) (w : World)
      → get_elem? all_tests i ≡ some test
      → Works channels w.net
      → (r : TestResult) × (w' : World) × (run_test rig i w ≡ ok (some r) w')
        × IsResultOf (test_case_name test) r
        × ((e : channels.Env)
            → channels.Holds e w.net
            → is_failure r ≡ is_failed channels (verdict_of buffers codec channels w.draws test e))
        × Works channels w'.net
  unfolding run_test
  run_test-Judged i test w known (e, holds) =
      let (r, w', run, (_, works)) =
        Returns-eq (run_case-Returns buffers laws codec channels fits over test e w holds) in
      (
        r,
        w',
        rw known (rw run refl),
        (run_case-IsResultOf rig test).ensured w r w' run,
        λ e1 holds1.
            let (r1, w1, run1, (verdict, _)) =
              Returns-eq
                (run_case-Returns buffers laws codec channels fits over test e1 w holds1) in
            let (same, _) = ok-injective (sym run ∙ run1) in ap is_failure same ∙ verdict,
        works,
      )

  report_if_any-Works :
      (r : TestResult) (w : World)
      → HasReason r
      → Works channels w.net
      → Returns (λ _ w'. Works channels w'.net) (report_if_any rig (some r) w)
  unfolding report_if_any
  report_if_any-Works r w reason (e, holds) =
      let (why, _, reported) = report_result-verdict r (get_reporter rig) w.net.console reason in
      Returns-on_net {P = λ _ n'. Works channels n'} w (
        Returns-on_console w.net (
          subst (Returns (λ _ c. Works channels (record w.net { console = c }))) (sym reported)
            (returns (e, channels.prints e w.net _ holds))))

  flush_links-Works :
      (w : World)
      → Works channels w.net
      → Returns (λ _ w'. Works channels w'.net) (on_net (flush_links rounds rig) w)
  flush_links-Works w works = Returns-on_net w (
      flush_links-Ready (Works channels) flush.pending rig rounds w.net flush.on_a flush.on_b
        flush.on_c works (flush.bounded w.net works))

  run_and_report-Judged :
      (i : ℕ) (test : SuiteTest) (w : World)
      → get_elem? all_tests i ≡ some test
      → Works channels w.net
      → Returns
          (λ result w'.
            Judged buffers codec channels rounds i test w result w' × Works channels w'.net)
          (run_and_report rig rounds i w)
  unfolding run_and_report announce_test
  run_and_report-Judged i test w known (e, holds) =
      let w0 = said "Running test " i w in
      let works0 : Works channels w0.net = (e, channels.prints e w.net w0.net.console holds) in
      let (r, w1, run, result, verdict, works1) = run_test-Judged i test w0 known works0 in
      let (_, w2, reported, works2) =
        Returns-eq (report_if_any-Works r w1 result.has_reason works1) in
      let (_, w3, flushed, works3) = Returns-eq (flush_links-Works w2 works2) in
      rw run (
        rw reported (
          rw flushed (
            returns (
              record {
                r = r;
                returned = refl;
                works = works0;
                tested = w1;
                run = run;
                named = result.named;
                has_reason = result.has_reason;
                verdict = verdict;
                told = w2;
                reported = reported;
                flushed = flushed;
              },
              works3,
            ))))

  run_from-AllJudged :
      (done todo : List SuiteTest) (w : World)
      → done ++ todo ≡ all_tests
      → Works channels w.net
      → Returns
          (λ results w'.
            AllJudged buffers codec channels rounds (length done) todo w results w'
            × Works channels w'.net)
          (run_from rig rounds (length done) (length todo) w)
  unfolding run_from
  run_from-AllJudged done [] w e works = returns (none_judged, works)
  run_from-AllJudged done (test ∷ todo) w e works =
      let known : get_elem? all_tests (length done) ≡ some test =
        subst (λ tests. get_elem? tests (length done) ≡ some test) e
          (get_elem?-append_next done test todo) in
      Returns-after _ (run_and_report-Judged (length done) test w known works)
        λ result w1 (judged, works1).
          Returns-after _
            (subst
              (λ n.
                Returns
                  (λ results w'.
                    AllJudged buffers codec channels rounds n todo w1 results w'
                    × Works channels w'.net)
                  (run_from rig rounds n (length todo) w1))
              (length-append done (test ∷ []))
              (run_from-AllJudged (done ++ test ∷ []) todo w1
                (append_assoc done (test ∷ []) todo ∙ e) works1))
            λ results w2 (more, works2). returns (all_judged judged more, works2)

  -- Let PARC's buffers and bit vectors and the codec behave as documented, let a draw of random bytes
  -- have at most 16, and let the word behind the arguments of each variadic call be
  -- CCNxTestrigLinkID_NULL or more. On links that work as channels that can be flushed, where what is
  -- written to the console does not concern them, each receive brings nothing or a message that the
  -- codec reads, and the heap has a byte to spare behind each block, running the suite returns. The 21
  -- tests are run one after the other, in their order, each in the world that the one before it has
  -- left: the test is announced, and where this leaves the world it returns a result that carries its
  -- name and, if it failed, a reason, and that has failed exactly if the test's plan fails there, with
  -- the name that is drawn next; the result is reported and the links are flushed. The links still
  -- work as channels afterwards.
  pub run_all-AllJudged :
      (e : channels.Env) (w : World)
      → channels.Holds e w.net
      → Returns
          (λ results w'.
            AllJudged buffers codec channels rounds 0 all_tests w results w'
            × Works channels w'.net)
          (run_all rig rounds w)
  unfolding run_all
  run_all-AllJudged e w holds = run_from-AllJudged [] all_tests w refl (e, holds)
