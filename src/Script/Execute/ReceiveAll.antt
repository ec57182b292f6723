-- ===== src/Script/Execute/ReceiveAll.antt =====
-- Receiving on all links.
use ccnx_testrig.Prelude.{
  ℕ, ℤ, pos, ◌≡◌, ◌≢◌, ◌↔◌, refl, sym, ◌∙◌, ap, subst, true, false, List, [], ◌∷◌, get_elem?, some,
  String,
}
use ccnx_testrig.Run.{ok, and_then, and_then-eq-ok, pure}
use ccnx_testrig.Platform.{Platform}
use ccnx_testrig.Platform.Laws.{BitVectorLaws}
use ccnx_testrig.TestResult.{TestResult, is_failure, set_fail}
use ccnx_testrig.TestResult.Report.{is_failure-set_fail}
use ccnx_testrig.Packet.{is_valid_packet_pair}
use ccnx_testrig.Packet.Pair.{is_valid_packet_pair_iff}
use ccnx_testrig.World.{Step, World, Rig}
use ccnx_testrig.Script.Execute.{
  Observation, silent, mistyped, compared, Round, next_round, leave, observe_link, all_round,
  execute_receive_all_step, bit_loop, result_of,
}
use ccnx_testrig.Script.Execute.BitLoop.{each_bit, bit_loop-each_bit}
use ccnx_testrig.Script.Execute.Frame.{Frames, Frames-observe_link, Frames-bind, Frames-gets}
use ccnx_testrig.Script.Execute.Trace.{
  Observes, done, seen, Arrived, All, observing, go_on, each_bit-seen, each_bit-observed,
}

module _ ⦃p : Platform⦄ (step : Step) (rig : Rig) where
  -- What a run of the loop without a failure has seen.
  abbrev pub AllArrived : List ℕ → TestResult → World → TestResult → World → Type 0
  AllArrived bs r w r' w' =
      (os : List Observation) × Observes step rig bs w os w'
      × All Arrived os
      × (is_failure r ≡ false)
      × (r' ≡ r)

  AllArrived-cons :
      (b : ℕ) (bs : List ℕ) (o : Observation) (r r' : TestResult) (w w1 w' : World)
      → observe_link step rig (pos b) w ≡ ok o w1
      → Arrived o
      → AllArrived bs r w1 r' w'
      → AllArrived (b ∷ bs) r w r' w'
  AllArrived-cons b bs o r r' w w1 w' e arrived (os, trace, all, fine, same) =
      (o ∷ os, seen e trace, (arrived, all), fine, same)

  failed_apart :
      (r : TestResult) (why : String) {w w' : World} {end : Round TestResult}
      → pure (leave (set_fail r why)) w ≡ ok end w'
      → is_failure (result_of end) ≡ false
      → ⊥
  failed_apart r why {end = end} e fine =
      let same_end : leave (set_fail r why) ≡ end = cc in
      let failed : is_failure (result_of end) ≡ true =
        ap (λ x. is_failure (result_of x)) (sym same_end) ∙ is_failure-set_fail r why in
      cc

  -- One observed link in front of the others.
  AllArrived-seen :
      (b : ℕ) (bs : List ℕ) (o : Observation) (r : TestResult) (w w1 w' : World)
      (end : Round TestResult)
      → observe_link step rig (pos b) w ≡ ok o w1
      → go_on step rig all_round bs (all_round o r) w1 ≡ ok end w'
      → is_failure (result_of end) ≡ false
      → ((r1 : TestResult)
          → each_bit (observing step rig all_round) bs r1 w1 ≡ ok end w'
          → AllArrived bs r1 w1 (result_of end) w')
      → AllArrived (b ∷ bs) r w (result_of end) w'
  unfolding all_round
  AllArrived-seen b bs silent r w w1 w' end saw rest fine ih = absurd (failed_apart r _ rest fine)
  AllArrived-seen b bs (mistyped why) r w w1 w' end saw rest fine ih =
      absurd (failed_apart r why rest fine)
  AllArrived-seen b bs (compared sent received) r w w1 w' end saw rest fine ih =
      let (os, trace, all, fine1, same) = ih (is_valid_packet_pair sent received r) rest in
      let (exactly, unchanged) = is_valid_packet_pair_iff sent received r in
      let (fine_before, matching) = exactly.0 fine1 in
      (
        compared sent received ∷ os,
        seen saw trace,
        (matching, all),
        fine_before,
        same ∙ unchanged matching,
      )

  each_bit-AllArrived :
      (bs : List ℕ) (r : TestResult) (w w' : World) (end : Round TestResult)
      → each_bit (observing step rig all_round) bs r w ≡ ok end w'
      → is_failure (result_of end) ≡ false
      → AllArrived bs r w (result_of end) w'
  unfolding each_bit
  each_bit-AllArrived [] r w w' end e fine =
      let same_world : w ≡ w' = cc in
      let same_end : next_round r ≡ end = cc in
      let same : r ≡ result_of end = ap result_of same_end in
      (
        [],
        subst (Observes step rig [] w []) same_world done,
        tt,
        subst (λ x. is_failure x ≡ false) (sym same) fine,
        sym same,
      )
  each_bit-AllArrived (b ∷ bs) r w w' end e fine =
      let (o, w1, saw, rest) = each_bit-observed step rig all_round b bs r w e in
      AllArrived-seen b bs o r w w1 w' end saw rest fine
        (λ r1 e1. each_bit-AllArrived bs r1 w1 w' end e1 fine)

  -- The other way round: what has been seen decides how the loop ends.
  each_bit-of_All :
      {bs : List ℕ} {os : List Observation} {w w' : World} (r : TestResult)
      → Observes step rig bs w os w'
      → All Arrived os
      → each_bit (observing step rig all_round) bs r w ≡ ok (next_round r) w'
  unfolding each_bit all_round
  each_bit-of_All r done all = refl
  each_bit-of_All r (seen {o = silent} saw trace) all = absurd all.0
  each_bit-of_All r (seen {o = mistyped why} saw trace) all = absurd all.0
  each_bit-of_All r (seen {b} {bs} {o = compared sent received} {w} saw trace) all =
      each_bit-seen step rig all_round b bs r w saw
      ∙ rw ((is_valid_packet_pair_iff sent received r).1 all.0) (each_bit-of_All r trace all.1)

  Frames-observing :
      (bit : ℤ) (a : TestResult)
      → Frames step.received_link_vector (observing step rig all_round bit a)
  Frames-observing bit a =
      Frames-bind _ _ _ (Frames-observe_link step rig bit)
        λ seen. Frames-gets _ (λ _. all_round seen a)

module _ ⦃p : Platform⦄ (laws : BitVectorLaws p) (step : Step) (rig : Rig) (v : p.BitVector)
    (apart : step.link_vector ≢ step.received_link_vector) where
  -- Receiving on all links leaves a result without a failure exactly when, asked once each in
  -- ascending order, every link of the step's vector gave a packet of the type of the referenced
  -- one that matches it. The result is then the one that there was, which had not failed. The step's
  -- vector of links is taken to be another than the one it notes its receptions in.
  pub execute_receive_all_step_iff :
      (r r' : TestResult) (w w' : World)
      → get_elem? w.vectors step.link_vector ≡ some v
      → ((execute_receive_all_step step r rig w ≡ ok r' w') × (is_failure r' ≡ false))
        ↔ AllArrived step rig (laws.bits v) r w r' w'
  unfolding execute_receive_all_step
  execute_receive_all_step_iff r r' w w' has = (
    λ (e, fine).
        let (end, w1, e1, e2) = and_then-eq-ok (bit_loop step.link_vector _ r w) _ e in
        let result : result_of end ≡ r' = cc in
        let world : w1 ≡ w' = cc in
        subst (AllArrived step rig (laws.bits v) r w r') world (
          subst (λ x. AllArrived step rig (laws.bits v) r w x w1) result
            (each_bit-AllArrived step rig (laws.bits v) r w w1 end (sym loop ∙ e1)
              (subst (λ x. is_failure x ≡ false) (sym result) fine))),
    λ (os, trace, all, fine, same). (
      ap (λ x. and_then x (λ end. pure (result_of end)))
            (loop ∙ each_bit-of_All step rig r trace all)
          ∙ ap (λ x. ok x w') (sym same),
      subst (λ x. is_failure x ≡ false) (sym same) fine,
    ),
  )
    where
      loop :
          bit_loop step.link_vector (observing step rig all_round) r w
          ≡ each_bit (observing step rig all_round) (laws.bits v) r w
      loop =
          bit_loop-each_bit laws step.link_vector (observing step rig all_round)
            (λ bit a w1 end w2 e.
              ((Frames-observing step rig bit a).frame w1 end w2 e).same_vectors step.link_vector
                apart)
            v r w has
