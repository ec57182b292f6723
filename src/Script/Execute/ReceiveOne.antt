-- ===== src/Script/Execute/ReceiveOne.antt =====
-- Receiving on one of several links.
use ccnx_testrig.Prelude.{
  ℕ, ℤ, pos, ◌≡◌, ◌≢◌, ◌↔◌, refl, sym, ◌∙◌, ap, subst, true, false, ◌||◌, List, [], ◌∷◌, get_elem?,
  some, arith, String, inl, inr, Bool-cases,
}
use ccnx_testrig.Run.{ok, and_then, and_then-eq-ok, pure}
use ccnx_testrig.Platform.{Platform}
use ccnx_testrig.Platform.Laws.{BitVectorLaws}
use ccnx_testrig.TestResult.{TestResult, is_failure, set_fail}
use ccnx_testrig.TestResult.Report.{is_failure-set_fail}
use ccnx_testrig.Packet.{is_valid_packet_pair}
use ccnx_testrig.Packet.Pair.{Matches, is_valid_packet_pair_iff}
use ccnx_testrig.World.{Step, World, Rig}
use ccnx_testrig.Script.Execute.{
  Observation, silent, mistyped, compared, Round, next_round, leave, observe_link, Progress,
  one_round, one_end, execute_receive_one_step, bit_loop,
}
use ccnx_testrig.Script.Execute.BitLoop.{each_bit, bit_loop-each_bit}
use ccnx_testrig.Script.Execute.Frame.{Frames, Frames-observe_link, Frames-bind, Frames-gets}
use ccnx_testrig.Script.Execute.Trace.{
  Observes, done, seen, NothingWrong, heard, All, observing, go_on, each_bit-seen,
  each_bit-observed,
}

module _ ⦃p : Platform⦄ (step : Step) (rig : Rig) where
  -- What the loop has seen if it does not lead to a failure, from the progress `a` on.
  abbrev OneArrived : List ℕ → Progress → World → TestResult → World → Type 0
  OneArrived bs a w r' w' =
      (os : List Observation) × Observes step rig bs w os w'
      × All NothingWrong os
      × (is_failure a.result ≡ false)
      × (r' ≡ a.result)
      × (a.failed_after_receive ≡ false → (a.succeeded || heard os) ≡ true)

  one_end-fine :
      (a : Progress)
      → is_failure (one_end (next_round a)) ≡ false
      → (is_failure a.result ≡ false)
        × (one_end (next_round a) ≡ a.result)
        × (a.failed_after_receive ≡ false → (a.succeeded || false) ≡ true)
  unfolding one_end set_fail is_failure
  one_end-fine a fine = ground arith

  left_apart :
      (a : Progress) (why : String) {w w' : World} {end : Round Progress}
      → pure (leave (record a { result = set_fail a.result why })) w ≡ ok end w'
      → is_failure (one_end end) ≡ false
      → ⊥
  unfolding one_end
  left_apart a why {end = end} e fine =
      let same_end : leave (record a { result = set_fail a.result why }) ≡ end = cc in
      let failed : is_failure (one_end end) ≡ true =
        ap (λ x. is_failure (one_end x)) (sym same_end) ∙ is_failure-set_fail a.result why in
      cc

  -- The progress after a comparison that did not fail.
  one_round-fine :
      (sent received : p.Packet) (a : Progress)
      → is_failure (is_valid_packet_pair sent received a.result) ≡ false
      → one_round (compared sent received) a
        ≡ next_round
            (record a { result = is_valid_packet_pair sent received a.result; succeeded = true })
  unfolding one_round
  one_round-fine sent received a fine = rw fine

  one_round-failed :
      (sent received : p.Packet) (a : Progress)
      → is_failure (is_valid_packet_pair sent received a.result) ≡ true
      → one_round (compared sent received) a
        ≡ next_round (record a {
          result = is_valid_packet_pair sent received a.result;
          failed_after_receive = true;
        })
  unfolding one_round
  one_round-failed sent received a failed = rw failed

  one_round-mistyped :
      (why : String) (a : Progress)
      → one_round (mistyped why) a ≡ leave (record a { result = set_fail a.result why })
  unfolding one_round
  one_round-mistyped why a = refl

  -- One observed link in front of the others.
  OneArrived-seen :
      (b : ℕ) (bs : List ℕ) (o : Observation) (a : Progress) (w w1 w' : World)
      (end : Round Progress)
      → observe_link step rig (pos b) w ≡ ok o w1
      → go_on step rig one_round bs (one_round o a) w1 ≡ ok end w'
      → is_failure (one_end end) ≡ false
      → ((a1 : Progress)
          → each_bit (observing step rig one_round) bs a1 w1 ≡ ok end w'
          → OneArrived bs a1 w1 (one_end end) w')
      → OneArrived (b ∷ bs) a w (one_end end) w'
  OneArrived-seen b bs silent a w w1 w' end saw rest fine ih =
      let (os, trace, all, fine1, same, some_one) = ih a (unfold one_round in rest) in
      (silent ∷ os, seen saw trace, (tt, all), fine1, same, some_one)
  OneArrived-seen b bs (mistyped why) a w w1 w' end saw rest fine ih =
      absurd (left_apart a why (rw (one_round-mistyped why a) at rest) fine)
  OneArrived-seen b bs (compared sent received) a w w1 w' end saw rest fine ih =
      let r1 = is_valid_packet_pair sent received a.result in
      let (exactly, unchanged) = is_valid_packet_pair_iff sent received a.result in
      elim (Bool-cases (is_failure r1)) [
        | inl failed ↦
            let (os, trace, all, fine1, same, some_one) =
              ih _ (rw (one_round-failed sent received a failed) at rest) in
            absurd (cc)
        | inr good ↦
            let (os, trace, all, fine1, same, some_one) =
              ih _ (rw (one_round-fine sent received a good) at rest) in
            let (fine_before, matching) = exactly.0 good in
            (
              compared sent received ∷ os,
              seen saw trace,
              (matching, all),
              fine_before,
              same ∙ unchanged matching,
              λ _. ground arith,
            )
      ]

  each_bit-OneArrived :
      (bs : List ℕ) (a : Progress) (w w' : World) (end : Round Progress)
      → each_bit (observing step rig one_round) bs a w ≡ ok end w'
      → is_failure (one_end end) ≡ false
      → OneArrived bs a w (one_end end) w'
  unfolding each_bit
  each_bit-OneArrived [] a w w' end e fine =
      let same_world : w ≡ w' = cc in
      let same_end : next_round a ≡ end = cc in
      subst (λ x. OneArrived [] a w (one_end x) w') same_end
        (let (f, same, some_one) =
            one_end-fine a (subst (λ x. is_failure (one_end x) ≡ false) (sym same_end) fine) in
          ([], subst (Observes step rig [] w []) same_world done, tt, f, same, some_one))
  each_bit-OneArrived (b ∷ bs) a w w' end e fine =
      let (o, w1, saw, rest) = each_bit-observed step rig one_round b bs a w e in
      OneArrived-seen b bs o a w w1 w' end saw rest fine
        (λ a1 e1. each_bit-OneArrived bs a1 w1 w' end e1 fine)

  one_round-silent : (a : Progress) → one_round silent a ≡ next_round a
  unfolding one_round
  one_round-silent a = refl

  one_round-matching :
      (sent received : p.Packet) (a : Progress)
      → Matches sent received
      → is_failure a.result ≡ false
      → one_round (compared sent received) a ≡ next_round (record a { succeeded = true })
  one_round-matching sent received a matching fine =
      let unchanged = (is_valid_packet_pair_iff sent received a.result).1 matching in
      one_round-fine sent received a (rw unchanged fine)
      ∙ ap (λ x. next_round (record a { result = x; succeeded = true })) unchanged

  -- The other way round: what has been seen decides how the loop ends.
  each_bit-of_fine :
      {bs : List ℕ} {os : List Observation} {w w' : World} (a : Progress)
      → Observes step rig bs w os w'
      → All NothingWrong os
      → is_failure a.result ≡ false
      → each_bit (observing step rig one_round) bs a w
        ≡ ok (next_round (record a { succeeded = a.succeeded || heard os })) w'
  unfolding each_bit
  each_bit-of_fine {w} a done all fine =
      ap (λ b. ok (next_round (record a { succeeded = b })) w) (ground arith)
  each_bit-of_fine a (seen {b} {bs} {o = silent} {w} saw trace) all fine =
      each_bit-seen step rig one_round b bs a w saw
      ∙ rw (one_round-silent a) (each_bit-of_fine a trace all.1 fine)
  each_bit-of_fine a (seen {o = mistyped why} saw trace) all fine = absurd all.0
  each_bit-of_fine a (seen {b} {bs} {o = compared sent received} {os} {w} {w2} saw trace) all fine =
      each_bit-seen step rig one_round b bs a w saw
      ∙ rw (one_round-matching sent received a all.0 fine) (
          each_bit-of_fine (record a { succeeded = true }) trace all.1 fine
          ∙ ap (λ x. ok (next_round (record a { succeeded = x })) w2) (ground arith))

  Frames-observing :
      (bit : ℤ) (a : Progress)
      → Frames step.received_link_vector (observing step rig one_round bit a)
  Frames-observing bit a =
      Frames-bind _ _ _ (Frames-observe_link step rig bit)
        λ seen. Frames-gets _ (λ _. one_round seen a)

  abbrev start : TestResult → Progress
  start r = record { result = r; succeeded = false; failed_after_receive = false }

  one_end-succeeded : (a : Progress) → a.succeeded ≡ true → one_end (next_round a) ≡ a.result
  unfolding one_end
  one_end-succeeded a yes_one = rw yes_one

module _ ⦃p : Platform⦄ (laws : BitVectorLaws p) (step : Step) (rig : Rig) (v : p.BitVector)
    (apart : step.link_vector ≢ step.received_link_vector) where
  -- Receiving on one of the links leaves a result without a failure exactly when, asked once each in
  -- ascending order, at least one link of the step's vector gave a packet, and every packet that came
  -- was of the type of the referenced one and matches it. The result is then the one that there was,
  -- which had not failed. Several links may have given one. The step's vector of links is taken to be
  -- another than the one it notes its receptions in.
  pub execute_receive_one_step_iff :
      (r r' : TestResult) (w w' : World)
      → get_elem? w.vectors step.link_vector ≡ some v
      → ((execute_receive_one_step step r rig w ≡ ok r' w') × (is_failure r' ≡ false)) ↔ (
          (os : List Observation) × Observes step rig (laws.bits v) w os w'
          × All NothingWrong os
          × (heard os ≡ true)
          × (is_failure r ≡ false)
          × (r' ≡ r))
  unfolding execute_receive_one_step
  execute_receive_one_step_iff r r' w w' has = (
    λ (e, fine).
        let (end, w1, e1, e2) =
          and_then-eq-ok (bit_loop step.link_vector _ (start step rig r) w) _ e in
        let result : one_end end ≡ r' = cc in
        let world : w1 ≡ w' = cc in
        let (os, trace, all, fine_before, same, some_one) =
          each_bit-OneArrived step rig (laws.bits v) (start step rig r) w w1 end (sym loop ∙ e1)
            (subst (λ x. is_failure x ≡ false) (sym result) fine) in
        (
          os,
          subst (Observes step rig (laws.bits v) w os) world trace,
          all,
          some_one refl,
          fine_before,
          sym result ∙ same,
        ),
    λ (os, trace, all, some_one, fine, same). (
      ap (λ x. and_then x (λ end. pure (one_end end)))
            (loop ∙ each_bit-of_fine step rig (start step rig r) trace all fine)
          ∙ ap (λ x. ok x w')
              (one_end-succeeded step rig (record (start step rig r) { succeeded = heard os })
                  some_one
                ∙ sym same),
      subst (λ x. is_failure x ≡ false) (sym same) fine,
    ),
  )
    where
      loop :
          bit_loop step.link_vector (observing step rig one_round) (start step rig r) w
          ≡ each_bit (observing step rig one_round) (laws.bits v) (start step rig r) w
      loop =
          bit_loop-each_bit laws step.link_vector (observing step rig one_round)
            (λ bit a w1 end w2 e.
              ((Frames-observing step rig bit a).frame w1 end w2 e).same_vectors step.link_vector
                apart)
            v (start step rig r) w has
