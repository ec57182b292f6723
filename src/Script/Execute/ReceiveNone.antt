-- ===== src/Script/Execute/ReceiveNone.antt =====
-- Receiving on no link.
use ccnx_testrig.Prelude.{
  ℕ, ℤ, pos, ◌≡◌, ◌≢◌, ◌↔◌, refl, sym, ◌∙◌, ap, subst, true, false, List, [], ◌∷◌, get_elem?, some,
  none, Option,
}
use ccnx_testrig.Run.{Cmd, ok, and_then, and_then-eq-ok, pure, ◌>>◌}
use ccnx_testrig.Platform.{Platform}
use ccnx_testrig.Platform.Laws.{BitVectorLaws}
use ccnx_testrig.TestResult.{TestResult, is_failure, set_fail}
use ccnx_testrig.TestResult.Report.{is_failure-set_fail}
use ccnx_testrig.World.{Step, World, Rig}
use ccnx_testrig.Script.Execute.{
  Round, next_round, leave, result_of, receive_bit, none_round, execute_receive_none_step, bit_loop,
  mark_received,
}
use ccnx_testrig.Script.Execute.BitLoop.{each_bit, bit_loop-each_bit}
use ccnx_testrig.Script.Execute.Frame.{Frames-none_round}
use ccnx_testrig.Script.Execute.Trace.{Silences, done, quiet}

module _ ⦃p : Platform⦄ (step : Step) (rig : Rig) where
  -- A round that does not fail has received nothing.
  none_round-fine :
      (bit : ℤ) (r : TestResult) (w w' : World) (end : Round TestResult)
      → none_round step rig bit r w ≡ ok end w'
      → is_failure (result_of end) ≡ false
      → (receive_bit rig bit w ≡ ok none w') × (end ≡ next_round r)
  unfolding none_round
  none_round-fine bit r w w' end e fine =
      let (received, w1, e1, e2) = and_then-eq-ok (receive_bit rig bit w) _ e in
      by_reception received w1 e1 e2
    where
      by_reception :
          (received : Option p.Buffer) (w1 : World)
          → receive_bit rig bit w ≡ ok received w1
          → (elim received as (λ _. Cmd World (Round TestResult)) [
            | none ↦ pure (next_round r)
            | some buffer ↦ do
              mark_received step bit
              pure (leave (set_fail r "Received a message when we expected not to."))
          ])
              w1
            ≡ ok end w'
          → (receive_bit rig bit w ≡ ok none w') × (end ≡ next_round r)
      by_reception none w1 e1 e2 = (e1 ∙ ap (λ x. ok none x) (cc), cc)
      by_reception (some buffer) w1 e1 e2 =
          let (u, w2, e3, e4) = and_then-eq-ok (mark_received step bit w1) _ e2 in
          let same_end : leave (set_fail r "Received a message when we expected not to.") ≡ end =
            cc in
          let failed : is_failure (result_of end) ≡ true =
            ap (λ x. is_failure (result_of x)) (sym same_end) ∙ is_failure-set_fail r _ in
          absurd (cc)

  none_round-silent :
      (bit : ℤ) (r : TestResult) (w w1 : World)
      → receive_bit rig bit w ≡ ok none w1
      → none_round step rig bit r w ≡ ok (next_round r) w1
  unfolding none_round
  none_round-silent bit r w w1 e = rw e

  -- The rest of the loop behind a round.
  abbrev go_on : List ℕ → Round TestResult → Cmd World (Round TestResult)
  go_on bs r = elim r [
    | leave c ↦ pure (leave c)
    | next_round c ↦ each_bit (none_round step rig) bs c
  ]

  each_bit-cons :
      (b : ℕ) (bs : List ℕ) (r : TestResult) (w : World) {end : Round TestResult} {w' : World}
      → each_bit (none_round step rig) (b ∷ bs) r w ≡ ok end w'
      → (round : Round TestResult) × (w1 : World) × (none_round step rig (pos b) r w ≡ ok round w1)
        × (go_on bs round w1 ≡ ok end w')
  unfolding each_bit
  each_bit-cons b bs r w e = and_then-eq-ok (none_round step rig (pos b) r w) (go_on bs) e

  go_on-fine :
      (bs : List ℕ) (round : Round TestResult) (w w' : World) (end : Round TestResult)
      → go_on bs round w ≡ ok end w'
      → is_failure (result_of end) ≡ false
      → ((r : TestResult)
          → each_bit (none_round step rig) bs r w ≡ ok end w'
          → is_failure r ≡ false)
      → is_failure (result_of round) ≡ false
  go_on-fine bs (leave c) w w' end e fine ih =
      let same_end : leave c ≡ end = cc in
      subst (λ x. is_failure (result_of x) ≡ false) (sym same_end) fine
  go_on-fine bs (next_round c) w w' end e fine ih = ih c e

  abbrev AllSilent : List ℕ → TestResult → World → TestResult → World → Type 0
  AllSilent bs r w r' w' = Silences rig bs w w' × (is_failure r ≡ false) × (r' ≡ r)

  each_bit-AllSilent :
      (bs : List ℕ) (r : TestResult) (w w' : World) (end : Round TestResult)
      → each_bit (none_round step rig) bs r w ≡ ok end w'
      → is_failure (result_of end) ≡ false
      → AllSilent bs r w (result_of end) w'
  unfolding each_bit
  each_bit-AllSilent [] r w w' end e fine =
      let same_world : w ≡ w' = cc in
      let same_end : next_round r ≡ end = cc in
      let same : r ≡ result_of end = ap result_of same_end in
      (
        subst (Silences rig [] w) same_world done,
        subst (λ x. is_failure x ≡ false) (sym same) fine,
        sym same,
      )
  each_bit-AllSilent (b ∷ bs) r w w' end e fine =
      let (round, w1, e1, e2) = each_bit-cons b bs r w e in
      let fine1 : is_failure (result_of round) ≡ false =
        go_on-fine bs round w1 w' end e2 fine
          (λ r1 e3. (each_bit-AllSilent bs r1 w1 w' end e3 fine).1) in
      let (silence, same) = none_round-fine (pos b) r w w1 round e1 fine1 in
      let (rest, fine2, same2) =
        each_bit-AllSilent bs r w1 w' end (subst (λ x. go_on bs x w1 ≡ ok end w') same e2) fine in
      (quiet silence rest, fine2, same2)

  each_bit-of_Silences :
      {bs : List ℕ} {w w' : World} (r : TestResult)
      → Silences rig bs w w'
      → each_bit (none_round step rig) bs r w ≡ ok (next_round r) w'
  unfolding each_bit
  each_bit-of_Silences r done = refl
  each_bit-of_Silences r (quiet {b} {w} {w1} silence rest) =
      rw (none_round-silent (pos b) r w w1 silence) (each_bit-of_Silences r rest)

module _ ⦃p : Platform⦄ (laws : BitVectorLaws p) (step : Step) (rig : Rig) (v : p.BitVector)
    (apart : step.link_vector ≢ step.received_link_vector) where
  -- Receiving on no link leaves a result without a failure exactly when every link of the step's
  -- vector, asked once each in ascending order, had no packet. The result is then the one that there
  -- was, which had not failed. The step's vector of links is taken to be another than the one it
  -- notes its receptions in.
  pub execute_receive_none_step_iff :
      (r r' : TestResult) (w w' : World)
      → get_elem? w.vectors step.link_vector ≡ some v
      → ((execute_receive_none_step step r rig w ≡ ok r' w') × (is_failure r' ≡ false))
        ↔ (Silences rig (laws.bits v) w w' × (is_failure r ≡ false) × (r' ≡ r))
  unfolding execute_receive_none_step
  execute_receive_none_step_iff r r' w w' has = (
    λ (e, fine).
        let (end, w1, e1, e2) = and_then-eq-ok (bit_loop step.link_vector _ r w) _ e in
        let result : result_of end ≡ r' = cc in
        let world : w1 ≡ w' = cc in
        subst (AllSilent step rig (laws.bits v) r w r') world (
          subst (λ x. AllSilent step rig (laws.bits v) r w x w1) result
            (each_bit-AllSilent step rig (laws.bits v) r w w1 end (sym loop ∙ e1)
              (subst (λ x. is_failure x ≡ false) (sym result) fine))),
    λ (silences, fine, same). (
      ap (λ x. and_then x (λ end. pure (result_of end)))
            (loop ∙ each_bit-of_Silences step rig r silences)
          ∙ ap (λ x. ok x w') (sym same),
      subst (λ x. is_failure x ≡ false) (sym same) fine,
    ),
  )
    where
      loop :
          bit_loop step.link_vector (none_round step rig) r w
          ≡ each_bit (none_round step rig) (laws.bits v) r w
      loop =
          bit_loop-each_bit laws step.link_vector (none_round step rig)
            (λ bit a w1 end w2 e.
              ((Frames-none_round step rig bit a).frame w1 end w2 e).same_vectors step.link_vector
                apart)
            v r w has
