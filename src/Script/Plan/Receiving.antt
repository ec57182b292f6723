-- ===== src/Script/Plan/Receiving.antt =====
-- Receive steps against the actions that they stand for: they return, and they fail exactly when
-- the action fails.
use ccnx_testrig.Prelude.{
  ℕ, ℤ, pos, ◌≡◌, ◌≢◌, refl, sym, ◌∙◌, ap, subst, true, false, ◌&&◌, Option, List, Bool-cases, inl,
  inr,
}
use ccnx_testrig.Run.{ok, Run, Cmd, pure, and_then, Stops, null_pointer}
use ccnx_testrig.Platform.{Platform}
use ccnx_testrig.Platform.Laws.{BitVectorLaws}
use ccnx_testrig.TestResult.{TestResult, is_failure}
use ccnx_testrig.World.{Step, World, Rig, VectorPointer}
use ccnx_testrig.Channels.{Channels, IsLink}
use ccnx_testrig.Script.Execute.{
  Observation, Round, result_of, all_round, one_round, one_end, none_round, bit_loop,
  execute_receive_all_step, execute_receive_one_step, execute_receive_none_step,
}
use ccnx_testrig.Script.Execute.BitLoop.{bit_loop-each_bit}
use ccnx_testrig.Script.Execute.Frame.{
  Frames, Frames-bind, Frames-gets, Frames-observe_link, Frames-none_round,
}
use ccnx_testrig.Script.Execute.Trace.{
  All, Arrived, NothingWrong, heard, Observes, Silences, observing,
}
use ccnx_testrig.Script.Execute.ReceiveAll.{execute_receive_all_step_iff}
use ccnx_testrig.Script.Execute.ReceiveOne.{execute_receive_one_step_iff}
use ccnx_testrig.Script.Execute.ReceiveNone.{execute_receive_none_step_iff}
use ccnx_testrig.Script.Plan.{
  all_agree, none_disagrees, some_came, on_all, on_one, on_none, accepts, senders, ask, Outcome,
  goes_on, fails, crashes, receive_on,
}
use ccnx_testrig.Script.Plan.Silence.{silences, silent_answers, none_round-returns}
use ccnx_testrig.Script.Plan.Asking.{
  HasBits, AllLinks, Listens, observe_link-Takes, asks, observation, observations, all_agree-All,
  All-all_agree, none_disagrees-All, All-none_disagrees, heard-some_came, both,
}
use ccnx_testrig.Script.Plan.Rounds.{each_bit-returns, Observes-unique}

module _ ⦃p : Platform⦄ (laws : BitVectorLaws p) {rig : Rig} (channels : Channels rig) where
  -- What a step leaves is what its action comes to: the senders are noted in the given vector, and
  -- what surrounds the rig is as the action leaves it. Where the action crashes the step reads
  -- through `NULL`.
  abbrev pub Meets : VectorPointer → Outcome channels → Run World TestResult → Type 0
  Meets own (goes_on links e) run =
      (r : TestResult) × (w : World) × (run ≡ ok r w)
      × (is_failure r ≡ false)
      × channels.Holds e w.net
      × HasBits laws w own links
  Meets own fails run =
      (r : TestResult) × (w : World) × (run ≡ ok r w)
      × (is_failure r ≡ true)
      × ((e : channels.Env) × channels.Holds e w.net)
  Meets own crashes run = Stops null_pointer run

module _ ⦃p : Platform⦄ (laws : BitVectorLaws p) {rig : Rig} (channels : Channels rig) (step : Step)
    (sent : p.Packet) where
  -- Some links have been asked.
  abbrev Listening : World → Type 0
  Listening w = (links : List ℕ) × (e : channels.Env) × Listens laws channels step sent links e w

  module _ {A : Type 0} (decide : Observation → A → Round A) where
    observing-Listening :
        (i : ℕ) (a : A) (w : World)
        → IsLink i
        → Listening w
        → (r : Round A) × (w' : World) × (observing step rig decide (pos i) a w ≡ ok r w')
          × Listening w'
    observing-Listening i a w link (links, e, listens) =
        let (w', saw, listens') =
          observe_link-Takes laws channels step sent i links e w link listens in
        (decide (observation sent (channels.take i e).0) a, w', rw saw refl, (_, _, listens'))

    observing-Frames :
        (bit : ℤ) (a : A) → Frames step.received_link_vector (observing step rig decide bit a)
    observing-Frames bit a =
        Frames-bind _ _ _ (Frames-observe_link step rig bit)
          λ seen. Frames-gets _ (λ _. decide seen a)

  module _ (apart : step.link_vector ≢ step.received_link_vector) {A : Type 0}
      (body : ℤ → A → Cmd World (Round A))
      (frames : (bit : ℤ) (a : A) → Frames step.received_link_vector (body bit a))
      (keeps : (i : ℕ) (a : A) (w : World)
        → IsLink i
        → Listening w
        → (r : Round A) × (w' : World) × (body (pos i) a w ≡ ok r w') × Listening w') where
    bit_loop-returns :
        (is : List ℕ) (a : A) (w : World)
        → AllLinks is
        → HasBits laws w step.link_vector is
        → Listening w
        → (r : Round A) × (w' : World) × (bit_loop step.link_vector body a w ≡ ok r w')
          × Listening w'
    bit_loop-returns is a w all (v, has, same) h =
        let (r, w', e, h') =
          each_bit-returns Listening body keeps (laws.bits v) a w (subst AllLinks (sym same) all)
            h in
        (
          r,
          w',
          bit_loop-each_bit laws step.link_vector body
                (λ bit a w1 end w2 e.
                  ((frames bit a).frame w1 end w2 e).same_vectors step.link_vector apart)
                v a w has
              ∙ e,
          h',
        )

  module _ (apart : step.link_vector ≢ step.received_link_vector) (is links : List ℕ)
      (e : channels.Env) (r : TestResult) (w : World) (all : AllLinks is)
      (fine : is_failure r ≡ false) (over : HasBits laws w step.link_vector is)
      (listens : Listens laws channels step sent links e w) where
    abbrev answers : List (ℕ × Option p.Packet)
    answers = (ask channels is e).0

    failing :
        (run : Run World TestResult) (r' : TestResult) (w' : World)
        → run ≡ ok r' w'
        → Listening w'
        → (is_failure r' ≡ false → ⊥)
        → Meets laws channels step.received_link_vector fails run
    failing run r' w' e1 (_, e2, listens') h = elim (Bool-cases (is_failure r')) [
      | inl failed ↦ (r', w', e1, failed, (e2, listens'.holds))
      | inr fine ↦ absurd (h fine)
    ]

    -- What is observed when all links are asked, over the bits of the step's vector.
    observed :
        (w' : World) × Observes step rig (laws.bits over.0) w (observations sent answers) w'
        × Listens laws channels step sent (senders links answers) (ask channels is e).1 w'
    observed =
        let (w', trace, listens') = asks laws channels step sent is links e w all listens in
        (
          w',
          subst (λ bs. Observes step rig bs w (observations sent answers) w') (sym over.2) trace,
          listens',
        )

    pub execute_receive_all_step-Meets :
        Meets laws channels step.received_link_vector
          (receive_on channels on_all sent is links e)
          (execute_receive_all_step step r rig w)
    unfolding receive_on accepts execute_receive_all_step
    execute_receive_all_step-Meets =
        let iff = execute_receive_all_step_iff laws step rig over.0 apart r in
        let (w', trace, listens') = observed in
        elim (Bool-cases (all_agree sent answers)) [
          | inl agree ↦
              let (run, _) =
                (iff r w w' over.1).1 (
                  observations sent answers,
                  trace,
                  all_agree-All sent answers agree,
                  fine,
                  refl,
                ) in
              rw agree (r, w', run, fine, listens'.holds, listens'.notes)
          | inr differ ↦
              let (end, w1, loop, listens1) =
                bit_loop-returns apart (observing step rig all_round) (observing-Frames all_round)
                  (observing-Listening all_round) is r w all over (links, e, listens) in
              let run = ap (λ x. and_then x (λ end. pure (result_of end))) loop in
              rw differ (
                failing _ (result_of end) w1 run listens1 λ passes.
                  let (os, trace2, all_arrived, _, _) =
                    (iff (result_of end) w w1 over.1).0 (run, passes) in
                  let same = Observes-unique step rig trace2 trace in
                  let agree = All-all_agree sent answers (subst (All Arrived) same all_arrived) in
                  cc)
        ]

    pub execute_receive_one_step-Meets :
        Meets laws channels step.received_link_vector
          (receive_on channels on_one sent is links e)
          (execute_receive_one_step step r rig w)
    unfolding receive_on accepts execute_receive_one_step
    execute_receive_one_step-Meets =
        let iff = execute_receive_one_step_iff laws step rig over.0 apart r in
        let (w', trace, listens') = observed in
        elim (Bool-cases (some_came answers && none_disagrees sent answers)) [
          | inl agree ↦
              let (came, right) = both (some_came answers) (none_disagrees sent answers) agree in
              let (run, _) = (iff r w w' over.1).1 (
                observations sent answers,
                trace,
                none_disagrees-All sent answers right,
                heard-some_came sent answers ∙ came,
                fine,
                refl,
              ) in
              rw agree (r, w', run, fine, listens'.holds, listens'.notes)
          | inr differ ↦
              let (end, w1, loop, listens1) =
                bit_loop-returns apart (observing step rig one_round) (observing-Frames one_round)
                  (observing-Listening one_round) is
                  (record { result = r; succeeded = false; failed_after_receive = false }) w all
                  over (links, e, listens) in
              let run = ap (λ x. and_then x (λ end. pure (one_end end))) loop in
              rw differ (
                failing _ (one_end end) w1 run listens1 λ passes.
                  let (os, trace2, all_right, some_heard, _, _) =
                    (iff (one_end end) w w1 over.1).0 (run, passes) in
                  let same = Observes-unique step rig trace2 trace in
                  let right =
                    All-none_disagrees sent answers (subst (All NothingWrong) same all_right) in
                  let came =
                    sym (heard-some_came sent answers) ∙ ap heard (sym same) ∙ some_heard in
                  cc)
        ]

    pub execute_receive_none_step-Meets :
        Meets laws channels step.received_link_vector
          (receive_on channels on_none sent is links e)
          (execute_receive_none_step step r rig w)
    unfolding receive_on accepts execute_receive_none_step
    execute_receive_none_step-Meets =
        let iff = execute_receive_none_step_iff laws step rig over.0 apart r in
        elim (Bool-cases (some_came answers)) [
          | inr nothing ↦
              let (w', quiets, listens') =
                silences laws channels step sent is links e w all listens nothing in
              let quiets' = subst (λ bs. Silences rig bs w w') (sym over.2) quiets in
              let (run, _) = (iff r w w' over.1).1 (quiets', fine, refl) in
              rw nothing (r, w', run, fine, listens'.holds, listens'.notes)
          | inl came ↦
              let (end, w1, loop, listens1) =
                bit_loop-returns apart (none_round step rig) (Frames-none_round step rig)
                  (λ i a u link (links', e', h).
                    none_round-returns laws channels step sent i a u links' e' link h)
                  is r w all over (links, e, listens) in
              let run = ap (λ x. and_then x (λ end. pure (result_of end))) loop in
              rw came (
                failing _ (result_of end) w1 run listens1 λ passes.
                  let (quiets, _, _) = (iff (result_of end) w w1 over.1).0 (run, passes) in
                  let quiets' = subst (λ bs. Silences rig bs w w1) over.2 quiets in
                  let nothing =
                    silent_answers laws channels step sent is links e w w1 all listens quiets' in
                  cc)
        ]
