-- ===== src/Script/Plan/Executing.antt =====
-- Executing all steps of a script against performing its plan.
use ccnx_testrig.Prelude.{
  ℕ, ◌+◌, ◌≡◌, refl, sym, ◌∙◌, ap, subst, some, List, [], ◌∷◌, get_elem?, true, false, Bool-cases,
  inl, inr, if◌then◌else◌,
}
use ccnx_testrig.Run.{ok, Run, pure, ◌>>◌, Stops, Stops-and_then, null_pointer}
use ccnx_testrig.Platform.{Platform}
use ccnx_testrig.Platform.Laws.{BufferLaws, BitVectorLaws}
use ccnx_testrig.Heap.{copy_string}
use ccnx_testrig.TestResult.{TestResult, is_failure, set_pass, create_result, fresh_result}
use ccnx_testrig.TestResult.Report.{is_failure-set_pass}
use ccnx_testrig.World.{StepPointer, Step, World, Rig}
use ccnx_testrig.Channels.{Channels}
use ccnx_testrig.Script.{Script}
use ccnx_testrig.Script.Execute.{
  execute_step, execute_steps, execute_script, say_step, executing, failed_at,
}
use ccnx_testrig.Script.Execute.Frame.{Frame, Frame-trans, execute_step-Frame}
use ccnx_testrig.Script.Execute.Steps.{said}
use ccnx_testrig.Script.Plan.{
  Action, send, respond, receive, Notes, note, accepts, senders, ask, Outcome, goes_on, fails,
  crashes, receive_on, perform, Verdict, passed, failed, crashed, perform_all,
}
use ccnx_testrig.Script.Plan.Asking.{AllLinks}
use ccnx_testrig.Script.Plan.Receiving.{Meets}
use ccnx_testrig.Script.Plan.Placed.{
  Owner, Does, Does-Frame, AllPlaced, none_placed, placed, IsInjective, Noted, AllPlaced-Frame,
  Noted-note, AllLinks-senders,
}
use ccnx_testrig.Script.Plan.Performing.{execute_step-Meets}

module _ ⦃p : Platform⦄ {rig : Rig} (channels : Channels rig) where
  -- What a script leaves is what its plan comes to.
  abbrev pub MeetsAll : Verdict channels → Run World TestResult → Type 0
  MeetsAll (passed e) run =
      (r : TestResult) × (w : World) × (run ≡ ok r w)
      × (is_failure r ≡ false)
      × channels.Holds e w.net
  MeetsAll failed run =
      (r : TestResult) × (w : World) × (run ≡ ok r w)
      × (is_failure r ≡ true)
      × ((e : channels.Env) × channels.Holds e w.net)
  MeetsAll crashed run = Stops null_pointer run

  -- An action notes nothing but links.
  performed_links :
      (laws : BitVectorLaws p) (owner : Owner) (a : Action) (step : Step) (w : World) (j : ℕ)
      (notes : Notes) (e : channels.Env)
      → Does laws owner a step w
      → AllLinks (notes j)
      → (links : List ℕ) (e' : channels.Env) → perform channels a j notes e ≡ goes_on links e'
      → AllLinks links
  unfolding perform receive_on
  performed_links laws owner (send i packet) step w j notes e does all links e' goes =
      let same : notes j ≡ links = cc in subst AllLinks same all
  performed_links laws owner (respond k packet) step w j notes e does all links e' goes =
      by_senders (notes k) goes
    where
      by_senders :
          (from : List ℕ)
          → (elim from as (λ _. Outcome channels) [
            | [] ↦ crashes
            | i ∷ is ↦ goes_on (notes j) (channels.put i packet e)
          ])
            ≡ goes_on links e'
          → AllLinks links
      by_senders [] goes = absurd (cc)
      by_senders (i ∷ is) goes = let same : notes j ≡ links = cc in subst AllLinks same all
  performed_links laws owner (receive mode sent is) step w j notes e does all links e' goes =
      let (_, _, _, _, all_links) = does in
      let noted = AllLinks-senders channels is (notes j) e all_links all in
      elim (Bool-cases (accepts mode sent (ask channels is e).0)) [
        | inl yes_accepted ↦
            let same : senders (notes j) (ask channels is e).0 ≡ links =
              (let goes' = rw yes_accepted at goes in cc) in
            subst AllLinks same noted
        | inr refused ↦ absurd (let goes' = rw refused at goes in cc)
      ]

module _ ⦃p : Platform⦄ (rig : Rig) (i : ℕ) (at : StepPointer) (steps : List StepPointer)
    (r : TestResult) (w : World) where
  execute_steps-next :
      (step : Step) (r1 : TestResult) (w1 : World)
      → get_elem? w.steps at ≡ some step
      → execute_step step r rig (said executing i w) ≡ ok r1 w1
      → execute_steps i (at ∷ steps) r rig w
        ≡ (if is_failure r1
              then (do say_step failed_at i; pure r1)
              else execute_steps (i + 1) steps r1 rig)
            w1
  unfolding execute_steps
  execute_steps-next step r1 w1 found run = rw found (rw run refl)

  execute_steps-Stops :
      (step : Step)
      → get_elem? w.steps at ≡ some step
      → Stops null_pointer (execute_step step r rig (said executing i w))
      → Stops null_pointer (execute_steps i (at ∷ steps) r rig w)
  unfolding execute_steps
  execute_steps-Stops step found h = rw found (
      Stops-and_then
        (λ r'.
          if is_failure r'
          then (do say_step failed_at i; pure r')
          else execute_steps (i + 1) steps r' rig)
        h)

module _ ⦃p : Platform⦄ (buffers : BufferLaws p) (laws : BitVectorLaws p) {rig : Rig}
    (channels : Channels rig) (owner : Owner) (injective : IsInjective laws owner) where
  -- Executing the steps from some index on comes to what performing their actions comes to.
  execute_steps-MeetsAll :
      (plan : List Action) (steps : List StepPointer) (i j : ℕ) (notes : Notes) (e : channels.Env)
      (r : TestResult) (w : World)
      → AllPlaced laws owner w j plan steps
      → Noted laws owner notes w
      → channels.Holds e w.net
      → is_failure r ≡ false
      → MeetsAll channels (perform_all channels plan j notes e) (execute_steps i steps r rig w)
  unfolding perform_all
  execute_steps-MeetsAll [] [] i j notes e r w none_placed noted holds fine =
      (set_pass r, w, unfold execute_steps in refl, is_failure-set_pass r, holds)
  execute_steps-MeetsAll [] (at ∷ steps) i j notes e r w all noted holds fine = elim all [ ]
  execute_steps-MeetsAll (a ∷ plan) [] i j notes e r w all noted holds fine = elim all [ ]
  execute_steps-MeetsAll (a ∷ plan) (at ∷ steps) i j notes e r w (placed h rest) noted holds fine =
      by_outcome (perform channels a j notes e) refl
        (execute_step-Meets buffers laws channels h.step r w0 e
          (channels.prints e w.net w0.net.console holds) fine owner notes noted j a h.owned
          (Does-Frame laws owner h.owned printed a h.step h.does))
        (execute_steps-MeetsAll plan steps (i + 1) (j + 1))
    where
      w0 : World
      w0 = said executing i w

      printed : Frame h.step.received_link_vector w w0
      printed = record { same_steps = refl; same_length = refl; same_vectors = λ x apart. refl }

      by_outcome :
          (o : Outcome channels)
          → perform channels a j notes e ≡ o
          → Meets laws channels h.step.received_link_vector o (execute_step h.step r rig w0)
          → ((notes1 : Notes) (e1 : channels.Env) (r1 : TestResult) (w1 : World)
              → AllPlaced laws owner w1 (j + 1) plan steps
              → Noted laws owner notes1 w1
              → channels.Holds e1 w1.net
              → is_failure r1 ≡ false
              → MeetsAll channels
                  (perform_all channels plan (j + 1) notes1 e1)
                  (execute_steps (i + 1) steps r1 rig w1))
          → MeetsAll channels
              (elim o [
                | goes_on links e' ↦ perform_all channels plan (j + 1) (note j links notes) e'
                | fails ↦ failed
                | crashes ↦ crashed
              ])
              (execute_steps i (at ∷ steps) r rig w)
      by_outcome (goes_on links e1) goes (r1, w1, run, fine1, holds1, bits) later =
          let frame =
            Frame-trans h.step.received_link_vector printed
              (execute_step-Frame h.step rig r r1 w0 w1 run) in
          let all =
            performed_links channels laws owner a h.step w j notes e h.does
              (noted h.step.received_link_vector j h.owned).1 links e1 goes in
          let after : execute_steps i (at ∷ steps) r rig w ≡ execute_steps (i + 1) steps r1 rig w1 =
            execute_steps-next rig i at steps r w h.step r1 w1 h.found run
            ∙ ap
                (λ b.
                  (if b
                      then (do say_step failed_at i; pure r1)
                      else execute_steps (i + 1) steps r1 rig)
                    w1)
                fine1 in
          subst (MeetsAll channels (perform_all channels plan (j + 1) (note j links notes) e1))
            (sym after)
            (later (note j links notes) e1 r1 w1 (AllPlaced-Frame laws owner h.owned frame rest)
              (Noted-note laws owner h.owned frame notes links injective noted bits all) holds1
              fine1)
      by_outcome fails goes (r1, w1, run, failed1, holds1) later = (
        r1,
        said failed_at i w1,
        execute_steps-next rig i at steps r w h.step r1 w1 h.found run
            ∙ ap
                (λ b.
                  (if b
                      then (do say_step failed_at i; pure r1)
                      else execute_steps (i + 1) steps r1 rig)
                    w1)
                failed1,
        failed1,
        (holds1.0, channels.prints holds1.0 w1.net (said failed_at i w1).net.console holds1.1),
      )
      by_outcome crashes goes halted later =
          execute_steps-Stops rig i at steps r w h.step h.found halted

  -- Let PARC's buffers and bit vectors behave as documented, and let no two vectors be written for the
  -- same action. On links that work as channels, where what is written to the console does not
  -- concern them, each receive brings nothing or a message that the codec reads, and the heap has a
  -- byte to spare behind each block, executing a script whose steps stand for a plan, from vectors of
  -- links that note nothing yet, comes to what performing the plan comes to: if the plan passes the script returns a result that has not
  -- failed, and what surrounds the rig is as the plan leaves it; if the plan fails the script returns
  -- a result that has failed; and if the plan crashes the script reads through `NULL`.
  pub execute_script-MeetsAll :
      (script : Script) (plan : List Action) (e : channels.Env) (w : World)
      → AllPlaced laws owner w 0 plan script.steps
      → Noted laws owner (λ _. []) w
      → channels.Holds e w.net
      → MeetsAll channels (perform_all channels plan 0 (λ _. []) e) (execute_script script rig w)
  unfolding execute_script create_result copy_string
  execute_script-MeetsAll script plan e w all noted holds =
      rw (channels.has_spare_bytes script.test_case) (
        execute_steps-MeetsAll plan script.steps 1 0 (λ _. []) e (fresh_result script.test_case) w
          all noted holds (unfold is_failure fresh_result in refl))
