-- ===== src/Script/Execute/Keeps.antt =====
-- What every execution keeps of the result: its test case, and that a failure has a reason.
use ccnx_testrig.Prelude.{
  ℕ, ◌+◌, ℤ, ◌≡◌, refl, ◌∙◌, String, Bool, true, false, not, ◌&&◌, Option, none, some, List, [],
  ◌∷◌, if◌then◌else◌, Bool-cases, inl, inr,
}
use ccnx_testrig.Run.{Cmd, ok, pure, ◌>>=◌, or_stop, null_pointer, uninitialised}
use ccnx_testrig.Platform.{Platform}
use ccnx_testrig.TestResult.{
  TestResult, HasReason, create_result, settle, fresh_result, set_pass, set_fail, is_failure,
  log_packet,
}
use ccnx_testrig.Heap.{copy_string}
use ccnx_testrig.Link.{send_buffer}
use ccnx_testrig.Rig.{get_link_by_id}
use ccnx_testrig.Packet.{is_valid_packet_pair, encode_packet}
use ccnx_testrig.Packet.Pair.{is_valid_packet_pair-HasReason, is_valid_packet_pair-test_case}
use ccnx_testrig.World.{
  StepPointer, Step, World, Rig, ExecuteFunction, execute_send, execute_receive_all,
  execute_receive_one, execute_receive_none, load_step, load_vector, on_net, to_unsigned,
}
use ccnx_testrig.Script.{Script}
use ccnx_testrig.Script.Execute.Ensures.{
  Ensures, Ensures-pure, Ensures-if, Ensures-bind, Ensures-after, bit_loop-Ensures,
}
use ccnx_testrig.Script.Execute.{
  Observation, silent, mistyped, compared, Round, next_round, leave, result_of, observe_link,
  receive_bit, all_round, one_round, one_end, none_round, Progress, execute_step, call_execute,
  execute_send_step, execute_receive_all_step, execute_receive_one_step, execute_receive_none_step,
  execute_steps, execute_script, mark_received, say_step, executing, failed_at,
}

module _ ⦃p : Platform⦄ (name : String) where
  -- A result of the given test case that says why, if it has failed.
  pub record IsResultOf (r : TestResult) : Type 0 where
    pub named : r.test_case ≡ name
    pub has_reason : HasReason r

  set_fail-IsResultOf : (r : TestResult) (why : String) → IsResultOf r → IsResultOf (set_fail r why)
  unfolding set_fail
  set_fail-IsResultOf r why h = record { named = h.named; has_reason = λ e. cc }

  is_valid_packet_pair-IsResultOf :
      (sent received : p.Packet) (r : TestResult)
      → IsResultOf r
      → IsResultOf (is_valid_packet_pair sent received r)
  is_valid_packet_pair-IsResultOf sent received r h = record {
    named = is_valid_packet_pair-test_case sent received r ∙ h.named;
    has_reason = is_valid_packet_pair-HasReason sent received r h.has_reason;
  }

  all_round-IsResultOf :
      (o : Observation) (r : TestResult) → IsResultOf r → IsResultOf (result_of (all_round o r))
  unfolding all_round
  all_round-IsResultOf silent r h = set_fail-IsResultOf r _ h
  all_round-IsResultOf (mistyped why) r h = set_fail-IsResultOf r why h
  all_round-IsResultOf (compared sent received) r h =
      is_valid_packet_pair-IsResultOf sent received r h

  abbrev IsProgressOf : Progress → Type 0
  IsProgressOf a = IsResultOf a.result

  next_progress :
      (b : Bool) (r : TestResult) (a : Progress)
      → IsResultOf r
      → IsProgressOf (
          if b
          then record a { result = r; succeeded = true }
          else record a { result = r; failed_after_receive = true })
  next_progress true r a h = h
  next_progress false r a h = h

  one_round-IsResultOf :
      (o : Observation) (a : Progress) → IsProgressOf a → IsProgressOf (result_of (one_round o a))
  unfolding one_round
  one_round-IsResultOf silent a h = h
  one_round-IsResultOf (mistyped why) a h = set_fail-IsResultOf a.result why h
  one_round-IsResultOf (compared sent received) a h =
      next_progress (not (is_failure (is_valid_packet_pair sent received a.result))) _ a
        (is_valid_packet_pair-IsResultOf sent received a.result h)

  if-IsResultOf :
      (b : Bool) (r s : TestResult) → IsResultOf r → IsResultOf s → IsResultOf (if b then r else s)
  if-IsResultOf true r s hr hs = hr
  if-IsResultOf false r s hr hs = hs

  one_end-IsResultOf :
      (end : Round Progress) → IsProgressOf (result_of end) → IsResultOf (one_end end)
  unfolding one_end
  one_end-IsResultOf (leave a) h = h
  one_end-IsResultOf (next_round a) h =
      if-IsResultOf (not a.succeeded && not a.failed_after_receive) _ _
        (set_fail-IsResultOf a.result _ h) h

module _ ⦃p : Platform⦄ (name : String) (step : Step) (rig : Rig) where
  none_round-Ensures :
      (bit : ℤ) (r : TestResult)
      → IsResultOf name r
      → Ensures (λ end. IsResultOf name (result_of end)) (none_round step rig bit r)
  unfolding none_round
  none_round-Ensures bit r h = Ensures-after (receive_bit rig bit) _ (elim [
    | none ↦ Ensures-pure (next_round r) h
    | some buffer ↦
        Ensures-after (mark_received step bit) _
          λ _. Ensures-pure (leave (set_fail r _)) (set_fail-IsResultOf name r _ h)
  ])

  call_execute-Ensures :
      (kind : ExecuteFunction) (r : TestResult)
      → IsResultOf name r
      → Ensures (IsResultOf name) (call_execute kind step r rig)
  unfolding call_execute execute_send_step execute_receive_all_step execute_receive_one_step
      execute_receive_none_step
  call_execute-Ensures execute_send r h =
      Ensures-after (or_stop step.packet null_pointer) _ λ packet.
        Ensures-after (encode_packet packet) _ λ buffer.
          Ensures-after (load_vector step.link_vector) _ λ v.
            Ensures-after
              (on_net (send_buffer (get_link_by_id rig (to_unsigned (p.next_bit_set v 0))) buffer))
              _
              λ _.
                Ensures-pure (log_packet r buffer)
                  (unfold log_packet in record { named = h.named; has_reason = h.has_reason })
  call_execute-Ensures execute_receive_all r h =
      Ensures-bind _ _ _
        (bit_loop-Ensures (IsResultOf name) step.link_vector _
          (λ bit a ha.
            Ensures-after (observe_link step rig bit) _
              λ o. Ensures-pure (all_round o a) (all_round-IsResultOf name o a ha))
          r h)
        λ end he. Ensures-pure (result_of end) he
  call_execute-Ensures execute_receive_one r h =
      Ensures-bind _ _ _
        (bit_loop-Ensures (IsProgressOf name) step.link_vector _
          (λ bit a ha.
            Ensures-after (observe_link step rig bit) _
              λ o. Ensures-pure (one_round o a) (one_round-IsResultOf name o a ha))
          (record { result = r; succeeded = false; failed_after_receive = false }) h)
        λ end he. Ensures-pure (one_end end) (one_end-IsResultOf name end he)
  call_execute-Ensures execute_receive_none r h =
      Ensures-bind _ _ _
        (bit_loop-Ensures (IsResultOf name) step.link_vector _ none_round-Ensures r h)
        λ end he. Ensures-pure (result_of end) he

  settle-Ensures : (r : TestResult) → IsResultOf name r → Ensures (IsResultOf name) (settle r)
  unfolding settle
  settle-Ensures r h = by_reason r.reason
    where
      by_reason :
          (reason : Option String)
          → Ensures (IsResultOf name) (elim reason as (λ _. Cmd World TestResult) [
            | none ↦ pure r
            | some why ↦ do copied ← copy_string why; pure r
          ])
      by_reason none = Ensures-pure r h
      by_reason (some why) = Ensures-after (copy_string why) _ λ _. Ensures-pure r h

  execute_step-Ensures :
      (r : TestResult) → IsResultOf name r → Ensures (IsResultOf name) (execute_step step r rig)
  unfolding execute_step
  execute_step-Ensures r h =
      Ensures-after (or_stop step.execute uninitialised) _
        λ kind. Ensures-bind (IsResultOf name) _ _ (call_execute-Ensures kind r h) settle-Ensures

module _ ⦃p : Platform⦄ (name : String) (rig : Rig) where
  execute_steps-Ensures :
      (i : ℕ) (steps : List StepPointer) (r : TestResult)
      → IsResultOf name r
      → Ensures (IsResultOf name) (execute_steps i steps r rig)
  unfolding execute_steps
  execute_steps-Ensures i [] r h =
      Ensures-pure (set_pass r)
        (unfold set_pass in record { named = h.named; has_reason = λ e. absurd (cc) })
  execute_steps-Ensures i (at ∷ steps) r h = Ensures-after (say_step executing i) _ λ _.
      Ensures-after (load_step (some at)) _ λ step.
        Ensures-bind (IsResultOf name) _ _ (execute_step-Ensures name step rig r h) λ r' h'.
          Ensures-if (is_failure r') _ _
            (Ensures-after (say_step failed_at i) _ λ _. Ensures-pure r' h')
            (execute_steps-Ensures (i + 1) steps r' h')

module _ ⦃p : Platform⦄ where
  -- However a script ends, the result that it returns carries the script's test case, and if the
  -- result has failed it carries a reason.
  pub execute_script-IsResultOf :
      (script : Script) (rig : Rig) (r' : TestResult) (w w' : World)
      → execute_script script rig w ≡ ok r' w'
      → IsResultOf script.test_case r'
  unfolding execute_script create_result copy_string fresh_result
  execute_script-IsResultOf script rig r' w w' e =
      elim (Bool-cases (p.has_spare_byte script.test_case)) [
        | inl spare ↦
            (execute_steps-Ensures script.test_case rig 1 script.steps
                (fresh_result script.test_case)
                (record { named = refl; has_reason = λ e1. absurd (cc) })).ensured
              w r' w' (rw spare at e)
        | inr over ↦ absurd (let e' = rw over at e in cc)
      ]
