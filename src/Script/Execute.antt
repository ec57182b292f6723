-- ===== src/Script/Execute.antt =====
-- Executing the steps of a script (src/ccnxTestrig_Script.c).
pub mod BitLoop
pub mod Ensures
pub mod Frame
pub mod Keeps
pub mod Send
pub mod Steps
pub mod ReceiveAll
pub mod ReceiveOne
pub mod ReceiveNone
pub mod Trace
use ccnx_testrig.Prelude.{
  ℕ, zero, suc, ℤ, pos, negsuc, ◌+◌, String, Bool, true, false, not, ◌&&◌, Option, none, some, List,
  [], ◌∷◌, ltb, if◌then◌else◌, get_elem?,
}
use ccnx_testrig.Run.{
  Cmd, ok, pure, halt, gets, or_stop, null_pointer, uninitialised, out_of_fuel, ◌>>=◌, ◌>>◌,
}
use ccnx_testrig.Platform.{Platform}
use ccnx_testrig.Reporter.{stdout, numbered, print}
use ccnx_testrig.TestResult.{
  TestResult, create_result, settle, set_pass, set_fail, is_failure, log_packet,
}
use ccnx_testrig.Packet.{is_valid_packet_pair, encode_packet}
use ccnx_testrig.Link.{receive_with_timeout, send_buffer}
use ccnx_testrig.World.{
  VectorPointer, StepPointer, execute_send, execute_receive_all, execute_receive_one,
  execute_receive_none, ExecuteFunction, Step, World, Rig, to_unsigned, on_net, on_console,
  load_vector, store_vector, load_step,
}
use ccnx_testrig.Rig.{get_link_by_id}
use ccnx_testrig.Script.{Script}

-- How one round of a loop ends: the loop goes on, or it is left.
pub data Round (A : Type 0) : Type 0 where
  next_round : A → Round A
  leave : A → Round A

abbrev pub result_of : {A : Type 0} → Round A → A
result_of (leave a) = a
result_of (next_round a) = a

abbrev pub bool_eq : Bool → Bool → Bool
bool_eq true b = b
bool_eq false b = not b

-- `currentBit + 1`, as the `unsigned` that it is passed as.
abbrev pub bit_after : ℤ → ℕ
bit_after (pos n) = to_unsigned (pos (n + 1))
bit_after (negsuc zero) = 0
bit_after (negsuc (suc n)) = to_unsigned (negsuc n)

-- What became of one link of a receive step: nothing came, a packet of another type came, or a
-- packet of the type of the sent one came and is compared with it.
pub data Observation ⦃p : Platform⦄ : Type 0 where
  silent : Observation
  mistyped : String → Observation
  compared : p.Packet → p.Packet → Observation

module _ ⦃p : Platform⦄ where
  module _ {A : Type 0} (at : VectorPointer) (body : ℤ → A → Cmd World (Round A)) where
    -- `for (size_t i = 0; i < NumberOfBitsSet(v); i++)`, each round with the next set bit.
    bit_rounds : ℕ → ℕ → ℤ → A → Cmd World (Round A)
    bit_rounds zero i current a = halt out_of_fuel
    bit_rounds (suc rounds) i current a = do
      v ← load_vector at
      if ltb i (p.number_of_bits_set v)
          then (do
            let bit = p.next_bit_set v (bit_after current)
            r ← body bit a
            elim r [ leave b ↦ pure (leave b) | next_round b ↦ bit_rounds rounds (i + 1) bit b ])
          else pure (next_round a)

    -- One more round than there are bits is enough.
    unfoldable pub bit_loop : A → Cmd World (Round A)
    unfolding bit_rounds
    bit_loop a = do v ← load_vector at; bit_rounds (p.number_of_bits_set v + 1) 0 (negsuc 0) a

  -- The packet's own type against that of the sent one, in the order of the three tests.
  unfoldable pub observe_packet : p.Packet → p.Packet → Observation
  observe_packet referenced message =
      if not (bool_eq (p.meta_is_interest message) (p.is_interest referenced))
      then mistyped "The received message type does not match the sent message type (INTEREST)"
      else if not (bool_eq (p.meta_is_content_object message) (p.is_content_object referenced))
      then mistyped "The received message type does not match the sent message type (CONTENT)"
      else if not (bool_eq (p.meta_is_manifest message) (p.is_manifest referenced))
      then mistyped "The received message type does not match the sent message type (MANIFEST)"
      else compared referenced message

  unfoldable pub receive_bit : Rig → ℤ → Cmd World (Option p.Buffer)
  receive_bit rig bit =
      on_net (receive_with_timeout (get_link_by_id rig (to_unsigned bit)) (pos 1000))

  abbrev pub mark_received : Step → ℤ → Cmd World Unit
  mark_received step bit = do
    v ← load_vector step.received_link_vector
    store_vector step.received_link_vector (p.set_bit v (to_unsigned bit))

  -- The part of a round that receiving on all links and on one link have in common.
  observe_buffer : Step → ℤ → p.Buffer → Cmd World Observation
  observe_buffer step bit buffer = do
    mark_received step bit
    reference ← load_step step.reference
    message ← or_stop (p.create_from_wire_format buffer) null_pointer
    referenced ← or_stop reference.packet null_pointer
    pure (observe_packet referenced message)

  unfoldable pub observe_link : Step → Rig → ℤ → Cmd World Observation
  unfolding observe_buffer
  observe_link step rig bit = do
    received ← receive_bit rig bit
    elim received [ none ↦ pure silent | some buffer ↦ observe_buffer step bit buffer ]

  unfoldable pub execute_send_step : Step → TestResult → Rig → Cmd World TestResult
  execute_send_step step r rig = do
    packet ← or_stop step.packet null_pointer
    buffer ← encode_packet packet
    v ← load_vector step.link_vector
    let link_mask = to_unsigned (p.next_bit_set v 0)
    on_net (send_buffer (get_link_by_id rig link_mask) buffer)
    pure (log_packet r buffer)

  -- A round of receiving on all links.
  unfoldable pub all_round : Observation → TestResult → Round TestResult
  all_round silent r = leave (set_fail r "Failed to receive a message in the allotted time.")
  all_round (mistyped why) r = leave (set_fail r why)
  all_round (compared sent received) r = next_round (is_valid_packet_pair sent received r)

  unfoldable pub execute_receive_all_step : Step → TestResult → Rig → Cmd World TestResult
  execute_receive_all_step step r rig = do
    end ←
        bit_loop step.link_vector
          (λ bit a. do seen ← observe_link step rig bit; pure (all_round seen a)) r
    pure (result_of end)

  -- The result with `succeeded` and `failedAfterReceive`.
  pub record Progress : Type 0 where
    pub result : TestResult
    pub succeeded : Bool
    pub failed_after_receive : Bool

  -- A round of receiving on one link.
  unfoldable pub one_round : Observation → Progress → Round Progress
  one_round silent a = next_round a
  one_round (mistyped why) a = leave (record a { result = set_fail a.result why })
  one_round (compared sent received) a =
      let r = is_valid_packet_pair sent received a.result in
      next_round (
        if not (is_failure r)
        then record a { result = r; succeeded = true }
        else record a { result = r; failed_after_receive = true })

  -- Behind the loop.
  unfoldable pub one_end : Round Progress → TestResult
  one_end (leave a) = a.result
  one_end (next_round a) =
      if not a.succeeded && not a.failed_after_receive
      then set_fail a.result "Did not receive any message on the specified links."
      else a.result

  unfoldable pub execute_receive_one_step : Step → TestResult → Rig → Cmd World TestResult
  execute_receive_one_step step r rig = do
    end ←
        bit_loop step.link_vector
          (λ bit a. do seen ← observe_link step rig bit; pure (one_round seen a))
          (record { result = r; succeeded = false; failed_after_receive = false })
    pure (one_end end)

  -- A round of receiving on no link.
  unfoldable pub none_round : Step → Rig → ℤ → TestResult → Cmd World (Round TestResult)
  none_round step rig bit r = do
    received ← receive_bit rig bit
    elim received [
      | none ↦ pure (next_round r)
      | some buffer ↦ do
        mark_received step bit
        pure (leave (set_fail r "Received a message when we expected not to."))
    ]

  unfoldable pub execute_receive_none_step : Step → TestResult → Rig → Cmd World TestResult
  execute_receive_none_step step r rig = do
    end ← bit_loop step.link_vector (none_round step rig) r
    pure (result_of end)

  -- `step->execute(step, result, rig)`
  unfoldable pub call_execute : ExecuteFunction → Step → TestResult → Rig → Cmd World TestResult
  call_execute execute_send = execute_send_step
  call_execute execute_receive_all = execute_receive_all_step
  call_execute execute_receive_one = execute_receive_one_step
  call_execute execute_receive_none = execute_receive_none_step

  unfoldable pub execute_step : Step → TestResult → Rig → Cmd World TestResult
  execute_step step r rig = do
    kind ← or_stop step.execute uninitialised
    r' ← call_execute kind step r rig
    settle r'

  abbrev pub say_step : String → ℕ → Cmd World Unit
  say_step words i = on_console (print stdout (numbered words (pos i)))

  abbrev pub executing : String
  executing = ">> Executing step "

  abbrev pub failed_at : String
  failed_at = ">> **** Failed at step "

  -- The loop over the steps from the `i`-th on, left at the first failure. Each step is announced,
  -- and a failure is said with the number of its step.
  unfoldable pub execute_steps : ℕ → List StepPointer → TestResult → Rig → Cmd World TestResult
  execute_steps i [] r rig = pure (set_pass r)
  execute_steps i (at ∷ steps) r rig = do
    say_step executing i
    step ← load_step (some at)
    r' ← execute_step step r rig
    let rest = execute_steps (i + 1) steps r' rig
    if is_failure r' then (do say_step failed_at i; pure r') else rest

  unfoldable pub execute_script : Script → Rig → Cmd World TestResult
  unfolding execute_steps
  execute_script script rig = do
    r ← create_result script.test_case
    execute_steps 1 script.steps r rig
