-- ===== src/Examples/Scripts.antt =====
-- A script that sends an Interest on link A and receives it on link B, and runs of its steps.
use ccnx_testrig.Prelude.{
  ℕ, ℤ, true, false, ◌≡◌, ◌≢◌, ◌↔◌, refl, sym, ap, subst, ◌+◌, none, some, List, [], ◌∷◌, get_elem?,
  arith,
}
use ccnx_testrig.Run.{Cmd, Run, ok, stop, Returns, Stops, null_pointer, pure}
use ccnx_testrig.Heap.{copy_string}
use ccnx_testrig.TestResult.{
  create_result, settle, TestResult, fresh_result, is_failure, log_packet, set_fail, set_pass,
}
use ccnx_testrig.Link.{
  Net, send_buffer, udp_send, receive_with_timeout, udp_receive, received_buffer,
}
use ccnx_testrig.World.{
  World, Step, execute_send, execute_receive_one, execute_receive_all, execute_receive_none,
  ExecuteFunction,
}
use ccnx_testrig.Script.{Script}
use ccnx_testrig.Packet.{encode_packet, is_valid_packet_pair, valid_interest_pair}
use ccnx_testrig.Rig.{get_link_by_id}
use ccnx_testrig.Script.Execute.BitLoop.{each_bit, KeepsVector, bit_loop-each_bit}
use ccnx_testrig.Script.Execute.Send.{SentOn, execute_send_step-lowest}
use ccnx_testrig.Script.Execute.{
  Round, next_round, Observation, call_execute, execute_send_step, bit_loop, observe_link,
  receive_bit, observe_packet, one_round, one_end, execute_script, execute_step,
  execute_receive_all_step, execute_receive_one_step, execute_receive_none_step,
}
use ccnx_testrig.Script.Execute.Steps.{Ends, execute_script_iff}
use ccnx_testrig.Platform.Laws.{add_bit, first_from}
use ccnx_testrig.Script.Execute.ReceiveAll.{AllArrived, execute_receive_all_step_iff}
use ccnx_testrig.Script.Execute.Trace.{Observes, Silences, All, NothingWrong, heard}
use ccnx_testrig.Script.Execute.ReceiveOne.{execute_receive_one_step_iff}
use ccnx_testrig.Script.Execute.ReceiveNone.{execute_receive_none_step_iff}
use ccnx_testrig.Script.Execute.Keeps.{IsResultOf, execute_script-IsResultOf}
use ccnx_testrig.Script.Execute.Frame.{Frame, execute_step-Frame}
use ccnx_testrig.Examples.Machine.{set_in, Message, Queue, desk, desk_bits, desk_buffers, waiting}
use ccnx_testrig.Examples.Links.{desk_net, desk_rig, three_links, one_waiting}

abbrev pub sent_interest : Message
sent_interest = record { kind = 0; hop_limit = 32; lifetime = 1000; message_name = 7 }

abbrev pub send_step : Step ⦃p = desk⦄
send_step = record {
  step_index = 0;
  packet = some sent_interest;
  link_vector = 1;
  execute = some execute_send;
  reference = none;
  received_link_vector = 0;
}

abbrev pub receive_step : ExecuteFunction → Step ⦃p = desk⦄
receive_step kind = record {
  step_index = 1;
  packet = none;
  link_vector = 3;
  execute = some kind;
  reference = some 0;
  received_link_vector = 2;
}

abbrev pub bit : ℕ → desk.BitVector
bit n = desk.set_bit desk.create_vector n

abbrev pub desk_world : ExecuteFunction → List Queue → World ⦃p = desk⦄
desk_world kind queues = record {
  net = desk_net queues three_links;
  vectors = desk.create_vector ∷ bit 1 ∷ desk.create_vector ∷ bit 2 ∷ [];
  steps = send_step ∷ receive_step kind ∷ [];
  draws = 0;
}

abbrev pub exchange : Script
exchange = record { test_case = "exchange"; steps = 0 ∷ 1 ∷ [] }

abbrev value_of : {S A : Type 0} → A → Run S A → A
value_of a (ok b s) = b
value_of a (stop why s) = a

abbrev state_of : {S A : Type 0} → Run S A → S
state_of (ok b s) = s
state_of (stop why s) = s

abbrev first_result : TestResult ⦃p = desk⦄
first_result = fresh_result ⦃p = desk⦄ "exchange"

abbrev exchanged : Run (World ⦃p = desk⦄) (TestResult ⦃p = desk⦄)
exchanged = execute_script exchange desk_rig (desk_world execute_receive_one one_waiting)

execute_script_iff_example :
    (execute_script exchange desk_rig (desk_world execute_receive_one one_waiting)
      ≡ ok (value_of first_result exchanged) (state_of exchanged))
    ↔ ((desk.has_spare_byte exchange.test_case ≡ true)
        × Ends desk_rig 1 exchange.steps
            (fresh_result exchange.test_case)
            (desk_world execute_receive_one one_waiting)
            (value_of first_result exchanged)
            (state_of exchanged))
execute_script_iff_example =
    execute_script_iff desk_rig exchange (value_of first_result exchanged)
      (desk_world execute_receive_one one_waiting) (state_of exchanged)

links_apart : ◌≢◌ {A = ℕ} 3 2
links_apart e = omega arith

-- A world, and the world that a command leaves on it.
abbrev World1 : Type 0
World1 = World ⦃p = desk⦄

abbrev all_world : World1
all_world = desk_world execute_receive_all one_waiting

abbrev one_world : World1
one_world = desk_world execute_receive_one one_waiting

abbrev none_world : World1
none_world = desk_world execute_receive_none (waiting [] ∷ waiting [] ∷ waiting [] ∷ [])

exchanged_ok : exchanged ≡ ok (value_of first_result exchanged) (state_of exchanged)
unfolding execute_script execute_step call_execute execute_send_step encode_packet send_buffer
    get_link_by_id first_from set_in add_bit udp_send is_failure log_packet fresh_result
    execute_receive_one_step bit_loop observe_link receive_bit observe_packet receive_with_timeout
    udp_receive received_buffer is_valid_packet_pair valid_interest_pair one_round one_end set_fail
    set_pass create_result copy_string settle
exchanged_ok = refl

execute_script-IsResultOf_example : IsResultOf "exchange" (value_of first_result exchanged)
execute_script-IsResultOf_example =
    execute_script-IsResultOf exchange desk_rig (value_of first_result exchanged) one_world
      (state_of exchanged) exchanged_ok

abbrev received : Run World1 (TestResult ⦃p = desk⦄)
received = execute_step (receive_step execute_receive_one) first_result desk_rig one_world

received_ok : received ≡ ok (value_of first_result received) (state_of received)
unfolding execute_step call_execute get_link_by_id first_from set_in add_bit is_failure fresh_result
    execute_receive_one_step bit_loop observe_link receive_bit observe_packet receive_with_timeout
    udp_receive received_buffer is_valid_packet_pair valid_interest_pair one_round one_end set_fail
    settle
received_ok = refl

execute_step-Frame_example : Frame 2 one_world (state_of received)
execute_step-Frame_example =
    execute_step-Frame (receive_step execute_receive_one) desk_rig first_result
      (value_of first_result received) one_world (state_of received) received_ok

abbrev all_links : World1
all_links =
    state_of
      (execute_receive_all_step (receive_step execute_receive_all) first_result desk_rig all_world)

execute_receive_all_step_iff_example :
    ((execute_receive_all_step (receive_step execute_receive_all) first_result desk_rig all_world
        ≡ ok first_result all_links)
      × (is_failure first_result ≡ false))
    ↔ AllArrived
        (receive_step execute_receive_all)
        desk_rig
        (desk_bits.bits (bit 2))
        first_result
        all_world
        first_result
        all_links
execute_receive_all_step_iff_example =
    execute_receive_all_step_iff desk_bits (receive_step execute_receive_all) desk_rig (bit 2)
      links_apart first_result first_result all_world all_links refl

execute_receive_one_step_iff_example :
    ((execute_receive_one_step (receive_step execute_receive_one) first_result desk_rig one_world
        ≡ ok first_result (state_of received))
      × (is_failure first_result ≡ false))
    ↔ ((os : List (Observation ⦃p = desk⦄)) × Observes
          (receive_step execute_receive_one)
          desk_rig
          (desk_bits.bits (bit 2))
          one_world
          os
          (state_of received)
        × All NothingWrong os
        × (heard os ≡ true)
        × (is_failure first_result ≡ false)
        × (first_result ≡ first_result))
execute_receive_one_step_iff_example =
    execute_receive_one_step_iff desk_bits (receive_step execute_receive_one) desk_rig (bit 2)
      links_apart first_result first_result one_world (state_of received) refl

abbrev no_links : World1
no_links =
    state_of (
      execute_receive_none_step (receive_step execute_receive_none) first_result desk_rig
        none_world)

execute_receive_none_step_iff_example :
    ((execute_receive_none_step (receive_step execute_receive_none) first_result desk_rig none_world
        ≡ ok first_result no_links)
      × (is_failure first_result ≡ false))
    ↔ (Silences desk_rig (desk_bits.bits (bit 2)) none_world no_links
        × (is_failure first_result ≡ false)
        × (first_result ≡ first_result))
execute_receive_none_step_iff_example =
    execute_receive_none_step_iff desk_bits (receive_step execute_receive_none) desk_rig (bit 2)
      links_apart first_result first_result none_world no_links refl

-- A loop body that counts.
abbrev count_bit : ℤ → ℕ → Cmd World1 (Round ℕ)
count_bit b n = pure (next_round (n + 1))

count_bit-KeepsVector : KeepsVector 3 count_bit
count_bit-KeepsVector b n w r w' e =
    let same : w ≡ w' = cc in ap (λ (x : World1). get_elem? x.vectors 3) (sym same)

bit_loop-each_bit_example :
    bit_loop 3 count_bit 0 one_world ≡ each_bit count_bit (desk_bits.bits (bit 2)) 0 one_world
bit_loop-each_bit_example =
    bit_loop-each_bit desk_bits 3 count_bit count_bit-KeepsVector (bit 2) 0 one_world refl

send_on :
    (b : ℕ) (buffer : desk.Buffer)
    → ◌≡◌ {A = ℕ} 1 b
    → (val : ℤ) × (n : Net ⦃p = desk⦄) × (send_buffer
          (get_link_by_id desk_rig b)
          buffer
          one_world.net
        ≡ ok val n)
unfolding send_buffer udp_send get_link_by_id
send_on b buffer same =
    subst
      (λ (x : ℕ).
        (val : ℤ) × (n : Net ⦃p = desk⦄) × (send_buffer (get_link_by_id desk_rig x) buffer
            one_world.net
          ≡ ok val n))
      same (_, _, refl)

execute_send_step-lowest_example :
    ((b : ℕ) (bs : List ℕ)
      → desk_bits.bits (bit 1) ≡ b ∷ bs
      → Returns
          (SentOn desk_rig sent_interest b first_result one_world)
          (execute_send_step send_step first_result desk_rig one_world))
    × (desk_bits.bits (bit 1) ≡ []
        → Stops null_pointer (execute_send_step send_step first_result desk_rig one_world))
unfolding set_in add_bit
execute_send_step-lowest_example =
    execute_send_step-lowest desk_buffers desk_bits send_step desk_rig sent_interest refl (bit 1)
      first_result one_world refl (λ b bs buffer split reads. send_on b buffer (cc))
