-- ===== src/Script.antt =====
-- src/ccnxTestrig_Script.c: scripts are built step by step and executed against the rig.
pub mod Execute
pub mod Building
pub mod Plan
use ccnx_testrig.Prelude.{ℕ, String, Option, none, some, List, [], ◌∷◌, ◌++◌, length}
use ccnx_testrig.Run.{Cmd, ok, pure, gets, ◌>>=◌, ◌>>◌}
use ccnx_testrig.Platform.{Platform}
use ccnx_testrig.Heap.{copy_string}
use ccnx_testrig.World.{
  VectorPointer, StepPointer, ExecuteFunction, execute_send, execute_receive_all,
  execute_receive_one, execute_receive_none, Step, World, new_vector, load_vector, store_vector,
  new_step, load_step, store_step,
}

-- struct ccnx_testrig_script
pub record Script : Type 0 where
  pub test_case : String
  pub steps : List StepPointer

unfoldable pub empty_script : String → Script
empty_script test_case = record { test_case = test_case; steps = [] }

unfoldable pub create_script : ⦃p : Platform⦄ → String → Cmd World Script
create_script test_case = do copied ← copy_string test_case; pure (empty_script copied)

-- `parcLinkedList_Append(script->steps, step)`
abbrev pub append_step : Script → StepPointer → StepPointer × Script
append_step script step = (step, record script { steps = script.steps ++ step ∷ [] })

module _ ⦃p : Platform⦄ where
  unfoldable pub create_send_step : ℕ → ℕ → p.Packet → Cmd World StepPointer
  create_send_step index link_id packet = do
    received ← new_vector
    links ← new_vector
    v ← load_vector links
    store_vector links (p.set_bit v link_id)
    new_step (record {
      step_index = index;
      packet = some packet;
      link_vector = links;
      execute = some execute_send;
      reference = none;
      received_link_vector = received;
    })

  -- The new step shares the vector of the links on which the referenced step received.
  unfoldable pub create_respond_step : ℕ → StepPointer → p.Packet → Cmd World StepPointer
  create_respond_step index reference packet = do
    received ← new_vector
    referenced ← load_step (some reference)
    new_step (record {
      step_index = index;
      packet = some packet;
      link_vector = referenced.received_link_vector;
      execute = some execute_send;
      reference = none;
      received_link_vector = received;
    })

  -- `_ccnxTestrigScriptStep_CreateReceive`: `execute` is left unset.
  unfoldable pub create_receive : ℕ → StepPointer → VectorPointer → Cmd World StepPointer
  create_receive index reference links = do
    received ← new_vector
    new_step (record {
      step_index = index;
      packet = none;
      link_vector = links;
      execute = none;
      reference = some reference;
      received_link_vector = received;
    })

  set_execute : StepPointer → ExecuteFunction → Cmd World Unit
  set_execute at kind = do
    step ← load_step (some at)
    store_step at (record step { execute = some kind })

  unfoldable pub create_receive_all_step : ℕ → StepPointer → VectorPointer → Cmd World StepPointer
  unfolding create_receive set_execute
  create_receive_all_step index reference links = do
    step ← create_receive index reference links
    set_execute step execute_receive_all
    pure step

  unfoldable pub create_receive_none_step : ℕ → StepPointer → VectorPointer → Cmd World StepPointer
  unfolding create_receive set_execute
  create_receive_none_step index reference links = do
    step ← create_receive index reference links
    set_execute step execute_receive_none
    pure step

  unfoldable pub create_receive_one_step : ℕ → StepPointer → VectorPointer → Cmd World StepPointer
  unfolding create_receive set_execute
  create_receive_one_step index reference links = do
    step ← create_receive index reference links
    set_execute step execute_receive_one
    pure step

  unfoldable pub add_send_step : Script → p.Packet → ℕ → Cmd World (StepPointer × Script)
  unfolding create_send_step
  add_send_step script packet link_id = do
    step ← create_send_step (length script.steps) link_id packet
    pure (append_step script step)

  unfoldable pub add_respond_step :
      Script → StepPointer → p.Packet → Cmd World (StepPointer × Script)
  unfolding create_respond_step
  add_respond_step script step packet = do
    added ← create_respond_step (length script.steps) step packet
    pure (append_step script added)

  unfoldable pub add_receive_one_step :
      Script → StepPointer → VectorPointer → Cmd World (StepPointer × Script)
  unfolding create_receive_one_step
  add_receive_one_step script step links = do
    added ← create_receive_one_step (length script.steps) step links
    pure (append_step script added)

  unfoldable pub add_receive_none_step :
      Script → StepPointer → VectorPointer → Cmd World (StepPointer × Script)
  unfolding create_receive_none_step
  add_receive_none_step script step links = do
    added ← create_receive_none_step (length script.steps) step links
    pure (append_step script added)

  unfoldable pub add_receive_all_step :
      Script → StepPointer → VectorPointer → Cmd World (StepPointer × Script)
  unfolding create_receive_all_step
  add_receive_all_step script step links = do
    added ← create_receive_all_step (length script.steps) step links
    pure (append_step script added)
