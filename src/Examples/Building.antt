-- ===== src/Examples/Building.antt =====
-- Steps that are added to a script on the machine.
use ccnx_testrig.Prelude.{◌≡◌, refl, some, none, [], ◌∷◌}
use ccnx_testrig.Run.{Returns}
use ccnx_testrig.World.{
  World, Step, execute_send, execute_receive_one, execute_receive_none, execute_receive_all,
}
use ccnx_testrig.Script.{
  Script, add_send_step, add_respond_step, add_receive_one_step, add_receive_none_step,
  add_receive_all_step,
}
use ccnx_testrig.Script.Building.{
  Adds, AddsReceive, add_send_step-Adds, add_respond_step-Adds, add_receive_steps-AddsReceive,
}
use ccnx_testrig.Examples.Machine.{Message, desk, waiting}
use ccnx_testrig.Examples.Links.{desk_net, three_links}

abbrev content : Message
content = record { kind = 1; hop_limit = 0; lifetime = 0; message_name = 7 }

-- A step that receives on the links of vector 1 and notes them in vector 0.
abbrev receiving : Step ⦃p = desk⦄
receiving = record {
  step_index = 0;
  packet = none;
  link_vector = 1;
  execute = some execute_receive_one;
  reference = some 0;
  received_link_vector = 0;
}

abbrev small_world : World ⦃p = desk⦄
small_world = record {
  net = desk_net (waiting [] ∷ waiting [] ∷ waiting [] ∷ []) three_links;
  vectors = desk.create_vector ∷ desk.set_bit desk.create_vector 2 ∷ [];
  steps = receiving ∷ [];
  draws = 0;
}

abbrev one_step : Script
one_step = record { test_case = "one step"; steps = 0 ∷ [] }

add_send_step-Adds_example :
    Returns
      (λ added w'.
        (new : Step ⦃p = desk⦄) × Adds one_step small_world
          (desk.set_bit desk.create_vector 2 ∷ [])
          new
          added
          w'
        × (new.execute ≡ some execute_send)
        × (new.packet ≡ some content)
        × (new.link_vector ≡ 3))
      (add_send_step one_step content 2 small_world)
add_send_step-Adds_example = add_send_step-Adds one_step content 2 small_world

add_respond_step-Adds_example :
    Returns
      (λ added w'.
        (new : Step ⦃p = desk⦄) × Adds one_step small_world [] new added w'
        × (new.execute ≡ some execute_send)
        × (new.packet ≡ some content)
        × (new.link_vector ≡ 0))
      (add_respond_step one_step 0 content small_world)
add_respond_step-Adds_example = add_respond_step-Adds one_step 0 content small_world receiving refl

add_receive_steps-AddsReceive_example :
    Returns
      (AddsReceive execute_receive_one one_step 0 1 small_world)
      (add_receive_one_step one_step 0 1 small_world)
    × Returns
        (AddsReceive execute_receive_none one_step 0 1 small_world)
        (add_receive_none_step one_step 0 1 small_world)
    × Returns
        (AddsReceive execute_receive_all one_step 0 1 small_world)
        (add_receive_all_step one_step 0 1 small_world)
add_receive_steps-AddsReceive_example = add_receive_steps-AddsReceive one_step 0 1 small_world
