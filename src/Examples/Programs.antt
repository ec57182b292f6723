-- ===== src/Examples/Programs.antt =====
-- The command line and the suite on the machine.
use ccnx_testrig.Prelude.{
  ℕ, ◌-◌, pos, ◌≤◌, ◌<◌, ◌≡◌, refl, Option, none, some, List, [], ◌∷◌, ◌++◌, get_elem?, arith,
}
use ccnx_testrig.Run.{Run, ok, stop, Stops, exit_failure, out_of_fuel}
use ccnx_testrig.Reporter.{stderr, numbered}
use ccnx_testrig.TestResult.{TestResult}
use ccnx_testrig.World.{World}
use ccnx_testrig.Suite.{SuiteTest, all_tests, run_test, run_all}
use ccnx_testrig.Suite.Results.{ResultOf, ResultsOf, run_test-ResultOf, run_all-ResultsOf}
use ccnx_testrig.Suite.Basic.{
  fib_test_basic_interest_1a_case, fib_test_basic_interest_1b_case, content_object_test_1_case,
  content_object_test_2_case, content_object_test_3_case, content_object_test_4_case,
  content_object_test_5_case, content_object_test_6_case,
}
use ccnx_testrig.Suite.Errors.{
  content_object_test_errors_1_case, content_object_test_errors_2_case,
  content_object_test_errors_3_case,
}
use ccnx_testrig.Suite.Restrictions.{
  content_object_test_restrictions_1_case, content_object_test_restrictions_2_case,
  content_object_test_restrictions_3_case, content_object_test_restrictions_4_case,
}
use ccnx_testrig.Suite.RestrictionErrors.{
  content_object_test_restriction_errors_1_case, content_object_test_restriction_errors_2_case,
  content_object_test_restriction_errors_3_case, content_object_test_restriction_errors_4_case,
  content_object_test_restriction_errors_5_case, content_object_test_restriction_errors_6_case,
}
use ccnx_testrig.Suite.RandomName.{create_random_name}
use ccnx_testrig.TestResult.{
  fresh_result, create_result, settle, set_pass, set_fail, is_failure, log_packet, report_result,
}
use ccnx_testrig.Platform.Laws.{add_bit, first_from}
use ccnx_testrig.Packet.{
  encode_packet, is_valid_packet_pair, valid_interest_pair, compute_message_hash,
}
use ccnx_testrig.Link.{send_buffer, udp_send, receive_with_timeout, udp_receive, received_buffer}
use ccnx_testrig.Rig.{get_link_by_id, get_link_vector, flush_links}
use ccnx_testrig.Heap.{copy_string}
use ccnx_testrig.Script.{
  create_script, empty_script, add_send_step, add_respond_step, add_receive_one_step,
  add_receive_none_step, add_receive_all_step, create_send_step, create_respond_step,
  create_receive_one_step, create_receive_none_step, create_receive_all_step,
}
use ccnx_testrig.Script.Execute.{
  execute_script, execute_step, call_execute, execute_send_step, execute_receive_one_step,
  execute_receive_none_step, execute_receive_all_step, bit_loop, observe_link, receive_bit,
  observe_packet, one_round, one_end, none_round, all_round,
}
use ccnx_testrig.Examples.Machine.{set_in}
use ccnx_testrig.Suite.{run_case, announce_test, report_if_any, run_and_report}
use ccnx_testrig.Main.{parse_command_line_options}
use ccnx_testrig.Main.Answers.{AllOptions}
use ccnx_testrig.Main.CommandLine.{
  Parses, IsStuck, parse_command_line_options-Parses, parse_command_line_options-stuck,
}
use ccnx_testrig.Examples.Machine.{desk, dead_end, waiting}
use ccnx_testrig.Examples.Links.{desk_rig, desk_net, three_links}

-- The machine's command line is as `AllOptions` has it.
desk-AllOptions : AllOptions ⦃p = desk⦄ 3
desk-AllOptions = record {
  left = λ s. 3 - s;
  moves = λ s h. omega arith;
  with_argument = λ s h e. cc;
}

parse_command_line_options-Parses_example :
    (2 ≤ 3 → Parses ⦃p = desk⦄ 3 1 [] (parse_command_line_options ⦃p = desk⦄ 3 3 1 []))
    × (3 < 2 → Stops exit_failure (parse_command_line_options ⦃p = desk⦄ 3 3 1 []))
unfolding desk-AllOptions
parse_command_line_options-Parses_example =
    parse_command_line_options-Parses ⦃p = desk⦄ 3 3 1 [] (λ s. refl) desk-AllOptions (omega arith)

abbrev AtOne : dead_end.Getopt → Type 0
AtOne s = ◌≡◌ {A = ℕ} s 1

dead_end-IsStuck : IsStuck ⦃p = dead_end⦄ 3 AtOne
dead_end-IsStuck = record {
  more = λ s at. omega arith;
  no_option = λ s at. refl;
  stays = λ s at. at;
}

parse_command_line_options-stuck_example :
    Stops out_of_fuel (parse_command_line_options ⦃p = dead_end⦄ 8 3 1 [])
parse_command_line_options-stuck_example =
    parse_command_line_options-stuck ⦃p = dead_end⦄ 3 AtOne dead_end-IsStuck (omega arith) 8 1 []
      refl

-- Three links on which nothing ever comes.
abbrev quiet_world : World ⦃p = desk⦄
quiet_world = record {
  net = desk_net (waiting [] ∷ waiting [] ∷ waiting [] ∷ []) three_links;
  vectors = [];
  steps = [];
  draws = 0;
}

run_test-ResultOf_example :
    ((test : SuiteTest) (result : Option (TestResult ⦃p = desk⦄)) (w' : World ⦃p = desk⦄)
      → get_elem? all_tests 21 ≡ some test
      → run_test desk_rig 21 quiet_world ≡ ok result w'
      → ResultOf desk_rig test result)
    × (get_elem? all_tests 21 ≡ none
        → run_test desk_rig 21 quiet_world
          ≡ ok none (record quiet_world {
            net = record quiet_world.net {
              console = [] ++ (stderr, numbered "Error: unsupported test case: " (pos 21)) ∷ [];
            };
          }))
run_test-ResultOf_example = run_test-ResultOf desk_rig 21 quiet_world

abbrev all_run : Run (World ⦃p = desk⦄) (List (Option (TestResult ⦃p = desk⦄)))
all_run = run_all desk_rig 3 quiet_world

abbrev results_of_run : List (Option (TestResult ⦃p = desk⦄))
results_of_run = elim all_run [ ok results w ↦ results | stop why w ↦ [] ]

abbrev world_of_run : World ⦃p = desk⦄
world_of_run = elim all_run [ ok results w ↦ w | stop why w ↦ w ]

all_run_ok : all_run ≡ ok results_of_run world_of_run
unfolding run_all run_and_report announce_test report_if_any run_test run_case
    fib_test_basic_interest_1a_case fib_test_basic_interest_1b_case content_object_test_1_case
    content_object_test_2_case content_object_test_3_case content_object_test_4_case
    content_object_test_5_case content_object_test_6_case content_object_test_errors_1_case
    content_object_test_errors_2_case content_object_test_errors_3_case
    content_object_test_restrictions_1_case content_object_test_restrictions_2_case
    content_object_test_restrictions_3_case content_object_test_restrictions_4_case
    content_object_test_restriction_errors_1_case content_object_test_restriction_errors_2_case
    content_object_test_restriction_errors_3_case content_object_test_restriction_errors_4_case
    content_object_test_restriction_errors_5_case content_object_test_restriction_errors_6_case
    create_random_name fresh_result create_result copy_string settle set_pass set_fail is_failure
    log_packet report_result add_bit first_from set_in encode_packet is_valid_packet_pair
    valid_interest_pair compute_message_hash send_buffer udp_send receive_with_timeout udp_receive
    received_buffer get_link_by_id get_link_vector flush_links create_script empty_script
    add_send_step add_respond_step add_receive_one_step add_receive_none_step add_receive_all_step
    create_send_step create_respond_step create_receive_one_step create_receive_none_step
    create_receive_all_step execute_script execute_step call_execute execute_send_step
    execute_receive_one_step execute_receive_none_step execute_receive_all_step bit_loop
    observe_link receive_bit observe_packet one_round one_end none_round all_round
all_run_ok = refl

run_all-ResultsOf_example : ResultsOf desk_rig all_tests results_of_run
run_all-ResultsOf_example =
    run_all-ResultsOf desk_rig 3 quiet_world results_of_run world_of_run all_run_ok
