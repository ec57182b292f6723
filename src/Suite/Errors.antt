-- ===== src/Suite/Errors.antt =====
-- The tests with content objects that answer on the wrong link, or twice, of
-- src/ccnxTestrig_Suite.c. The result that two of the functions create and never use is left out.
-- Each step takes the script and returns it with the step behind the others; signing a content object
-- returns the signed one.
use ccnx_testrig.Prelude.{String, none, []}
use ccnx_testrig.Run.{Cmd, ◌>>=◌}
use ccnx_testrig.Platform.{Platform}
use ccnx_testrig.TestResult.{TestResult}
use ccnx_testrig.World.{Rig, World}
use ccnx_testrig.Rig.{link_id_a, link_id_b, link_id_c, get_link_vector}
use ccnx_testrig.Script.{create_script, add_send_step, add_receive_one_step, add_receive_none_step}
use ccnx_testrig.Script.Execute.{execute_script}
use ccnx_testrig.Suite.RandomName.{create_random_name}

module _ ⦃p : Platform⦄ (rig : Rig) (test_case_name : String) where
  unfoldable pub content_object_test_errors_1_case : Cmd World TestResult
  content_object_test_errors_1_case = do
    test_name ← create_random_name "ccnx:/test/b"
    let interest = p.create_interest test_name 1000 none none
    let test_payload = p.allocate 1024
    let content = p.create_content_object test_name test_payload
    script0 ← create_script test_case_name
    (step1, script1) ← add_send_step script0 interest link_id_a
    links2 ← get_link_vector rig link_id_b []
    (_, script2) ← add_receive_one_step script1 step1 links2
    (step3, script3) ← add_send_step script2 content link_id_a
    links4 ← get_link_vector rig link_id_a []
    (_, script4) ← add_receive_none_step script3 step3 links4
    execute_script script4 rig

  unfoldable pub content_object_test_errors_2_case : Cmd World TestResult
  content_object_test_errors_2_case = do
    test_name ← create_random_name "ccnx:/test/b"
    let interest = p.create_interest test_name 1000 none none
    let test_payload = p.allocate 1024
    let content = p.create_content_object test_name test_payload
    script0 ← create_script test_case_name
    (step1, script1) ← add_send_step script0 interest link_id_a
    links2 ← get_link_vector rig link_id_b []
    (_, script2) ← add_receive_one_step script1 step1 links2
    (step3, script3) ← add_send_step script2 content link_id_c
    links4 ← get_link_vector rig link_id_a []
    (_, script4) ← add_receive_none_step script3 step3 links4
    execute_script script4 rig

  unfoldable pub content_object_test_errors_3_case : Cmd World TestResult
  content_object_test_errors_3_case = do
    test_name ← create_random_name "ccnx:/test/b"
    let interest = p.create_interest test_name 1000 none none
    let test_payload = p.allocate 1024
    let content = p.create_content_object test_name test_payload
    script0 ← create_script test_case_name
    (step1, script1) ← add_send_step script0 interest link_id_a
    links2 ← get_link_vector rig link_id_b []
    (_, script2) ← add_receive_one_step script1 step1 links2
    (step3, script3) ← add_send_step script2 content link_id_b
    links4 ← get_link_vector rig link_id_a []
    (_, script4) ← add_receive_one_step script3 step3 links4
    (step5, script5) ← add_send_step script4 content link_id_b
    links6 ← get_link_vector rig link_id_a []
    (_, script6) ← add_receive_none_step script5 step5 links6
    execute_script script6 rig
