-- ===== src/Suite/Basic.antt =====
-- The tests of forwarding interests and content objects of src/ccnxTestrig_Suite.c.
-- Each step takes the script and returns it with the step behind the others; signing a content object
-- returns the signed one.
use ccnx_testrig.Prelude.{String, none, [], ◌∷◌}
use ccnx_testrig.Run.{Cmd, ◌>>=◌}
use ccnx_testrig.Platform.{Platform}
use ccnx_testrig.TestResult.{TestResult}
use ccnx_testrig.World.{Rig, World}
use ccnx_testrig.Rig.{link_id_a, link_id_b, link_id_c, get_link_vector}
use ccnx_testrig.Script.{
  create_script, add_send_step, add_respond_step, add_receive_one_step, add_receive_none_step,
  add_receive_all_step,
}
use ccnx_testrig.Script.Execute.{execute_script}
use ccnx_testrig.Suite.RandomName.{create_random_name}

module _ ⦃p : Platform⦄ (rig : Rig) (test_case_name : String) where
  unfoldable pub fib_test_basic_interest_1a_case : Cmd World TestResult
  fib_test_basic_interest_1a_case = do
    test_name ← create_random_name "ccnx:/test/b"
    let interest = p.create_interest test_name 1000 none none
    let test_payload = p.allocate 1024
    let content = p.create_content_object test_name test_payload
    script0 ← create_script test_case_name
    (step1, script1) ← add_send_step script0 interest link_id_a
    links2 ← get_link_vector rig link_id_b []
    (step2, script2) ← add_receive_one_step script1 step1 links2
    (step3, script3) ← add_respond_step script2 step2 content
    links4 ← get_link_vector rig link_id_a []
    (_, script4) ← add_receive_one_step script3 step3 links4
    execute_script script4 rig

  unfoldable pub fib_test_basic_interest_1b_case : Cmd World TestResult
  fib_test_basic_interest_1b_case = do
    test_name ← create_random_name "ccnx:/test/c"
    let interest = p.create_interest test_name 1000 none none
    let test_payload = p.allocate 1024
    let content = p.create_content_object test_name test_payload
    script0 ← create_script test_case_name
    (step1, script1) ← add_send_step script0 interest link_id_a
    links2 ← get_link_vector rig link_id_c []
    (_, script2) ← add_receive_one_step script1 step1 links2
    (step3, script3) ← add_send_step script2 content link_id_c
    links4 ← get_link_vector rig link_id_a []
    (_, script4) ← add_receive_one_step script3 step3 links4
    execute_script script4 rig

  unfoldable pub content_object_test_1_case : Cmd World TestResult
  content_object_test_1_case = do
    test_name ← create_random_name "ccnx:/test/b"
    let interest = p.create_interest test_name 1000 none none
    let test_payload = p.allocate 1024
    let content = p.create_content_object test_name test_payload
    script0 ← create_script test_case_name
    (step1, script1) ← add_send_step script0 interest link_id_a
    links2 ← get_link_vector rig link_id_b []
    (_, script2) ← add_receive_one_step script1 step1 links2
    (step3, script3) ← add_send_step script2 content link_id_b
    links4 ← get_link_vector rig link_id_a []
    (_, script4) ← add_receive_one_step script3 step3 links4
    execute_script script4 rig

  unfoldable pub content_object_test_2_case : Cmd World TestResult
  content_object_test_2_case = do
    test_name ← create_random_name "ccnx:/test/b"
    let interest = p.create_interest test_name 1000 none none
    let test_payload = p.allocate 1024
    let manifest = p.create_manifest test_name
    script0 ← create_script test_case_name
    (step1, script1) ← add_send_step script0 interest link_id_a
    links2 ← get_link_vector rig link_id_b []
    (_, script2) ← add_receive_one_step script1 step1 links2
    (step3, script3) ← add_send_step script2 manifest link_id_b
    links4 ← get_link_vector rig link_id_a []
    (_, script4) ← add_receive_one_step script3 step3 links4
    execute_script script4 rig

  unfoldable pub content_object_test_3_case : Cmd World TestResult
  content_object_test_3_case = do
    test_name ← create_random_name "ccnx:/test/bc"
    let interest = p.create_interest test_name 1000 none none
    let test_payload = p.allocate 1024
    let content = p.create_content_object test_name test_payload
    script0 ← create_script test_case_name
    (step1, script1) ← add_send_step script0 interest link_id_a
    links2 ← get_link_vector rig link_id_b (link_id_c ∷ [])
    (step2, script2) ← add_receive_one_step script1 step1 links2
    (step3, script3) ← add_respond_step script2 step2 content
    links4 ← get_link_vector rig link_id_a []
    (_, script4) ← add_receive_one_step script3 step3 links4
    execute_script script4 rig

  unfoldable pub content_object_test_4_case : Cmd World TestResult
  content_object_test_4_case = do
    test_name ← create_random_name "ccnx:/test/ab"
    let interest = p.create_interest test_name 1000 none none
    let test_payload = p.allocate 1024
    let content = p.create_content_object test_name test_payload
    script0 ← create_script test_case_name
    (step1, script1) ← add_send_step script0 interest link_id_a
    links2 ← get_link_vector rig link_id_b []
    (step2a, script2) ← add_receive_one_step script1 step1 links2
    links3 ← get_link_vector rig link_id_a []
    (_, script3) ← add_receive_none_step script2 step1 links3
    (step3, script4) ← add_respond_step script3 step2a content
    links5 ← get_link_vector rig link_id_a []
    (_, script5) ← add_receive_one_step script4 step3 links5
    execute_script script5 rig

  unfoldable pub content_object_test_5_case : Cmd World TestResult
  content_object_test_5_case = do
    test_name ← create_random_name "ccnx:/test/c"
    let interest = p.create_interest test_name 1000 none none
    let test_payload = p.allocate 1024
    let content = p.create_content_object test_name test_payload
    script0 ← create_script test_case_name
    (step1a, script1) ← add_send_step script0 interest link_id_a
    (_, script2) ← add_send_step script1 interest link_id_b
    links3 ← get_link_vector rig link_id_c []
    (step2a, script3) ← add_receive_one_step script2 step1a links3
    links4 ← get_link_vector rig link_id_c []
    (_, script4) ← add_receive_none_step script3 step1a links4
    (step3, script5) ← add_respond_step script4 step2a content
    links6 ← get_link_vector rig link_id_a (link_id_b ∷ [])
    (_, script6) ← add_receive_all_step script5 step3 links6
    execute_script script6 rig

  unfoldable pub content_object_test_6_case : Cmd World TestResult
  content_object_test_6_case = do
    test_name ← create_random_name "ccnx:/test/c"
    let interest = p.create_interest test_name 1000 none none
    let test_payload = p.allocate 1024
    let content = p.create_content_object test_name test_payload
    script0 ← create_script test_case_name
    (step1a, script1) ← add_send_step script0 interest link_id_a
    links2 ← get_link_vector rig link_id_c []
    (_, script2) ← add_receive_one_step script1 step1a links2
    (_, script3) ← add_send_step script2 interest link_id_a
    links4 ← get_link_vector rig link_id_c []
    (step2b, script4) ← add_receive_one_step script3 step1a links4
    (step3, script5) ← add_respond_step script4 step2b content
    links6 ← get_link_vector rig link_id_a []
    (_, script6) ← add_receive_all_step script5 step3 links6
    execute_script script6 rig
