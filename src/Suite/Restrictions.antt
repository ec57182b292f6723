-- ===== src/Suite/Restrictions.antt =====
-- The tests with matching restrictions of src/ccnxTestrig_Suite.c.
-- Each step takes the script and returns it with the step behind the others; signing a content object
-- returns the signed one.
use ccnx_testrig.Prelude.{String, none, some, []}
use ccnx_testrig.Run.{Cmd, ◌>>=◌}
use ccnx_testrig.Platform.{Platform}
use ccnx_testrig.TestResult.{TestResult}
use ccnx_testrig.Packet.{compute_message_hash}
use ccnx_testrig.World.{Rig, World}
use ccnx_testrig.Rig.{link_id_a, link_id_b, get_link_vector}
use ccnx_testrig.Script.{create_script, add_send_step, add_receive_one_step}
use ccnx_testrig.Script.Execute.{execute_script}
use ccnx_testrig.Suite.RandomName.{create_random_name}

module _ ⦃p : Platform⦄ (rig : Rig) (test_case_name : String) where
  unfoldable pub content_object_test_restrictions_1_case : Cmd World TestResult
  content_object_test_restrictions_1_case = do
    test_name ← create_random_name "ccnx:/test/b"
    let test_payload = p.allocate 1024
    let content = p.create_content_object test_name test_payload
    hash ← compute_message_hash content
    let interest = p.create_interest test_name 1000 none (some hash)
    script0 ← create_script test_case_name
    (step1, script1) ← add_send_step script0 interest link_id_a
    links2 ← get_link_vector rig link_id_b []
    (_, script2) ← add_receive_one_step script1 step1 links2
    (step3, script3) ← add_send_step script2 content link_id_b
    links4 ← get_link_vector rig link_id_a []
    (_, script4) ← add_receive_one_step script3 step3 links4
    execute_script script4 rig

  unfoldable pub content_object_test_restrictions_2_case : Cmd World TestResult
  content_object_test_restrictions_2_case = do
    test_name ← create_random_name "ccnx:/test/b"
    let test_payload = p.allocate 1024
    let content = p.create_content_object test_name test_payload
    let signature_bits = p.allocate 10
    let signature = p.create_signature signature_bits
    let key_id = p.allocate 32
    let locator_name = p.create_name "ccnx:/key/locator"
    let key_locator = p.create_key_locator locator_name
    let signed = p.set_signature content key_id signature key_locator
    let interest = p.create_interest test_name 1000 (some key_id) none
    script0 ← create_script test_case_name
    (step1, script1) ← add_send_step script0 interest link_id_a
    links2 ← get_link_vector rig link_id_b []
    (_, script2) ← add_receive_one_step script1 step1 links2
    (step3, script3) ← add_send_step script2 signed link_id_b
    links4 ← get_link_vector rig link_id_a []
    (_, script4) ← add_receive_one_step script3 step3 links4
    execute_script script4 rig

  unfoldable pub content_object_test_restrictions_3_case : Cmd World TestResult
  content_object_test_restrictions_3_case = do
    test_name ← create_random_name "ccnx:/test/b"
    let test_payload = p.allocate 1024
    let content = p.create_content_object test_name test_payload
    let signature_bits = p.allocate 10
    let signature = p.create_signature signature_bits
    let key_id = p.allocate 32
    let locator_name = p.create_name "ccnx:/key/locator"
    let key_locator = p.create_key_locator locator_name
    let signed = p.set_signature content key_id signature key_locator
    hash ← compute_message_hash signed
    let interest = p.create_interest test_name 1000 (some key_id) (some hash)
    script0 ← create_script test_case_name
    (step1, script1) ← add_send_step script0 interest link_id_a
    links2 ← get_link_vector rig link_id_b []
    (_, script2) ← add_receive_one_step script1 step1 links2
    (step3, script3) ← add_send_step script2 signed link_id_b
    links4 ← get_link_vector rig link_id_a []
    (_, script4) ← add_receive_one_step script3 step3 links4
    execute_script script4 rig

  unfoldable pub content_object_test_restrictions_4_case : Cmd World TestResult
  content_object_test_restrictions_4_case = do
    test_name ← create_random_name "ccnx:/test/b"
    let test_payload = p.allocate 1024
    let content = p.create_nameless_object test_payload
    hash ← compute_message_hash content
    let interest = p.create_interest test_name 1000 none (some hash)
    script0 ← create_script test_case_name
    (step1, script1) ← add_send_step script0 interest link_id_a
    links2 ← get_link_vector rig link_id_b []
    (_, script2) ← add_receive_one_step script1 step1 links2
    (step3, script3) ← add_send_step script2 content link_id_b
    links4 ← get_link_vector rig link_id_a []
    (_, script4) ← add_receive_one_step script3 step3 links4
    execute_script script4 rig
