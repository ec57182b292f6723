-- ===== src/Suite/Planned.antt =====
-- Each test of forwarding, and with answers on the wrong link or twice, against its plan.
use ccnx_testrig.Prelude.{ℕ, ◌≤◌, ◌≡◌, String, true, [], ◌∷◌, length}
use ccnx_testrig.Platform.{Platform}
use ccnx_testrig.Platform.Laws.{BufferLaws, BitVectorLaws, CodecLaws, add_bit}
use ccnx_testrig.World.{Rig}
use ccnx_testrig.Rig.{link_id_b, link_id_c}
use ccnx_testrig.Rig.Listed.{starts_over}
use ccnx_testrig.Channels.{Channels}
use ccnx_testrig.Script.{empty_script}
use ccnx_testrig.Script.Plan.{perform_all}
use ccnx_testrig.Script.Plan.Built.{
  begin, sent_now, responded_now, sent_before, noted_now, noted_before,
}
use ccnx_testrig.Script.Plan.Leading.{Leads, send_step-Leads, respond_step-Leads}
use ccnx_testrig.Script.Plan.Listening.{
  receive_all_step-Leads, receive_one_step-Leads, receive_none_step-Leads,
}
use ccnx_testrig.Suite.Basic.{
  fib_test_basic_interest_1a_case, fib_test_basic_interest_1b_case, content_object_test_1_case,
  content_object_test_2_case, content_object_test_3_case, content_object_test_4_case,
  content_object_test_5_case, content_object_test_6_case,
}
use ccnx_testrig.Suite.Errors.{
  content_object_test_errors_1_case, content_object_test_errors_2_case,
  content_object_test_errors_3_case,
}
use ccnx_testrig.Suite.Plans.{plan_of}
use ccnx_testrig.Suite.{
  fib_test_basic_interest_1a, fib_test_basic_interest_1b, content_object_test_1,
  content_object_test_2, content_object_test_3, content_object_test_4, content_object_test_5,
  content_object_test_6, content_object_errors_1, content_object_errors_2, content_object_errors_3,
}
use ccnx_testrig.Suite.Leading.{
  link_a, link_b, link_c, one_link, two_links, name-Leads, create-Leads, executed-Leads,
  exchange_one-Leads, exchange_none-Leads,
}

module _ ⦃p : Platform⦄ (buffers : BufferLaws p) (laws : BitVectorLaws p) (codec : CodecLaws p)
    {rig : Rig} (channels : Channels rig) (fits : (n : ℕ) → length (p.next_bytes n) ≤ 16)
    (over : (n : ℕ) → starts_over (p.words_behind n) ≡ true) (name : String) (e : channels.Env)
    (d : ℕ) where
  pub fib_test_basic_interest_1a_case-Leads :
      Leads buffers laws channels
        (perform_all channels (plan_of buffers codec d fib_test_basic_interest_1a) 0 (λ _. []) e)
        begin
        (empty_script name)
        e
        d
        (fib_test_basic_interest_1a_case rig name)
  unfolding fib_test_basic_interest_1a_case empty_script add_bit
  fib_test_basic_interest_1a_case-Leads = name-Leads _ fits (
      create-Leads name _ (
        send_step-Leads _ link_a λ at0.
          receive_one_step-Leads [] _ sent_now (one_link link_b) over λ at1.
            respond_step-Leads _ noted_now λ at2.
              receive_one_step-Leads [] _ responded_now (one_link link_a) over
                λ at3. executed-Leads))

  pub fib_test_basic_interest_1b_case-Leads :
      Leads buffers laws channels
        (perform_all channels (plan_of buffers codec d fib_test_basic_interest_1b) 0 (λ _. []) e)
        begin
        (empty_script name)
        e
        d
        (fib_test_basic_interest_1b_case rig name)
  unfolding fib_test_basic_interest_1b_case empty_script add_bit
  fib_test_basic_interest_1b_case-Leads =
      name-Leads _ fits (create-Leads name _ (exchange_one-Leads over _ _ link_c link_c))

  pub content_object_test_1_case-Leads :
      Leads buffers laws channels
        (perform_all channels (plan_of buffers codec d content_object_test_1) 0 (λ _. []) e)
        begin
        (empty_script name)
        e
        d
        (content_object_test_1_case rig name)
  unfolding content_object_test_1_case empty_script add_bit
  content_object_test_1_case-Leads =
      name-Leads _ fits (create-Leads name _ (exchange_one-Leads over _ _ link_b link_b))

  pub content_object_test_2_case-Leads :
      Leads buffers laws channels
        (perform_all channels (plan_of buffers codec d content_object_test_2) 0 (λ _. []) e)
        begin
        (empty_script name)
        e
        d
        (content_object_test_2_case rig name)
  unfolding content_object_test_2_case empty_script add_bit
  content_object_test_2_case-Leads =
      name-Leads _ fits (create-Leads name _ (exchange_one-Leads over _ _ link_b link_b))

  pub content_object_test_3_case-Leads :
      Leads buffers laws channels
        (perform_all channels (plan_of buffers codec d content_object_test_3) 0 (λ _. []) e)
        begin
        (empty_script name)
        e
        d
        (content_object_test_3_case rig name)
  unfolding content_object_test_3_case empty_script add_bit
  content_object_test_3_case-Leads = name-Leads _ fits (
      create-Leads name _ (
        send_step-Leads _ link_a λ at0.
          receive_one_step-Leads (link_id_c ∷ []) _ sent_now (two_links link_b link_c) over λ at1.
            respond_step-Leads _ noted_now λ at2.
              receive_one_step-Leads [] _ responded_now (one_link link_a) over
                λ at3. executed-Leads))

  pub content_object_test_4_case-Leads :
      Leads buffers laws channels
        (perform_all channels (plan_of buffers codec d content_object_test_4) 0 (λ _. []) e)
        begin
        (empty_script name)
        e
        d
        (content_object_test_4_case rig name)
  unfolding content_object_test_4_case empty_script add_bit
  content_object_test_4_case-Leads = name-Leads _ fits (
      create-Leads name _ (
        send_step-Leads _ link_a λ at0.
          receive_one_step-Leads [] _ sent_now (one_link link_b) over λ at1.
            receive_none_step-Leads [] _ (sent_before sent_now) (one_link link_a) over λ at2.
              respond_step-Leads _ (noted_before noted_now) λ at3.
                receive_one_step-Leads [] _ responded_now (one_link link_a) over
                  λ at4. executed-Leads))

  pub content_object_test_5_case-Leads :
      Leads buffers laws channels
        (perform_all channels (plan_of buffers codec d content_object_test_5) 0 (λ _. []) e)
        begin
        (empty_script name)
        e
        d
        (content_object_test_5_case rig name)
  unfolding content_object_test_5_case empty_script add_bit
  content_object_test_5_case-Leads = name-Leads _ fits (
      create-Leads name _ (
        send_step-Leads _ link_a λ at0. send_step-Leads _ link_b λ at1.
          receive_one_step-Leads [] _ (sent_before sent_now) (one_link link_c) over λ at2.
            receive_none_step-Leads [] _ (sent_before (sent_before sent_now)) (one_link link_c) over
              λ at3. respond_step-Leads _ (noted_before noted_now) λ at4.
                receive_all_step-Leads (link_id_b ∷ []) _ responded_now (two_links link_a link_b)
                  over λ at5. executed-Leads))

  pub content_object_test_6_case-Leads :
      Leads buffers laws channels
        (perform_all channels (plan_of buffers codec d content_object_test_6) 0 (λ _. []) e)
        begin
        (empty_script name)
        e
        d
        (content_object_test_6_case rig name)
  unfolding content_object_test_6_case empty_script add_bit
  content_object_test_6_case-Leads = name-Leads _ fits (
      create-Leads name _ (
        send_step-Leads _ link_a λ at0.
          receive_one_step-Leads [] _ sent_now (one_link link_c) over λ at1.
            send_step-Leads _ link_a λ at2.
              receive_one_step-Leads [] _ (sent_before (sent_before sent_now)) (one_link link_c)
                over
                λ at3. respond_step-Leads _ noted_now λ at4.
                  receive_all_step-Leads [] _ responded_now (one_link link_a) over
                    λ at5. executed-Leads))

  pub content_object_test_errors_1_case-Leads :
      Leads buffers laws channels
        (perform_all channels (plan_of buffers codec d content_object_errors_1) 0 (λ _. []) e)
        begin
        (empty_script name)
        e
        d
        (content_object_test_errors_1_case rig name)
  unfolding content_object_test_errors_1_case empty_script add_bit
  content_object_test_errors_1_case-Leads =
      name-Leads _ fits (create-Leads name _ (exchange_none-Leads over _ _ link_b link_a))

  pub content_object_test_errors_2_case-Leads :
      Leads buffers laws channels
        (perform_all channels (plan_of buffers codec d content_object_errors_2) 0 (λ _. []) e)
        begin
        (empty_script name)
        e
        d
        (content_object_test_errors_2_case rig name)
  unfolding content_object_test_errors_2_case empty_script add_bit
  content_object_test_errors_2_case-Leads =
      name-Leads _ fits (create-Leads name _ (exchange_none-Leads over _ _ link_b link_c))

  pub content_object_test_errors_3_case-Leads :
      Leads buffers laws channels
        (perform_all channels (plan_of buffers codec d content_object_errors_3) 0 (λ _. []) e)
        begin
        (empty_script name)
        e
        d
        (content_object_test_errors_3_case rig name)
  unfolding content_object_test_errors_3_case empty_script add_bit
  content_object_test_errors_3_case-Leads = name-Leads _ fits (
      create-Leads name _ (
        send_step-Leads _ link_a λ at0.
          receive_one_step-Leads [] _ sent_now (one_link link_b) over λ at1.
            send_step-Leads _ link_b λ at2.
              receive_one_step-Leads [] _ sent_now (one_link link_a) over λ at3.
                send_step-Leads _ link_b λ at4.
                  receive_none_step-Leads [] _ sent_now (one_link link_a) over
                    λ at5. executed-Leads))
