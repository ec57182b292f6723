-- ===== src/Suite/Restricted.antt =====
-- Each test with restrictions against its plan.
use ccnx_testrig.Prelude.{ℕ, ◌≤◌, ◌≡◌, String, true, [], length}
use ccnx_testrig.Platform.{Platform}
use ccnx_testrig.Platform.Laws.{BufferLaws, BitVectorLaws, CodecLaws, add_bit}
use ccnx_testrig.World.{Rig}
use ccnx_testrig.Rig.Listed.{starts_over}
use ccnx_testrig.Channels.{Channels}
use ccnx_testrig.Script.{empty_script}
use ccnx_testrig.Script.Plan.{perform_all}
use ccnx_testrig.Script.Plan.Built.{begin}
use ccnx_testrig.Script.Plan.Leading.{Leads}
use ccnx_testrig.Suite.Restrictions.{
  content_object_test_restrictions_1_case, content_object_test_restrictions_2_case,
  content_object_test_restrictions_3_case, content_object_test_restrictions_4_case,
}
use ccnx_testrig.Suite.RestrictionErrors.{
  content_object_test_restriction_errors_1_case, content_object_test_restriction_errors_2_case,
  content_object_test_restriction_errors_3_case, content_object_test_restriction_errors_4_case,
  content_object_test_restriction_errors_5_case, content_object_test_restriction_errors_6_case,
}
use ccnx_testrig.Suite.Plans.{plan_of}
use ccnx_testrig.Suite.{
  content_object_restrictions_1, content_object_restrictions_2, content_object_restrictions_3,
  content_object_restrictions_4, content_object_restriction_errors_1,
  content_object_restriction_errors_2, content_object_restriction_errors_3,
  content_object_restriction_errors_4, content_object_restriction_errors_5,
  content_object_restriction_errors_6,
}
use ccnx_testrig.Suite.Leading.{
  link_b, name-Leads, create-Leads, hash-Leads, exchange_one-Leads, exchange_none-Leads,
}

module _ ⦃p : Platform⦄ (buffers : BufferLaws p) (laws : BitVectorLaws p) (codec : CodecLaws p)
    {rig : Rig} (channels : Channels rig) (fits : (n : ℕ) → length (p.next_bytes n) ≤ 16)
    (over : (n : ℕ) → starts_over (p.words_behind n) ≡ true) (name : String) (e : channels.Env)
    (d : ℕ) where
  pub content_object_test_restrictions_1_case-Leads :
      Leads buffers laws channels
        (perform_all channels (plan_of buffers codec d content_object_restrictions_1) 0 (λ _. []) e)
        begin
        (empty_script name)
        e
        d
        (content_object_test_restrictions_1_case rig name)
  unfolding content_object_test_restrictions_1_case empty_script add_bit
  content_object_test_restrictions_1_case-Leads =
      name-Leads _ fits
        (hash-Leads _ codec (create-Leads name _ (exchange_one-Leads over _ _ link_b link_b)))

  pub content_object_test_restrictions_2_case-Leads :
      Leads buffers laws channels
        (perform_all channels (plan_of buffers codec d content_object_restrictions_2) 0 (λ _. []) e)
        begin
        (empty_script name)
        e
        d
        (content_object_test_restrictions_2_case rig name)
  unfolding content_object_test_restrictions_2_case empty_script add_bit
  content_object_test_restrictions_2_case-Leads =
      name-Leads _ fits (create-Leads name _ (exchange_one-Leads over _ _ link_b link_b))

  pub content_object_test_restrictions_3_case-Leads :
      Leads buffers laws channels
        (perform_all channels (plan_of buffers codec d content_object_restrictions_3) 0 (λ _. []) e)
        begin
        (empty_script name)
        e
        d
        (content_object_test_restrictions_3_case rig name)
  unfolding content_object_test_restrictions_3_case empty_script add_bit
  content_object_test_restrictions_3_case-Leads =
      name-Leads _ fits
        (hash-Leads _ codec (create-Leads name _ (exchange_one-Leads over _ _ link_b link_b)))

  pub content_object_test_restrictions_4_case-Leads :
      Leads buffers laws channels
        (perform_all channels (plan_of buffers codec d content_object_restrictions_4) 0 (λ _. []) e)
        begin
        (empty_script name)
        e
        d
        (content_object_test_restrictions_4_case rig name)
  unfolding content_object_test_restrictions_4_case empty_script add_bit
  content_object_test_restrictions_4_case-Leads =
      name-Leads _ fits
        (hash-Leads _ codec (create-Leads name _ (exchange_one-Leads over _ _ link_b link_b)))

  pub content_object_test_restriction_errors_1_case-Leads :
      Leads buffers laws channels
        (perform_all channels
          (plan_of buffers codec d content_object_restriction_errors_1)
          0
          (λ _. [])
          e)
        begin
        (empty_script name)
        e
        d
        (content_object_test_restriction_errors_1_case rig name)
  unfolding content_object_test_restriction_errors_1_case empty_script add_bit
  content_object_test_restriction_errors_1_case-Leads =
      name-Leads _ fits (create-Leads name _ (exchange_none-Leads over _ _ link_b link_b))

  pub content_object_test_restriction_errors_2_case-Leads :
      Leads buffers laws channels
        (perform_all channels
          (plan_of buffers codec d content_object_restriction_errors_2)
          0
          (λ _. [])
          e)
        begin
        (empty_script name)
        e
        d
        (content_object_test_restriction_errors_2_case rig name)
  unfolding content_object_test_restriction_errors_2_case empty_script add_bit
  content_object_test_restriction_errors_2_case-Leads =
      name-Leads _ fits (create-Leads name _ (exchange_none-Leads over _ _ link_b link_b))

  pub content_object_test_restriction_errors_3_case-Leads :
      Leads buffers laws channels
        (perform_all channels
          (plan_of buffers codec d content_object_restriction_errors_3)
          0
          (λ _. [])
          e)
        begin
        (empty_script name)
        e
        d
        (content_object_test_restriction_errors_3_case rig name)
  unfolding content_object_test_restriction_errors_3_case empty_script add_bit
  content_object_test_restriction_errors_3_case-Leads =
      name-Leads _ fits (create-Leads name _ (exchange_none-Leads over _ _ link_b link_b))

  pub content_object_test_restriction_errors_4_case-Leads :
      Leads buffers laws channels
        (perform_all channels
          (plan_of buffers codec d content_object_restriction_errors_4)
          0
          (λ _. [])
          e)
        begin
        (empty_script name)
        e
        d
        (content_object_test_restriction_errors_4_case rig name)
  unfolding content_object_test_restriction_errors_4_case empty_script add_bit
  content_object_test_restriction_errors_4_case-Leads =
      name-Leads _ fits (create-Leads name _ (exchange_none-Leads over _ _ link_b link_b))

  pub content_object_test_restriction_errors_5_case-Leads :
      Leads buffers laws channels
        (perform_all channels
          (plan_of buffers codec d content_object_restriction_errors_5)
          0
          (λ _. [])
          e)
        begin
        (empty_script name)
        e
        d
        (content_object_test_restriction_errors_5_case rig name)
  unfolding content_object_test_restriction_errors_5_case empty_script add_bit
  content_object_test_restriction_errors_5_case-Leads =
      name-Leads _ fits (create-Leads name _ (exchange_none-Leads over _ _ link_b link_b))

  pub content_object_test_restriction_errors_6_case-Leads :
      Leads buffers laws channels
        (perform_all channels
          (plan_of buffers codec d content_object_restriction_errors_6)
          0
          (λ _. [])
          e)
        begin
        (empty_script name)
        e
        d
        (content_object_test_restriction_errors_6_case rig name)
  unfolding content_object_test_restriction_errors_6_case empty_script add_bit
  content_object_test_restriction_errors_6_case-Leads =
      name-Leads _ fits
        (hash-Leads _ codec (create-Leads name _ (exchange_none-Leads over _ _ link_b link_b)))
