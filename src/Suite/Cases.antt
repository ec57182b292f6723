-- ===== src/Suite/Cases.antt =====
-- The result of each test of the suite, whatever happens on the links: the script that a test builds
-- carries the name that the test was given.
use ccnx_testrig.Prelude.{ℕ, ◌≡◌, sym, subst, String, List, Bool-cases, inl, inr}
use ccnx_testrig.Heap.{copy_string}
use ccnx_testrig.Run.{Cmd, ok, and_then-eq-ok, ◌>>=◌}
use ccnx_testrig.Platform.{Platform}
use ccnx_testrig.World.{Rig, World, VectorPointer, StepPointer}
use ccnx_testrig.Script.{
  Script, create_script, empty_script, append_step, add_send_step, add_respond_step,
  add_receive_one_step, add_receive_none_step, add_receive_all_step,
}
use ccnx_testrig.Script.Execute.{execute_script}
use ccnx_testrig.Script.Execute.Ensures.{Ensures, Ensures-after}
use ccnx_testrig.Script.Execute.Keeps.{IsResultOf, execute_script-IsResultOf}
use ccnx_testrig.Suite.Basic.{
  fib_test_basic_interest_1a_case, fib_test_basic_interest_1b_case, content_object_test_1_case,
  content_object_test_2_case, content_object_test_3_case, content_object_test_4_case,
  content_object_test_5_case, content_object_test_6_case,
}
use ccnx_testrig.Suite.Errors.{
  content_object_test_errors_1_case, content_object_test_errors_2_case,
  content_object_test_errors_3_case,
}
use ccnx_testrig.Suite.Restrictions.{
  content_object_test_restrictions_1_case, content_object_test_restrictions_2_case,
  content_object_test_restrictions_3_case, content_object_test_restrictions_4_case,
}
use ccnx_testrig.Suite.RestrictionErrors.{
  content_object_test_restriction_errors_1_case, content_object_test_restriction_errors_2_case,
  content_object_test_restriction_errors_3_case, content_object_test_restriction_errors_4_case,
  content_object_test_restriction_errors_5_case, content_object_test_restriction_errors_6_case,
}
use ccnx_testrig.Suite.RandomName.{create_random_name}
use ccnx_testrig.Packet.{compute_message_hash}
use ccnx_testrig.Rig.{get_link_vector}

module _ ⦃p : Platform⦄ {A : Type 0} {Q : A → Type 0} where
  -- The calls that add a step leave the script with the step behind the others.
  added :
      (m : Cmd World StepPointer) (script : Script) (k : StepPointer × Script → Cmd World A)
      → ((step : StepPointer) → Ensures Q (k (append_step script step)))
      → Ensures Q ((m >>= λ step. ok (append_step script step)) >>= k)
  added m script k f = record {
    ensured = λ w a w' e.
        let (b, w1, e1, e2) = and_then-eq-ok _ k e in
        let (step, w2, e3, e4) = and_then-eq-ok (m w) (λ step. ok (append_step script step)) e1 in
        let same : append_step script step ≡ b = cc in
        (f step).ensured w1 a w' (subst (λ x. k x w1 ≡ ok a w') (sym same) e2);
  }

  send_step-Ensures :
      (script : Script) (packet : p.Packet) (id : ℕ) (k : StepPointer × Script → Cmd World A)
      → ((step : StepPointer) → Ensures Q (k (append_step script step)))
      → Ensures Q (add_send_step script packet id >>= k)
  unfolding add_send_step
  send_step-Ensures script packet id k = added _ script k

  respond_step-Ensures :
      (script : Script) (at : StepPointer) (packet : p.Packet)
      (k : StepPointer × Script → Cmd World A)
      → ((step : StepPointer) → Ensures Q (k (append_step script step)))
      → Ensures Q (add_respond_step script at packet >>= k)
  unfolding add_respond_step
  respond_step-Ensures script at packet k = added _ script k

  receive_one_step-Ensures :
      (script : Script) (at : StepPointer) (v : VectorPointer)
      (k : StepPointer × Script → Cmd World A)
      → ((step : StepPointer) → Ensures Q (k (append_step script step)))
      → Ensures Q (add_receive_one_step script at v >>= k)
  unfolding add_receive_one_step
  receive_one_step-Ensures script at v k = added _ script k

  receive_none_step-Ensures :
      (script : Script) (at : StepPointer) (v : VectorPointer)
      (k : StepPointer × Script → Cmd World A)
      → ((step : StepPointer) → Ensures Q (k (append_step script step)))
      → Ensures Q (add_receive_none_step script at v >>= k)
  unfolding add_receive_none_step
  receive_none_step-Ensures script at v k = added _ script k

  receive_all_step-Ensures :
      (script : Script) (at : StepPointer) (v : VectorPointer)
      (k : StepPointer × Script → Cmd World A)
      → ((step : StepPointer) → Ensures Q (k (append_step script step)))
      → Ensures Q (add_receive_all_step script at v >>= k)
  unfolding add_receive_all_step
  receive_all_step-Ensures script at v k = added _ script k

  vector-Ensures :
      (rig : Rig) (id : ℕ) (ids : List ℕ) (k : VectorPointer → Cmd World A)
      → ((v : VectorPointer) → Ensures Q (k v))
      → Ensures Q (get_link_vector rig id ids >>= k)
  vector-Ensures rig id ids k = Ensures-after _ k

  name-Ensures :
      (prefix : String) (k : p.Name → Cmd World A)
      → ((name : p.Name) → Ensures Q (k name))
      → Ensures Q (create_random_name prefix >>= k)
  name-Ensures prefix k = Ensures-after _ k

  hash-Ensures :
      (packet : p.Packet) (k : p.Buffer → Cmd World A)
      → ((hash : p.Buffer) → Ensures Q (k hash))
      → Ensures Q (compute_message_hash packet >>= k)
  hash-Ensures packet k = Ensures-after _ k

  create-Ensures :
      (name : String) (k : Script → Cmd World A)
      → Ensures Q (k (empty_script name))
      → Ensures Q (create_script name >>= k)
  unfolding create_script copy_string
  create-Ensures name k f = elim (Bool-cases (p.has_spare_byte name)) [
    | inl spare ↦ rw spare f
    | inr over ↦ rw over (record { ensured = λ w a w' e. absurd (cc) })
  ]

module _ ⦃p : Platform⦄ where
  executed :
      (script : Script) (rig : Rig)
      → Ensures (IsResultOf script.test_case) (execute_script script rig)
  executed script rig = record {
    ensured = λ w r w' e. execute_script-IsResultOf script rig r w w' e;
  }

ruleset building = (
  send_step-Ensures, respond_step-Ensures, receive_one_step-Ensures, receive_none_step-Ensures,
  receive_all_step-Ensures, vector-Ensures, name-Ensures, hash-Ensures, create-Ensures, executed,
)

module _ ⦃p : Platform⦄ (rig : Rig) (name : String) where
  pub fib_test_basic_interest_1a_case-IsResultOf :
      Ensures (IsResultOf name) (fib_test_basic_interest_1a_case rig name)
  unfolding fib_test_basic_interest_1a_case empty_script
  fib_test_basic_interest_1a_case-IsResultOf = search building depth 16

  pub fib_test_basic_interest_1b_case-IsResultOf :
      Ensures (IsResultOf name) (fib_test_basic_interest_1b_case rig name)
  unfolding fib_test_basic_interest_1b_case empty_script
  fib_test_basic_interest_1b_case-IsResultOf = search building depth 16

  pub content_object_test_1_case-IsResultOf :
      Ensures (IsResultOf name) (content_object_test_1_case rig name)
  unfolding content_object_test_1_case empty_script
  content_object_test_1_case-IsResultOf = search building depth 16

  pub content_object_test_2_case-IsResultOf :
      Ensures (IsResultOf name) (content_object_test_2_case rig name)
  unfolding content_object_test_2_case empty_script
  content_object_test_2_case-IsResultOf = search building depth 16

  pub content_object_test_3_case-IsResultOf :
      Ensures (IsResultOf name) (content_object_test_3_case rig name)
  unfolding content_object_test_3_case empty_script
  content_object_test_3_case-IsResultOf = search building depth 16

  pub content_object_test_4_case-IsResultOf :
      Ensures (IsResultOf name) (content_object_test_4_case rig name)
  unfolding content_object_test_4_case empty_script
  content_object_test_4_case-IsResultOf = search building depth 16

  pub content_object_test_5_case-IsResultOf :
      Ensures (IsResultOf name) (content_object_test_5_case rig name)
  unfolding content_object_test_5_case empty_script
  content_object_test_5_case-IsResultOf = search building depth 16

  pub content_object_test_6_case-IsResultOf :
      Ensures (IsResultOf name) (content_object_test_6_case rig name)
  unfolding content_object_test_6_case empty_script
  content_object_test_6_case-IsResultOf = search building depth 16

  pub content_object_test_errors_1_case-IsResultOf :
      Ensures (IsResultOf name) (content_object_test_errors_1_case rig name)
  unfolding content_object_test_errors_1_case empty_script
  content_object_test_errors_1_case-IsResultOf = search building depth 16

  pub content_object_test_errors_2_case-IsResultOf :
      Ensures (IsResultOf name) (content_object_test_errors_2_case rig name)
  unfolding content_object_test_errors_2_case empty_script
  content_object_test_errors_2_case-IsResultOf = search building depth 16

  pub content_object_test_errors_3_case-IsResultOf :
      Ensures (IsResultOf name) (content_object_test_errors_3_case rig name)
  unfolding content_object_test_errors_3_case empty_script
  content_object_test_errors_3_case-IsResultOf = search building depth 16

  pub content_object_test_restrictions_1_case-IsResultOf :
      Ensures (IsResultOf name) (content_object_test_restrictions_1_case rig name)
  unfolding content_object_test_restrictions_1_case empty_script
  content_object_test_restrictions_1_case-IsResultOf = search building depth 16

  pub content_object_test_restrictions_2_case-IsResultOf :
      Ensures (IsResultOf name) (content_object_test_restrictions_2_case rig name)
  unfolding content_object_test_restrictions_2_case empty_script
  content_object_test_restrictions_2_case-IsResultOf = search building depth 16

  pub content_object_test_restrictions_3_case-IsResultOf :
      Ensures (IsResultOf name) (content_object_test_restrictions_3_case rig name)
  unfolding content_object_test_restrictions_3_case empty_script
  content_object_test_restrictions_3_case-IsResultOf = search building depth 16

  pub content_object_test_restrictions_4_case-IsResultOf :
      Ensures (IsResultOf name) (content_object_test_restrictions_4_case rig name)
  unfolding content_object_test_restrictions_4_case empty_script
  content_object_test_restrictions_4_case-IsResultOf = search building depth 16

  pub content_object_test_restriction_errors_1_case-IsResultOf :
      Ensures (IsResultOf name) (content_object_test_restriction_errors_1_case rig name)
  unfolding content_object_test_restriction_errors_1_case empty_script
  content_object_test_restriction_errors_1_case-IsResultOf = search building depth 16

  pub content_object_test_restriction_errors_2_case-IsResultOf :
      Ensures (IsResultOf name) (content_object_test_restriction_errors_2_case rig name)
  unfolding content_object_test_restriction_errors_2_case empty_script
  content_object_test_restriction_errors_2_case-IsResultOf = search building depth 16

  pub content_object_test_restriction_errors_3_case-IsResultOf :
      Ensures (IsResultOf name) (content_object_test_restriction_errors_3_case rig name)
  unfolding content_object_test_restriction_errors_3_case empty_script
  content_object_test_restriction_errors_3_case-IsResultOf = search building depth 16

  pub content_object_test_restriction_errors_4_case-IsResultOf :
      Ensures (IsResultOf name) (content_object_test_restriction_errors_4_case rig name)
  unfolding content_object_test_restriction_errors_4_case empty_script
  content_object_test_restriction_errors_4_case-IsResultOf = search building depth 16

  pub content_object_test_restriction_errors_5_case-IsResultOf :
      Ensures (IsResultOf name) (content_object_test_restriction_errors_5_case rig name)
  unfolding content_object_test_restriction_errors_5_case empty_script
  content_object_test_restriction_errors_5_case-IsResultOf = search building depth 16

  pub content_object_test_restriction_errors_6_case-IsResultOf :
      Ensures (IsResultOf name) (content_object_test_restriction_errors_6_case rig name)
  unfolding content_object_test_restriction_errors_6_case empty_script
  content_object_test_restriction_errors_6_case-IsResultOf = search building depth 16
