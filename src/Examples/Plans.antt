-- ===== src/Examples/Plans.antt =====
-- Runs of scripts that stand for plans, on the three links of the machine.
use ccnx_testrig.Prelude.{
  ◌⊎◌, ℕ, ◌≡◌, refl, none, some, List, [], ◌∷◌, ◌==◌, if◌then◌else◌, Bool-cases, inl, inr, arith,
}
use ccnx_testrig.Run.{Returns}
use ccnx_testrig.TestResult.{is_failure}
use ccnx_testrig.Suite.{content_object_test_1, run_case}
use ccnx_testrig.Suite.Refined.{is_failed, verdict_of, run_case-MeetsAll, run_case-Returns}
use ccnx_testrig.Platform.Laws.{add_bit}
use ccnx_testrig.World.{World, execute_receive_one}
use ccnx_testrig.Script.Execute.{execute_script}
use ccnx_testrig.Script.Plan.{
  Action, send, receive, on_one, perform, perform_all, passed, receive_on, accepts, agrees,
}
use ccnx_testrig.Script.Plan.Placed.{Owner, AllPlaced, none_placed, placed, IsInjective, Noted}
use ccnx_testrig.Script.Plan.Executing.{MeetsAll, execute_script-MeetsAll}
use ccnx_testrig.Examples.Machine.{desk_codec, desk, desk_buffers, desk_bits, set_in}
use ccnx_testrig.Examples.Scripts.{
  sent_interest, desk_world, exchange, send_step, receive_step, bit,
}
use ccnx_testrig.Examples.Links.{desk_rig}
use ccnx_testrig.Examples.Channels.{Queued, desk_after, IsDesk, desk_channels}

-- The Interest that link A was sent is queued on link B with one hop less.
abbrev forwarded : Queued
forwarded = ([], record sent_interest { hop_limit = 31 } ∷ [], [])

abbrev exchange_world : World ⦃p = desk⦄
exchange_world = record (desk_world execute_receive_one []) { net = desk_after forwarded [] }

abbrev exchange_plan : List (Action ⦃p = desk⦄)
exchange_plan = send 1 sent_interest ∷ receive on_one sent_interest (2 ∷ []) ∷ []

abbrev exchange_owner : Owner
exchange_owner x = if x == 0 then some 0 else if x == 2 then some 1 else none

exchange_owned : (x j : ℕ) → exchange_owner x ≡ some j → ((x ≡ 0) × (j ≡ 0)) ⊎ ((x ≡ 2) × (j ≡ 1))
exchange_owned x j owned = elim (Bool-cases (x == 0)) [
  | inl zeroth ↦ inl (ground arith)
  | inr above ↦ elim (Bool-cases (x == 2)) [
    | inl second ↦ inr (ground arith)
    | inr other ↦ absurd (ground arith)
  ]
]

exchange-IsInjective : IsInjective desk_bits exchange_owner
exchange-IsInjective x y j owned_x owned_y =
    let x_here = exchange_owned x j owned_x in
    let y_here = exchange_owned y j owned_y in ground arith

exchange-AllPlaced :
    AllPlaced desk_bits exchange_owner exchange_world 0 exchange_plan exchange.steps
unfolding set_in add_bit
exchange-AllPlaced =
    placed
      (record {
        step = send_step;
        found = refl;
        owned = refl;
        does = (refl, refl, refl, (bit 1, refl, refl), (omega arith, omega arith));
      })
      (placed
        (record {
          step = receive_step execute_receive_one;
          found = refl;
          owned = refl;
          does = (
            refl,
            (0, send_step, refl, refl, refl),
            refl,
            (bit 2, refl, refl),
            ((omega arith, omega arith), tt),
          );
        })
        none_placed)

exchange-Noted : Noted desk_bits exchange_owner (λ _. []) exchange_world
exchange-Noted x j owned = elim (exchange_owned x j owned) [
  | inl (here, _) ↦ rw here ((desk.create_vector, refl, refl), tt)
  | inr (here, _) ↦ rw here ((desk.create_vector, refl, refl), tt)
]

execute_script-MeetsAll_example :
    MeetsAll desk_channels
      (perform_all desk_channels exchange_plan 0 (λ _. []) forwarded)
      (execute_script exchange desk_rig exchange_world)
execute_script-MeetsAll_example =
    execute_script-MeetsAll desk_buffers desk_bits desk_channels exchange_owner exchange-IsInjective
      exchange exchange_plan forwarded exchange_world exchange-AllPlaced exchange-Noted
      (refl, omega arith)

-- The Interest and the content object of the first tests, queued where a forwarder brings them.
abbrev pub answered : Queued
answered = (
  record { kind = 1; hop_limit = 0; lifetime = 0; message_name = 1 } ∷ [],
  record { kind = 0; hop_limit = 31; lifetime = 1000; message_name = 1 } ∷ [],
  [],
)

abbrev pub suite_world : World ⦃p = desk⦄
suite_world = record { net = desk_after answered []; vectors = []; steps = []; draws = 0 }

-- The first plan passes and takes both messages.
answered_passes :
    verdict_of desk_buffers desk_codec desk_channels 0 content_object_test_1 answered
    ≡ passed ([], [], [])
unfolding perform_all perform receive_on accepts agrees
answered_passes = refl

run_case-MeetsAll_example :
    MeetsAll desk_channels
      (verdict_of desk_buffers desk_codec desk_channels 0 content_object_test_1 answered)
      (run_case desk_rig content_object_test_1 suite_world)
run_case-MeetsAll_example =
    run_case-MeetsAll desk_buffers desk_bits desk_codec desk_channels (λ n. omega arith) (λ n. refl)
      content_object_test_1 answered suite_world (refl, omega arith)

run_case-Returns_example :
    Returns
      (λ r w'.
        (is_failure r
          ≡ is_failed desk_channels
              (verdict_of desk_buffers desk_codec desk_channels 0 content_object_test_1 answered))
        × ((e' : Queued) × IsDesk e' w'.net))
      (run_case desk_rig content_object_test_1 suite_world)
run_case-Returns_example =
    run_case-Returns desk_buffers desk_bits desk_codec desk_channels (λ n. omega arith) (λ n. refl)
      content_object_test_1 answered suite_world (refl, omega arith)
