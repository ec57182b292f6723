-- ===== src/Examples/Suites.antt =====
-- The whole suite on the machine's three links.
use ccnx_testrig.Prelude.{
  ℕ, ◌+◌, ◌≤◌, ◌≡◌, refl, sym, ◌∙◌, ap, subst, Option, some, List, [], ◌∷◌, length, arith,
}
use ccnx_testrig.Run.{Returns}
use ccnx_testrig.Reporter.{Console}
use ccnx_testrig.Link.{Net, receive_with_timeout, udp_receive, received_buffer}
use ccnx_testrig.Rig.Flush.{Answers, nothing, something}
use ccnx_testrig.Suite.{all_tests, run_all}
use ccnx_testrig.Suite.Completed.{run_all-AllJudged}
use ccnx_testrig.Suite.Judged.{Works, CanFlush, AllJudged}
use ccnx_testrig.Examples.Machine.{
  Message, Queue, desk, waiting, hung_up, desk_buffers, desk_bits, desk_codec,
}
use ccnx_testrig.Examples.Links.{desk_rig}
use ccnx_testrig.Examples.Channels.{
  Queued, desk_after, queued, received_from, all_on_wire, desk_channels,
}
use ccnx_testrig.Examples.Plans.{answered, suite_world}

abbrev all_waiting : List Queue → ℕ
all_waiting [] = 0
all_waiting (waiting ms ∷ qs) = length ms + all_waiting qs
all_waiting (hung_up ∷ qs) = all_waiting qs

abbrev pending : Net ⦃p = desk⦄ → ℕ
pending n = all_waiting n.os

length-all_on_wire : (ms : List Message) → length (all_on_wire ms) ≡ length ms
length-all_on_wire [] = refl
length-all_on_wire (m ∷ ms) = omega (arith, length-all_on_wire ms)

pending-desk_after : (e : Queued) (console : Console) → pending (desk_after e console) ≡ queued e
pending-desk_after (xs, bs, cs) console =
    omega (arith, length-all_on_wire xs, length-all_on_wire bs, length-all_on_wire cs)

abbrev OnDesk : Option ℕ → Net ⦃p = desk⦄ → Type 0
OnDesk at n = Answers ⦃p = desk⦄ (Works desk_channels) pending at n

Answers-a : (e : Queued) (console : Console) → queued e ≤ 9 → OnDesk (some 0) (desk_after e console)
unfolding receive_with_timeout udp_receive received_buffer
Answers-a ([], bs, cs) console few =
    nothing {n' = desk_after ([], bs, cs) console} refl (([], bs, cs), (refl, few)) (omega arith)
Answers-a (m ∷ xs, bs, cs) console few =
    something {n' = desk_after (xs, bs, cs) console} {b = received_from m} refl
      ((xs, bs, cs), (refl, omega arith)) (omega arith)

Answers-b : (e : Queued) (console : Console) → queued e ≤ 9 → OnDesk (some 1) (desk_after e console)
unfolding receive_with_timeout udp_receive received_buffer
Answers-b (xs, [], cs) console few =
    nothing {n' = desk_after (xs, [], cs) console} refl ((xs, [], cs), (refl, few)) (omega arith)
Answers-b (xs, m ∷ bs, cs) console few =
    something {n' = desk_after (xs, bs, cs) console} {b = received_from m} refl
      ((xs, bs, cs), (refl, omega arith)) (omega arith)

Answers-c : (e : Queued) (console : Console) → queued e ≤ 9 → OnDesk (some 2) (desk_after e console)
unfolding receive_with_timeout udp_receive received_buffer
Answers-c (xs, bs, []) console few =
    nothing {n' = desk_after (xs, bs, []) console} refl ((xs, bs, []), (refl, few)) (omega arith)
Answers-c (xs, bs, m ∷ cs) console few =
    something {n' = desk_after (xs, bs, cs) console} {b = received_from m} refl
      ((xs, bs, cs), (refl, omega arith)) (omega arith)

abbrev desk_flush : CanFlush desk_channels 10
desk_flush = record {
  pending = pending;
  bounded = λ n (e, (same, few)). omega (arith, ap pending same ∙ pending-desk_after e n.console);
  on_a = λ n (e, (same, few)). subst (OnDesk (some 0)) (sym same) (Answers-a e n.console few);
  on_b = λ n (e, (same, few)). subst (OnDesk (some 1)) (sym same) (Answers-b e n.console few);
  on_c = λ n (e, (same, few)). subst (OnDesk (some 2)) (sym same) (Answers-c e n.console few);
}

run_all-AllJudged_example :
    Returns
      (λ results w'.
        AllJudged desk_buffers desk_codec desk_channels 10 0 all_tests suite_world results w'
        × Works desk_channels w'.net)
      (run_all desk_rig 10 suite_world)
run_all-AllJudged_example =
    run_all-AllJudged desk_buffers desk_bits desk_codec desk_channels (λ n. omega arith) (λ n. refl)
      10 desk_flush answered suite_world (refl, omega arith)
