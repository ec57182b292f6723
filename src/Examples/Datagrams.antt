-- ===== src/Examples/Datagrams.antt =====
-- The machine's sockets as carriers of datagrams.
use ccnx_testrig.Prelude.{
  arith, ℕ, ℤ, pos, ◌≡◌, refl, sym, ap, subst, Option, List, [], ◌∷◌, ◌==◌, if◌then◌else◌,
}
use ccnx_testrig.Run.{Returns}
use ccnx_testrig.Platform.{SocketAddress}
use ccnx_testrig.TestResult.{is_failure}
use ccnx_testrig.Channels.{Takes, each_link}
use ccnx_testrig.Rig.{get_link_by_id}
use ccnx_testrig.Channels.Datagrams.{Yields, times_out, delivers, Datagrams}
use ccnx_testrig.Channels.Udp.{UdpAt, AllUdp, UdpHolds, udp_channels, receive_with_timeout-Takes}
use ccnx_testrig.Suite.{content_object_test_1, run_case}
use ccnx_testrig.Suite.Refined.{is_failed, verdict_of}
use ccnx_testrig.Suite.OverUdp.{run_case-UdpHolds}
use ccnx_testrig.Examples.Machine.{
  message_of, Queue, desk, waiting, desk_buffers, desk_bits, desk_codec,
}
use ccnx_testrig.Link.{Link, udp}
use ccnx_testrig.Link.Ready.{Listens}
use ccnx_testrig.Main.{next_port, open_rig}
use ccnx_testrig.Main.OverUdp.{socket_of, open_rig-AllUdp}
use ccnx_testrig.Examples.Links.{desk_rig, desk_options, udp_link, three_links}
use ccnx_testrig.Examples.Channels.{Queued, desk_after, on_wire, all_on_wire, take_from}
use ccnx_testrig.Examples.Plans.{answered, suite_world}

abbrev queues : Queued → List Queue
queues (xs, bs, cs) =
    waiting (all_on_wire xs) ∷ waiting (all_on_wire bs) ∷ waiting (all_on_wire cs) ∷ []

abbrev IsQueued : Queued → List Queue → Type 0
IsQueued e os = os ≡ queues e

abbrev desk_socket : ℕ → ℤ
desk_socket i = if i == 1 then pos 0 else if i == 2 then pos 1 else pos 2

module _ (timeout : ℤ) (address : Option SocketAddress) (size : ℕ) where
  abbrev YieldsAt : ℕ → Queued → Type 0
  YieldsAt i e =
      Yields ⦃p = desk⦄ IsQueued (desk_socket i) timeout address size (queues e) (take_from i e)

  Yields-a : (e : Queued) → YieldsAt 1 e
  Yields-a ([], bs, cs) = times_out (queues ([], bs, cs)) refl refl
  Yields-a (m ∷ xs, bs, cs) =
      delivers (pos 1) (queues (m ∷ xs, bs, cs)) 4 (on_wire m) address size (queues (xs, bs, cs))
        refl refl refl (λ b e. ap message_of e) refl

  Yields-b : (e : Queued) → YieldsAt 2 e
  Yields-b (xs, [], cs) = times_out (queues (xs, [], cs)) refl refl
  Yields-b (xs, m ∷ bs, cs) =
      delivers (pos 1) (queues (xs, m ∷ bs, cs)) 4 (on_wire m) address size (queues (xs, bs, cs))
        refl refl refl (λ b e. ap message_of e) refl

  Yields-c : (e : Queued) → YieldsAt 3 e
  Yields-c (xs, bs, []) = times_out (queues (xs, bs, [])) refl refl
  Yields-c (xs, bs, m ∷ cs) =
      delivers (pos 1) (queues (xs, bs, m ∷ cs)) 4 (on_wire m) address size (queues (xs, bs, cs))
        refl refl refl (λ b e. ap message_of e) refl

abbrev desk_datagrams : Datagrams ⦃p = desk⦄ desk_socket
desk_datagrams = record {
  Env = Queued;
  Carried = IsQueued;
  arrive = take_from;
  leave = λ i m e. e;
  arrives = λ i timeout address size e os link same.
      subst
        (λ os. Yields ⦃p = desk⦄ IsQueued (desk_socket i) timeout address size os (take_from i e))
        (sym same)
        (each_link (λ i. YieldsAt timeout address size i e) (Yields-a timeout address size e)
          (Yields-b timeout address size e) (Yields-c timeout address size e) i link);
  leaves = λ i m address size e os link same. same;
}

AllUdp-desk : AllUdp desk_socket desk_rig three_links
unfolding get_link_by_id
AllUdp-desk =
    each_link (λ i. UdpAt three_links (get_link_by_id desk_rig i) (desk_socket i))
      (record {
        pointer = 0;
        link = udp_link (pos 0);
        points = refl;
        stored = refl;
        receives = refl;
        sends = refl;
        on_socket = refl;
      })
      (record {
        pointer = 1;
        link = udp_link (pos 1);
        points = refl;
        stored = refl;
        receives = refl;
        sends = refl;
        on_socket = refl;
      })
      (record {
        pointer = 2;
        link = udp_link (pos 2);
        points = refl;
        stored = refl;
        receives = refl;
        sends = refl;
        on_socket = refl;
      })

run_case-UdpHolds_example :
    Returns
      (λ r w'.
        (is_failure r
          ≡ is_failed (udp_channels desk_socket desk_datagrams desk_rig desk_buffers (λ s. refl)) (
              verdict_of desk_buffers desk_codec
                (udp_channels desk_socket desk_datagrams desk_rig desk_buffers (λ s. refl))
                0
                content_object_test_1
                answered))
        × ((e' : Queued) × UdpHolds desk_socket desk_datagrams desk_rig e' w'.net))
      (run_case desk_rig content_object_test_1 suite_world)
run_case-UdpHolds_example =
    run_case-UdpHolds desk_buffers desk_bits desk_codec (λ n. omega arith) (λ n. refl) desk_socket
      desk_datagrams desk_rig (λ s. refl) content_object_test_1 answered suite_world
      (refl, AllUdp-desk)

open_rig-AllUdp_example :
    Returns
      (λ rig w'.
        (link_a : Link) × (link_b : Link) × (link_c : Link) × (os1 : desk.Os) × (os2 : desk.Os)
        × Listens udp 9596 suite_world.net.os link_a os1
        × Listens udp (next_port 9596) os1 link_b os2
        × Listens udp (next_port (next_port 9596)) os2 link_c w'.net.os
        × AllUdp (socket_of link_a link_b link_c) rig w'.net.links)
      (open_rig desk_options suite_world)
open_rig-AllUdp_example = open_rig-AllUdp desk_options "localhost" suite_world refl refl

receive_with_timeout-Takes_example :
    Takes ⦃p = desk⦄
      (UdpHolds desk_socket desk_datagrams desk_rig)
      desk_rig
      2
      (desk_after answered [])
      (take_from 2 answered)
receive_with_timeout-Takes_example =
    receive_with_timeout-Takes desk_socket desk_datagrams desk_rig desk_buffers 2 answered
      (desk_after answered []) (omega arith, omega arith) (refl, AllUdp-desk)
