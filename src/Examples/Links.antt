-- ===== src/Examples/Links.antt =====
-- Three UDP links on the machine's sockets 0, 1 and 2, and runs of the links' and the rig's code.
use ccnx_testrig.Prelude.{
  ℕ, ℤ, pos, ◌+◌, ◌≡◌, refl, int_eq, true, false, none, some, List, [], ◌∷◌, ◌++◌, length,
  get_elem?, arith,
}
use ccnx_testrig.Packet.{encode_packet}
use ccnx_testrig.Link.Exchange.{encode_packet-receive_with_timeout}
use ccnx_testrig.Run.{ok, Returns, Stops, uninitialised, out_of_fuel}
use ccnx_testrig.Reporter.{create_reporter, stdout}
use ccnx_testrig.Link.{
  Link, Net, udp, tcp, udp_receive_function, tcp_receive_function, udp_send_function,
  tcp_send_function, udp_receive, tcp_receive, receive_with_timeout, send_buffer, received_buffer,
}
use ccnx_testrig.Link.Open.{connect_link, close_link}
use ccnx_testrig.Link.Ready.{
  Listens, Connects, Transport, udp_transport, IsReady, connect_link-Opened, close_link_lem,
}
use ccnx_testrig.Link.Transfer.{
  Delivers, StreamAnswer, datagram_for, is_readable, udp_receive-datagram, tcp_receive-stream,
}
use ccnx_testrig.World.{Rig, World, Options}
use ccnx_testrig.Rig.{get_link_vector, flush_links}
use ccnx_testrig.Rig.Vectors.{elem, before_null, get_link_vector-Adds}
use ccnx_testrig.Rig.Flush.{
  Answers, nothing, something, Drains, AlwaysYields, flush_links-Drains, flush_links-endless,
}
use ccnx_testrig.Main.{open_links, next_port}
use ccnx_testrig.Main.Links.{open_links-IsReady}
use ccnx_testrig.Examples.Machine.{
  Message, Queue, waiting, hung_up, desk, desk_buffers, desk_bits, desk_codec,
}

abbrev pub udp_link : ℤ → Link
udp_link fd = record {
  link_type = some udp;
  receive_function = some udp_receive_function;
  send_function = some udp_send_function;
  port = 9596;
  socket = fd;
  source_address = none;
  host_address = none;
  target_socket = none;
  target_address = none;
  target_address_length = 16;
}

abbrev pub tcp_link : ℤ → Link
tcp_link fd = record (udp_link (pos 9)) {
  link_type = some tcp;
  receive_function = some tcp_receive_function;
  send_function = some tcp_send_function;
  target_socket = some fd;
}

abbrev pub three_links : List Link
three_links = udp_link (pos 0) ∷ udp_link (pos 1) ∷ udp_link (pos 2) ∷ []

abbrev pub desk_net : List Queue → List Link → Net ⦃p = desk⦄
desk_net queues links = record { os = queues; console = []; links = links }

-- An Interest is waiting on socket 1, and nothing on the others.
abbrev pub one_waiting : List Queue
one_waiting = waiting [] ∷ waiting ((0 ∷ 31 ∷ 1000 ∷ 7 ∷ []) ∷ []) ∷ waiting [] ∷ []

abbrev pub desk_rig : Rig
desk_rig = record {
  link_a = some 0;
  link_b = some 1;
  link_c = some 2;
  options = record { link_type = some udp; address = some "localhost"; port = 9596 };
  reporter = create_reporter stdout;
}

abbrev Net1 : Type 0
Net1 = Net ⦃p = desk⦄

abbrev busy : Net1
busy = desk_net one_waiting three_links

connect_link-Opened_example :
    (Transport tcp
      → Returns
          (λ at n'.
            (link : Link) × (at ≡ some (length busy.links))
            × (n'.links ≡ busy.links ++ link ∷ [])
            × IsReady tcp 9596 link
            × (tcp ≡ tcp → link.target_socket ≡ some link.socket)
            × Connects tcp "localhost" 9596 busy.os link n'.os)
          (connect_link tcp "localhost" 9596 busy))
    × (¬ Transport tcp
        → Returns
            (λ at n'. (at ≡ none) × (n'.links ≡ busy.links))
            (connect_link tcp "localhost" 9596 busy))
connect_link-Opened_example = connect_link-Opened tcp "localhost" 9596 busy

close_link_lem_example :
    ((target : ℤ)
      → (udp_link (pos 1)).target_socket ≡ some target
      → Returns
          (λ _ n'.
            (int_eq (pos 1) target ≡ true → n'.os ≡ (desk.close_fd (pos 1) busy.os).1)
            × (int_eq (pos 1) target ≡ false
                → n'.os ≡ (desk.close_fd target (desk.close_fd (pos 1) busy.os).1).1)
            × (n'.links ≡ busy.links))
          (close_link (some 1) busy))
    × ((udp_link (pos 1)).target_socket ≡ none → Stops uninitialised (close_link (some 1) busy))
close_link_lem_example = close_link_lem 1 (udp_link (pos 1)) busy refl

udp_receive-datagram_example :
    Returns
      (Delivers desk_buffers (datagram_for (udp_link (pos 1)) (pos 100) busy) busy)
      (udp_receive (udp_link (pos 1)) (pos 100) busy)
udp_receive-datagram_example = udp_receive-datagram desk_buffers (udp_link (pos 1)) (pos 100) busy

tcp_receive-stream_example :
    (is_readable (pos 1) ≡ false
      → Returns (Delivers desk_buffers none busy) (tcp_receive (tcp_link (pos 1)) (pos 100) busy))
    × (is_readable (pos 1) ≡ true
        → StreamAnswer desk_buffers busy
            (pos 4)
            (0 ∷ 31 ∷ 1000 ∷ 7 ∷ [])
            (tcp_receive (tcp_link (pos 1)) (pos 100) busy))
tcp_receive-stream_example =
    tcp_receive-stream desk_buffers (tcp_link (pos 1)) (pos 100) (pos 1) busy refl

abbrev empty_world : World ⦃p = desk⦄
empty_world = record { net = busy; vectors = []; steps = []; draws = 0 }

get_link_vector-Adds_example :
    Returns
      (λ at w'.
        (v : desk.BitVector) × (at ≡ 0)
        × (w' ≡ record empty_world { vectors = v ∷ [] })
        × ((n : ℕ) → elem n (desk_bits.bits v) ≡ elem n (2 ∷ before_null (2 ∷ 3 ∷ 4 ∷ []))))
      (get_link_vector desk_rig 2 (3 ∷ []) empty_world)
get_link_vector-Adds_example =
    get_link_vector-Adds desk_bits desk_rig 2 (3 ∷ []) empty_world (omega arith) refl

abbrev pub desk_options : Options
desk_options = desk_rig.options

open_links-IsReady_example :
    Returns
      (λ (a, b, c) w'.
        (link_a : Link) × (link_b : Link) × (link_c : Link) × (os1 : desk.Os) × (os2 : desk.Os)
        × (w'.net.links ≡ three_links ++ link_a ∷ link_b ∷ link_c ∷ [])
        × (a ≡ some 3)
        × (b ≡ some (3 + 1))
        × (c ≡ some (3 + 2))
        × IsReady udp 9596 link_a
        × IsReady udp (next_port 9596) link_b
        × IsReady udp (next_port (next_port 9596)) link_c
        × Listens udp 9596 busy.os link_a os1
        × Listens udp (next_port 9596) os1 link_b os2
        × Listens udp (next_port (next_port 9596)) os2 link_c w'.net.os)
      (open_links desk_options empty_world)
open_links-IsReady_example =
    open_links-IsReady desk_options udp "localhost" refl refl udp_transport empty_world

-- What is left when the one datagram has been received.
abbrev idle : Net1
idle = desk_net (waiting [] ∷ waiting [] ∷ waiting [] ∷ []) three_links

data Ready : Net1 → Type 0 where
  busy_ready : Ready busy
  idle_ready : Ready idle

abbrev pending : Net1 → ℕ
pending n = elim (get_elem? n.os 1) [ some (waiting ms) ↦ length ms | _ ↦ 0 ]

on_a : (n : Net1) → Ready n → Answers Ready pending (some 0) n
unfolding receive_with_timeout udp_receive
on_a n busy_ready = nothing {n' = busy} refl busy_ready (omega arith)
on_a n idle_ready = nothing {n' = idle} refl idle_ready (omega arith)

on_b : (n : Net1) → Ready n → Answers Ready pending (some 1) n
unfolding receive_with_timeout udp_receive received_buffer
on_b n busy_ready =
    something {n' = idle} {b = record { room = 4; bytes = 0 ∷ 31 ∷ 1000 ∷ 7 ∷ [] }} refl idle_ready
      (omega arith)
on_b n idle_ready = nothing {n' = idle} refl idle_ready (omega arith)

on_c : (n : Net1) → Ready n → Answers Ready pending (some 2) n
unfolding receive_with_timeout udp_receive
on_c n busy_ready = nothing {n' = busy} refl busy_ready (omega arith)
on_c n idle_ready = nothing {n' = idle} refl idle_ready (omega arith)

flush_links-Drains_example :
    Returns
      (λ _ n'.
        (n1 : Net1) × (n2 : Net1) × Drains (some 0) busy n1
        × Drains (some 1) n1 n2
        × Drains (some 2) n2 n')
      (flush_links 2 desk_rig busy)
flush_links-Drains_example =
    flush_links-Drains Ready pending desk_rig 2 busy on_a on_b on_c busy_ready (omega arith)

-- A TCP link whose peer has closed.
abbrev closed : Net1
closed = desk_net (hung_up ∷ []) (tcp_link (pos 0) ∷ [])

data Closed : Net1 → Type 0 where
  is_closed : Closed closed

Closed-AlwaysYields : AlwaysYields Closed (some 0)
unfolding receive_with_timeout tcp_receive received_buffer
Closed-AlwaysYields n is_closed = (record { room = 0; bytes = [] }, closed, refl, is_closed)

flush_links-endless_example : Stops out_of_fuel (flush_links 5 desk_rig closed)
flush_links-endless_example =
    flush_links-endless desk_rig Closed Closed-AlwaysYields 5 closed is_closed

-- The Interest that waits on socket 1.
abbrev carried : Message
carried = record { kind = 0; hop_limit = 31; lifetime = 1000; message_name = 7 }

encode_packet-receive_with_timeout_example :
    (b : desk.Buffer) × (val : ℤ) × (n1 : Net1) × (b' : desk.Buffer) × (n2 : Net1) × (encode_packet
        carried busy
      ≡ ok b busy)
    × (send_buffer (some 0) b busy ≡ ok val n1)
    × (receive_with_timeout (some 1) (pos 1000) n1 ≡ ok (some b') n2)
    × (desk.create_from_wire_format b' ≡ some carried)
encode_packet-receive_with_timeout_example =
    encode_packet-receive_with_timeout desk_buffers desk_codec carried 0 1 (udp_link (pos 0))
      (udp_link (pos 1)) (pos 1000) busy refl refl refl refl (omega arith) (refl, refl, refl)
