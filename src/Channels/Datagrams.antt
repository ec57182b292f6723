-- ===== src/Channels/Datagrams.antt =====
-- What is relied on of a system that carries datagrams, and receiving over UDP on it:
-- `_udp_receive` of src/ccnxTestrig_Link.c.
use ccnx_testrig.Prelude.{
  ℕ, ℤ, pos, ◌≡◌, refl, true, false, Option, none, some, List, take, int_eq, arith, negsuc,
}
use ccnx_testrig.Run.{ok}
use ccnx_testrig.Platform.{Platform, SocketAddress}
use ccnx_testrig.Platform.Laws.{BufferLaws, concat}
use ccnx_testrig.Link.{Link, Net, mtu, udp_receive, keep_datagram}
use ccnx_testrig.Link.Transfer.{is_readable, received_buffer-overlay}
use ccnx_testrig.Channels.{IsLink}

module _ ⦃p : Platform⦄ {Env : Type 0} (Carried : Env → p.Os → Type 0) where
  -- How a socket answers `poll` and `recvfrom`: a timeout, or a datagram that the codec reads.
  pub data Yields (fd timeout : ℤ) (address : Option SocketAddress) (size : ℕ) (os : p.Os)
      : Option p.Packet × Env → Type 0 where
    times_out :
        {e : Env} (os' : p.Os)
        → p.poll_in fd timeout os ≡ (pos 0, os')
        → Carried e os'
        → Yields fd timeout address size os (none, e)
    delivers :
        {e : Env} {message : p.Packet} (res : ℤ) (os1 : p.Os) (count : ℕ) (bytes : List ℕ)
        (from : Option SocketAddress) (from_size : ℕ) (os2 : p.Os)
        → p.poll_in fd timeout os ≡ (res, os1)
        → is_readable res ≡ true
        → p.recvfrom fd mtu address size os1 ≡ (pos count, bytes, from, from_size, os2)
        → ((b : p.Buffer)
            → p.overlay b ≡ take count bytes
            → p.create_from_wire_format b ≡ some message)
        → Carried e os2
        → Yields fd timeout address size os (some message, e)

-- The system carries datagrams over the three links' sockets: `arrive` is what a link's socket
-- yields and what is left, `leave` is what is left when a packet's wire format was sent on it.
pub record Datagrams ⦃p : Platform⦄ (socket : ℕ → ℤ) : Type 1 where
  pub Env : Type 0
  pub Carried : Env → p.Os → Type 0
  pub arrive : ℕ → Env → Option p.Packet × Env
  pub leave : ℕ → p.Packet → Env → Env
  pub arrives :
      (i : ℕ) (timeout : ℤ) (address : Option SocketAddress) (size : ℕ) (e : Env) (os : p.Os)
      → IsLink i
      → Carried e os
      → Yields Carried (socket i) timeout address size os (arrive i e)
  pub leaves :
      (i : ℕ) (packet : p.Packet) (address : Option SocketAddress) (size : ℕ) (e : Env) (os : p.Os)
      → IsLink i
      → Carried e os
      → Carried
          (leave i packet e)
          (p.sendto (socket i) (concat (p.dictionary_encode packet)) address size os).1

-- What receiving leaves of a link but for its peer's address.
abbrev pub SameBut : Link → Link → Type 0
SameBut link link' =
    (link'.receive_function ≡ link.receive_function)
    × (link'.send_function ≡ link.send_function)
    × (link'.socket ≡ link.socket)

module _ ⦃p : Platform⦄ (buffers : BufferLaws p) (socket : ℕ → ℤ)
    (datagrams : Datagrams socket) where
  -- What a receive on a UDP link returns, where its socket yields the given answer.
  abbrev pub Received :
      Link → Net → Option p.Packet × datagrams.Env → Option p.Buffer × Link → Net → Type 0
  Received link n (none, e) (received, link') n' =
      (received ≡ none) × SameBut link link' × (n'.links ≡ n.links) × datagrams.Carried e n'.os
  Received link n (some message, e) (received, link') n' =
      ((b : p.Buffer) × (received ≡ some b) × (p.create_from_wire_format b ≡ some message))
      × SameBut link link'
      × (n'.links ≡ n.links)
      × datagrams.Carried e n'.os

  pub udp_receive-Received :
      (link : Link) (timeout : ℤ) (n : Net) (answer : Option p.Packet × datagrams.Env)
      → Yields datagrams.Carried link.socket timeout link.target_address link.target_address_length
          n.os answer
      → (received : Option p.Buffer × Link) × (n' : Net) × (udp_receive link timeout n
          ≡ ok received n')
        × Received link n answer received n'
  unfolding udp_receive keep_datagram
  udp_receive-Received link timeout n answer (times_out os' polled carried) =
      rw polled (_, _, refl, (refl, (refl, refl, refl), refl, carried))
  udp_receive-Received link timeout n answer
        (delivers res os1 count bytes from from_size os2 polled readable taken decoded carried) =
      let n2 = record n { os = os2 } in
      let (b, filled, overlay) = received_buffer-overlay buffers count bytes n2 in
      let not_zero : int_eq res (pos 0) ≡ false = ground arith in
      let not_error : int_eq res (negsuc 0) ≡ false = ground arith in
      rw (polled) (
        rw (not_zero, not_error)
          (rw taken (
            rw filled
              (_, _, refl, ((b, refl, decoded b overlay), (refl, refl, refl), refl, carried)))))
