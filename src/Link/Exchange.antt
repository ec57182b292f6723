-- ===== src/Link/Exchange.antt =====
-- A packet from one UDP link to another: encoding, sending, receiving and decoding.
use ccnx_testrig.Prelude.{
  ℕ, ℤ, pos, ◌≤◌, ◌≡◌, refl, ◌∙◌, ap, true, Option, none, some, List, [], ◌∷◌, length, take, suc,
  zero, get_elem?, set, arith,
}
use mathlib.Core.Option
use ccnx_testrig.Run.{ok, Returns-eq}
use ccnx_testrig.Platform.{Platform}
use ccnx_testrig.Platform.Laws.{BufferLaws, CodecLaws, concat}
use ccnx_testrig.Packet.{encode_packet}
use ccnx_testrig.Packet.Encode.{encode_packet-concat}
use ccnx_testrig.Link.{
  Link, LinkPointer, Net, mtu, udp_receive_function, udp_send_function, udp_send, udp_receive,
  send_buffer, receive_with_timeout,
}
use ccnx_testrig.Link.Transfer.{is_readable, datagram_for, udp_receive-datagram}

take-length : (k : ℕ) (xs : List ℕ) → length xs ≤ k → take k xs ≡ xs
take-length zero [] fits = refl
take-length zero (x ∷ xs) fits = absurd (omega arith)
take-length (suc k) [] fits = refl
take-length (suc k) (x ∷ xs) fits = ap (λ ys. x ∷ ys) (take-length k xs (omega arith))

module _ ⦃p : Platform⦄ where
  -- The system carries a datagram from one link's socket to another's: once it was sent, the other
  -- socket is readable and yields it, up to the bytes that fit the array.
  abbrev pub Carries : Link → Link → ℤ → List ℕ → p.Os → Type 0
  Carries from to timeout bytes os =
      let (_, os1) = p.sendto from.socket bytes from.target_address from.target_address_length os in
      let (res, os2) = p.poll_in to.socket timeout os1 in
      let (count, received, _, _, _) =
        p.recvfrom to.socket mtu to.target_address to.target_address_length os2 in
      (is_readable res ≡ true) × (count ≡ pos (length received)) × (received ≡ take mtu bytes)

  -- What is carried is the datagram that a receive will find.
  datagram_for-Carries :
      (from to : Link) (timeout : ℤ) (bytes : List ℕ) (n n1 : Net)
      → length bytes ≤ mtu
      → Carries from to timeout bytes n.os
      → n1.os ≡ (p.sendto from.socket bytes from.target_address from.target_address_length n.os).1
      → datagram_for to timeout n1 ≡ some bytes
  datagram_for-Carries from to timeout bytes n n1 fits (readable, counted, received) sent =
      rw (sent, readable, counted, received, take-length mtu bytes fits)
        (ap some (take-length (length bytes) bytes (omega arith)))

  pub send_buffer-udp :
      (from : LinkPointer) (link : Link) (b : p.Buffer) (n : Net)
      → get_elem? n.links from ≡ some link
      → link.send_function ≡ some udp_send_function
      → (val : ℤ) × (n1 : Net) × (send_buffer (some from) b n ≡ ok val n1)
        × (n1.links ≡ n.links)
        × (n1.os
            ≡ (p.sendto link.socket
                (p.overlay b)
                link.target_address
                link.target_address_length
                n.os).1)
  unfolding send_buffer udp_send
  send_buffer-udp from link b n has sends = rw (has, sends) (_, _, refl, refl, refl)

  pub receive_with_timeout-udp :
      (to : LinkPointer) (link : Link) (timeout : ℤ) (n : Net) (answer : Option p.Buffer)
      (link' : Link) (n' : Net)
      → get_elem? n.links to ≡ some link
      → link.receive_function ≡ some udp_receive_function
      → udp_receive link timeout n ≡ ok (answer, link') n'
      → receive_with_timeout (some to) timeout n
        ≡ ok answer (record n' { links = set n'.links to link' })
  unfolding receive_with_timeout
  receive_with_timeout-udp to link timeout n answer link' n' has receives run =
      rw has (simp (receives, run) refl)

module _ ⦃p : Platform⦄ (buffers : BufferLaws p) (codec : CodecLaws p) where
  some-map :
      {A B : Type 0} (f : A → B) (o : Option A) (b : B)
      → Option.map f o ≡ some b
      → (a : A) × (o ≡ some a) × (f a ≡ b)
  some-map f none b e = absurd (cc)
  some-map f (some a) b e = (a, refl, cc)

  -- Let PARC's buffers and the codec behave as documented. A packet whose wire format fits the array
  -- of a receive comes through: encoding it, sending it on
  -- one UDP link and receiving on another, to which the system carries the datagram, all return, and
  -- the codec rebuilds the packet from the buffer that is received.
  pub encode_packet-receive_with_timeout :
      (packet : p.Packet) (from to : LinkPointer) (link link' : Link) (timeout : ℤ) (n : Net)
      → get_elem? n.links from ≡ some link
      → get_elem? n.links to ≡ some link'
      → link.send_function ≡ some udp_send_function
      → link'.receive_function ≡ some udp_receive_function
      → length (concat (p.dictionary_encode packet)) ≤ mtu
      → Carries link link' timeout (concat (p.dictionary_encode packet)) n.os
      → (b : p.Buffer) × (val : ℤ) × (n1 : Net) × (b' : p.Buffer) × (n2 : Net) × (encode_packet
            packet n
          ≡ ok b n)
        × (send_buffer (some from) b n ≡ ok val n1)
        × (receive_with_timeout (some to) timeout n1 ≡ ok (some b') n2)
        × (p.create_from_wire_format b' ≡ some (codec.rebuilt packet))
  encode_packet-receive_with_timeout packet from to link link' timeout n has has' sends receives
        fits carries =
      let (b, encoded, bytes) = encode_packet-concat buffers packet n in
      let (val, n1, sent, same_links, os1) = send_buffer-udp from link b n has sends in
      let ((answer, link2), n2, run, (delivered, _)) =
        Returns-eq (udp_receive-datagram buffers link' timeout n1) in
      let datagram =
        datagram_for-Carries link link' timeout (concat (p.dictionary_encode packet)) n n1 fits
          carries
          (os1
            ∙ ap
                (λ bs.
                  (p.sendto link.socket bs link.target_address link.target_address_length n.os).1)
                bytes) in
      let (b', answered, same_bytes) = some-map p.overlay answer _ (delivered ∙ datagram) in
      let received =
        receive_with_timeout-udp to link' timeout n1 answer link2 n2
          (ap (λ ls. get_elem? ls to) same_links ∙ has') receives run in
      (
        b,
        val,
        n1,
        b',
        _,
        encoded,
        sent,
        received ∙ ap (λ a. ok a (record n2 { links = set n2.links to link2 })) answered,
        codec.rebuild packet b' same_bytes,
      )
