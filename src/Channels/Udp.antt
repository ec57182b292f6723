-- ===== src/Channels/Udp.antt =====
-- Links over UDP as channels, where the system carries datagrams: src/ccnxTestrig_Link.c against
-- what the scripts need of links.
use ccnx_testrig.Prelude.{
  ℕ, ℤ, pos, ◌≡◌, sym, ◌∙◌, ap, subst, Option, none, some, List, get_elem?, set, get_elem?-set_self,
  get_elem?-set_ne, get_elem?-lt, ◌==◌, Bool-cases, inl, inr, arith,
}
use ccnx_testrig.Run.{ok}
use ccnx_testrig.Platform.{Platform}
use ccnx_testrig.Heap.{HasSpareBytes}
use ccnx_testrig.Platform.Laws.{BufferLaws, concat}
use ccnx_testrig.Link.{
  Link, LinkPointer, Net, udp_receive_function, udp_send_function, udp_receive, send_buffer,
  receive_with_timeout,
}
use ccnx_testrig.Link.Exchange.{send_buffer-udp, receive_with_timeout-udp}
use ccnx_testrig.World.{Rig}
use ccnx_testrig.Rig.{get_link_by_id}
use ccnx_testrig.Channels.{Channels, IsLink, Takes, silence, arrival}
use ccnx_testrig.Channels.Datagrams.{Yields, Datagrams, SameBut, Received, udp_receive-Received}

-- The link is there, over UDP and on the given socket.
pub record UdpAt (links : List Link) (at : Option LinkPointer) (fd : ℤ) : Type 0 where
  pub pointer : LinkPointer
  pub link : Link
  pub points : at ≡ some pointer
  pub stored : get_elem? links pointer ≡ some link
  pub receives : link.receive_function ≡ some udp_receive_function
  pub sends : link.send_function ≡ some udp_send_function
  pub on_socket : link.socket ≡ fd

-- Links A, B and C of the rig are over UDP, on the given sockets.
abbrev pub AllUdp : (ℕ → ℤ) → Rig → List Link → Type 0
AllUdp socket rig links = (i : ℕ) → IsLink i → UdpAt links (get_link_by_id rig i) (socket i)

UdpAt-set :
    (links : List Link) (pointer : LinkPointer) (link link' : Link) (at : Option LinkPointer)
    (fd : ℤ)
    → get_elem? links pointer ≡ some link
    → SameBut link link'
    → UdpAt links at fd
    → UdpAt (set links pointer link') at fd
UdpAt-set links pointer link link' at fd has (receive, send, socket) h =
    elim (Bool-cases (h.pointer == pointer)) [
      | inl same ↦
          let here : h.pointer ≡ pointer = ground arith in
          let one : h.link ≡ link =
            (let both : some h.link ≡ some link = sym h.stored ∙ ap (get_elem? links) here ∙ has in
              cc) in
          record {
            pointer = pointer;
            link = link';
            points = h.points ∙ ap some here;
            stored = get_elem?-set_self links pointer link' (get_elem?-lt links pointer has);
            receives = receive ∙ ap (λ (l : Link). l.receive_function) (sym one) ∙ h.receives;
            sends = send ∙ ap (λ (l : Link). l.send_function) (sym one) ∙ h.sends;
            on_socket = socket ∙ ap (λ (l : Link). l.socket) (sym one) ∙ h.on_socket;
          }
      | inr other ↦ record {
        pointer = h.pointer;
        link = h.link;
        points = h.points;
        stored =
            get_elem?-set_ne links {i = pointer} {j = h.pointer} link' (λ e. ground arith)
            ∙ h.stored;
        receives = h.receives;
        sends = h.sends;
        on_socket = h.on_socket;
      }
    ]

module _ ⦃p : Platform⦄ (socket : ℕ → ℤ) (datagrams : Datagrams socket) (rig : Rig) where
  -- The rig's links are over UDP on the given sockets, and the system carries what surrounds it.
  abbrev pub UdpHolds : datagrams.Env → Net → Type 0
  UdpHolds e n = datagrams.Carried e n.os × AllUdp socket rig n.links

  module _ (buffers : BufferLaws p) where
    -- Let PARC's buffers behave as documented, and the system carry datagrams. If the rig's links A, B
    -- and C are over UDP, receiving on one of them returns what its socket yields, a timeout or a message, and
    -- leaves links that are over UDP on the same sockets.
    pub receive_with_timeout-Takes :
        (i : ℕ) (e : datagrams.Env) (n : Net)
        → IsLink i
        → UdpHolds e n
        → Takes UdpHolds rig i n (datagrams.arrive i e)
    receive_with_timeout-Takes i e n is_link (carried, links) =
        let ((received, link'), n', run, heard) =
          udp_receive-Received buffers socket datagrams h.link (pos 1000) n answer (
            subst
              (λ fd.
                Yields datagrams.Carried fd (pos 1000) h.link.target_address
                  h.link.target_address_length n.os answer)
              (sym h.on_socket)
              (datagrams.arrives i (pos 1000) h.link.target_address h.link.target_address_length e
                n.os is_link carried)) in
        by_answer answer received link' n' run heard
      where
        answer : Option p.Packet × datagrams.Env
        answer = datagrams.arrive i e

        h : UdpAt n.links (get_link_by_id rig i) (socket i)
        h = links i is_link

        left : Net → Link → Net
        left n' link' = record n' { links = set n'.links h.pointer link' }

        returned :
            (received : Option p.Buffer) (link' : Link) (n' : Net)
            → udp_receive h.link (pos 1000) n ≡ ok (received, link') n'
            → receive_with_timeout (get_link_by_id rig i) (pos 1000) n ≡ ok received (left n' link')
        returned received link' n' run =
            ap (λ at. receive_with_timeout at (pos 1000) n) h.points
            ∙ receive_with_timeout-udp h.pointer h.link (pos 1000) n received link' n' h.stored
                h.receives run

        still :
            (n' : Net) (link' : Link)
            → SameBut h.link link'
            → n'.links ≡ n.links
            → (j : ℕ) → IsLink j
            → UdpAt (set n'.links h.pointer link') (get_link_by_id rig j) (socket j)
        still n' link' same same_links j link =
            subst (λ ls. UdpAt (set ls h.pointer link') (get_link_by_id rig j) (socket j))
              (sym same_links)
              (UdpAt-set n.links h.pointer h.link link' (get_link_by_id rig j) (socket j) h.stored
                same (links j link))

        by_answer :
            (answer : Option p.Packet × datagrams.Env) (received : Option p.Buffer) (link' : Link)
            (n' : Net)
            → udp_receive h.link (pos 1000) n ≡ ok (received, link') n'
            → Received buffers socket datagrams h.link n answer (received, link') n'
            → Takes UdpHolds rig i n answer
        by_answer (none, e') received link' n' run (nothing, same, links', carried') =
            silence (left n' link')
              (returned received link' n' run ∙ ap (λ o. ok o (left n' link')) nothing)
              (carried', still n' link' same links')
        by_answer (some message, e') received link' n' run
              ((b, came, decoded), same, links', carried') =
            arrival b (left n' link')
              (returned received link' n' run ∙ ap (λ o. ok o (left n' link')) came) decoded
              (carried', still n' link' same links')

    -- Sending on a UDP link of the rig returns, and the system carries what was sent.
    pub send_buffer-UdpHolds :
        (i : ℕ) (packet : p.Packet) (e : datagrams.Env) (n : Net) (b : p.Buffer)
        → IsLink i
        → UdpHolds e n
        → p.overlay b ≡ concat (p.dictionary_encode packet)
        → (val : ℤ) × (n' : Net) × (send_buffer (get_link_by_id rig i) b n ≡ ok val n')
          × UdpHolds (datagrams.leave i packet e) n'
    send_buffer-UdpHolds i packet e n b is_link (carried, links) written =
        let h = links i is_link in
        let (val, n', run, same_links, os') =
          send_buffer-udp h.pointer h.link b n h.stored h.sends in
        let left : datagrams.Carried (datagrams.leave i packet e) n'.os =
          subst (datagrams.Carried (datagrams.leave i packet e))
            (ap
                (λ fd.
                  (p.sendto fd (concat (p.dictionary_encode packet)) h.link.target_address
                    h.link.target_address_length n.os).1)
                (sym h.on_socket)
              ∙ ap
                  (λ bs.
                    (p.sendto h.link.socket bs h.link.target_address h.link.target_address_length
                      n.os).1)
                  (sym written)
              ∙ sym os')
            (datagrams.leaves i packet h.link.target_address h.link.target_address_length e n.os
              is_link carried) in
        (
          val,
          n',
          ap (λ at. send_buffer at b n) h.points ∙ run,
          (
            left,
            λ j link.
                subst (λ ls. UdpAt ls (get_link_by_id rig j) (socket j)) (sym same_links)
                  (links j link),
          ),
        )

    -- UDP links fill the interface, where the heap has a byte to spare behind each block.
    abbrev pub udp_channels : HasSpareBytes → Channels rig
    udp_channels spare = record {
      Env = datagrams.Env;
      Holds = UdpHolds;
      take = λ i e. datagrams.arrive i e;
      put = λ i packet e. datagrams.leave i packet e;
      has_spare_bytes = spare;
      prints = λ e n console holds. holds;
      takes = receive_with_timeout-Takes;
      puts = send_buffer-UdpHolds;
    }
