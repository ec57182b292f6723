-- ===== src/Link/Ready.antt =====
-- Listening and connecting give usable links, and closing closes each descriptor once.
use ccnx_testrig.Prelude.{
  ℕ, ℤ, int_eq, String, Option, none, some, [], ◌∷◌, ◌++◌, get_elem?, length, Bool-cases, inl, inr,
  ◌≡◌, refl, ◌≢◌, true, false, arith,
}
use ccnx_testrig.Run.{Returns, returns, Stops, stops, uninitialised}
use ccnx_testrig.Platform.{Platform, datagram, stream, inaddr_any, address_size}
use ccnx_testrig.Link.{
  LinkType, udp, tcp, invalid, other, ReceiveFunction, SendFunction, udp_receive_function,
  tcp_receive_function, udp_send_function, tcp_send_function, Link, LinkPointer, Net,
}
use ccnx_testrig.Link.Open.{
  create_udp_listener, create_tcp_listener, create_udp_link, create_tcp_link, listen_link,
  connect_link, close_link, internet_address,
}

-- The transports that the rig has.
pub data Transport : LinkType → Type 0 where
  udp_transport : Transport udp
  tcp_transport : Transport tcp

abbrev pub receive_of : LinkType → Option ReceiveFunction
receive_of udp = some udp_receive_function
receive_of tcp = some tcp_receive_function
receive_of t = none

abbrev pub send_of : LinkType → Option SendFunction
send_of udp = some udp_send_function
send_of tcp = some tcp_send_function
send_of t = none

-- A link whose two functions are those of its transport, on the given port.
pub record IsReady (t : LinkType) (port : ℕ) (link : Link) : Type 0 where
  pub typed : link.link_type ≡ some t
  pub receives : link.receive_function ≡ receive_of t
  pub sends : link.send_function ≡ send_of t
  pub on_port : link.port ≡ port
  pub streams : t ≡ tcp → link.target_socket ≢ none

module _ ⦃p : Platform⦄ where
  -- What the calls of a listener on a port made of the system, and what the link keeps of them. Over
  -- UDP a datagram socket is made, its address is made reusable, and it is bound to the port on any
  -- interface. Over TCP a stream socket is made and bound likewise, it listens for three connections,
  -- and the one that is accepted is the link's peer.
  abbrev pub Listens : LinkType → ℕ → p.Os → Link → p.Os → Type 0
  Listens udp port os link os' =
      let (fd, made) = p.socket datagram os in
      let source = internet_address (p.htonl inaddr_any) port in
      (link.socket ≡ fd)
      × (link.source_address ≡ some source)
      × (link.target_address ≡ none)
      × (link.target_socket ≡ none)
      × (link.target_address_length ≡ address_size)
      × (os' ≡ (p.bind fd source (p.set_reuse_address fd made).1).1)
  Listens tcp port os link os' =
      let (fd, made) = p.socket stream os in
      let source = internet_address (p.htonl inaddr_any) port in
      let bound = (p.bind fd source (p.set_reuse_address fd made).1).1 in
      let (target, peer, size, accepted) = p.accept fd none address_size (p.listen fd 3 bound).1 in
      (link.socket ≡ fd)
      × (link.source_address ≡ some source)
      × (link.target_address ≡ peer)
      × (link.target_socket ≡ some target)
      × (link.target_address_length ≡ size)
      × (os' ≡ accepted)
  Listens t port os link os' = ⊥

  -- The same of a link to an address and a port. Over UDP the address is only kept; over TCP it is
  -- connected to, and the connected socket is read and written.
  abbrev pub Connects : LinkType → String → ℕ → p.Os → Link → p.Os → Type 0
  Connects udp address port os link os' =
      let (fd, made) = p.socket datagram os in
      (link.socket ≡ fd)
      × (link.source_address ≡ none)
      × (link.target_address ≡ some (internet_address (p.inet_addr address) port))
      × (link.target_socket ≡ none)
      × (link.target_address_length ≡ address_size)
      × (os' ≡ made)
  Connects tcp address port os link os' =
      let (fd, made) = p.socket stream os in
      let target = internet_address (p.inet_addr address) port in
      (link.socket ≡ fd)
      × (link.source_address ≡ none)
      × (link.target_address ≡ some target)
      × (link.target_socket ≡ some fd)
      × (link.target_address_length ≡ address_size)
      × (os' ≡ (p.connect fd target (p.set_reuse_address fd made).1).1)
  Connects t address port os link os' = ⊥

  -- One link has been added behind the others, it is ready and listens on the port, and its pointer is
  -- the answer.
  abbrev pub Opened : LinkType → ℕ → Net → Option LinkPointer → Net → Type 0
  Opened t port n at n' =
      (link : Link) × (at ≡ some (length n.links))
      × (n'.links ≡ n.links ++ link ∷ [])
      × IsReady t port link
      × Listens t port n.os link n'.os

  pub listen_link-Opened :
      (t : LinkType) (address : String) (port : ℕ) (n : Net)
      → (Transport t → Returns (Opened t port n) (listen_link t address port n))
        × (¬ Transport t
            → Returns (λ at n'. (at ≡ none) × (n'.links ≡ n.links)) (listen_link t address port n))
  unfolding listen_link create_udp_listener create_tcp_listener
  listen_link-Opened udp address port n = (
    λ _. returns (_, refl, refl, ground arith, (refl, refl, refl, refl, refl, refl)),
    λ h. absurd (h udp_transport),
  )
  listen_link-Opened tcp address port n = (
    λ _. returns (_, refl, refl, ground arith, (refl, refl, refl, refl, refl, refl)),
    λ h. absurd (h tcp_transport),
  )
  listen_link-Opened invalid address port n = (λ h. elim h [ ], λ _. returns (refl, refl))
  listen_link-Opened (other k) address port n = (λ h. elim h [ ], λ _. returns (refl, refl))

  -- Connecting over UDP or TCP likewise returns a new link with its socket and the address and port
  -- given as its peer's; over TCP it has connected the socket, which is also its peer's.
  pub connect_link-Opened :
      (t : LinkType) (address : String) (port : ℕ) (n : Net)
      → (Transport t
          → Returns
              (λ at n'.
                (link : Link) × (at ≡ some (length n.links))
                × (n'.links ≡ n.links ++ link ∷ [])
                × IsReady t port link
                × (t ≡ tcp → link.target_socket ≡ some link.socket)
                × Connects t address port n.os link n'.os)
              (connect_link t address port n))
        × (¬ Transport t
            → Returns (λ at n'. (at ≡ none) × (n'.links ≡ n.links)) (connect_link t address port n))
  unfolding connect_link create_udp_link create_tcp_link
  connect_link-Opened udp address port n = (
    λ _. returns (_, refl, refl, ground arith, ground arith, (refl, refl, refl, refl, refl, refl)),
    λ h. absurd (h udp_transport),
  )
  connect_link-Opened tcp address port n = (
    λ _. returns (_, refl, refl, ground arith, ground arith, (refl, refl, refl, refl, refl, refl)),
    λ h. absurd (h tcp_transport),
  )
  connect_link-Opened invalid address port n = (λ h. elim h [ ], λ _. returns (refl, refl))
  connect_link-Opened (other k) address port n = (λ h. elim h [ ], λ _. returns (refl, refl))

  -- Closing a link closes its socket, and its peer's socket too if that is another one; closing a
  -- link whose peer's socket was never set, as that of every UDP link, reads an unset field.
  pub close_link_lem :
      (at : LinkPointer) (link : Link) (n : Net)
      → get_elem? n.links at ≡ some link
      → ((target : ℤ)
          → link.target_socket ≡ some target
          → Returns
              (λ _ n'.
                (int_eq link.socket target ≡ true → n'.os ≡ (p.close_fd link.socket n.os).1)
                × (int_eq link.socket target ≡ false
                    → n'.os ≡ (p.close_fd target (p.close_fd link.socket n.os).1).1)
                × (n'.links ≡ n.links))
              (close_link (some at) n))
        × (link.target_socket ≡ none → Stops uninitialised (close_link (some at) n))
  unfolding close_link
  close_link_lem at link n e = (
    λ target has. elim (Bool-cases (int_eq link.socket target)) [
      | inl same ↦ rw (e, has, same) (returns (λ _. refl, λ differ. absurd (cc), refl))
      | inr differ ↦ rw (e, has, differ) (returns (λ same. absurd (cc), λ _. refl, refl))
    ],
    λ unset. rw (e, unset) stops,
  )
