-- ===== src/Link/Open.antt =====
-- Links made by listening or by connecting, and closed (src/ccnxTestrig_Link.c). A call that fails
-- is only reported: every function goes on.
use ccnx_testrig.Prelude.{
  ℕ, ℤ, pos, int_eq, not, String, Option, none, some, ◌∷◌, [], ◌++◌, length, if◌then◌else◌,
}
use ccnx_testrig.Run.{Cmd, ok, pure, or_stop, uninitialised, ◌>>=◌, ◌>>◌}
use ccnx_testrig.Platform.{
  Platform, SocketAddress, datagram, stream, af_inet, address_size, inaddr_any,
}
use ccnx_testrig.Reporter.{stdout, stderr, text, numbered}
use ccnx_testrig.Link.{
  LinkType, udp, tcp, invalid, other, udp_receive_function, tcp_receive_function, udp_send_function,
  tcp_send_function, Link, LinkPointer, Net, say, system, warn_negative, load_link,
}

-- `_create_link`
unfoldable pub create_link : Link
create_link = record {
  link_type = none;
  receive_function = none;
  send_function = none;
  port = 0;
  socket = pos 0;
  source_address = none;
  host_address = none;
  target_socket = none;
  target_address = none;
  target_address_length = 0;
}

-- MAX_NUMBER_OF_TCP_CONNECTIONS
abbrev pub max_number_of_tcp_connections : ℕ
max_number_of_tcp_connections = 3

module _ ⦃p : Platform⦄ where
  -- The zeroed address with the family, the given address and the port set.
  abbrev pub internet_address : ℕ → ℕ → SocketAddress
  internet_address addr port = record {
    sin_family = af_inet;
    sin_addr = addr;
    sin_port = p.htons port;
  }

  -- The object stands at the next address.
  abbrev pub new_link : Link → Cmd Net LinkPointer
  new_link link n = ok (length n.links) (record n { links = n.links ++ link ∷ [] })

  unfoldable pub create_udp_listener : String → ℕ → Cmd Net LinkPointer
  unfolding create_link
  create_udp_listener address port = do
    fd ← system (p.socket datagram)
    warn_negative fd "socket() failed"
    system (p.set_reuse_address fd)
    let source = internet_address (p.htonl inaddr_any) port
    bound ← system (p.bind fd source)
    warn_negative bound "bind() failed"
    say stdout (text "Accepted!")
    new_link (record create_link {
      link_type = some udp;
      port = port;
      receive_function = some udp_receive_function;
      send_function = some udp_send_function;
      target_address_length = address_size;
      socket = fd;
      source_address = some source;
    })

  -- `accept`, which writes the peer's address and its length.
  abbrev pub accept_peer : ℤ → Cmd Net (ℤ × Option SocketAddress × ℕ)
  accept_peer fd n =
      let (target, address, size, os') = p.accept fd none address_size n.os in
      ok (target, address, size) (record n { os = os' })

  unfoldable pub create_tcp_listener : String → ℕ → Cmd Net LinkPointer
  unfolding create_link
  create_tcp_listener address port = do
    fd ← system (p.socket stream)
    warn_negative fd "socket() failed"
    let source = internet_address (p.htonl inaddr_any) port
    reused ← system (p.set_reuse_address fd)
    warn_negative reused "setsockopt() failed"
    bound ← system (p.bind fd source)
    warn_negative bound "bind() failed"
    listening ← system (p.listen fd max_number_of_tcp_connections)
    warn_negative listening "listen() failed"
    (target, peer, size) ← accept_peer fd
    warn_negative target "accept() failed"
    say stdout (text "Accepted!")
    new_link (record create_link {
      link_type = some tcp;
      port = port;
      target_address = peer;
      target_address_length = size;
      receive_function = some tcp_receive_function;
      send_function = some tcp_send_function;
      socket = fd;
      source_address = some source;
      target_socket = some target;
    })

  unfoldable pub create_udp_link : String → ℕ → Cmd Net LinkPointer
  unfolding create_link
  create_udp_link address port = do
    fd ← system (p.socket datagram)
    warn_negative fd "socket() failed"
    new_link (record create_link {
      link_type = some udp;
      port = port;
      target_address_length = address_size;
      receive_function = some udp_receive_function;
      send_function = some udp_send_function;
      socket = fd;
      target_address = some (internet_address (p.inet_addr address) port);
    })

  unfoldable pub create_tcp_link : String → ℕ → Cmd Net LinkPointer
  unfolding create_link
  create_tcp_link address port = do
    fd ← system (p.socket stream)
    warn_negative fd "socket() failed"
    let target = internet_address (p.inet_addr address) port
    reused ← system (p.set_reuse_address fd)
    warn_negative reused "setsockopt() failed"
    connected ← system (p.connect fd target)
    warn_negative connected "connect() failed"
    new_link (record create_link {
      link_type = some tcp;
      port = port;
      target_address_length = address_size;
      receive_function = some tcp_receive_function;
      send_function = some tcp_send_function;
      socket = fd;
      target_socket = some fd;
      target_address = some target;
    })

  -- The enumerator as the number that `"%d"` prints.
  abbrev pub type_number : LinkType → ℕ
  type_number udp = 0
  type_number tcp = 1
  type_number invalid = 3
  type_number (other n) = n

  abbrev invalid_type : LinkType → Cmd Net (Option LinkPointer)
  invalid_type t = do
    say stderr (numbered "Error: invalid LinkType specified: " (pos (type_number t)))
    pure none

  unfoldable pub listen_link : LinkType → String → ℕ → Cmd Net (Option LinkPointer)
  listen_link udp address port = do link ← create_udp_listener address port; pure (some link)
  listen_link tcp address port = do link ← create_tcp_listener address port; pure (some link)
  listen_link t address port = invalid_type t

  unfoldable pub connect_link : LinkType → String → ℕ → Cmd Net (Option LinkPointer)
  connect_link udp address port = do link ← create_udp_link address port; pure (some link)
  connect_link tcp address port = do link ← create_tcp_link address port; pure (some link)
  connect_link t address port = invalid_type t

  unfoldable pub close_link : Option LinkPointer → Cmd Net Unit
  close_link at = do
    link ← load_link at
    system (p.close_fd link.socket)
    target ← or_stop link.target_socket uninitialised
    if not (int_eq link.socket target) then (system (p.close_fd target) >> pure tt) else pure tt
