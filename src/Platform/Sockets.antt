-- ===== src/Platform/Sockets.antt =====
-- The C structures that the socket calls take.
use ccnx_testrig.Prelude.{ℕ}

-- SOCK_DGRAM and SOCK_STREAM
pub data SocketKind : Type 0 where
  datagram stream : SocketKind

-- `sin_family`: 0 after `memset`, or AF_INET
pub data Family : Type 0 where
  unspecified af_inet : Family

-- struct sockaddr_in
pub record SocketAddress : Type 0 where
  pub sin_family : Family
  pub sin_addr : ℕ
  pub sin_port : ℕ

-- `bzero` and `memset` with 0
abbrev pub zero_address : SocketAddress
zero_address = record { sin_family = unspecified; sin_addr = 0; sin_port = 0 }

-- sizeof(struct sockaddr_in)
abbrev pub address_size : ℕ
address_size = 16

-- INADDR_ANY
abbrev pub inaddr_any : ℕ
inaddr_any = 0
