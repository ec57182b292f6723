-- ===== src/Link.antt =====
-- src/ccnxTestrig_Link.c: a connection to the forwarder over UDP or TCP. Links are objects at
-- addresses, since receiving writes to them; `Net` is what the functions of this file read and
-- write.
pub mod Open
pub mod Ready
pub mod Transfer
pub mod Exchange
use ccnx_testrig.Prelude.{
  ℕ, ℤ, pos, negsuc, is_negative, int_eq, String, Option, none, some, List, [], ◌∷◌, ◌++◌,
  get_elem?, set, length, take, if◌then◌else◌,
}
use ccnx_testrig.Run.{
  Cmd, ok, pure, halt, modify, or_stop, zoom, null_pointer, uninitialised, negative_length,
  buffer_overflow, ◌>>=◌, ◌>>◌,
}
use ccnx_testrig.Platform.{Platform, SocketAddress}
use ccnx_testrig.Reporter.{Stream, stdout, stderr, Line, text, numbered, Console, print}

-- The enumerators 0, 1 and 3; an `int` that is none of them can be stored too.
pub data LinkType : Type 0 where
  udp tcp invalid : LinkType
  other : ℕ → LinkType

-- What the two function pointers of a link can be.
pub data ReceiveFunction : Type 0 where
  udp_receive_function tcp_receive_function : ReceiveFunction

pub data SendFunction : Type 0 where
  udp_send_function tcp_send_function : SendFunction

-- A field is `none` as long as nothing was written to it.
pub record Link : Type 0 where
  pub link_type : Option LinkType
  pub receive_function : Option ReceiveFunction
  pub send_function : Option SendFunction
  pub port : ℕ
  pub socket : ℤ
  pub source_address : Option SocketAddress
  pub host_address : Option String
  pub target_socket : Option ℤ
  pub target_address : Option SocketAddress
  pub target_address_length : ℕ

abbrev pub LinkPointer : Type 0
LinkPointer = ℕ

-- MTU
abbrev pub mtu : ℕ
mtu = 4096

module _ ⦃p : Platform⦄ where
  pub record Net : Type 0 where
    pub os : p.Os
    pub console : Console
    pub links : List Link

  abbrev pub say : Stream → Line → Cmd Net Unit
  say fp line = zoom (λ (n : Net). n.console) (λ c n. record n { console = c }) (print fp line)

  -- A system call that answers an `int`.
  abbrev pub system : (p.Os → ℤ × p.Os) → Cmd Net ℤ
  system call n = let (res, os') = call n.os in ok res (record n { os = os' })

  -- `if (res < 0) fprintf(stderr, message)`
  abbrev pub warn_negative : ℤ → String → Cmd Net Unit
  warn_negative res message = modify λ n. record n {
    console = if is_negative res then n.console ++ (stderr, text message) ∷ [] else n.console;
  }

  abbrev pub load_link : Option LinkPointer → Cmd Net Link
  load_link none n = halt null_pointer n
  load_link (some at) n = or_stop (get_elem? n.links at) null_pointer n

  abbrev pub store_link : LinkPointer → Link → Cmd Net Unit
  store_link at link = modify λ n. record n { links = set n.links at link }

  -- The bytes that `recv` left in the array, as a buffer that is ready to be read. A negative
  -- count becomes a size beyond any memory.
  unfoldable pub received_buffer : ℤ → List ℕ → Cmd Net p.Buffer
  received_buffer (negsuc _) bytes = halt negative_length
  received_buffer (pos count) bytes = do
    filled ← or_stop (p.put_array (take count bytes) (p.allocate count)) buffer_overflow
    pure (p.flip filled)

  -- `recvfrom` into an array of `MTU` bytes, which also writes where they came from.
  abbrev pub receive_from : Link → Cmd Net (ℤ × List ℕ × Option SocketAddress × ℕ)
  receive_from link n =
      let (count, bytes, address, size, os') =
        p.recvfrom link.socket mtu link.target_address link.target_address_length n.os in
      ok (count, bytes, address, size) (record n { os = os' })

  -- The `if (numBytesReceived < 0)` and what follows it.
  unfoldable pub keep_datagram : Link → ℤ → List ℕ → Cmd Net (Option p.Buffer × Link)
  keep_datagram link (negsuc _) bytes = do say stderr (text "recvfrom() failed"); pure (none, link)
  keep_datagram link count bytes = do buffer ← received_buffer count bytes; pure (some buffer, link)

  unfoldable pub udp_receive : Link → ℤ → Cmd Net (Option p.Buffer × Link)
  unfolding keep_datagram
  udp_receive link timeout = do
    res ← system (p.poll_in link.socket timeout)
    if int_eq res (pos 0)
        then pure (none, link)
        else if int_eq res (negsuc 0)
        then (do say stderr (text "An error occurred while receiving"); pure (none, link))
        else do
          (count, bytes, address, size) ← receive_from link
          let link' = record link { target_address = address; target_address_length = size }
          keep_datagram link' count bytes

  unfoldable pub udp_send : Link → p.Buffer → Cmd Net ℤ
  udp_send link buffer = do
    val ←
        system
          (p.sendto link.socket (p.overlay buffer) link.target_address link.target_address_length)
    say stdout (numbered "sent bytes: " val)
    pure val

  -- `recv` into an array of `MTU` bytes.
  abbrev pub receive_stream : ℤ → Cmd Net (ℤ × List ℕ)
  receive_stream fd n =
      let (count, bytes, os') = p.recv fd mtu n.os in ok (count, bytes) (record n { os = os' })

  -- What follows `recv`, whose result is not tested.
  keep_stream : Link → ℤ → List ℕ → Cmd Net (Option p.Buffer × Link)
  keep_stream link count bytes = do buffer ← received_buffer count bytes; pure (some buffer, link)

  unfoldable pub tcp_receive : Link → ℤ → Cmd Net (Option p.Buffer × Link)
  unfolding keep_stream
  tcp_receive link timeout = do
    fd ← or_stop link.target_socket uninitialised
    res ← system (p.poll_in fd timeout)
    if int_eq res (pos 0)
        then pure (none, link)
        else if int_eq res (negsuc 0)
        then (do say stderr (text "An error occurred while receiving"); pure (none, link))
        else do (count, bytes) ← receive_stream fd; keep_stream link count bytes

  unfoldable pub tcp_send : Link → p.Buffer → Cmd Net ℤ
  tcp_send link buffer = do
    fd ← or_stop link.target_socket uninitialised
    system (p.send fd (p.overlay buffer))

  -- `link->receiveFunction(link, timeout)`
  call_receive : ReceiveFunction → Link → ℤ → Cmd Net (Option p.Buffer × Link)
  call_receive udp_receive_function = udp_receive
  call_receive tcp_receive_function = tcp_receive

  call_send : SendFunction → Link → p.Buffer → Cmd Net ℤ
  call_send udp_send_function = udp_send
  call_send tcp_send_function = tcp_send

  unfoldable pub receive_with_timeout : Option LinkPointer → ℤ → Cmd Net (Option p.Buffer)
  unfolding call_receive
  receive_with_timeout at timeout = do
    here ← or_stop at null_pointer
    link ← load_link (some here)
    function ← or_stop link.receive_function uninitialised
    (received, link') ← call_receive function link timeout
    store_link here link'
    pure received

  -- `ccnxTestrigLink_Receive`: no timeout
  unfoldable pub receive : Option LinkPointer → Cmd Net (Option p.Buffer)
  receive at = receive_with_timeout at (negsuc 0)

  unfoldable pub send_buffer : Option LinkPointer → p.Buffer → Cmd Net ℤ
  unfolding call_send
  send_buffer at buffer = do
    link ← load_link at
    function ← or_stop link.send_function uninitialised
    call_send function link buffer
