-- ===== src/Platform.antt =====
-- What the program uses and does not implement: the sockets of the operating system, PARC's
-- buffers and bit vectors, the CCNx packet library and the source of random bytes. `Platform`
-- holds their operations; what is relied on of them is in the children, as records of laws.
pub mod Laws
pub mod Sockets
use ccnx_testrig.Prelude.{ℕ, ℤ, Bool, Option, List, String}
pub use Sockets.*

pub record Platform : Type 1 where
  -- sockets: each call takes the system's state and returns it; an address that was never written
  -- is `none`
  pub Os : Type 0
  pub socket : SocketKind → Os → ℤ × Os
  pub set_reuse_address : ℤ → Os → ℤ × Os
  pub bind : ℤ → SocketAddress → Os → ℤ × Os
  pub listen : ℤ → ℕ → Os → ℤ × Os
  pub accept : ℤ → Option SocketAddress → ℕ → Os → ℤ × Option SocketAddress × ℕ × Os
  pub connect : ℤ → SocketAddress → Os → ℤ × Os
  pub poll_in : ℤ → ℤ → Os → ℤ × Os
  pub recvfrom : ℤ → ℕ → Option SocketAddress → ℕ → Os → ℤ × List ℕ × Option SocketAddress × ℕ × Os
  pub recv : ℤ → ℕ → Os → ℤ × List ℕ × Os
  pub sendto : ℤ → List ℕ → Option SocketAddress → ℕ → Os → ℤ × Os
  pub send : ℤ → List ℕ → Os → ℤ × Os
  pub close_fd : ℤ → Os → ℤ × Os
  pub htons : ℕ → ℕ
  pub htonl : ℕ → ℕ
  pub inet_addr : String → ℕ
  -- parcBuffer_*; `put_array` traps where the bytes do not fit
  pub Buffer : Type 0
  pub allocate : ℕ → Buffer
  pub allocate_c_string : String → Buffer
  pub put_array : List ℕ → Buffer → Option Buffer
  pub flip : Buffer → Buffer
  pub overlay : Buffer → List ℕ
  pub buffer_equals : Option Buffer → Option Buffer → Bool
  pub to_hex_string : Buffer → String
  -- parcBitVector_*; `next_bit_set` is -1 where no bit follows
  pub BitVector : Type 0
  pub create_vector : BitVector
  pub set_bit : BitVector → ℕ → BitVector
  pub next_bit_set : BitVector → ℕ → ℤ
  pub number_of_bits_set : BitVector → ℕ
  -- names, and packets as TLV dictionaries, which are also what the codec rebuilds
  pub Name : Type 0
  pub create_name : String → Name
  pub compose_name : Name → String → Name
  pub name_equals : Name → Name → Bool
  pub Packet : Type 0
  pub is_interest : Packet → Bool
  pub is_content_object : Packet → Bool
  pub is_manifest : Packet → Bool
  pub create_interest : Name → ℕ → Option Buffer → Option Buffer → Packet
  pub get_hop_limit : Packet → ℕ
  pub get_lifetime : Packet → ℕ
  pub get_name : Packet → Name
  pub get_key_id_restriction : Packet → Option Buffer
  pub get_hash_restriction : Packet → Option Buffer
  pub create_content_object : Name → Buffer → Packet
  pub create_nameless_object : Buffer → Packet
  pub create_manifest : Name → Packet
  pub KeyLocator : Type 0
  pub create_key_locator : Name → KeyLocator
  pub Signature : Type 0
  pub create_signature : Buffer → Signature
  pub set_signature : Packet → Buffer → Signature → KeyLocator → Packet
  -- the codec and the message that it rebuilds from the wire
  pub dictionary_encode : Packet → List (List ℕ)
  pub create_from_wire_format : Buffer → Option Packet
  pub meta_is_interest : Packet → Bool
  pub meta_is_content_object : Packet → Bool
  pub meta_is_manifest : Packet → Bool
  pub meta_get_interest : Packet → Packet
  pub meta_get_content_object : Packet → Packet
  pub meta_get_manifest : Packet → Packet
  -- the digest by the message's wire format facade, none where there is no facade
  pub compute_content_object_hash : Packet → Option Buffer
  -- parcSecureRandom_NextBytes: the bytes of the n-th draw
  pub next_bytes : ℕ → List ℕ
  -- Whether the byte behind a block of `strlen(s)` bytes can be written without harm.
  pub has_spare_byte : String → Bool
  -- The words that `va_arg` reads behind the arguments that were passed, for the n-th vector made.
  pub words_behind : ℕ → List ℕ
  -- getopt_long over one command line, from a state that holds `optind`, and `sscanf` of "%zu".
  pub Getopt : Type 0
  pub optind : Getopt → ℕ
  pub getopt_long : Getopt → ℤ × Option String × Getopt
  pub scan_size : String → Option ℕ
