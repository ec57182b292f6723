-- ===== src/Examples/Machine.antt =====
-- A machine: sockets with what is queued on them, buffers as bytes, bit vectors as ascending lists
-- of bits, and packets as four numbers. How the command line is read is left open.
use ccnx_testrig.Prelude.{
  ℕ, ℤ, pos, negsuc, ap, ◌+◌, ◌^◌, ◌≤◌, ◌<◌, ◌≡◌, refl, String, Bool, true, false, ◌&&◌, Option,
  none, some, List, [], ◌∷◌, ◌++◌, length, get_elem?, set, leb, ltb, ◌==◌, if◌then◌else◌,
  Bool-cases, inl, inr, arith,
}
use ccnx_testrig.Platform.{Platform}
use ccnx_testrig.Platform.Laws.{
  BufferLaws, BitVectorLaws, CodecLaws, add_bit, first_from, IsAscendingFrom,
}

-- What waits on a socket, or that its peer has closed.
pub data Queue : Type 0 where
  waiting : List (List ℕ) → Queue
  hung_up : Queue

abbrev queue_of : List Queue → ℤ → Queue
queue_of qs (negsuc n) = hung_up
queue_of qs (pos fd) = elim (get_elem? qs fd) [ none ↦ hung_up | some q ↦ q ]

abbrev set_queue : List Queue → ℤ → Queue → List Queue
set_queue qs (negsuc n) q = qs
set_queue qs (pos fd) q = set qs fd q

abbrev new_socket : List Queue → ℤ × List Queue
new_socket qs = (pos (length qs), qs ++ waiting [] ∷ [])

abbrev ready : Queue → ℤ
ready (waiting []) = pos 0
ready (waiting (m ∷ ms)) = pos 1
ready hung_up = pos 1

abbrev front : Queue → List ℕ × Queue
front (waiting []) = ([], waiting [])
front (waiting (m ∷ ms)) = (m, waiting ms)
front hung_up = ([], hung_up)

abbrev take_message : List Queue → ℤ → ℤ × List ℕ × List Queue
take_message qs fd = let (m, q) = front (queue_of qs fd) in (pos (length m), m, set_queue qs fd q)

pub record Bytes : Type 0 where
  pub room : ℕ
  pub bytes : List ℕ

abbrev put_bytes : List ℕ → Bytes → Bytes
put_bytes xs b = record b { bytes = b.bytes ++ xs }

abbrev list_eq : List ℕ → List ℕ → Bool
list_eq [] [] = true
list_eq [] (y ∷ ys) = false
list_eq (x ∷ xs) [] = false
list_eq (x ∷ xs) (y ∷ ys) = (x == y) && list_eq xs ys

abbrev bytes_eq : Option Bytes → Option Bytes → Bool
bytes_eq none none = true
bytes_eq none (some c) = false
bytes_eq (some b) none = false
bytes_eq (some b) (some c) = list_eq b.bytes c.bytes

abbrev Bits : Type 0
Bits = (bs : List ℕ) × IsAscendingFrom 0 bs

pub add_bit-IsAscending :
    (c n : ℕ) (bs : List ℕ)
    → c ≤ n
    → n < 2 ^ 31
    → IsAscendingFrom c bs
    → IsAscendingFrom c (add_bit n bs)
unfolding add_bit
add_bit-IsAscending c n [] le small h = (le, small, tt)
add_bit-IsAscending c n (m ∷ ms) le small h = elim (Bool-cases (ltb n m)) [
  | inl below ↦ rw below (le, small, (ground arith, h.1, h.2))
  | inr over ↦ elim (Bool-cases (n == m)) [
    | inl same ↦ rw (over, same) h
    | inr other ↦
        rw (over, other) (h.0, h.1, add_bit-IsAscending (m + 1) n ms (ground arith) small h.2)
  ]
]

pub zero_le : (n : ℕ) → 0 ≤ n
zero_le n = omega arith

pub lt_of_ltb : (n : ℕ) → ltb n (2 ^ 31) ≡ true → n < 2 ^ 31
lt_of_ltb n e = ground arith

unfoldable pub set_in : Bits → (n : ℕ) (fits : Bool) → ltb n (2 ^ 31) ≡ fits → Bits
set_in (bs, h) n true e = (add_bit n bs, add_bit-IsAscending 0 n bs (zero_le n) (lt_of_ltb n e) h)
set_in v n false e = v

pub record Message : Type 0 where
  pub kind : ℕ
  pub hop_limit : ℕ
  pub lifetime : ℕ
  pub message_name : ℕ

abbrev pub message_of : List ℕ → Option Message
message_of (k ∷ h ∷ l ∷ n ∷ rest) =
    some (record { kind = k; hop_limit = h; lifetime = l; message_name = n })
message_of _ = none

-- The machine, where `getopt_long` from the state `n` answers `answer n` and goes on to `after n`.
abbrev pub machine : (ℕ → ℤ × Option String) → (ℕ → ℕ) → Platform
machine answer after = record {
  Os = List Queue;
  socket = λ kind os. new_socket os;
  set_reuse_address = λ fd os. (pos 0, os);
  bind = λ fd address os. (pos 0, os);
  listen = λ fd backlog os. (pos 0, os);
  accept = λ fd address size os. let (new, os') = new_socket os in (new, address, size, os');
  connect = λ fd address os. (pos 0, os);
  poll_in = λ fd timeout os. (ready (queue_of os fd), os);
  recvfrom = λ fd room address size os.
      let (count, bytes, os') = take_message os fd in (count, bytes, address, size, os');
  recv = λ fd room os. take_message os fd;
  sendto = λ fd bytes address size os. (pos (length bytes), os);
  send = λ fd bytes os. (pos (length bytes), os);
  close_fd = λ fd os. (pos 0, set_queue os fd hung_up);
  htons = λ n. n;
  htonl = λ n. n;
  inet_addr = λ address. 0;
  Buffer = Bytes;
  allocate = λ n. record { room = n; bytes = [] };
  allocate_c_string = λ s. record { room = 1; bytes = 1 ∷ [] };
  put_array =
      λ xs b. if leb (length b.bytes + length xs) b.room then some (put_bytes xs b) else none;
  flip = λ b. b;
  overlay = λ b. b.bytes;
  buffer_equals = bytes_eq;
  to_hex_string = λ b. "00";
  BitVector = Bits;
  create_vector = ([], tt);
  set_bit = λ v n. set_in v n (ltb n (2 ^ 31)) refl;
  next_bit_set = λ v n. first_from n v.0;
  number_of_bits_set = λ v. length v.0;
  Name = ℕ;
  create_name = λ s. 0;
  compose_name = λ n s. n + 1;
  name_equals = λ m n. m == n;
  Packet = Message;
  is_interest = λ m. m.kind == 0;
  is_content_object = λ m. m.kind == 1;
  is_manifest = λ m. m.kind == 2;
  create_interest = λ n lifetime key_id hash. record {
    kind = 0;
    hop_limit = 32;
    lifetime = lifetime;
    message_name = n;
  };
  get_hop_limit = λ m. m.hop_limit;
  get_lifetime = λ m. m.lifetime;
  get_name = λ m. m.message_name;
  get_key_id_restriction = λ m. none;
  get_hash_restriction = λ m. none;
  create_content_object =
      λ n payload. record { kind = 1; hop_limit = 0; lifetime = 0; message_name = n };
  create_nameless_object =
      λ payload. record { kind = 1; hop_limit = 0; lifetime = 0; message_name = 0 };
  create_manifest = λ n. record { kind = 2; hop_limit = 0; lifetime = 0; message_name = n };
  KeyLocator = ℕ;
  create_key_locator = λ n. n;
  Signature = Bytes;
  create_signature = λ b. b;
  set_signature = λ m key_id signature locator. m;
  dictionary_encode = λ m. (m.kind ∷ m.hop_limit ∷ []) ∷ (m.lifetime ∷ m.message_name ∷ []) ∷ [];
  create_from_wire_format = λ b. message_of b.bytes;
  meta_is_interest = λ m. m.kind == 0;
  meta_is_content_object = λ m. m.kind == 1;
  meta_is_manifest = λ m. m.kind == 2;
  meta_get_interest = λ m. m;
  meta_get_content_object = λ m. m;
  meta_get_manifest = λ m. m;
  compute_content_object_hash = λ m. some (record { room = 1; bytes = m.kind ∷ [] });
  next_bytes = λ n. 0 ∷ 0 ∷ 0 ∷ 0 ∷ 0 ∷ 0 ∷ 0 ∷ 0 ∷ 0 ∷ 0 ∷ 0 ∷ 0 ∷ 0 ∷ 0 ∷ 0 ∷ 0 ∷ [];
  has_spare_byte = λ s. true;
  words_behind = λ n. 4 ∷ [];
  Getopt = ℕ;
  optind = λ n. n;
  getopt_long = λ n. let (c, argument) = answer n in (c, argument, after n);
  scan_size = λ s. some 1;
}

-- A command line of transports only.
instance abbrev pub desk : Platform
desk = machine (λ n. (pos 116, some "1")) (λ n. n + 1)

-- A command line on which `getopt_long` finds no option.
abbrev pub dead_end : Platform
dead_end = machine (λ n. (negsuc 0, none)) (λ n. n)

pub put_fits :
    (xs : List ℕ) (b : Bytes)
    → length b.bytes + length xs ≤ b.room
    → desk.put_array xs b ≡ some (put_bytes xs b)
put_fits xs b h = ground arith

abbrev pub desk_buffers : BufferLaws desk
desk_buffers = record {
  written = λ b. b.bytes;
  capacity = λ b. b.room;
  written-allocate = λ n. refl;
  capacity-allocate = λ n. refl;
  put = put_bytes;
  put_array-fits = put_fits;
  written-put = λ xs b. refl;
  capacity-put = λ xs b. refl;
  overlay-flip = λ b. refl;
}

pub set_in-add_bit :
    (v : Bits) (n : ℕ) (fits : Bool) (e : ltb n (2 ^ 31) ≡ fits)
    → n < 2 ^ 31
    → (set_in v n fits e).0 ≡ add_bit n v.0
unfolding set_in
set_in-add_bit v n true e small = refl
set_in-add_bit v n false e small = absurd (ground arith)

abbrev pub desk_bits : BitVectorLaws desk
desk_bits = record {
  bits = λ v. v.0;
  bits-create = refl;
  bits-set = λ v n small. set_in-add_bit v n (ltb n (2 ^ 31)) refl small;
  next-bits = λ v n. refl;
  number-bits = λ v. refl;
  bits-IsAscending = λ v. v.1;
}

abbrev pub desk_codec : CodecLaws desk
desk_codec = record {
  rebuilt = λ m. m;
  rebuild = λ m b written. ap message_of written;
  hash = λ m. record { room = 1; bytes = m.kind ∷ [] };
  hashes = λ m. refl;
}
