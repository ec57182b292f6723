-- ===== src/Suite/Drawn.antt =====
-- Names and hashes in the suite: what `_createRandomName` of src/ccnxTestrig_Suite.c draws, and the
-- hash of what the codec rebuilds from a packet.
use ccnx_testrig.Prelude.{ℕ, ◌+◌, ◌≤◌, ◌≡◌, refl, ap, String, length, arith}
use ccnx_testrig.Run.{ok}
use ccnx_testrig.Platform.{Platform}
use ccnx_testrig.Platform.Laws.{BufferLaws, CodecLaws}
use ccnx_testrig.Packet.{compute_message_hash}
use ccnx_testrig.Packet.Encode.{encode_packet-concat}
use ccnx_testrig.World.{World}
use ccnx_testrig.Suite.RandomName.{create_random_name}

module _ ⦃p : Platform⦄ (buffers : BufferLaws p) where
  -- The name that is made of a prefix and the bytes of the n-th draw.
  abbrev pub drawn_name : String → ℕ → p.Name
  drawn_name prefix n =
      p.compose_name (p.create_name prefix)
        (p.to_hex_string (p.flip (buffers.put (p.next_bytes n) (p.allocate 16))))

  -- Creating a random name draws once and returns the name.
  pub create_random_name-drawn :
      (prefix : String) (w : World)
      → length (p.next_bytes w.draws) ≤ 16
      → create_random_name prefix w
        ≡ ok (drawn_name prefix w.draws) (record w { draws = w.draws + 1 })
  unfolding create_random_name
  create_random_name-drawn prefix w fits =
      rw
        (buffers.put_array-fits (p.next_bytes w.draws) (p.allocate 16) (
          omega
            (arith, fits, ap length (buffers.written-allocate 16), buffers.capacity-allocate 16)))
        refl

  module _ (codec : CodecLaws p) where
    abbrev pub hash_of : p.Packet → p.Buffer
    hash_of packet = codec.hash packet

    -- The hash of a packet is that of the message that the codec rebuilds, and computing it changes
    -- nothing.
    pub compute_message_hash-hash_of :
        {S : Type 0} (packet : p.Packet) (s : S)
        → compute_message_hash packet s ≡ ok (hash_of packet) s
    unfolding compute_message_hash
    compute_message_hash-hash_of packet s =
        let (b, encoded, bytes) = encode_packet-concat buffers packet s in
        rw (encoded, codec.rebuild packet b bytes, codec.hashes packet) refl
