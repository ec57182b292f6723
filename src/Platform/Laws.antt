-- ===== src/Platform/Laws.antt =====
-- What is relied on of the parts that the program does not implement, as their documentation has
-- it.
use ccnx_testrig.Prelude.{
  ℕ, ℤ, pos, negsuc, ◌+◌, ◌^◌, ◌≤◌, ◌<◌, ◌≡◌, List, [], ◌∷◌, ◌++◌, some, length, leb, ltb,
  if◌then◌else◌, ◌==◌,
}
use ccnx_testrig.Platform.{Platform}

-- Pieces one after the other.
abbrev pub concat : List (List ℕ) → List ℕ
concat [] = []
concat (piece ∷ pieces) = piece ++ concat pieces

-- A PARC buffer has a capacity and the bytes put into it so far; bytes that fit are put behind
-- those, and flipping the buffer makes just these bytes the ones to read.
pub record BufferLaws (p : Platform) : Type 0 where
  pub written : p.Buffer → List ℕ
  pub capacity : p.Buffer → ℕ
  pub written-allocate : (n : ℕ) → written (p.allocate n) ≡ []
  pub capacity-allocate : (n : ℕ) → capacity (p.allocate n) ≡ n
  pub put : List ℕ → p.Buffer → p.Buffer
  pub put_array-fits :
      (xs : List ℕ) (b : p.Buffer)
      → length (written b) + length xs ≤ capacity b
      → p.put_array xs b ≡ some (put xs b)
  pub written-put : (xs : List ℕ) (b : p.Buffer) → written (put xs b) ≡ written b ++ xs
  pub capacity-put : (xs : List ℕ) (b : p.Buffer) → capacity (put xs b) ≡ capacity b
  pub overlay-flip : (b : p.Buffer) → p.overlay (p.flip b) ≡ written b

-- A bit into an ascending list of bits, once.
unfoldable pub add_bit : ℕ → List ℕ → List ℕ
add_bit n [] = n ∷ []
add_bit n (m ∷ ms) = if ltb n m then n ∷ m ∷ ms else (if n == m then m ∷ ms else m ∷ add_bit n ms)

-- The first of the bits that is at least `n`, and -1 if there is none.
unfoldable pub first_from : ℕ → List ℕ → ℤ
first_from n [] = negsuc 0
first_from n (m ∷ ms) = if leb n m then pos m else first_from n ms

-- Bits from `c` on, each below the next, all of which fit an `int`.
abbrev pub IsAscendingFrom : ℕ → List ℕ → Type 0
IsAscendingFrom c [] = Unit
IsAscendingFrom c (n ∷ ns) = (c ≤ n) × (n < 2 ^ 31) × IsAscendingFrom (n + 1) ns

-- A PARC bit vector is the ascending list of its set bits.
pub record BitVectorLaws (p : Platform) : Type 0 where
  pub bits : p.BitVector → List ℕ
  pub bits-create : bits p.create_vector ≡ []
  pub bits-set : (v : p.BitVector) (n : ℕ) → n < 2 ^ 31 → bits (p.set_bit v n) ≡ add_bit n (bits v)
  pub next-bits : (v : p.BitVector) (n : ℕ) → p.next_bit_set v n ≡ first_from n (bits v)
  pub number-bits : (v : p.BitVector) → p.number_of_bits_set v ≡ length (bits v)
  pub bits-IsAscending : (v : p.BitVector) → IsAscendingFrom 0 (bits v)

-- The codec rebuilds a message from a buffer that holds the pieces into which it encodes a packet, and
-- that message has a digest.
pub record CodecLaws (p : Platform) : Type 0 where
  pub rebuilt : p.Packet → p.Packet
  pub rebuild :
      (packet : p.Packet) (b : p.Buffer)
      → p.overlay b ≡ concat (p.dictionary_encode packet)
      → p.create_from_wire_format b ≡ some (rebuilt packet)
  pub hash : p.Packet → p.Buffer
  pub hashes :
      (packet : p.Packet) → p.compute_content_object_hash (rebuilt packet) ≡ some (hash packet)
