-- ===== src/Script/Execute/Send.antt =====
-- Sending a packet.
use ccnx_testrig.Prelude.{
  ℕ, ℤ, pos, ◌-◌, ◌^◌, ◌≡◌, refl, ◌∙◌, ap, subst, some, List, [], ◌∷◌, get_elem?, arith,
}
use ccnx_testrig.Run.{ok, stop, zoom, Returns, returns, Stops, stops, null_pointer}
use ccnx_testrig.Platform.{Platform}
use ccnx_testrig.Platform.Laws.{BitVectorLaws, BufferLaws, IsAscendingFrom, concat, first_from}
use ccnx_testrig.TestResult.{TestResult, log_packet}
use ccnx_testrig.Packet.Encode.{encode_packet-concat}
use ccnx_testrig.Link.{Net, send_buffer}
use ccnx_testrig.World.{Step, World, Rig, to_unsigned}
use ccnx_testrig.Rig.{get_link_by_id}
use ccnx_testrig.Script.Execute.{execute_send_step}

module _ ⦃p : Platform⦄ (rig : Rig) (packet : p.Packet) where
  -- What one transmission leaves: one buffer is logged, it reads as the packet's wire format, and the
  -- net is that after sending this buffer once, on the link with the given number.
  abbrev pub SentOn : ℕ → TestResult → World → TestResult → World → Type 0
  SentOn id r w r' w' =
      (b : p.Buffer) × (val : ℤ) × (n : Net) × (p.overlay b ≡ concat (p.dictionary_encode packet))
      × (send_buffer (get_link_by_id rig id) b w.net ≡ ok val n)
      × (r' ≡ log_packet r b)
      × (w' ≡ record w { net = n })

  unlinked :
      (b : p.Buffer) (n : Net)
      → send_buffer (get_link_by_id rig (2 ^ 32 - 1)) b n ≡ stop null_pointer n
  unfolding get_link_by_id send_buffer
  unlinked b n = refl

module _ ⦃p : Platform⦄ (laws : BitVectorLaws p) (v : p.BitVector) where
  -- The lowest bit as the number of a link.
  mask_of : (b : ℕ) (bs : List ℕ) → laws.bits v ≡ b ∷ bs → to_unsigned (p.next_bit_set v 0) ≡ b
  unfolding first_from
  mask_of b bs split =
      let first : p.next_bit_set v 0 ≡ pos b =
        laws.next-bits v 0 ∙ ap (first_from 0) split ∙ ground arith in
      let small = subst (IsAscendingFrom 0) split (laws.bits-IsAscending v) in
      ap to_unsigned first ∙ omega arith

  mask_of_empty : laws.bits v ≡ [] → to_unsigned (p.next_bit_set v 0) ≡ 2 ^ 32 - 1
  unfolding first_from
  mask_of_empty empty = ap to_unsigned (laws.next-bits v 0 ∙ ap (first_from 0) empty)

module _ ⦃p : Platform⦄ (buffers : BufferLaws p) (laws : BitVectorLaws p) (step : Step) (rig : Rig)
    (packet : p.Packet) (sends : step.packet ≡ some packet) (v : p.BitVector) where
  -- If sending the packet's wire format on the lowest link of the step's vector returns, a send step or a
  -- respond step whose vector holds links returns and has made just one transmission, on the lowest of
  -- them and on no other. With no link in its vector the step reads through `NULL`.
  pub execute_send_step-lowest :
      (r : TestResult) (w : World)
      → get_elem? w.vectors step.link_vector ≡ some v
      → ((b : ℕ) (bs : List ℕ) (buffer : p.Buffer)
          → laws.bits v ≡ b ∷ bs
          → p.overlay buffer ≡ concat (p.dictionary_encode packet)
          → (val : ℤ) × (n : Net) × (send_buffer (get_link_by_id rig b) buffer w.net ≡ ok val n))
      → ((b : ℕ) (bs : List ℕ)
          → laws.bits v ≡ b ∷ bs
          → Returns (SentOn rig packet b r w) (execute_send_step step r rig w))
        × (laws.bits v ≡ [] → Stops null_pointer (execute_send_step step r rig w))
  unfolding execute_send_step
  execute_send_step-lowest r w has sending =
      let (buffer, encoded, reads) = encode_packet-concat buffers packet w in
      (
        λ b bs split.
            let (val, n, sent) = sending b bs buffer split reads in
            rw sends (
              rw encoded (
                rw has (
                  rw (mask_of laws v b bs split)
                    (rw (sent, zoom) (returns (buffer, val, n, reads, sent, refl, refl)))))),
        λ empty. rw sends (
            rw encoded (
              rw has (
                rw (mask_of_empty laws v empty)
                  (rw (unlinked rig packet buffer w.net, zoom) stops)))),
      )
