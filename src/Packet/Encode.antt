-- ===== src/Packet/Encode.antt =====
-- A packet in its wire format.
use ccnx_testrig.Prelude.{
  ℕ, ◌+◌, ◌≤◌, ◌≡◌, refl, ◌∙◌, ap, sym, List, [], ◌∷◌, ◌++◌, append-nil, append_assoc, arith,
  length, length-append, Option-cases, inl, inr,
}
use ccnx_testrig.Run.{ok, and_then-eq-ok}
use ccnx_testrig.Platform.{Platform}
use ccnx_testrig.Platform.Laws.{BufferLaws, concat}
use ccnx_testrig.Packet.{total_bytes, put_pieces, encode_packet}

total_bytes_lem :
    (total : ℕ) (pieces : List (List ℕ)) → total_bytes total pieces ≡ total + length (concat pieces)
unfolding total_bytes
total_bytes_lem total [] = omega arith
total_bytes_lem total (piece ∷ pieces) =
    omega
      (arith, total_bytes_lem (total + length piece) pieces, length-append piece (concat pieces))

module _ ⦃p : Platform⦄ (laws : BufferLaws p) where
  open laws use {written, capacity}

  -- Pieces that fit the room left are all put, in order.
  put_pieces-written :
      {S : Type 0} (pieces : List (List ℕ)) (b : p.Buffer) (s : S)
      → length (written b) + length (concat pieces) ≤ capacity b
      → (b' : p.Buffer) × (put_pieces pieces b s ≡ ok b' s)
        × (written b' ≡ written b ++ concat pieces)
  unfolding put_pieces
  put_pieces-written [] b s fits = (b, refl, sym (append-nil _))
  put_pieces-written (piece ∷ pieces) b s fits =
      let b' = laws.put piece b in
      let (out, e, w) = put_pieces-written pieces b' s (
        omega (
          arith,
          ap length (laws.written-put piece b),
          length-append (written b) piece,
          laws.capacity-put piece b,
          length-append piece (concat pieces),
        )) in
      (
        out,
        rw (laws.put_array-fits piece b (omega (arith, length-append piece (concat pieces)))) e,
        w
            ∙ ap (λ (xs : List ℕ). xs ++ concat pieces) (laws.written-put piece b)
            ∙ append_assoc (written b) piece (concat pieces),
      )

  -- Where PARC's buffers behave as documented, encoding always returns: the buffer that it
  -- allocates is never too small, and it reads as the codec's pieces one after the other.
  pub encode_packet-concat :
      {S : Type 0} (dict : p.Packet) (s : S)
      → (b : p.Buffer) × (encode_packet dict s ≡ ok b s)
        × (p.overlay b ≡ concat (p.dictionary_encode dict))
  unfolding encode_packet
  encode_packet-concat dict s =
      let pieces = p.dictionary_encode dict in
      let fresh = p.allocate (total_bytes 0 pieces) in
      let empty : written fresh ≡ [] = laws.written-allocate (total_bytes 0 pieces) in
      let (b, e, w) = put_pieces-written pieces fresh s (
        omega (
          arith,
          ap length empty,
          laws.capacity-allocate (total_bytes 0 pieces),
          total_bytes_lem 0 pieces,
        )) in
      (p.flip b, rw e, laws.overlay-flip b ∙ w ∙ ap (λ (xs : List ℕ). xs ++ concat pieces) empty)

module _ ⦃p : Platform⦄ {S : Type 0} where
  put_pieces-same :
      (pieces : List (List ℕ)) (b b' : p.Buffer) (s s' : S)
      → put_pieces pieces b s ≡ ok b' s'
      → s' ≡ s
  unfolding put_pieces
  put_pieces-same [] b b' s s' e = cc
  put_pieces-same (piece ∷ pieces) b b' s s' e = elim (Option-cases (p.put_array piece b)) [
    | inl full ↦ absurd (let none_left = rw full at e in cc)
    | inr (c, put) ↦ put_pieces-same pieces c b' s s' (rw put at e)
  ]

  -- Encoding leaves the state as it was.
  pub encode_packet-same :
      (dict : p.Packet) (b : p.Buffer) (s s' : S) → encode_packet dict s ≡ ok b s' → s' ≡ s
  unfolding encode_packet
  encode_packet-same dict b s s' e =
      let (filled, s1, put, done) =
        and_then-eq-ok
          (put_pieces (p.dictionary_encode dict)
            (p.allocate (total_bytes 0 (p.dictionary_encode dict))) s)
          _ e in
      let last : s' ≡ s1 = cc in last ∙ put_pieces-same _ _ _ _ _ put
