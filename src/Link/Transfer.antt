-- ===== src/Link/Transfer.antt =====
-- What receiving on a link answers, and that it touches no other link.
use ccnx_testrig.Prelude.{
  ℕ, ℤ, pos, negsuc, int_eq, Bool, true, false, not, ◌&&◌, Option, none, some, List, [], ◌∷◌, ◌++◌,
  length, take, ◌+◌, ◌≤◌, suc, zero, ◌≡◌, refl, ◌∙◌, ap, arith, inl, inr, Bool-cases, if◌then◌else◌,
}
use mathlib.Core.Option
use ccnx_testrig.Run.{Run, ok, Returns, returns, Stops, stops, negative_length}
use ccnx_testrig.Platform.{Platform}
use ccnx_testrig.Platform.Laws.{BufferLaws}
use ccnx_testrig.Link.{
  Link, Net, mtu, received_buffer, keep_datagram, keep_stream, udp_receive, tcp_receive,
}

length-take_le : (k : ℕ) (xs : List ℕ) → length (take k xs) ≤ k
length-take_le zero xs = omega arith
length-take_le (suc k) [] = omega arith
length-take_le (suc k) (x ∷ xs) = omega (arith, length-take_le k xs)

-- `poll` answers neither 0, a timeout, nor -1, an error.
abbrev pub is_readable : ℤ → Bool
is_readable res = not (int_eq res (pos 0)) && not (int_eq res (negsuc 0))

-- The bytes that a count and an array stand for; nothing for a negative count.
abbrev pub taken : ℤ → List ℕ → Option (List ℕ)
taken (pos count) bytes = some (take count bytes)
taken (negsuc _) bytes = none

module _ ⦃p : Platform⦄ where
  -- The datagram that the system delivers, if any.
  abbrev pub datagram_for : Link → ℤ → Net → Option (List ℕ)
  datagram_for link timeout n =
      let (res, os1) = p.poll_in link.socket timeout n.os in
      let (count, bytes, _, _, _) =
        p.recvfrom link.socket mtu link.target_address link.target_address_length os1 in
      if is_readable res then taken count bytes else none

module _ ⦃p : Platform⦄ (laws : BufferLaws p) where
  open laws use {written, capacity}

  pub received_buffer-overlay :
      (count : ℕ) (bytes : List ℕ) (n : Net)
      → (b : p.Buffer) × (received_buffer (pos count) bytes n ≡ ok b n)
        × (p.overlay b ≡ take count bytes)
  unfolding received_buffer
  received_buffer-overlay count bytes n =
      let fresh = p.allocate count in
      let empty : written fresh ≡ [] = laws.written-allocate count in
      let fits : length (written fresh) + length (take count bytes) ≤ capacity fresh =
        omega (arith, ap length empty, laws.capacity-allocate count, length-take_le count bytes) in
      (
        p.flip (laws.put (take count bytes) fresh),
        rw (laws.put_array-fits (take count bytes) fresh fits),
        laws.overlay-flip (laws.put (take count bytes) fresh)
            ∙ laws.written-put (take count bytes) fresh
            ∙ ap (λ (xs : List ℕ). xs ++ take count bytes) empty,
      )

  -- What a receive leaves: the answer holds exactly the given bytes, and no link was written.
  abbrev pub Delivers : Option (List ℕ) → Net → Option p.Buffer × Link → Net → Type 0
  Delivers bytes n (answer, link') n' = (Option.map p.overlay answer ≡ bytes) × (n'.links ≡ n.links)

  keep_datagram-Delivers :
      (link : Link) (count : ℤ) (bytes : List ℕ) (n n' : Net)
      → n'.links ≡ n.links
      → Returns (Delivers (taken count bytes) n) (keep_datagram link count bytes n')
  unfolding keep_datagram
  keep_datagram-Delivers link (negsuc k) bytes n n' same = returns (refl, same)
  keep_datagram-Delivers link (pos k) bytes n n' same =
      let (b, e, holds) = received_buffer-overlay k bytes n' in rw e (returns (ap some holds, same))

  -- Receiving over UDP always returns, without writing to a link of the store. It answers no buffer
  -- after a timeout, after a failed `poll` and after a failed `recvfrom`; else a buffer that holds
  -- exactly the bytes that `recvfrom` counted.
  pub udp_receive-datagram :
      (link : Link) (timeout : ℤ) (n : Net)
      → Returns (Delivers (datagram_for link timeout n) n) (udp_receive link timeout n)
  unfolding udp_receive
  udp_receive-datagram link timeout n =
      let res = (p.poll_in link.socket timeout n.os).0 in
      elim (Bool-cases (int_eq res (pos 0))) [
        | inl timed_out ↦ rw timed_out (returns (refl, refl))
        | inr ready ↦ elim (Bool-cases (int_eq res (negsuc 0))) [
          | inl failed ↦ rw (ready, failed) (returns (refl, refl))
          | inr readable ↦ rw (ready, readable) (keep_datagram-Delivers _ _ _ n _ refl)
        ]
      ]

  -- The answer of a TCP receive to the result of `recv`: a negative count is handed on as a size
  -- and stops the program; any other count, 0 after the peer has closed included, is a buffer.
  abbrev pub StreamAnswer : Net → ℤ → List ℕ → Run Net (Option p.Buffer × Link) → Type 0
  StreamAnswer n (negsuc _) bytes r = Stops negative_length r
  StreamAnswer n (pos count) bytes r = Returns (Delivers (some (take count bytes)) n) r

  keep_stream-StreamAnswer :
      (link : Link) (count : ℤ) (bytes : List ℕ) (n n' : Net)
      → n'.links ≡ n.links
      → StreamAnswer n count bytes (keep_stream link count bytes n')
  unfolding keep_stream received_buffer
  keep_stream-StreamAnswer link (negsuc k) bytes n n' same = stops
  keep_stream-StreamAnswer link (pos k) bytes n n' same =
      let (b, e, holds) = received_buffer-overlay k bytes n' in rw e (returns (ap some holds, same))

  -- Receiving over TCP on a link whose peer's socket is set: no buffer after a timeout or a failed
  -- `poll`; else `recv` decides. A negative count stops the program, and every other count, 0
  -- included, is answered by a buffer with exactly that many of the array's bytes.
  pub tcp_receive-stream :
      (link : Link) (timeout fd : ℤ) (n : Net)
      → link.target_socket ≡ some fd
      → let (res, os1) = p.poll_in fd timeout n.os in
        let (count, bytes, _) = p.recv fd mtu os1 in
        (is_readable res ≡ false → Returns (Delivers none n) (tcp_receive link timeout n))
        × (is_readable res ≡ true → StreamAnswer n count bytes (tcp_receive link timeout n))
  unfolding tcp_receive
  tcp_receive-stream link timeout fd n has =
      let res = (p.poll_in fd timeout n.os).0 in
      elim (Bool-cases (int_eq res (pos 0))) [
        | inl timed_out ↦ rw (has, timed_out) (λ _. returns (refl, refl), λ e. absurd (cc))
        | inr ready ↦ elim (Bool-cases (int_eq res (negsuc 0))) [
          | inl failed ↦ rw (has, ready, failed) (λ _. returns (refl, refl), λ e. absurd (cc))
          | inr readable ↦
              rw (has, ready, readable)
                (λ e. absurd (cc), λ _. keep_stream-StreamAnswer _ _ _ n _ refl)
        ]
      ]
