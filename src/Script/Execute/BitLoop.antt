-- ===== src/Script/Execute/BitLoop.antt =====
-- The loops over the set bits of a vector visit each bit once, in ascending order.
use ccnx_testrig.Prelude.{
  ℕ, zero, suc, ℤ, pos, negsuc, ◌+◌, ◌≤◌, ◌<◌, ◌≡◌, refl, sym, ap, ◌∙◌, true, false, some, List, [],
  ◌∷◌, ◌++◌, append_assoc, arith, ltb, get_elem?, length, length-append,
}
use ccnx_testrig.Run.{Cmd, ok, ending, returned, stopped, ◌>>=◌, pure}
use ccnx_testrig.Platform.{Platform}
use ccnx_testrig.Platform.Laws.{BitVectorLaws, IsAscendingFrom, first_from}
use ccnx_testrig.World.{VectorPointer, World}
use ccnx_testrig.Script.Execute.{Round, next_round, leave, bit_after, bit_rounds, bit_loop}

abbrev pub AllBelow : ℕ → List ℕ → Type 0
AllBelow c [] = Unit
AllBelow c (n ∷ ns) = (n < c) × AllBelow c ns

AllBelow-mono : (c d : ℕ) (ns : List ℕ) → c ≤ d → AllBelow c ns → AllBelow d ns
AllBelow-mono c d [] le h = tt
AllBelow-mono c d (n ∷ ns) le h = (omega arith, AllBelow-mono c d ns le h.1)

AllBelow-append : (c : ℕ) (ns ms : List ℕ) → AllBelow c ns → AllBelow c ms → AllBelow c (ns ++ ms)
AllBelow-append c [] ms hn hm = hm
AllBelow-append c (n ∷ ns) ms hn hm = (hn.0, AllBelow-append c ns ms hn.1 hm)

first_from-append :
    (c b : ℕ) (done rest : List ℕ)
    → AllBelow c done
    → c ≤ b
    → first_from c (done ++ b ∷ rest) ≡ pos b
unfolding first_from
first_from-append c b [] rest below le = ground arith
first_from-append c b (n ∷ done) rest below le =
    ground (arith, first_from-append c b done rest below.1)

module _ ⦃p : Platform⦄ {A : Type 0} where
  -- The loop as a recursion on the bits.
  unfoldable pub each_bit : (ℤ → A → Cmd World (Round A)) → List ℕ → A → Cmd World (Round A)
  each_bit body [] a = pure (next_round a)
  each_bit body (b ∷ bs) a = do
    r ← body (pos b) a
    elim r [ leave c ↦ pure (leave c) | next_round c ↦ each_bit body bs c ]

  -- A round leaves the vector that the loop runs over alone.
  abbrev pub KeepsVector : VectorPointer → (ℤ → A → Cmd World (Round A)) → Type 0
  KeepsVector at body =
      (bit : ℤ) (a : A) (w : World) (r : Round A) (w' : World)
      → body bit a w ≡ ok r w'
      → get_elem? w'.vectors at ≡ get_elem? w.vectors at

module _ ⦃p : Platform⦄ (laws : BitVectorLaws p) {A : Type 0} (at : VectorPointer)
    (body : ℤ → A → Cmd World (Round A)) (keeps : KeepsVector at body) (v : p.BitVector) where
  open laws use {bits}

  bit_rounds-each_bit :
      (rounds : ℕ) (done rest : List ℕ) (i : ℕ) (current : ℤ) (a : A) (w : World)
      → bits v ≡ done ++ rest
      → i ≡ length done
      → AllBelow (bit_after current) done
      → IsAscendingFrom (bit_after current) rest
      → length rest < rounds
      → get_elem? w.vectors at ≡ some v
      → bit_rounds at body rounds i current a w ≡ each_bit body rest a w
  unfolding bit_rounds each_bit
  bit_rounds-each_bit zero done rest i current a w split count below ascends fuel has =
      absurd (omega arith)
  bit_rounds-each_bit (suc rounds) done [] i current a w split count below ascends fuel has =
      let over : ltb i (p.number_of_bits_set v) ≡ false =
        ground (arith, laws.number-bits v, ap length split, length-append done []) in
      rw has (rw over)
  bit_rounds-each_bit (suc rounds) done (b ∷ bs) i current a w split count below ascends fuel has =
      let more : ltb i (p.number_of_bits_set v) ≡ true =
        ground (arith, laws.number-bits v, ap length split, length-append done (b ∷ bs)) in
      let here : p.next_bit_set v (bit_after current) ≡ pos b =
        laws.next-bits v (bit_after current)
        ∙ ap (first_from (bit_after current)) split
        ∙ first_from-append (bit_after current) b done bs below ascends.0 in
      let after : bit_after (pos b) ≡ b + 1 = omega arith in
      rw has (
        rw more (
          rw here (elim (ending (body (pos b) a w)) [
            | stopped why w' e ↦ rw e
            | returned (leave c) w' e ↦ rw e
            | returned (next_round c) w' e ↦ rw e (
                rw here (
                  bit_rounds-each_bit rounds (done ++ b ∷ []) bs (i + 1) (pos b) c w'
                    (split ∙ sym (append_assoc done (b ∷ []) bs))
                    (omega (arith, length-append done (b ∷ [])))
                    (AllBelow-append (bit_after (pos b)) done (b ∷ [])
                      (AllBelow-mono (bit_after current) (bit_after (pos b)) done (omega arith)
                        below)
                      (omega arith))
                    (rw after ascends.2) (omega arith)
                    (keeps (pos b) a w (next_round c) w' e ∙ has)))
          ])))

  -- The loop over the bits of a vector that its rounds leave alone runs its body on each set bit
  -- once, in ascending order, up to the round that leaves it; it never runs out of rounds.
  pub bit_loop-each_bit :
      (a : A) (w : World)
      → get_elem? w.vectors at ≡ some v
      → bit_loop at body a w ≡ each_bit body (bits v) a w
  unfolding bit_loop
  bit_loop-each_bit a w has = rw has (
      bit_rounds-each_bit (p.number_of_bits_set v + 1) [] (bits v) 0 (negsuc 0) a w refl refl tt
        (laws.bits-IsAscending v) (omega (arith, laws.number-bits v)) has)
