-- ===== src/Script/Execute/Ensures.antt =====
-- Commands that return only values with a given property, and what loops over the bits of a vector
-- keep. Whether a command returns is not asked here.
use ccnx_testrig.Prelude.{
  ℕ, zero, suc, ℤ, negsuc, ◌+◌, ◌≡◌, subst, Bool, true, false, ltb, if◌then◌else◌,
}
use ccnx_testrig.Run.{Cmd, ok, stop, and_then-eq-ok, pure, ◌>>=◌, Stop, out_of_fuel}
use ccnx_testrig.Platform.{Platform}
use ccnx_testrig.World.{VectorPointer, World, load_vector}
use ccnx_testrig.Script.Execute.{
  Round, next_round, leave, result_of, bit_rounds, bit_loop, bit_after,
}

module _ ⦃p : Platform⦄ where
  -- A command that returns only values with the given property.
  pub record Ensures {A : Type 0} (Q : A → Type 0) (m : Cmd World A) : Type 0 where
    pub ensured : (w : World) (a : A) (w' : World) → m w ≡ ok a w' → Q a

module _ ⦃p : Platform⦄ {A : Type 0} {Q : A → Type 0} where
  pub Ensures-pure : (a : A) → Q a → Ensures Q (pure a)
  Ensures-pure a h = record { ensured = λ w b w' e. let same : a ≡ b = cc in subst Q same h }

  pub Ensures-stop : (why : Stop) → Ensures Q (stop why)
  Ensures-stop why = record { ensured = λ w b w' e. absurd (cc) }

  pub Ensures-if :
      (b : Bool) (m n : Cmd World A) → Ensures Q m → Ensures Q n → Ensures Q (if b then m else n)
  Ensures-if true m n fm fn = fm
  Ensures-if false m n fm fn = fn

  pub Ensures-bind :
      {B : Type 0} (R : B → Type 0) (m : Cmd World B) (k : B → Cmd World A)
      → Ensures R m
      → ((b : B) → R b → Ensures Q (k b))
      → Ensures Q (m >>= k)
  Ensures-bind R m k fm fk = record {
    ensured = λ w a w' e.
        let (b, w1, e1, e2) = and_then-eq-ok (m w) k e in
        (fk b (fm.ensured w b w1 e1)).ensured w1 a w' e2;
  }

  -- Nothing needs to be known of the first part.
  pub Ensures-after :
      {B : Type 0} (m : Cmd World B) (k : B → Cmd World A)
      → ((b : B) → Ensures Q (k b))
      → Ensures Q (m >>= k)
  Ensures-after m k fk = record {
    ensured =
        λ w a w' e. let (b, w1, e1, e2) = and_then-eq-ok (m w) k e in (fk b).ensured w1 a w' e2;
  }

module _ ⦃p : Platform⦄ {A : Type 0} (P : A → Type 0) where
  -- What a round keeps, the loop keeps.
  bit_rounds-Ensures :
      (over : VectorPointer) (body : ℤ → A → Cmd World (Round A))
      → ((bit : ℤ) (a : A) → P a → Ensures (λ r. P (result_of r)) (body bit a))
      → (rounds i : ℕ) (current : ℤ) (a : A) → P a
      → Ensures (λ r. P (result_of r)) (bit_rounds over body rounds i current a)
  unfolding bit_rounds
  bit_rounds-Ensures over body keeps zero i current a h = Ensures-stop out_of_fuel
  bit_rounds-Ensures over body keeps (suc rounds) i current a h =
      Ensures-after (load_vector over) _ λ v.
        Ensures-if (ltb i (p.number_of_bits_set v)) _ _
          (Ensures-bind (λ r. P (result_of r)) _ _
            (keeps (p.next_bit_set v (bit_after current)) a h)
            (elim [
              | leave b ↦ λ hb. Ensures-pure (leave b) hb
              | next_round b ↦ λ hb.
                  bit_rounds-Ensures over body keeps rounds (i + 1)
                    (p.next_bit_set v (bit_after current)) b hb
            ]))
          (Ensures-pure (next_round a) h)

  pub bit_loop-Ensures :
      (over : VectorPointer) (body : ℤ → A → Cmd World (Round A))
      → ((bit : ℤ) (a : A) → P a → Ensures (λ r. P (result_of r)) (body bit a))
      → (a : A) → P a
      → Ensures (λ r. P (result_of r)) (bit_loop over body a)
  unfolding bit_loop
  bit_loop-Ensures over body keeps a h =
      Ensures-after (load_vector over) _
        λ v. bit_rounds-Ensures over body keeps (p.number_of_bits_set v + 1) 0 (negsuc 0) a h
