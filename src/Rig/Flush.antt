-- ===== src/Rig/Flush.antt =====
-- Flushing the links: `ccnxTestrig_FlushLinks` of src/ccnxTestrig.c.
use ccnx_testrig.Prelude.{ℕ, zero, suc, pos, ◌≤◌, ◌<◌, ◌≡◌, refl, Option, none, some, arith}
use ccnx_testrig.Run.{ok, stop, Returns, returns, Stops, stops, out_of_fuel}
use ccnx_testrig.Platform.{Platform}
use ccnx_testrig.Link.{LinkPointer, Net, receive_with_timeout}
use ccnx_testrig.World.{Rig}
use ccnx_testrig.Rig.{drain_link, flush_links}

module _ ⦃p : Platform⦄ where
  -- From one net to another by receives on a link that all yield a buffer but the last.
  pub data Drains (at : Option LinkPointer) : Net → Net → Type 0 where
    silent : {n n' : Net} → receive_with_timeout at (pos 100) n ≡ ok none n' → Drains at n n'
    heard :
        {n n1 n' : Net} {b : p.Buffer}
        → receive_with_timeout at (pos 100) n ≡ ok (some b) n1
        → Drains at n1 n'
        → Drains at n n'

  -- A receive that returns and leaves a net that is ready again: it yields nothing, or a buffer
  -- after which less is pending.
  pub data Answers (Ready : Net → Type 0) (pending : Net → ℕ) (at : Option LinkPointer) (n : Net)
      : Type 0 where
    nothing :
        {n' : Net}
        → receive_with_timeout at (pos 100) n ≡ ok none n'
        → Ready n'
        → pending n' ≤ pending n
        → Answers Ready pending at n
    something :
        {n' : Net} {b : p.Buffer}
        → receive_with_timeout at (pos 100) n ≡ ok (some b) n'
        → Ready n'
        → pending n' < pending n
        → Answers Ready pending at n

module _ ⦃p : Platform⦄ (Ready : Net → Type 0) (pending : Net → ℕ) where
  drain_link-Drains :
      (at : Option LinkPointer)
      → ((n : Net) → Ready n → Answers Ready pending at n)
      → (rounds : ℕ) (n : Net) → Ready n
      → pending n < rounds
      → (n' : Net) × (drain_link rounds at n ≡ ok tt n')
        × Drains at n n'
        × Ready n'
        × (pending n' ≤ pending n)
  unfolding drain_link
  drain_link-Drains at answers zero n ready h = absurd (omega arith)
  drain_link-Drains at answers (suc rounds) n ready h = elim (answers n ready) [
    | nothing {n'} answered ready' le ↦ (n', rw answered refl, silent answered, ready', le)
    | something {n'} answered ready' less ↦
        let (n2, drained, drains, ready2, le) =
          drain_link-Drains at answers rounds n' ready' (omega arith) in
        (n2, rw answered drained, heard answered drains, ready2, omega arith)
  ]

  -- If on each of the three links every receive returns, and one that yields a buffer leaves less
  -- pending, then flushing with more rounds than is pending returns, and it has received on link A,
  -- then on link B, then on link C, on each until a receive yielded nothing.
  pub flush_links-Drains :
      (rig : Rig) (rounds : ℕ) (n : Net)
      → ((m : Net) → Ready m → Answers Ready pending rig.link_a m)
      → ((m : Net) → Ready m → Answers Ready pending rig.link_b m)
      → ((m : Net) → Ready m → Answers Ready pending rig.link_c m)
      → Ready n
      → pending n < rounds
      → Returns
          (λ _ n'.
            (n1 : Net) × (n2 : Net) × Drains rig.link_a n n1
            × Drains rig.link_b n1 n2
            × Drains rig.link_c n2 n')
          (flush_links rounds rig n)
  unfolding flush_links
  flush_links-Drains rig rounds n on_a on_b on_c ready h =
      let (n1, drained_a, drains_a, ready1, le1) =
        drain_link-Drains rig.link_a on_a rounds n ready h in
      let (n2, drained_b, drains_b, ready2, le2) =
        drain_link-Drains rig.link_b on_b rounds n1 ready1 (omega arith) in
      let (n3, drained_c, drains_c, _, _) =
        drain_link-Drains rig.link_c on_c rounds n2 ready2 (omega arith) in
      rw drained_a (rw drained_b (rw drained_c (returns (n1, n2, drains_a, drains_b, drains_c))))

  -- Then what is left is ready again.
  pub flush_links-Ready :
      (rig : Rig) (rounds : ℕ) (n : Net)
      → ((m : Net) → Ready m → Answers Ready pending rig.link_a m)
      → ((m : Net) → Ready m → Answers Ready pending rig.link_b m)
      → ((m : Net) → Ready m → Answers Ready pending rig.link_c m)
      → Ready n
      → pending n < rounds
      → Returns (λ _ n'. Ready n') (flush_links rounds rig n)
  unfolding flush_links
  flush_links-Ready rig rounds n on_a on_b on_c ready h =
      let (n1, drained_a, _, ready1, le1) = drain_link-Drains rig.link_a on_a rounds n ready h in
      let (n2, drained_b, _, ready2, le2) =
        drain_link-Drains rig.link_b on_b rounds n1 ready1 (omega arith) in
      let (n3, drained_c, _, ready3, _) =
        drain_link-Drains rig.link_c on_c rounds n2 ready2 (omega arith) in
      rw drained_a (rw drained_b (rw drained_c (returns ready3)))

module _ ⦃p : Platform⦄ (Ready : Net → Type 0) (at : Option LinkPointer) where
  -- Each receive from a ready net yields a buffer, and the net is ready again.
  abbrev pub AlwaysYields : Type 0
  AlwaysYields =
      (n : Net)
      → Ready n
      → (b : p.Buffer) × (n' : Net) × (receive_with_timeout at (pos 100) n ≡ ok (some b) n')
        × Ready n'

  drain_link-fuel :
      AlwaysYields
      → (rounds : ℕ) (n : Net) → Ready n
      → (n' : Net) × (drain_link rounds at n ≡ stop out_of_fuel n')
  unfolding drain_link
  drain_link-fuel yields zero n h = (n, refl)
  drain_link-fuel yields (suc rounds) n h =
      let (b, n1, answered, h1) = yields n h in
      let (n', drained) = drain_link-fuel yields rounds n1 h1 in (n', rw answered drained)

module _ ⦃p : Platform⦄ (rig : Rig) (Ready : Net → Type 0) where
  -- If each receive on link A yields a buffer and leaves a net on which this holds again,
  -- flushing ends with no number of rounds.
  pub flush_links-endless :
      AlwaysYields Ready rig.link_a
      → (rounds : ℕ) (n : Net) → Ready n
      → Stops out_of_fuel (flush_links rounds rig n)
  unfolding flush_links
  flush_links-endless yields rounds n h =
      let (n', drained) = drain_link-fuel Ready rig.link_a yields rounds n h in rw drained stops
