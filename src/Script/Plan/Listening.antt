-- ===== src/Script/Plan/Listening.antt =====
-- The functions that add a receive step on a new vector of links, as rules.
use ccnx_testrig.Prelude.{
  ℕ, ◌≡◌, refl, sym, ◌∙◌, ap, subst, none, some, List, [], ◌∷◌, ◌++◌, length, get_elem?,
  get_elem?-append_length, append-nil, true, arith,
}
use ccnx_testrig.Run.{Cmd, and_then, Returns, ◌>>=◌}
use ccnx_testrig.Platform.{Platform}
use ccnx_testrig.Platform.Laws.{BufferLaws, BitVectorLaws, add_bit}
use ccnx_testrig.TestResult.{TestResult}
use ccnx_testrig.World.{StepPointer, VectorPointer, World, Rig}
use ccnx_testrig.Rig.{get_link_vector}
use ccnx_testrig.Rig.Listed.{starts_over, below_null, add_all, links_of, get_link_vector-links_of}
use ccnx_testrig.Channels.{Channels}
use ccnx_testrig.Script.{
  Script, append_step, add_receive_one_step, add_receive_none_step, add_receive_all_step,
}
use ccnx_testrig.Script.Building.{AddsReceive, add_receive_steps-AddsReceive}
use ccnx_testrig.Script.Plan.{Mode, on_all, on_one, on_none, receive, Verdict}
use ccnx_testrig.Script.Plan.Asking.{AllLinks}
use ccnx_testrig.Script.Plan.Placed.{function_of, AllLinks-add_bit}
use ccnx_testrig.Script.Plan.Executing.{MeetsAll}
use ccnx_testrig.Script.Plan.Built.{
  Trail, next, SentIn, Grows-append, HasBits-Grows, AllIn-SentIn, AllIn-Grows,
}
use ccnx_testrig.Script.Plan.Grown.{Built, unowned_behind, owner_next, owner_next_agrees}
use ccnx_testrig.Script.Plan.Leading.{Leads, MeetsAll-after, Returns-map, after_added}

below_null-links : (links : List ℕ) → AllLinks links → below_null links ≡ true
below_null-links [] all = refl
below_null-links (i ∷ links) (link, all) = ground (arith, below_null-links links all)

AllLinks-add_all :
    (links bits : List ℕ) → AllLinks links → AllLinks bits → AllLinks (add_all links bits)
AllLinks-add_all [] bits all all_bits = all_bits
AllLinks-add_all (i ∷ links) bits (link, all) all_bits =
    AllLinks-add_all links (add_bit i bits) all (AllLinks-add_bit i bits link all_bits)

AllLinks-links_of : (i : ℕ) (more : List ℕ) → AllLinks (i ∷ more) → AllLinks (links_of i more)
AllLinks-links_of i more (link, all) =
    AllLinks-add_all (i ∷ more) (add_bit i []) (link, all) (AllLinks-add_bit i [] link tt)

module _ ⦃p : Platform⦄ (buffers : BufferLaws p) (laws : BitVectorLaws p) {rig : Rig}
    (channels : Channels rig) (v : Verdict channels) (t : Trail) (script : Script)
    (e : channels.Env) (d : ℕ) where
  -- The world with one more vector, which belongs to no step yet.
  abbrev with_vector :
      (w : World) (vector : p.BitVector)
      → Built laws channels t script e d w
      → Built laws channels t script e d (record w { vectors = w.vectors ++ vector ∷ [] })
  with_vector w vector built =
      let w' = record w { vectors = w.vectors ++ vector ∷ [] } in
      let grows = Grows-append w w' (vector ∷ []) [] refl (sym (append-nil w.steps)) in
      record {
        owner = built.owner;
        injective = built.injective;
        noted = λ x j owned.
            let (bits, links) = built.noted x j owned in
            (
              HasBits-Grows laws built.owner built.owner grows (λ _ _ _. refl) built.noted x []
                  bits,
              links,
            );
        used = built.used;
        all =
            AllIn-Grows laws built.owner built.owner grows (λ _ _ _. refl) built.noted t built.all;
        steps = built.steps;
        holds = built.holds;
        draws = built.draws;
      }

  -- A vector of links and a receive step on it.
  received_on :
      (mode : Mode) (at : StepPointer) (sent : p.Packet) (i : ℕ) (more : List ℕ)
      (add : VectorPointer → Cmd World (StepPointer × Script))
      (k : StepPointer × Script → Cmd World TestResult)
      → ((x : VectorPointer) (w : World)
          → Returns (AddsReceive (function_of mode) script at x w) (add x w))
      → SentIn at sent t
      → AllLinks (i ∷ more)
      → ((n : ℕ) → starts_over (p.words_behind n) ≡ true)
      → ((at' : StepPointer)
          → Leads buffers laws channels v
              (next t (receive mode sent (links_of i more)) at')
              (append_step script at').1
              e
              d
              (k (append_step script at')))
      → Leads buffers laws channels v t script e d (get_link_vector rig i more >>= λ x. add x >>= k)
  received_on mode at sent i more add k adding sends links over f = record {
    leads = λ w built.
        MeetsAll-after buffers laws channels v (λ x. add x >>= k)
          (get_link_vector-links_of laws rig i more w (below_null-links (i ∷ more) links)
            (over (length w.vectors)))
          λ x w1 (vector, here, same_world, bits).
            let w2 = record w { vectors = w.vectors ++ vector ∷ [] } in
            let built2 = with_vector w vector built in
            let (referenced, found, packet) = AllIn-SentIn laws built.owner w2 sends built2.all in
            let has : get_elem? w2.vectors x ≡ some vector =
              ap (get_elem? w2.vectors) here ∙ get_elem?-append_length w.vectors vector in
            let free : built.owner x ≡ none =
              unowned_behind laws channels built x (omega (arith, here)) in
            subst (λ w1. MeetsAll channels v (and_then (add x w1) k)) (sym same_world)
              (after_added buffers laws channels v t script e d
                (receive mode sent (links_of i more)) k w2 built2
                (Returns-map (adding x w2) λ added w' (new, adds, executes, refers, on, none_sent).
                  (
                    new,
                    [],
                    adds,
                    λ grows. (
                      executes,
                      (at, referenced, refers, grows.steps_stay at referenced found, packet),
                      ap (owner_next laws channels built2) on
                          ∙ owner_next_agrees laws channels built2 x vector has
                          ∙ free,
                      (
                        vector,
                        ap (get_elem? w'.vectors) on ∙ grows.vectors_stay x vector has,
                        bits,
                      ),
                      AllLinks-links_of i more links,
                    ),
                  ))
                f);
  }

module _ ⦃p : Platform⦄ {buffers : BufferLaws p} {laws : BitVectorLaws p} {rig : Rig}
    {channels : Channels rig} {v : Verdict channels} {t : Trail} {script : Script}
    {e : channels.Env} {d : ℕ} where
  pub receive_all_step-Leads :
      {at : StepPointer} {sent : p.Packet} {i : ℕ} (more : List ℕ)
      (k : StepPointer × Script → Cmd World TestResult)
      → SentIn at sent t
      → AllLinks (i ∷ more)
      → ((n : ℕ) → starts_over (p.words_behind n) ≡ true)
      → ((at' : StepPointer)
          → Leads buffers laws channels v
              (next t (receive on_all sent (links_of i more)) at')
              (append_step script at').1
              e
              d
              (k (append_step script at')))
      → Leads buffers laws channels v t script e d
          (get_link_vector rig i more >>= λ x. add_receive_all_step script at x >>= k)
  receive_all_step-Leads {at} {sent} {i} more k =
      received_on buffers laws channels v t script e d on_all at sent i more
        (add_receive_all_step script at) k (λ x w. (add_receive_steps-AddsReceive script at x w).2)

  pub receive_one_step-Leads :
      {at : StepPointer} {sent : p.Packet} {i : ℕ} (more : List ℕ)
      (k : StepPointer × Script → Cmd World TestResult)
      → SentIn at sent t
      → AllLinks (i ∷ more)
      → ((n : ℕ) → starts_over (p.words_behind n) ≡ true)
      → ((at' : StepPointer)
          → Leads buffers laws channels v
              (next t (receive on_one sent (links_of i more)) at')
              (append_step script at').1
              e
              d
              (k (append_step script at')))
      → Leads buffers laws channels v t script e d
          (get_link_vector rig i more >>= λ x. add_receive_one_step script at x >>= k)
  receive_one_step-Leads {at} {sent} {i} more k =
      received_on buffers laws channels v t script e d on_one at sent i more
        (add_receive_one_step script at) k (λ x w. (add_receive_steps-AddsReceive script at x w).0)

  pub receive_none_step-Leads :
      {at : StepPointer} {sent : p.Packet} {i : ℕ} (more : List ℕ)
      (k : StepPointer × Script → Cmd World TestResult)
      → SentIn at sent t
      → AllLinks (i ∷ more)
      → ((n : ℕ) → starts_over (p.words_behind n) ≡ true)
      → ((at' : StepPointer)
          → Leads buffers laws channels v
              (next t (receive on_none sent (links_of i more)) at')
              (append_step script at').1
              e
              d
              (k (append_step script at')))
      → Leads buffers laws channels v t script e d
          (get_link_vector rig i more >>= λ x. add_receive_none_step script at x >>= k)
  receive_none_step-Leads {at} {sent} {i} more k =
      received_on buffers laws channels v t script e d on_none at sent i more
        (add_receive_none_step script at) k (λ x w. (add_receive_steps-AddsReceive script at x w).1)
