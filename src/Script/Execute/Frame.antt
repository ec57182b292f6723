-- ===== src/Script/Execute/Frame.antt =====
-- What executing a step writes: nothing but the net and the step's own vector of the links on which
-- it has received.
use ccnx_testrig.Prelude.{
  ℕ, zero, suc, ℤ, negsuc, ◌+◌, ◌≡◌, ◌≢◌, refl, sym, subst, Bool, ◌∙◌, Option, none, some, String,
  get_elem?, set, length, length-set, get_elem?-set_ne, ltb, true, false, if◌then◌else◌, arith,
}
use ccnx_testrig.Run.{
  Cmd, Run, ok, stop, pure, halt, and_then, buffer_overflow, and_then-eq-ok, or_stop, Stop, ◌>>=◌,
  zoom, null_pointer, out_of_fuel, uninitialised,
}
use ccnx_testrig.Platform.{Platform}
use ccnx_testrig.Heap.{copy_string}
use ccnx_testrig.TestResult.{TestResult, settle, log_packet}
use ccnx_testrig.Packet.{encode_packet}
use ccnx_testrig.Packet.Encode.{encode_packet-same}
use ccnx_testrig.Link.{Net}
use ccnx_testrig.World.{
  VectorPointer, Step, World, Rig, ExecuteFunction, execute_send, execute_receive_all,
  execute_receive_one, execute_receive_none, on_net, load_vector, store_vector, load_step,
  StepPointer, to_unsigned,
}
use ccnx_testrig.Script.Execute.{
  Round, next_round, leave, bit_rounds, bit_loop, receive_bit, observe_link, observe_buffer,
  execute_send_step, execute_receive_all_step, execute_receive_one_step, execute_receive_none_step,
  none_round, call_execute, execute_step, mark_received, bit_after, silent, observe_packet,
  all_round, one_round, one_end, result_of,
}

module _ ⦃p : Platform⦄ where
  -- From `w` to `w'` no vector but that at `at` has changed, and no step.
  pub record Frame (at : VectorPointer) (w w' : World) : Type 0 where
    pub same_steps : w'.steps ≡ w.steps
    pub same_length : length w'.vectors ≡ length w.vectors
    pub same_vectors : (j : VectorPointer) → j ≢ at → get_elem? w'.vectors j ≡ get_elem? w.vectors j

module _ ⦃p : Platform⦄ (at : VectorPointer) where
  pub Frame-refl : (w : World) → Frame at w w
  Frame-refl w = record { same_steps = refl; same_length = refl; same_vectors = λ j ne. refl }

  pub Frame-trans : {w w' w'' : World} → Frame at w w' → Frame at w' w'' → Frame at w w''
  Frame-trans f g = record {
    same_steps = g.same_steps ∙ f.same_steps;
    same_length = g.same_length ∙ f.same_length;
    same_vectors = λ j ne. g.same_vectors j ne ∙ f.same_vectors j ne;
  }

  -- A command that returns only within the frame.
  pub record Frames {A : Type 0} (m : Cmd World A) : Type 0 where
    pub frame : (w : World) (a : A) (w' : World) → m w ≡ ok a w' → Frame at w w'

  pub Frames-gets : {A : Type 0} (f : World → A) → Frames (λ w. ok (f w) w)
  Frames-gets f = record {
    frame = λ w b w' e. record { same_steps = cc; same_length = cc; same_vectors = λ j ne. cc };
  }

  pub Frames-stop : {A : Type 0} (why : Stop) → Frames {A = A} (stop why)
  Frames-stop why = record { frame = λ w b w' e. absurd (cc) }

  Frame-on_net :
      {A : Type 0} (w : World) (r : Run Net A) (a : A) (w' : World)
      → zoom (λ (u : World). u.net) (λ n u. record u { net = n }) (λ _. r) w ≡ ok a w'
      → Frame at w w'
  Frame-on_net w (ok b n) a w' e = record {
    same_steps = ground arith;
    same_length = ground arith;
    same_vectors = λ j ne. ground arith;
  }
  Frame-on_net w (stop why n) a w' e = absurd (cc)

  pub Frames-on_net : {A : Type 0} (m : Cmd Net A) → Frames (on_net m)
  Frames-on_net m = record { frame = λ w a w' e. Frame-on_net w (m w.net) a w' e }

  pub Frames-bind :
      {A B : Type 0} (m : Cmd World A) (k : A → Cmd World B)
      → Frames m
      → ((a : A) → Frames (k a))
      → Frames (m >>= k)
  Frames-bind m k fm fk = record {
    frame = λ w b w' e.
        let (a, w1, e1, e2) = and_then-eq-ok (m w) k e in
        Frame-trans (fm.frame w a w1 e1) ((fk a).frame w1 b w' e2);
  }

  pub Frames-or_stop : {A : Type 0} (o : Option A) (why : Stop) → Frames (or_stop o why)
  Frames-or_stop none why = Frames-stop why
  Frames-or_stop (some a) why = Frames-gets (λ _. a)

  Frames-load_vector : (j : VectorPointer) → Frames (load_vector j)
  Frames-load_vector j = record {
    frame = λ w a w' e. (Frames-or_stop (get_elem? w.vectors j) null_pointer).frame w a w' e;
  }

  Frames-load_step : (j : Option StepPointer) → Frames (load_step j)
  Frames-load_step none = Frames-stop null_pointer
  Frames-load_step (some j) = record {
    frame = λ w a w' e. (Frames-or_stop (get_elem? w.steps j) null_pointer).frame w a w' e;
  }

  Frames-store_vector : (v : p.BitVector) → Frames (store_vector at v)
  Frames-store_vector v = record {
    frame = λ w a w' e.
        let there : record w { vectors = set w.vectors at v } ≡ w' = cc in
        subst (Frame at w) there (record {
          same_steps = refl;
          same_length = length-set w.vectors at v;
          same_vectors = λ j ne. get_elem?-set_ne w.vectors v (λ e. ne (sym e));
        });
  }

  Frames-if :
      {A : Type 0} (b : Bool) (m n : Cmd World A)
      → Frames m
      → Frames n
      → Frames (if b then m else n)
  Frames-if true m n fm fn = fm
  Frames-if false m n fm fn = fn

  Frames-rounds :
      {A : Type 0} (over : VectorPointer) (body : ℤ → A → Cmd World (Round A))
      → ((bit : ℤ) (a : A) → Frames (body bit a))
      → (rounds i : ℕ) (current : ℤ) (a : A) → Frames (bit_rounds over body rounds i current a)
  unfolding bit_rounds
  Frames-rounds over body fb zero i current a = Frames-stop out_of_fuel
  Frames-rounds over body fb (suc rounds) i current a =
      Frames-bind (load_vector over) _ (Frames-load_vector over) λ v.
        Frames-if (ltb i (p.number_of_bits_set v)) _ _
          (Frames-bind (body (p.next_bit_set v (bit_after current)) a) _
            (fb (p.next_bit_set v (bit_after current)) a)
            (elim [
              | leave b ↦ Frames-gets (λ _. leave b)
              | next_round b ↦
                  Frames-rounds over body fb rounds (i + 1) (p.next_bit_set v (bit_after current)) b
            ]))
          (Frames-gets (λ _. next_round a))

  Frames-bit_loop :
      {A : Type 0} (over : VectorPointer) (body : ℤ → A → Cmd World (Round A))
      → ((bit : ℤ) (a : A) → Frames (body bit a))
      → (a : A) → Frames (bit_loop over body a)
  unfolding bit_loop
  Frames-bit_loop over body fb a =
      Frames-bind (load_vector over) _ (Frames-load_vector over)
        λ v. Frames-rounds over body fb (p.number_of_bits_set v + 1) 0 (negsuc 0) a

  Frames-encode_packet : (dict : p.Packet) → Frames (encode_packet dict)
  Frames-encode_packet dict = record {
    frame = λ w b w' e. subst (Frame at w) (sym (encode_packet-same dict b w w' e)) (Frame-refl w);
  }

  Frames-receive_bit : (rig : Rig) (bit : ℤ) → Frames (receive_bit rig bit)
  unfolding receive_bit
  Frames-receive_bit rig bit = Frames-on_net _

module _ ⦃p : Platform⦄ (step : Step) (rig : Rig) where
  abbrev own : VectorPointer
  own = step.received_link_vector

  Frames-mark_received : (bit : ℤ) → Frames own (mark_received step bit)
  Frames-mark_received bit =
      Frames-bind own (load_vector own) _ (Frames-load_vector own own)
        λ v. Frames-store_vector own (p.set_bit v (to_unsigned bit))

  Frames-observe_buffer : (bit : ℤ) (b : p.Buffer) → Frames own (observe_buffer step bit b)
  unfolding observe_buffer
  Frames-observe_buffer bit b = Frames-bind own _ _ (Frames-mark_received bit) λ _.
      Frames-bind own _ _ (Frames-load_step own step.reference) λ reference.
        Frames-bind own _ _ (Frames-or_stop own (p.create_from_wire_format b) null_pointer)
          λ message.
            Frames-bind own _ _ (Frames-or_stop own reference.packet null_pointer)
              λ referenced. Frames-gets own (λ _. observe_packet referenced message)

  pub Frames-observe_link : (bit : ℤ) → Frames own (observe_link step rig bit)
  unfolding observe_link
  Frames-observe_link bit =
      Frames-bind own (receive_bit rig bit) _ (Frames-receive_bit own rig bit)
        (elim [ none ↦ Frames-gets own (λ _. silent) | some b ↦ Frames-observe_buffer bit b ])

  pub Frames-none_round : (bit : ℤ) (r : TestResult) → Frames own (none_round step rig bit r)
  unfolding none_round
  Frames-none_round bit r =
      Frames-bind own (receive_bit rig bit) _ (Frames-receive_bit own rig bit) (elim [
        | none ↦ Frames-gets own (λ _. next_round r)
        | some b ↦
            Frames-bind own _ _ (Frames-mark_received bit) λ _. Frames-gets own (λ _. leave _)
      ])

  Frames-call_execute :
      (kind : ExecuteFunction) (r : TestResult) → Frames own (call_execute kind step r rig)
  unfolding call_execute execute_send_step execute_receive_all_step execute_receive_one_step
      execute_receive_none_step
  Frames-call_execute execute_send r =
      Frames-bind own _ _ (Frames-or_stop own step.packet null_pointer) λ packet.
        Frames-bind own _ _ (Frames-encode_packet own packet) λ buffer.
          Frames-bind own _ _ (Frames-load_vector own step.link_vector) λ v.
            Frames-bind own _ _ (Frames-on_net own _)
              λ _. Frames-gets own (λ _. log_packet r buffer)
  Frames-call_execute execute_receive_all r =
      Frames-bind own _ _
        (Frames-bit_loop own step.link_vector _
          (λ bit a.
            Frames-bind own _ _ (Frames-observe_link bit)
              λ seen. Frames-gets own (λ _. all_round seen a))
          r)
        λ end. Frames-gets own (λ _. result_of end)
  Frames-call_execute execute_receive_one r =
      Frames-bind own _ _
        (Frames-bit_loop own step.link_vector _
          (λ bit a.
            Frames-bind own _ _ (Frames-observe_link bit)
              λ seen. Frames-gets own (λ _. one_round seen a))
          _)
        λ end. Frames-gets own (λ _. one_end end)
  Frames-call_execute execute_receive_none r =
      Frames-bind own _ _ (Frames-bit_loop own step.link_vector _ Frames-none_round r)
        λ end. Frames-gets own (λ _. result_of end)

  Frames-settle : (r : TestResult) → Frames own (settle r)
  unfolding settle copy_string
  Frames-settle r = by_reason r.reason
    where
      by_space :
          (b : Bool) (why : String)
          → Frames own (λ (w : World).
            and_then ((if b then pure why else halt buffer_overflow) w) (λ (_ : String). pure r))
      by_space true why = Frames-gets own (λ _. r)
      by_space false why = Frames-stop own buffer_overflow

      by_reason :
          (reason : Option String)
          → Frames own (elim reason as (λ _. Cmd World TestResult) [
            | none ↦ pure r
            | some why ↦ do copied ← copy_string why; pure r
          ])
      by_reason none = Frames-gets own (λ _. r)
      by_reason (some why) = by_space (p.has_spare_byte why) why

  -- Executing a step, of whichever kind, writes no step and no vector but the step's own vector of
  -- the links on which it has received: what a step has received is not changed by any other step.
  pub execute_step-Frame :
      (r r' : TestResult) (w w' : World) → execute_step step r rig w ≡ ok r' w' → Frame own w w'
  unfolding execute_step
  execute_step-Frame r r' w w' e =
      (Frames-bind own _ _ (Frames-or_stop own step.execute uninitialised)
          λ kind. Frames-bind own _ _ (Frames-call_execute kind r) Frames-settle).frame
        w r' w' e
