-- ===== src/Script/Plan/Performing.antt =====
-- Executing a script performs its plan.
use ccnx_testrig.Prelude.{ℕ, ℤ, ◌≡◌, ◌≢◌, sym, ◌∙◌, ap, subst, some, List, [], ◌∷◌, false}
use ccnx_testrig.Run.{
  Run, ok, and_then, ◌>>=◌, Stops-and_then, or_stop, uninitialised, Returns-eq, Stops, null_pointer,
}
use ccnx_testrig.Platform.{Platform}
use ccnx_testrig.Platform.Laws.{BitVectorLaws, BufferLaws, concat}
use ccnx_testrig.TestResult.{TestResult, is_failure, log_packet, settle, settle-spare}
use ccnx_testrig.TestResult.Report.{is_failure-log_packet}
use ccnx_testrig.Link.{Net, send_buffer}
use ccnx_testrig.Rig.{get_link_by_id}
use ccnx_testrig.World.{Step, World, Rig, ExecuteFunction, execute_send}
use ccnx_testrig.Channels.{Channels, IsLink}
use ccnx_testrig.Script.Execute.{execute_step, call_execute, execute_send_step}
use ccnx_testrig.Script.Execute.Send.{execute_send_step-lowest}
use ccnx_testrig.Script.Plan.{
  Mode, on_all, on_one, on_none, Action, send, respond, receive, Notes, receive_on, Outcome,
  goes_on, fails, crashes, perform,
}
use ccnx_testrig.Script.Plan.Asking.{HasBits, AllLinks, Listens}
use ccnx_testrig.Script.Plan.Receiving.{
  Meets, execute_receive_all_step-Meets, execute_receive_one_step-Meets,
  execute_receive_none_step-Meets,
}
use ccnx_testrig.Script.Plan.Placed.{Owner, Does, function_of, Noted}

ok-eq-net : {S A : Type 0} {a b : A} {s t : S} → ok a s ≡ ok b t → s ≡ t
ok-eq-net e = cc

ok-cong : {S A : Type 0} {a b : A} {s t : S} → a ≡ b → s ≡ t → ok a s ≡ ok b t
ok-cong e f = cc

module _ ⦃p : Platform⦄ (buffers : BufferLaws p) (laws : BitVectorLaws p) {rig : Rig}
    (channels : Channels rig) (step : Step) (r : TestResult) (w : World) (e : channels.Env)
    (holds : channels.Holds e w.net) (fine : is_failure r ≡ false) where
  -- Sending on the lowest link of a vector.
  execute_send_step-Meets :
      (packet : p.Packet) (i : ℕ) (is noted : List ℕ)
      → step.packet ≡ some packet
      → HasBits laws w step.link_vector (i ∷ is)
      → IsLink i
      → HasBits laws w step.received_link_vector noted
      → Meets laws channels step.received_link_vector
          (goes_on noted (channels.put i packet e))
          (execute_send_step step r rig w)
  execute_send_step-Meets packet i is noted has_packet (v, has, same) link notes =
      let sending : (b : ℕ) (bs : List ℕ) (buffer : p.Buffer)
          → laws.bits v ≡ b ∷ bs
          → p.overlay buffer ≡ concat (p.dictionary_encode packet)
          → (val : ℤ) × (n : Net) × (send_buffer (get_link_by_id rig b) buffer w.net ≡ ok val n) =
        λ b bs buffer split reads.
          let same_link : i ≡ b = cc in
          let (val, n, sent, _) = channels.puts i packet e w.net buffer link holds reads in
          (
            val,
            n,
            subst (λ x. send_buffer (get_link_by_id rig x) buffer w.net ≡ ok val n) same_link sent,
          ) in
      let (_, _, run, (b, val, n, reads, sent, logged, left)) = Returns-eq (
        (execute_send_step-lowest buffers laws step rig packet has_packet v r w has sending).0 i is
          same) in
      let (val', n', sent', holds') = channels.puts i packet e w.net b link holds reads in
      let net : n' ≡ n = ok-eq-net (sym sent' ∙ sent) in
      (
        log_packet r b,
        record w { net = n },
        run ∙ ok-cong logged left,
        is_failure-log_packet r b ∙ fine,
        subst (channels.Holds (channels.put i packet e)) net holds',
        notes,
      )

  -- Sending with no link to send on.
  execute_send_step-Stops :
      (packet : p.Packet)
      → step.packet ≡ some packet
      → HasBits laws w step.link_vector []
      → Stops null_pointer (execute_send_step step r rig w)
  execute_send_step-Stops packet has_packet (v, has, same) =
      (execute_send_step-lowest buffers laws step rig packet has_packet v r w has
          (λ b bs buffer split reads. absurd (cc))).1
        same

  -- Where the heap has room for the copy of the reason, it changes nothing.
  settled :
      (o : Outcome channels) (run : Run World TestResult)
      → Meets laws channels step.received_link_vector o run
      → Meets laws channels step.received_link_vector o (and_then run settle)
  settled (goes_on links e') run (r1, w1, same, fine1, holds1, bits) =
      (r1, w1, rw same (settle-spare r1 w1 channels.has_spare_bytes), fine1, holds1, bits)
  settled fails run (r1, w1, same, failed1, holds1) =
      (r1, w1, rw same (settle-spare r1 w1 channels.has_spare_bytes), failed1, holds1)
  settled crashes run halted = Stops-and_then settle halted

  -- The function that a step's pointer holds is called.
  called :
      (kind : ExecuteFunction) (o : Outcome channels)
      → step.execute ≡ some kind
      → Meets laws channels step.received_link_vector o (call_execute kind step r rig w)
      → Meets laws channels step.received_link_vector o (execute_step step r rig w)
  unfolding execute_step
  called kind o executes meets =
      subst (Meets laws channels step.received_link_vector o)
        (sym (
          ap
            (λ f.
              and_then (or_stop f uninitialised w)
                (λ kind. do r' ← call_execute kind step r rig; settle r'))
            executes))
        (settled o (call_execute kind step r rig w) meets)

  module _ (owner : Owner) (notes : Notes) (noted : Noted laws owner notes w) where
    pub execute_step-Meets :
        (j : ℕ) (a : Action)
        → owner step.received_link_vector ≡ some j
        → Does laws owner a step w
        → Meets laws channels step.received_link_vector
            (perform channels a j notes e)
            (execute_step step r rig w)
    unfolding perform call_execute
    execute_step-Meets j (send i packet) owned (executes, has_packet, free, bits, link) =
        let (own_bits, _) = noted step.received_link_vector j owned in
        called execute_send (perform channels (send i packet) j notes e) executes
          (execute_send_step-Meets packet i [] (notes j) has_packet bits link own_bits)
    execute_step-Meets j (respond k packet) owned (executes, has_packet, shared) =
        let (own_bits, _) = noted step.received_link_vector j owned in
        let (bits, links) = noted step.link_vector k shared in
        called execute_send (perform channels (respond k packet) j notes e) executes
          (by_senders (notes k) bits links own_bits)
      where
        by_senders :
            (senders : List ℕ)
            → HasBits laws w step.link_vector senders
            → AllLinks senders
            → HasBits laws w step.received_link_vector (notes j)
            → Meets laws channels step.received_link_vector
                (elim senders [
                  | [] ↦ crashes
                  | i ∷ is ↦ goes_on (notes j) (channels.put i packet e)
                ])
                (execute_send_step step r rig w)
        by_senders [] bits links own_bits = execute_send_step-Stops packet has_packet bits
        by_senders (i ∷ is) bits links own_bits =
            execute_send_step-Meets packet i is (notes j) has_packet bits links.0 own_bits
    execute_step-Meets j (receive mode sent is) owned (executes, refers, free, bits, all) =
        let (own_bits, _) = noted step.received_link_vector j owned in
        let apart : step.link_vector ≢ step.received_link_vector =
          λ same. let owned_link = ap owner same in cc in
        let listens : Listens laws channels step sent (notes j) e w = record {
          holds = holds;
          refers = refers;
          notes = own_bits;
        } in
        called (function_of mode) (perform channels (receive mode sent is) j notes e) executes
          (by_mode mode apart listens)
      where
        by_mode :
            (m : Mode)
            → step.link_vector ≢ step.received_link_vector
            → Listens laws channels step sent (notes j) e w
            → Meets laws channels step.received_link_vector
                (receive_on channels m sent is (notes j) e)
                (call_execute (function_of m) step r rig w)
        by_mode on_all apart listens =
            execute_receive_all_step-Meets laws channels step sent apart is (notes j) e r w all fine
              bits listens
        by_mode on_one apart listens =
            execute_receive_one_step-Meets laws channels step sent apart is (notes j) e r w all fine
              bits listens
        by_mode on_none apart listens =
            execute_receive_none_step-Meets laws channels step sent apart is (notes j) e r w all
              fine bits listens
