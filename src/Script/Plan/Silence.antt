-- ===== src/Script/Plan/Silence.antt =====
-- Links on which nothing comes.
use ccnx_testrig.Prelude.{
  ℕ, pos, ◌^◌, ◌%◌, ◌≡◌, refl, ◌∙◌, ap, subst, false, Option, none, some, List, [], ◌∷◌, set,
  get_elem?-set_self, get_elem?-lt, arith,
}
use ccnx_testrig.Run.{ok}
use ccnx_testrig.Platform.{Platform}
use ccnx_testrig.Platform.Laws.{BitVectorLaws, add_bit}
use ccnx_testrig.TestResult.{TestResult, set_fail}
use ccnx_testrig.World.{Step, World, Rig}
use ccnx_testrig.Channels.{Channels, IsLink, Takes, silence, arrival}
use ccnx_testrig.Script.Execute.{Round, next_round, leave, receive_bit, none_round}
use ccnx_testrig.Script.Execute.Trace.{Silences, done, quiet}
use ccnx_testrig.Script.Plan.{some_came, senders, ask}
use ccnx_testrig.Script.Plan.Asking.{AllLinks, Listens, receive_bit-ok}

module _ ⦃p : Platform⦄ (laws : BitVectorLaws p) {rig : Rig} (channels : Channels rig) (step : Step)
    (sent : p.Packet) where
  -- What receiving on a link leaves when the channel has an answer: nothing came, or something.
  data Hears (i : ℕ) (links : List ℕ) (w : World) : Option p.Packet × channels.Env → Type 0 where
    hears_none :
        {e : channels.Env} (w' : World)
        → receive_bit rig (pos i) w ≡ ok none w'
        → Listens laws channels step sent links e w'
        → Hears i links w (none, e)
    hears_some :
        {e : channels.Env} {message : p.Packet} (b : p.Buffer) (w' : World)
        → receive_bit rig (pos i) w ≡ ok (some b) w'
        → Listens laws channels step sent links e w'
        → Hears i links w (some message, e)

  hears :
      (i : ℕ) (links : List ℕ) (e : channels.Env) (w : World)
      → IsLink i
      → Listens laws channels step sent links e w
      → Hears i links w (channels.take i e)
  hears i links e w link listens =
      by_answer (channels.take i e) (channels.takes i e w.net link listens.holds)
    where
      by_answer :
          (answer : Option p.Packet × channels.Env)
          → Takes channels.Holds rig i w.net answer
          → Hears i links w answer
      by_answer _ (silence n' received holds) =
          hears_none (record w { net = n' })
            (receive_bit-ok laws channels step sent i w none n' link received)
            (record { holds = holds; refers = listens.refers; notes = listens.notes })
      by_answer _ (arrival b n' received decoded holds) =
          hears_some b (record w { net = n' })
            (receive_bit-ok laws channels step sent i w (some b) n' link received)
            (record { holds = holds; refers = listens.refers; notes = listens.notes })

  -- If no answer is a message, no link has a packet.
  pub silences :
      (is links : List ℕ) (e : channels.Env) (w : World)
      → AllLinks is
      → Listens laws channels step sent links e w
      → let (answers, e') = ask channels is e in
        some_came answers ≡ false
        → (w' : World) × Silences rig is w w'
          × Listens laws channels step sent (senders links answers) e' w'
  silences [] links e w all listens nothing = (w, done, listens)
  silences (i ∷ is) links e w all listens nothing =
      by_hearing (channels.take i e) (hears i links e w all.0 listens)
        (λ w1 e1. silences is links e1 w1 all.1) nothing
    where
      by_hearing :
          (answer : Option p.Packet × channels.Env)
          → Hears i links w answer
          → ((w1 : World) (e1 : channels.Env)
              → Listens laws channels step sent links e1 w1
              → some_came (ask channels is e1).0 ≡ false
              → (w' : World) × Silences rig is w1 w'
                × Listens laws channels step sent
                    (senders links (ask channels is e1).0)
                    (ask channels is e1).1
                    w')
          → some_came ((i, answer.0) ∷ (ask channels is answer.1).0) ≡ false
          → (w' : World) × Silences rig (i ∷ is) w w'
            × Listens laws channels step sent
                (senders links ((i, answer.0) ∷ (ask channels is answer.1).0))
                (ask channels is answer.1).1
                w'
      by_hearing _ (hears_none {e} w1 received listens1) rest nothing =
          let (w', quiets, listens') = rest w1 e listens1 nothing in
          (w', quiet received quiets, listens')
      by_hearing _ (hears_some b w1 received listens1) rest nothing = absurd (cc)

  -- If no link has a packet, no answer is a message.
  pub silent_answers :
      (is links : List ℕ) (e : channels.Env) (w w' : World)
      → AllLinks is
      → Listens laws channels step sent links e w
      → Silences rig is w w'
      → some_came (ask channels is e).0 ≡ false
  silent_answers [] links e w w' all listens done = refl
  silent_answers (i ∷ is) links e w w' all listens (quiet {w1} received quiets) =
      by_hearing (channels.take i e) (hears i links e w all.0 listens)
        (λ e1 listens1. silent_answers is links e1 w1 w' all.1 listens1 quiets)
    where
      by_hearing :
          (answer : Option p.Packet × channels.Env)
          → Hears i links w answer
          → ((e1 : channels.Env)
              → Listens laws channels step sent links e1 w1
              → some_came (ask channels is e1).0 ≡ false)
          → some_came ((i, answer.0) ∷ (ask channels is answer.1).0) ≡ false
      by_hearing _ (hears_none {e} w2 received2 listens2) rest =
          let same : w2 ≡ w1 = cc in
          rest e (subst (Listens laws channels step sent links e) same listens2)
      by_hearing _ (hears_some b w2 received2 listens2) rest = absurd (cc)

  -- A round of receiving on no link returns.
  pub none_round-returns :
      (i : ℕ) (r : TestResult) (w : World) (links : List ℕ) (e : channels.Env)
      → IsLink i
      → Listens laws channels step sent links e w
      → (round : Round TestResult) × (w' : World) × (none_round step rig (pos i) r w ≡ ok round w')
        × ((links' : List ℕ) × (e' : channels.Env) × Listens laws channels step sent links' e' w')
  unfolding none_round
  none_round-returns i r w links e link listens =
      by_hearing (channels.take i e) (hears i links e w link listens)
    where
      by_hearing :
          (answer : Option p.Packet × channels.Env)
          → Hears i links w answer
          → (round : Round TestResult) × (w' : World) × (none_round step rig (pos i) r w
              ≡ ok round w')
            × ((links' : List ℕ) × (e' : channels.Env) × Listens laws channels step sent links' e'
                  w')
      by_hearing _ (hears_none {e} w1 received listens1) =
          (next_round r, w1, rw received refl, (links, e, listens1))
      by_hearing _ (hears_some {e} b w1 received listens1) =
          let (v, has, same_bits) = listens1.notes in
          let same : i % 2 ^ 32 ≡ i = omega arith in
          let v' = p.set_bit v i in
          (
            leave (set_fail r "Received a message when we expected not to."),
            record w1 { vectors = set w1.vectors step.received_link_vector v' },
            rw received (rw has (rw same refl)),
            (
              add_bit i links,
              e,
              record {
                holds = listens1.holds;
                refers = listens1.refers;
                notes = (
                  v',
                  get_elem?-set_self w1.vectors step.received_link_vector v'
                      (get_elem?-lt w1.vectors step.received_link_vector has),
                  laws.bits-set v i (omega arith) ∙ ap (add_bit i) same_bits,
                );
              },
            ),
          )
