-- ===== src/Script/Plan/Asking.antt =====
-- Asking links: what a receive step observes on its links is what the channels answer.
use ccnx_testrig.Prelude.{
  ℕ, pos, ◌%◌, ◌^◌, ◌≡◌, refl, ◌∙◌, ap, Bool, true, ◌&&◌, Option, none, some, List, [], ◌∷◌,
  get_elem?, set, get_elem?-set_self, get_elem?-lt, arith,
}
use ccnx_testrig.Run.{ok, zoom}
use ccnx_testrig.Platform.{Platform}
use ccnx_testrig.Platform.Laws.{BitVectorLaws, add_bit}
use ccnx_testrig.Link.{Net, receive_with_timeout}
use ccnx_testrig.World.{StepPointer, VectorPointer, Step, World, Rig}
use ccnx_testrig.Rig.{get_link_by_id}
use ccnx_testrig.Channels.{Channels, IsLink, Takes, silence, arrival}
use ccnx_testrig.Script.Execute.{Observation, silent, observe_packet, observe_link, receive_bit}
use ccnx_testrig.Script.Execute.Trace.{Observes, done, seen, Arrived, NothingWrong, All, heard}
use ccnx_testrig.Script.Plan.{agrees, Answers, all_agree, none_disagrees, some_came, senders, ask}

module _ ⦃p : Platform⦄ (sent message : p.Packet) where
  -- A message that agrees with the sent packet is one of its type that matches it.
  agrees-Arrived : agrees sent message ≡ true → Arrived (observe_packet sent message)
  unfolding agrees observe_packet
  agrees-Arrived h = ground arith

  Arrived-agrees : Arrived (observe_packet sent message) → agrees sent message ≡ true
  unfolding agrees observe_packet
  Arrived-agrees h = ground arith

  agrees-NothingWrong : agrees sent message ≡ true → NothingWrong (observe_packet sent message)
  unfolding agrees observe_packet
  agrees-NothingWrong h = ground arith

  NothingWrong-agrees : NothingWrong (observe_packet sent message) → agrees sent message ≡ true
  unfolding agrees observe_packet
  NothingWrong-agrees h = ground arith

module _ ⦃p : Platform⦄ (sent : p.Packet) where
  -- What is observed of a link that gives the given answer.
  abbrev pub observation : Option p.Packet → Observation
  observation none = silent
  observation (some message) = observe_packet sent message

  abbrev pub observations : Answers → List Observation
  observations [] = []
  observations ((i, answer) ∷ answers) = observation answer ∷ observations answers

-- The vector at a pointer holds the given bits.
abbrev pub HasBits : ⦃p : Platform⦄ → BitVectorLaws p → World → VectorPointer → List ℕ → Type 0
HasBits ⦃p⦄ laws w at links =
    (v : p.BitVector) × (get_elem? w.vectors at ≡ some v) × (laws.bits v ≡ links)

abbrev pub AllLinks : List ℕ → Type 0
AllLinks [] = Unit
AllLinks (i ∷ is) = IsLink i × AllLinks is

-- The step refers to one that has the given packet.
abbrev pub RefersTo : ⦃p : Platform⦄ → Step → p.Packet → World → Type 0
RefersTo ⦃p⦄ step sent w =
    (at : StepPointer) × (referenced : Step) × (step.reference ≡ some at)
    × (get_elem? w.steps at ≡ some referenced)
    × (referenced.packet ≡ some sent)

module _ ⦃p : Platform⦄ (laws : BitVectorLaws p) {rig : Rig} (channels : Channels rig) (step : Step)
    (sent : p.Packet) where
  abbrev own : VectorPointer
  own = step.received_link_vector

  -- A world in which a receive step can go on: it refers to the packet that was sent, and its vector
  -- of senders is there.
  pub record Listens (links : List ℕ) (e : channels.Env) (w : World) : Type 0 where
    pub holds : channels.Holds e w.net
    pub refers : RefersTo step sent w
    pub notes : HasBits laws w own links

  abbrev note_one : List ℕ → ℕ → Option p.Packet → List ℕ
  note_one links i none = links
  note_one links i (some message) = add_bit i links

  pub receive_bit-ok :
      (i : ℕ) (w : World) (received : Option p.Buffer) (n' : Net)
      → IsLink i
      → receive_with_timeout (get_link_by_id rig i) (pos 1000) w.net ≡ ok received n'
      → receive_bit rig (pos i) w ≡ ok received (record w { net = n' })
  unfolding receive_bit
  receive_bit-ok i w received n' link e =
      let same : i % 2 ^ 32 ≡ i = omega arith in rw (same, zoom) (rw (e, zoom) refl)

  -- Observing a link returns what the channel answers, and notes it.
  pub observe_link-Takes :
      (i : ℕ) (links : List ℕ) (e : channels.Env) (w : World)
      → IsLink i
      → Listens links e w
      → let (answer, e') = channels.take i e in
        (w' : World) × (observe_link step rig (pos i) w ≡ ok (observation sent answer) w')
        × Listens (note_one links i answer) e' w'
  unfolding observe_link
  observe_link-Takes i links e w link listens =
      by_answer (channels.take i e) (channels.takes i e w.net link listens.holds)
    where
      by_answer :
          (answer : Option p.Packet × channels.Env)
          → Takes channels.Holds rig i w.net answer
          → (w' : World) × (observe_link step rig (pos i) w ≡ ok (observation sent answer.0) w')
            × Listens (note_one links i answer.0) answer.1 w'
      by_answer _ (silence n' received holds) = (
        record w { net = n' },
        rw (receive_bit-ok i w none n' link received) refl,
        record { holds = holds; refers = listens.refers; notes = listens.notes },
      )
      by_answer _ (arrival {message} b n' received decoded holds) =
          let (v, has, same_bits) = listens.notes in
          let (at, referenced, refers, found, packet) = listens.refers in
          let v' = p.set_bit v i in
          let same : i % 2 ^ 32 ≡ i = omega arith in
          (
            record w { net = n'; vectors = set w.vectors own v' },
            rw (receive_bit-ok i w (some b) n' link received)
                (rw has (rw (refers, found) (rw (decoded, packet, same) refl))),
            record {
              holds = holds;
              refers = listens.refers;
              notes = (
                v',
                get_elem?-set_self w.vectors own v' (get_elem?-lt w.vectors own has),
                laws.bits-set v i (omega arith) ∙ ap (add_bit i) same_bits,
              );
            },
          )

  -- Asking all links, one after the other, leaves the trace of what they answer.
  pub asks :
      (is links : List ℕ) (e : channels.Env) (w : World)
      → AllLinks is
      → Listens links e w
      → let (answers, e') = ask channels is e in
        (w' : World) × Observes step rig is w (observations sent answers) w'
        × Listens (senders links answers) e' w'
  asks [] links e w all listens = (w, done, listens)
  asks (i ∷ is) links e w all listens =
      let (answer, e1) = channels.take i e in
      let (w1, saw, listens1) = observe_link-Takes i links e w all.0 listens in
      let (w2, trace, listens2) = asks is (note_one links i answer) e1 w1 all.1 listens1 in
      (w2, seen saw trace, senders_listen answer (ask channels is e1).0 w2 listens2)
    where
      senders_listen :
          (answer : Option p.Packet) (answers : Answers) {e2 : channels.Env} (w2 : World)
          → Listens (senders (note_one links i answer) answers) e2 w2
          → Listens (senders links ((i, answer) ∷ answers)) e2 w2
      senders_listen none answers w2 h = h
      senders_listen (some message) answers w2 h = h

pub both : (a b : Bool) → (a && b) ≡ true → (a ≡ true) × (b ≡ true)
both a b h = ground arith

module _ ⦃p : Platform⦄ (sent : p.Packet) where
  pub all_agree-All :
      (answers : Answers) → all_agree sent answers ≡ true → All Arrived (observations sent answers)
  all_agree-All [] h = tt
  all_agree-All ((i, none) ∷ answers) h = absurd (cc)
  all_agree-All ((i, some message) ∷ answers) h =
      let (agree, rest) = both (agrees sent message) (all_agree sent answers) h in
      (agrees-Arrived sent message agree, all_agree-All answers rest)

  pub All-all_agree :
      (answers : Answers) → All Arrived (observations sent answers) → all_agree sent answers ≡ true
  All-all_agree [] h = refl
  All-all_agree ((i, none) ∷ answers) h = absurd h.0
  All-all_agree ((i, some message) ∷ answers) h =
      ground (arith, Arrived-agrees sent message h.0, All-all_agree answers h.1)

  pub none_disagrees-All :
      (answers : Answers)
      → none_disagrees sent answers ≡ true
      → All NothingWrong (observations sent answers)
  none_disagrees-All [] h = tt
  none_disagrees-All ((i, none) ∷ answers) h = (tt, none_disagrees-All answers h)
  none_disagrees-All ((i, some message) ∷ answers) h =
      let (agree, rest) = both (agrees sent message) (none_disagrees sent answers) h in
      (agrees-NothingWrong sent message agree, none_disagrees-All answers rest)

  pub All-none_disagrees :
      (answers : Answers)
      → All NothingWrong (observations sent answers)
      → none_disagrees sent answers ≡ true
  All-none_disagrees [] h = refl
  All-none_disagrees ((i, none) ∷ answers) h = All-none_disagrees answers h.1
  All-none_disagrees ((i, some message) ∷ answers) h =
      ground (arith, NothingWrong-agrees sent message h.0, All-none_disagrees answers h.1)

  pub heard-some_came : (answers : Answers) → heard (observations sent answers) ≡ some_came answers
  unfolding observe_packet
  heard-some_came [] = refl
  heard-some_came ((i, none) ∷ answers) = heard-some_came answers
  heard-some_came ((i, some message) ∷ answers) = ground arith
