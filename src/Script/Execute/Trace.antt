-- ===== src/Script/Execute/Trace.antt =====
-- What a receive step sees on its links, as a relation on worlds: the description by which the
-- loops of the receive steps are judged. It knows no counters, flags or early returns.
use ccnx_testrig.Prelude.{ℕ, ℤ, pos, ◌≡◌, sym, ◌∙◌, Bool, true, false, none, List, [], ◌∷◌}
use ccnx_testrig.Run.{Cmd, ok, stop, Stop, pure, ending, returned, stopped, ◌>>=◌}
use ccnx_testrig.Platform.{Platform}
use ccnx_testrig.Packet.Pair.{Matches}
use ccnx_testrig.World.{Step, World, Rig}
use ccnx_testrig.Script.Execute.BitLoop.{each_bit}
use ccnx_testrig.Script.Execute.{
  Observation, silent, mistyped, compared, Round, next_round, leave, receive_bit, observe_link,
}

module _ ⦃p : Platform⦄ (step : Step) (rig : Rig) where
  -- Each link is observed once, in the order of the list, with the given outcomes.
  pub data Observes : List ℕ → World → List Observation → World → Type 0 where
    done : {w : World} → Observes [] w [] w
    seen :
        {b : ℕ} {bs : List ℕ} {o : Observation} {os : List Observation} {w w1 w2 : World}
        → observe_link step rig (pos b) w ≡ ok o w1
        → Observes bs w1 os w2
        → Observes (b ∷ bs) w (o ∷ os) w2

module _ ⦃p : Platform⦄ (rig : Rig) where
  -- Each link is asked once, and none has a packet.
  pub data Silences : List ℕ → World → World → Type 0 where
    done : {w : World} → Silences [] w w
    quiet :
        {b : ℕ} {bs : List ℕ} {w w1 w2 : World}
        → receive_bit rig (pos b) w ≡ ok none w1
        → Silences bs w1 w2
        → Silences (b ∷ bs) w w2

module _ ⦃p : Platform⦄ where
  -- A packet came, of the right type, and matches the sent one.
  abbrev pub Arrived : Observation → Type 0
  Arrived silent = ⊥
  Arrived (mistyped why) = ⊥
  Arrived (compared sent received) = Matches sent received

  -- Nothing came, or what came matches.
  abbrev pub NothingWrong : Observation → Type 0
  NothingWrong silent = Unit
  NothingWrong (mistyped why) = ⊥
  NothingWrong (compared sent received) = Matches sent received

  abbrev pub All : (Observation → Type 0) → List Observation → Type 0
  All P [] = Unit
  All P (o ∷ os) = P o × All P os

  -- Something came on one of the links.
  abbrev pub heard : List Observation → Bool
  heard [] = false
  heard (silent ∷ os) = heard os
  heard (_ ∷ os) = true

module _ ⦃p : Platform⦄ (step : Step) (rig : Rig) {A : Type 0}
    (decide : Observation → A → Round A) where
  -- A loop body that observes a link and decides by what it saw.
  abbrev pub observing : ℤ → A → Cmd World (Round A)
  observing bit a = do o ← observe_link step rig bit; pure (decide o a)

  abbrev pub go_on : List ℕ → Round A → Cmd World (Round A)
  go_on bs r = elim r [ leave c ↦ pure (leave c) | next_round c ↦ each_bit observing bs c ]

  pub each_bit-seen :
      (b : ℕ) (bs : List ℕ) (a : A) (w : World) {o : Observation} {w1 : World}
      → observe_link step rig (pos b) w ≡ ok o w1
      → each_bit observing (b ∷ bs) a w ≡ go_on bs (decide o a) w1
  unfolding each_bit
  each_bit-seen b bs a w e = rw e

  each_bit-stopped :
      (b : ℕ) (bs : List ℕ) (a : A) (w : World) {why : Stop} {w1 : World} {end : Round A}
      {w' : World}
      → observe_link step rig (pos b) w ≡ stop why w1
      → each_bit observing (b ∷ bs) a w ≡ ok end w'
      → ⊥
  unfolding each_bit
  each_bit-stopped b bs a w h e = let ended = rw h at e in cc

  -- A loop that returns has seen its first link, and went on by what it decided.
  pub each_bit-observed :
      (b : ℕ) (bs : List ℕ) (a : A) (w : World) {end : Round A} {w' : World}
      → each_bit observing (b ∷ bs) a w ≡ ok end w'
      → (o : Observation) × (w1 : World) × (observe_link step rig (pos b) w ≡ ok o w1)
        × (go_on bs (decide o a) w1 ≡ ok end w')
  each_bit-observed b bs a w e = elim (ending (observe_link step rig (pos b) w)) [
    | returned o w1 h ↦ (o, w1, h, sym (each_bit-seen b bs a w h) ∙ e)
    | stopped why w1 h ↦ absurd (each_bit-stopped b bs a w h e)
  ]
