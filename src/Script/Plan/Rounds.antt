-- ===== src/Script/Plan/Rounds.antt =====
-- Rounds over the bits of a vector that return, and what they observe.
use ccnx_testrig.Prelude.{ℕ, ℤ, pos, ◌≡◌, refl, sym, ◌∙◌, subst, List, [], ◌∷◌}
use ccnx_testrig.Run.{ok, Cmd, pure}
use ccnx_testrig.Platform.{Platform}
use ccnx_testrig.World.{Step, World, Rig}
use ccnx_testrig.Channels.{IsLink}
use ccnx_testrig.Script.Execute.{Observation, Round, next_round, leave}
use ccnx_testrig.Script.Execute.BitLoop.{each_bit}
use ccnx_testrig.Script.Execute.Trace.{Observes, done, seen}
use ccnx_testrig.Script.Plan.Asking.{AllLinks}

module _ ⦃p : Platform⦄ {A : Type 0} (I : World → Type 0) (body : ℤ → A → Cmd World (Round A)) where
  -- A loop whose rounds return and keep an invariant returns and keeps it.
  pub each_bit-returns :
      ((i : ℕ) (a : A) (w : World)
        → IsLink i
        → I w
        → (r : Round A) × (w' : World) × (body (pos i) a w ≡ ok r w') × I w')
      → (is : List ℕ) (a : A) (w : World) → AllLinks is
      → I w
      → (r : Round A) × (w' : World) × (each_bit body is a w ≡ ok r w') × I w'
  unfolding each_bit
  each_bit-returns keeps [] a w all h = (next_round a, w, refl, h)
  each_bit-returns keeps (i ∷ is) a w all h =
      let (r, w1, e, h1) = keeps i a w all.0 h in
      let (r2, w2, e2, h2) = by_round (λ c u. each_bit-returns keeps is c u all.1) r w1 h1 in
      (r2, w2, rw e e2, h2)
    where
      by_round :
          ((c : A) (u : World)
            → I u
            → (r2 : Round A) × (w2 : World) × (each_bit body is c u ≡ ok r2 w2) × I w2)
          → (r : Round A) (w1 : World) → I w1
          → (r2 : Round A) × (w2 : World) × ((elim r as (λ _. Cmd World (Round A)) [
            | leave c ↦ pure (leave c)
            | next_round c ↦ each_bit body is c
          ])
                w1
              ≡ ok r2 w2)
            × I w2
      by_round rest (leave c) w1 h1 = (leave c, w1, refl, h1)
      by_round rest (next_round c) w1 h1 = rest c w1 h1

pub ok-injective : {S A : Type 0} {a b : A} {s t : S} → ok a s ≡ ok b t → (a ≡ b) × (s ≡ t)
ok-injective e = (cc, cc)

module _ ⦃p : Platform⦄ (step : Step) (rig : Rig) where
  -- What a loop observes is determined.
  pub Observes-unique :
      {is : List ℕ} {w w1 w2 : World} {os os' : List Observation}
      → Observes step rig is w os w1
      → Observes step rig is w os' w2
      → os ≡ os'
  Observes-unique done done = refl
  Observes-unique (seen {bs} {o} saw rest) (seen {os = os'} {w2 = u} saw' rest') =
      let (same, same_world) = ok-injective (sym saw ∙ saw') in
      let others =
        Observes-unique rest (subst (λ w. Observes step rig bs w os' u) (sym same_world) rest') in
      cc
