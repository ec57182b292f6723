-- ===== src/Script/Plan/Leading.antt =====
-- The functions that build a script, as rules: what is left to run after each of them comes to a
-- verdict if it does so with the action added to the trail.
use ccnx_testrig.Prelude.{
  ℕ, suc, ◌+◌, ◌≡◌, refl, sym, ◌∙◌, ap, subst, some, List, [], ◌∷◌, ◌++◌, length, get_elem?, arith,
}
use ccnx_testrig.Run.{Cmd, Run, and_then, Returns, returns, ◌>>=◌}
use ccnx_testrig.Platform.{Platform}
use ccnx_testrig.Platform.Laws.{BufferLaws, BitVectorLaws, add_bit}
use ccnx_testrig.TestResult.{TestResult}
use ccnx_testrig.World.{StepPointer, Step, World, Rig}
use ccnx_testrig.Channels.{Channels, IsLink}
use ccnx_testrig.Script.{Script, append_step, add_send_step, add_respond_step}
use ccnx_testrig.Script.Building.{Adds, add_send_step-Adds, add_respond_step-Adds}
use ccnx_testrig.Script.Plan.{Action, send, respond, Verdict}
use ccnx_testrig.Script.Plan.Placed.{Does}
use ccnx_testrig.Script.Plan.Executing.{MeetsAll}
use ccnx_testrig.Script.Plan.Built.{Trail, next, NotedIn, Grows, AllIn-NotedIn}
use ccnx_testrig.Script.Plan.Grown.{
  Built, unowned_behind, owner_next, owner_next_apart, owner_next_agrees, Built-Adds,
}

module _ ⦃p : Platform⦄ (buffers : BufferLaws p) (laws : BitVectorLaws p) {rig : Rig}
    (channels : Channels rig) where
  -- A command comes to the verdict from each world in which the script stands for the trail.
  pub record Leads (v : Verdict channels) (t : Trail) (script : Script) (e : channels.Env) (d : ℕ)
      (m : Cmd World TestResult) : Type 0 where
    pub leads : (w : World) → Built laws channels t script e d w → MeetsAll channels v (m w)

  -- After a call that returns, from what the call leaves.
  pub MeetsAll-after :
      {A : Type 0} {P : A → World → Type 0} {r : Run World A} (v : Verdict channels)
      (k : A → Cmd World TestResult)
      → Returns P r
      → ((a : A) (w : World) → P a w → MeetsAll channels v (k a w))
      → MeetsAll channels v (and_then r k)
  MeetsAll-after v k (returns h) f = f _ _ h

get_elem?-append_second :
    {A : Type 0} (xs : List A) (x y : A) → get_elem? (xs ++ x ∷ y ∷ []) (length xs + 1) ≡ some y
get_elem?-append_second [] x y = refl
get_elem?-append_second (z ∷ xs) x y =
    let one_more : length (z ∷ xs) + 1 ≡ suc (length xs + 1) = omega arith in
    ap (get_elem? (z ∷ (xs ++ x ∷ y ∷ []))) one_more ∙ get_elem?-append_second xs x y

module _ {S A : Type 0} where
  pub Returns-map :
      {P Q : A → S → Type 0} {r : Run S A}
      → Returns P r
      → ((a : A) (s : S) → P a s → Q a s)
      → Returns Q r
  Returns-map (returns h) f = returns (f _ _ h)

same_added :
    ⦃p : Platform⦄ {script : Script} {w w' : World} {more : List p.BitVector} {new : Step}
    {added : StepPointer × Script}
    → Adds script w more new added w'
    → added ≡ append_step script added.0
same_added {script} {added} adds =
    ap (λ s. (added.0, s))
      (adds.in_script
        ∙ ap (λ at. record script { steps = script.steps ++ at ∷ [] }) (sym adds.pointer))

module _ ⦃p : Platform⦄ (buffers : BufferLaws p) (laws : BitVectorLaws p) {rig : Rig}
    (channels : Channels rig) (v : Verdict channels) (t : Trail) (script : Script)
    (e : channels.Env) (d : ℕ) where
  -- What a call leaves that adds a step for an action to a script that stands for the trail.
  abbrev pub AddsFor :
      Action
      → (w : World) → Built laws channels t script e d w
      → StepPointer × Script
      → World
      → Type 0
  AddsFor a w built added w' =
      (new : Step) × (more : List p.BitVector) × Adds script w more new added w'
      × (Grows w w' → Does laws (owner_next laws channels built) a new w')

  pub after_added :
      (a : Action) (k : StepPointer × Script → Cmd World TestResult) (w : World)
      (built : Built laws channels t script e d w) {r : Run World (StepPointer × Script)}
      → Returns (AddsFor a w built) r
      → ((at : StepPointer)
          → Leads buffers laws channels v
              (next t a at)
              (append_step script at).1
              e
              d
              (k (append_step script at)))
      → MeetsAll channels v (and_then r k)
  after_added a k w built adding f =
      MeetsAll-after buffers laws channels v k adding λ added w' (new, more, adds, does).
        let same = same_added adds in
        let built' = Built-Adds laws channels built a new more added w' adds does in
        subst (λ x. MeetsAll channels v (k x w')) (sym same)
          ((f added.0).leads w' (
            subst (λ (x : StepPointer × Script). Built laws channels (next t a added.0) x.1 e d w')
              same built'))

module _ ⦃p : Platform⦄ {buffers : BufferLaws p} {laws : BitVectorLaws p} {rig : Rig}
    {channels : Channels rig} {v : Verdict channels} {t : Trail} {script : Script}
    {e : channels.Env} {d : ℕ} where
  pub send_step-Leads :
      {packet : p.Packet} {i : ℕ} (k : StepPointer × Script → Cmd World TestResult)
      → IsLink i
      → ((at : StepPointer)
          → Leads buffers laws channels v
              (next t (send i packet) at)
              (append_step script at).1
              e
              d
              (k (append_step script at)))
      → Leads buffers laws channels v t script e d (add_send_step script packet i >>= k)
  send_step-Leads {packet} {i} k link f = record {
    leads = λ w built.
        after_added buffers laws channels v t script e d (send i packet) k w built
          (Returns-map (add_send_step-Adds script packet i w)
            λ added w' (new, adds, executes, has_packet, links). (
              new,
              p.set_bit p.create_vector i ∷ [],
              adds,
              λ grows. (
                executes,
                has_packet,
                owner_next_apart laws channels built new.link_vector
                      (λ same. omega (arith, same, links))
                    ∙ unowned_behind laws channels built new.link_vector (omega (arith, links)),
                (
                  p.set_bit p.create_vector i,
                  ap (get_elem? w'.vectors) links
                      ∙ ap (λ vs. get_elem? vs (length w.vectors + 1)) adds.new_vectors
                      ∙ get_elem?-append_second w.vectors p.create_vector
                          (p.set_bit p.create_vector i),
                  laws.bits-set p.create_vector i (omega (arith, link.1))
                      ∙ ap (add_bit i) laws.bits-create
                      ∙ unfold add_bit in refl,
                ),
                link,
              ),
            ))
          f;
  }

  pub respond_step-Leads :
      {at : StepPointer} {j : ℕ} {packet : p.Packet}
      (k : StepPointer × Script → Cmd World TestResult)
      → NotedIn at j t
      → ((at' : StepPointer)
          → Leads buffers laws channels v
              (next t (respond j packet) at')
              (append_step script at').1
              e
              d
              (k (append_step script at')))
      → Leads buffers laws channels v t script e d (add_respond_step script at packet >>= k)
  respond_step-Leads {at} {j} {packet} k noted f = record {
    leads = λ w built.
        let (step, found, owned) = AllIn-NotedIn laws built.owner w noted built.all in
        let ((vector, has, _), _) = built.noted step.received_link_vector j owned in
        after_added buffers laws channels v t script e d (respond j packet) k w built
          (Returns-map (add_respond_step-Adds script at packet w step found)
            λ added w' (new, adds, executes, has_packet, links). (
              new,
              [],
              adds,
              λ grows. (
                executes,
                has_packet,
                ap (owner_next laws channels built) links
                    ∙ owner_next_agrees laws channels built step.received_link_vector vector has
                    ∙ owned,
              ),
            ))
          f;
  }
