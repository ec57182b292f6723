-- ===== src/Script/Execute/Steps.antt =====
-- The loop over the steps of a script.
use ccnx_testrig.Prelude.{
  ℕ, ◌+◌, String, pos, ◌≡◌, ◌↔◌, refl, sym, ◌∙◌, ap, subst, ◌⊎◌, inl, inr, Bool-cases, true, false,
  some, List, [], ◌∷◌, ◌++◌, append-nil, get_elem?, length, arith,
}
use ccnx_testrig.Run.{ok, and_then-eq-ok, or_stop-eq-ok, null_pointer}
use ccnx_testrig.Reporter.{stdout, numbered}
use ccnx_testrig.Platform.{Platform}
use ccnx_testrig.Heap.{copy_string}
use ccnx_testrig.TestResult.{TestResult, create_result, fresh_result, set_pass, is_failure}
use ccnx_testrig.World.{StepPointer, Step, World, Rig, load_step}
use ccnx_testrig.Script.{Script}
use ccnx_testrig.Script.Execute.{execute_step, execute_steps, execute_script, executing, failed_at}

module _ ⦃p : Platform⦄ where
  -- The world in which a line with a step's number has been written to the standard output.
  abbrev pub said : String → ℕ → World → World
  said words i w = record w {
    net = record w.net { console = w.net.console ++ (stdout, numbered words (pos i)) ∷ [] };
  }

module _ ⦃p : Platform⦄ (rig : Rig) where
  -- The steps from the `i`-th on are announced and executed in turn, each of them without a failure.
  pub data Passes : ℕ → List StepPointer → TestResult → World → TestResult → World → Type 0 where
    done : {i : ℕ} {r : TestResult} {w : World} → Passes i [] r w r w
    next :
        {i : ℕ} {at : StepPointer} {steps : List StepPointer} {step : Step} {r r1 r2 : TestResult}
        {w w1 w2 : World}
        → get_elem? w.steps at ≡ some step
        → execute_step step r rig (said executing i w) ≡ ok r1 w1
        → is_failure r1 ≡ false
        → Passes (i + 1) steps r1 w1 r2 w2
        → Passes i (at ∷ steps) r w r2 w2

  -- Some first steps pass, and the one behind them is announced, fails with the given result, and is
  -- said to have failed.
  pub record FailsAt (i : ℕ) (steps : List StepPointer) (r : TestResult) (w : World)
      (r' : TestResult) (w' : World) : Type 0 where
    pub before : List StepPointer
    pub at : StepPointer
    pub after : List StepPointer
    pub split : steps ≡ before ++ at ∷ after
    pub result : TestResult
    pub world : World
    pub passes : Passes i before r w result world
    pub step : Step
    pub found : get_elem? world.steps at ≡ some step
    pub left : World
    pub executed :
        execute_step step result rig (said executing (i + length before) world) ≡ ok r' left
    pub fails : is_failure r' ≡ true
    pub told : w' ≡ said failed_at (i + length before) left

  -- All steps pass and the result is marked as passed, or one of them is the first to fail.
  abbrev pub Ends : ℕ → List StepPointer → TestResult → World → TestResult → World → Type 0
  Ends i steps r w r' w' =
      ((r1 : TestResult) × Passes i steps r w r1 w' × (r' ≡ set_pass r1))
      ⊎ FailsAt i steps r w r' w'

  Ends-next :
      {i : ℕ} {at : StepPointer} {steps : List StepPointer} {step : Step} {r r1 r' : TestResult}
      {w w1 w' : World}
      → get_elem? w.steps at ≡ some step
      → execute_step step r rig (said executing i w) ≡ ok r1 w1
      → is_failure r1 ≡ false
      → Ends (i + 1) steps r1 w1 r' w'
      → Ends i (at ∷ steps) r w r' w'
  Ends-next found e fine (inl (r2, passes, same)) = inl (r2, next found e fine passes, same)
  Ends-next {i} {at} {r'} {w'} found e fine (inr f) =
      let later : i + 1 + length f.before ≡ i + length (at ∷ f.before) = omega arith in
      inr (record {
        before = at ∷ f.before;
        at = f.at;
        after = f.after;
        split = ap (λ l. at ∷ l) f.split;
        result = f.result;
        world = f.world;
        passes = next found e fine f.passes;
        step = f.step;
        found = f.found;
        left = f.left;
        executed =
            subst (λ k. execute_step f.step f.result rig (said executing k f.world) ≡ ok r' f.left)
              later f.executed;
        fails = f.fails;
        told = subst (λ k. w' ≡ said failed_at k f.left) later f.told;
      })

  load_step-found :
      (at : StepPointer) (w w1 : World) (step : Step)
      → load_step (some at) w ≡ ok step w1
      → (get_elem? w.steps at ≡ some step) × (w ≡ w1)
  load_step-found at w w1 step e = or_stop-eq-ok (get_elem? w.steps at) null_pointer e

  execute_steps-Ends :
      (i : ℕ) (steps : List StepPointer) (r r' : TestResult) (w w' : World)
      → execute_steps i steps r rig w ≡ ok r' w'
      → Ends i steps r w r' w'
  unfolding execute_steps
  execute_steps-Ends i [] r r' w w' e =
      let same_world : w ≡ w' = cc in inl (r, subst (Passes i [] r w r) same_world done, cc)
  execute_steps-Ends i (at ∷ steps) r r' w w' e =
      let w0 = said executing i w in
      let (step, w1, e1, e2) = and_then-eq-ok (load_step (some at) w0) _ e in
      let (found, same) = load_step-found at w0 w1 step e1 in
      let (r1, w2, e3, e4) = and_then-eq-ok (execute_step step r rig w1) _ e2 in
      let executed : execute_step step r rig w0 ≡ ok r1 w2 =
        subst (λ u. execute_step step r rig u ≡ ok r1 w2) (sym same) e3 in
      elim (Bool-cases (is_failure r1)) [
        | inl failed ↦
            let left = rw failed at e4 in
            let same_result : r1 ≡ r' = cc in
            let told : said failed_at i w2 ≡ w' = cc in
            let first : i + 0 ≡ i = omega arith in
            inr (record {
              before = [];
              at = at;
              after = steps;
              split = refl;
              result = r;
              world = w;
              passes = done;
              step = step;
              found = found;
              left = w2;
              executed =
                  subst (λ k. execute_step step r rig (said executing k w) ≡ ok r' w2) (sym first)
                    (executed ∙ ap (λ x. ok x w2) same_result);
              fails = subst (λ x. is_failure x ≡ true) same_result failed;
              told = subst (λ k. w' ≡ said failed_at k w2) (sym first) (sym told);
            })
        | inr fine ↦
            Ends-next found executed fine
              (execute_steps-Ends (i + 1) steps r1 r' w2 w' (rw fine at e4))
      ]

  -- Steps that pass in front of others leave those to be executed.
  execute_steps-Passes :
      {i : ℕ} {before : List StepPointer} {r r1 : TestResult} {w w1 : World}
      (rest : List StepPointer)
      → Passes i before r w r1 w1
      → execute_steps i (before ++ rest) r rig w ≡ execute_steps (i + length before) rest r1 rig w1
  unfolding execute_steps
  execute_steps-Passes {i} {r} {w} rest done =
      let first : i ≡ i + 0 = omega arith in ap (λ k. execute_steps k rest r rig w) first
  execute_steps-Passes {i} {r1} {w1} rest (next {at} {steps} found executed fine passes) =
      let later : i + 1 + length steps ≡ i + length (at ∷ steps) = omega arith in
      rw found (
        rw executed (
          rw fine
            (execute_steps-Passes rest passes ∙ ap (λ k. execute_steps k rest r1 rig w1) later)))

  execute_steps-failed :
      (i : ℕ) (at : StepPointer) (after : List StepPointer) (step : Step) (r r' : TestResult)
      (w w' : World)
      → get_elem? w.steps at ≡ some step
      → execute_step step r rig (said executing i w) ≡ ok r' w'
      → is_failure r' ≡ true
      → execute_steps i (at ∷ after) r rig w ≡ ok r' (said failed_at i w')
  unfolding execute_steps
  execute_steps-failed i at after step r r' w w' found executed fails =
      rw found (rw executed (rw fails))

  execute_steps-of_Ends :
      (i : ℕ) (steps : List StepPointer) (r r' : TestResult) (w w' : World)
      → Ends i steps r w r' w'
      → execute_steps i steps r rig w ≡ ok r' w'
  execute_steps-of_Ends i steps r r' w w' (inl (r1, passes, same)) =
      sym (ap (λ l. execute_steps i l r rig w) (append-nil steps))
      ∙ execute_steps-Passes [] passes
      ∙ unfold execute_steps in ap (λ x. ok x w') (sym same)
  execute_steps-of_Ends i steps r r' w w' (inr f) =
      ap (λ l. execute_steps i l r rig w) f.split
      ∙ execute_steps-Passes (f.at ∷ f.after) f.passes
      ∙ execute_steps-failed (i + length f.before) f.at f.after f.step f.result r' f.world f.left
          f.found f.executed f.fails
      ∙ ap (ok r') (sym f.told)

  -- Executing a script returns a result exactly if the heap has a spare byte behind the copy of its
  -- test case, in one of two ways: every step is announced with its
  -- number and executed in turn, none fails, and the last result is returned marked as passed; or
  -- some steps pass, the step behind them is announced and is the first to fail, the failure is
  -- said with the step's number, and the step's result is returned, so that no later step is
  -- executed or announced.
  pub execute_script_iff :
      (script : Script) (r' : TestResult) (w w' : World)
      → (execute_script script rig w ≡ ok r' w') ↔ (
          (p.has_spare_byte script.test_case ≡ true)
          × Ends 1 script.steps (fresh_result script.test_case) w r' w')
  unfolding execute_script create_result copy_string
  execute_script_iff script r' w w' = elim (Bool-cases (p.has_spare_byte script.test_case)) [
    | inl spare ↦ (
      λ e. (
        spare,
        execute_steps-Ends 1 script.steps (fresh_result script.test_case) r' w w' (rw spare at e),
      ),
      λ (_, h).
          rw spare (execute_steps-of_Ends 1 script.steps (fresh_result script.test_case) r' w w' h),
    )
    | inr over ↦ (λ e. absurd (let e' = rw over at e in cc), λ (spare, _). absurd (cc))
  ]
