-- ===== src/Script/Building.antt =====
-- Building scripts: what the functions that add a step leave.
use ccnx_testrig.Prelude.{
  ℕ, ◌+◌, ◌∙◌, append_assoc, length-append, ◌≡◌, refl, none, some, List, [], ◌∷◌, ◌++◌, length,
  get_elem?, set, get_elem?-append_length, set-append_length,
}
use ccnx_testrig.Run.{Returns, returns}
use ccnx_testrig.Platform.{Platform}
use ccnx_testrig.World.{
  VectorPointer, StepPointer, ExecuteFunction, execute_send, execute_receive_one,
  execute_receive_none, execute_receive_all, Step, World,
}
use ccnx_testrig.Script.{
  Script, add_send_step, add_respond_step, add_receive_one_step, add_receive_none_step,
  add_receive_all_step,
}

module _ ⦃p : Platform⦄ where
  -- One step has been added behind those of the world and of the script, with the script's next
  -- index and with the given new vectors; its own vector of received links is the first of these
  -- and is empty. What surrounds the rig is as it was, and nothing was drawn.
  pub record Adds (script : Script) (w : World) (vectors : List p.BitVector) (new : Step)
      (added : StepPointer × Script) (w' : World) : Type 0 where
    pub pointer : added.0 ≡ length w.steps
    pub in_script : added.1 ≡ record script { steps = script.steps ++ length w.steps ∷ [] }
    pub in_world : w'.steps ≡ w.steps ++ new ∷ []
    pub new_vectors : w'.vectors ≡ w.vectors ++ p.create_vector ∷ vectors
    pub index : new.step_index ≡ length script.steps
    pub received : new.received_link_vector ≡ length w.vectors
    pub same_net : w'.net ≡ w.net
    pub same_draws : w'.draws ≡ w.draws

  -- Adding a send step returns: the new step sends the packet on the one link of a new vector.
  pub add_send_step-Adds :
      (script : Script) (packet : p.Packet) (i : ℕ) (w : World)
      → Returns
          (λ added w'.
            (new : Step) × Adds script w (p.set_bit p.create_vector i ∷ []) new added w'
            × (new.execute ≡ some execute_send)
            × (new.packet ≡ some packet)
            × (new.link_vector ≡ length w.vectors + 1))
          (add_send_step script packet i w)
  unfolding add_send_step
  add_send_step-Adds script packet i w =
      let vectors = w.vectors ++ p.create_vector ∷ [] in
      rw (get_elem?-append_length vectors p.create_vector) (
        returns (
          record {
            step_index = length script.steps;
            packet = some packet;
            link_vector = length vectors;
            execute = some execute_send;
            reference = none;
            received_link_vector = length w.vectors;
          },
          record {
            pointer = refl;
            in_script = refl;
            in_world = refl;
            new_vectors =
                set-append_length vectors p.create_vector (p.set_bit p.create_vector i)
                ∙ append_assoc w.vectors (p.create_vector ∷ []) (p.set_bit p.create_vector i ∷ []);
            index = refl;
            received = refl;
            same_net = refl;
            same_draws = refl;
          },
          refl,
          refl,
          length-append w.vectors (p.create_vector ∷ []),
        ))

  -- Adding a respond step to a step that is there returns: the new step sends the packet, and its
  -- links are, by sharing the vector, those that the other step notes as received on.
  pub add_respond_step-Adds :
      (script : Script) (at : StepPointer) (packet : p.Packet) (w : World) (step : Step)
      → get_elem? w.steps at ≡ some step
      → Returns
          (λ added w'.
            (new : Step) × Adds script w [] new added w'
            × (new.execute ≡ some execute_send)
            × (new.packet ≡ some packet)
            × (new.link_vector ≡ step.received_link_vector))
          (add_respond_step script at packet w)
  unfolding add_respond_step
  add_respond_step-Adds script at packet w step has = rw has (
      returns (
        record {
          step_index = length script.steps;
          packet = some packet;
          link_vector = step.received_link_vector;
          execute = some execute_send;
          reference = none;
          received_link_vector = length w.vectors;
        },
        record {
          pointer = refl;
          in_script = refl;
          in_world = refl;
          new_vectors = refl;
          index = refl;
          received = refl;
          same_net = refl;
          same_draws = refl;
        },
        refl,
        refl,
        refl,
      ))

  -- What adding a receive step of some kind leaves: the new step refers to the given one and shares
  -- the given vector.
  abbrev pub AddsReceive :
      ExecuteFunction
      → Script
      → StepPointer
      → VectorPointer
      → World
      → StepPointer × Script
      → World
      → Type 0
  AddsReceive kind script at links w added w' =
      (new : Step) × Adds script w [] new added w'
      × (new.execute ≡ some kind)
      × (new.reference ≡ some at)
      × (new.link_vector ≡ links)
      × (new.packet ≡ none)

  abbrev receive_step : ExecuteFunction → Script → StepPointer → VectorPointer → World → Step
  receive_step kind script at links w = record {
    step_index = length script.steps;
    packet = none;
    link_vector = links;
    execute = some kind;
    reference = some at;
    received_link_vector = length w.vectors;
  }

  -- The step as it is made first, without a function to execute.
  abbrev fresh_step : Script → StepPointer → VectorPointer → World → Step
  fresh_step script at links w = record (receive_step execute_send script at links w) {
    execute = none;
  }

  receive_step-Adds :
      (kind : ExecuteFunction) (script : Script) (at : StepPointer) (links : VectorPointer)
      (w : World)
      → Adds script w []
          (receive_step kind script at links w)
          (length w.steps, record script { steps = script.steps ++ length w.steps ∷ [] })
          (record w {
            vectors = w.vectors ++ p.create_vector ∷ [];
            steps =
                set
                  (w.steps ++ fresh_step script at links w ∷ [])
                  (length w.steps)
                  (receive_step kind script at links w);
          })
  receive_step-Adds kind script at links w = record {
    pointer = refl;
    in_script = refl;
    in_world =
        set-append_length w.steps (fresh_step script at links w)
          (receive_step kind script at links w);
    new_vectors = refl;
    index = refl;
    received = refl;
    same_net = refl;
    same_draws = refl;
  }

  -- Adding a receive step always returns, and the new step is of the kind that was asked for.
  pub add_receive_steps-AddsReceive :
      (script : Script) (at : StepPointer) (links : VectorPointer) (w : World)
      → Returns
          (AddsReceive execute_receive_one script at links w)
          (add_receive_one_step script at links w)
        × Returns
            (AddsReceive execute_receive_none script at links w)
            (add_receive_none_step script at links w)
        × Returns
            (AddsReceive execute_receive_all script at links w)
            (add_receive_all_step script at links w)
  unfolding add_receive_one_step add_receive_none_step add_receive_all_step
  add_receive_steps-AddsReceive script at links w =
      let found = get_elem?-append_length w.steps (fresh_step script at links w) in
      (
        rw found (
            returns
              (_, receive_step-Adds execute_receive_one script at links w, refl, refl, refl, refl)),
        rw found (
            returns (
              _,
              receive_step-Adds execute_receive_none script at links w,
              refl,
              refl,
              refl,
              refl,
            )),
        rw found (
            returns
              (_, receive_step-Adds execute_receive_all script at links w, refl, refl, refl, refl)),
      )
