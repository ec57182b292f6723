-- ===== src/World.antt =====
-- The objects that the scripts work on: `struct ccnx_testrig` of src/ccnxTestrig.c,
-- `struct ccnx_testrig_script_step` of src/ccnxTestrig_Script.c, and the stores that hold what is
-- shared through pointers. A pointer is an index of its store.
use ccnx_testrig.Prelude.{
  ℕ, ℤ, pos, negsuc, ◌-◌, ◌%◌, ◌^◌, String, Option, none, some, List, [], ◌∷◌, ◌++◌, get_elem?, set,
  length,
}
use ccnx_testrig.Run.{Cmd, ok, halt, modify, or_stop, zoom, null_pointer}
use ccnx_testrig.Platform.{Platform}
use ccnx_testrig.Reporter.{Reporter, Console}
use ccnx_testrig.Link.{LinkType, LinkPointer, Net}

-- `link_type` and `address` are `none` until they are written.
pub record Options : Type 0 where
  pub link_type : Option LinkType
  pub address : Option String
  pub port : ℕ

-- A link that is NULL, or was not stored yet, is `none`.
pub record Rig : Type 0 where
  pub link_a : Option LinkPointer
  pub link_b : Option LinkPointer
  pub link_c : Option LinkPointer
  pub options : Options
  pub reporter : Reporter

abbrev pub VectorPointer : Type 0
VectorPointer = ℕ

abbrev pub StepPointer : Type 0
StepPointer = ℕ

-- What the function pointer of a step can be.
pub data ExecuteFunction : Type 0 where
  execute_send execute_receive_all execute_receive_one execute_receive_none : ExecuteFunction

-- An `int` used as an `unsigned`.
abbrev pub to_unsigned : ℤ → ℕ
to_unsigned (pos n) = n % 2 ^ 32
to_unsigned (negsuc n) = 2 ^ 32 - 1 - n % 2 ^ 32

module _ ⦃p : Platform⦄ where
  pub record Step : Type 0 where
    pub step_index : ℕ
    pub packet : Option p.Packet
    pub link_vector : VectorPointer
    pub execute : Option ExecuteFunction
    pub reference : Option StepPointer
    pub received_link_vector : VectorPointer

  -- `draws` counts the draws of random bytes.
  pub record World : Type 0 where
    pub net : Net
    pub vectors : List p.BitVector
    pub steps : List Step
    pub draws : ℕ

  abbrev pub on_net : {A : Type 0} → Cmd Net A → Cmd World A
  on_net = zoom (λ (w : World). w.net) (λ n w. record w { net = n })

  abbrev pub on_console : {A : Type 0} → Cmd Console A → Cmd World A
  on_console m = on_net (zoom (λ (n : Net). n.console) (λ c n. record n { console = c }) m)

  abbrev pub new_vector : Cmd World VectorPointer
  new_vector w = ok (length w.vectors) (record w { vectors = w.vectors ++ p.create_vector ∷ [] })

  abbrev pub load_vector : VectorPointer → Cmd World p.BitVector
  load_vector at w = or_stop (get_elem? w.vectors at) null_pointer w

  abbrev pub store_vector : VectorPointer → p.BitVector → Cmd World Unit
  store_vector at v = modify λ w. record w { vectors = set w.vectors at v }

  abbrev pub new_step : Step → Cmd World StepPointer
  new_step step w = ok (length w.steps) (record w { steps = w.steps ++ step ∷ [] })

  abbrev pub load_step : Option StepPointer → Cmd World Step
  load_step none w = halt null_pointer w
  load_step (some at) w = or_stop (get_elem? w.steps at) null_pointer w

  abbrev pub store_step : StepPointer → Step → Cmd World Unit
  store_step at step = modify λ w. record w { steps = set w.steps at step }
