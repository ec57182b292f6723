-- ===== src/Rig.antt =====
-- The rig of src/ccnxTestrig.c: its links by number, vectors of links, and flushing.
pub mod Vectors
pub mod Listed
pub mod Flush
use ccnx_testrig.Prelude.{
  ℕ, zero, suc, pos, true, false, ◌++◌, Option, none, some, List, [], ◌∷◌, ltb, ◌==◌, if◌then◌else◌,
  length,
}
use ccnx_testrig.Run.{Cmd, ok, pure, gets, or_stop, past_arguments, out_of_fuel, halt, ◌>>=◌, ◌>>◌}
use ccnx_testrig.Platform.{Platform}
use ccnx_testrig.Reporter.{Reporter, stdout, create_reporter}
use ccnx_testrig.Link.{LinkPointer, Net, receive_with_timeout}
use ccnx_testrig.World.{
  Options, Rig, VectorPointer, World, on_net, new_vector, load_vector, store_vector,
}

-- CCNxTestrigLinkID
abbrev pub link_id_a : ℕ
link_id_a = 1

abbrev pub link_id_b : ℕ
link_id_b = 2

abbrev pub link_id_c : ℕ
link_id_c = 3

abbrev pub link_id_null : ℕ
link_id_null = 4

unfoldable pub create_rig : Options → Rig
create_rig options = record {
  link_a = none;
  link_b = none;
  link_c = none;
  options = options;
  reporter = create_reporter stdout;
}

abbrev pub get_reporter : Rig → Reporter
get_reporter rig = rig.reporter

unfoldable pub get_link_by_id : Rig → ℕ → Option LinkPointer
get_link_by_id rig id =
    if id == link_id_a
    then rig.link_a
    else if id == link_id_b
    then rig.link_b
    else if id == link_id_c
    then rig.link_c
    else none

module _ ⦃p : Platform⦄ where
  -- The `for` over the arguments: `id` is the one at hand, `words` is what `va_arg` reads next.
  pub set_links : VectorPointer → ℕ → List ℕ → Cmd World Unit
  set_links at id [] =
      if ltb id link_id_null
      then (do v ← load_vector at; store_vector at (p.set_bit v id); halt past_arguments)
      else pure tt
  set_links at id (word ∷ words) =
      let rest = set_links at word words in
      if ltb id link_id_null
      then (do v ← load_vector at; store_vector at (p.set_bit v id); rest)
      else pure tt

  -- `passed` are the arguments behind the first one. Nothing marks their end, so that `va_arg`
  -- goes on into the words behind them.
  unfoldable pub get_link_vector : Rig → ℕ → List ℕ → Cmd World VectorPointer
  unfolding set_links
  get_link_vector rig link_id passed = do
    at ← new_vector
    v ← load_vector at
    store_vector at (p.set_bit v link_id)
    set_links at link_id (passed ++ p.words_behind at)
    pure at

  -- `while (receiveBuffer != NULL)`, with the receive before it.
  drain_link : ℕ → Option LinkPointer → Cmd Net Unit
  drain_link zero at = halt out_of_fuel
  drain_link (suc rounds) at = do
    received ← receive_with_timeout at (pos 100)
    elim received [ none ↦ pure tt | some _ ↦ drain_link rounds at ]

  unfoldable pub flush_links : ℕ → Rig → Cmd Net Unit
  unfolding drain_link get_link_by_id
  flush_links rounds rig = do
    drain_link rounds (get_link_by_id rig link_id_a)
    drain_link rounds (get_link_by_id rig link_id_b)
    drain_link rounds (get_link_by_id rig link_id_c)
