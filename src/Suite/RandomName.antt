-- ===== src/Suite/RandomName.antt =====
-- `_createRandomName` of src/ccnxTestrig_Suite.c: a prefix and 16 random bytes in hexadecimal.
use ccnx_testrig.Prelude.{ℕ, ◌+◌, String}
use ccnx_testrig.Run.{Cmd, pure, gets, modify, or_stop, buffer_overflow, ◌>>=◌, ◌>>◌}
use ccnx_testrig.Platform.{Platform}
use ccnx_testrig.World.{World}

module _ ⦃p : Platform⦄ where
  abbrev next_draw : Cmd World ℕ
  next_draw = do
    draw ← gets (λ (w : World). w.draws)
    modify (λ (w : World). record w { draws = w.draws + 1 })
    pure draw

  unfoldable pub create_random_name : String → Cmd World p.Name
  create_random_name prefix = do
    draw ← next_draw
    suffix_bytes ← or_stop (p.put_array (p.next_bytes draw) (p.allocate 16)) buffer_overflow
    pure (p.compose_name (p.create_name prefix) (p.to_hex_string (p.flip suffix_bytes)))
