-- ===== src/Heap.antt =====
-- `malloc(strlen(s))` followed by `strcpy`, as the program copies strings: the terminator is written
-- one byte behind the block. Where the heap has no byte to spare there, the run stops.
use ccnx_testrig.Prelude.{◌≡◌, String, true, if◌then◌else◌}
use ccnx_testrig.Run.{Cmd, pure, halt, buffer_overflow}
use ccnx_testrig.Platform.{Platform}

module _ ⦃p : Platform⦄ where
  unfoldable pub copy_string : {S : Type 0} → String → Cmd S String
  copy_string s = if p.has_spare_byte s then pure s else halt buffer_overflow

  -- The heap has a spare byte behind every block.
  abbrev pub HasSpareBytes : Type 0
  HasSpareBytes = (s : String) → p.has_spare_byte s ≡ true
