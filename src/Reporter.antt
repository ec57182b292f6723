-- ===== src/Reporter.antt =====
-- src/ccnxTestrig_Reporter.c: lines written to a stream. The console is everything that the
-- program has written, oldest first; formatting is kept apart from the text.
use ccnx_testrig.Prelude.{ℕ, ℤ, String, List, [], ◌∷◌, ◌++◌}
use ccnx_testrig.Run.{Cmd, modify}

pub data Stream : Type 0 where
  stdout stderr : Stream
  file : ℕ → Stream

-- What one `fprintf` or `perror` writes: a text, or a text with the number that follows it.
pub data Line : Type 0 where
  text : String → Line
  numbered : String → ℤ → Line

abbrev pub Console : Type 0
Console = List (Stream × Line)

abbrev pub print : Stream → Line → Cmd Console Unit
print fp line = modify (λ c. c ++ (fp, line) ∷ [])

pub record Reporter : Type 0 where
  pub fp : Stream

abbrev pub create_reporter : Stream → Reporter
create_reporter fout = record { fp = fout }

unfoldable pub report_message : Reporter → String → Cmd Console Unit
report_message reporter message = print reporter.fp (text message)
