-- ===== src/Lib.antt =====
-- The CCNx test rig: a program that stands beside a CCNx forwarder, speaks to it over three links A, B
-- and C, and runs a suite of 21 scripts that send and expect packets on these links.
--
-- The parts, bottom up, with the files of the repository that they model:
--
-- - Run: how a C function runs, from a state to a value and a state, or to a stop: a read through
--   `NULL` or of a field never written, an array that does not fit, an exit, or a loop that has used up
--   its rounds. Prelude holds what all modules share.
-- - Platform: what the program uses and does not implement, as operations without definitions: sockets,
--   PARC's buffers and bit vectors, names, packets and the codec of the CCNx libraries, random bytes,
--   the words that lie behind the arguments of a variadic call, and getopt_long. Platform.Laws holds
--   what is relied on of buffers, bit vectors and the codec. Each theorem that needs it takes it as an argument.
-- - Heap: copying a string by `malloc(strlen(s))` and `strcpy`, which writes one byte behind the block.
--   Where the heap has a byte to spare there the copy is not noticed, else the run stops. Results, scripts
--   and options copy strings this way; where a theorem needs the spare bytes, it says so.
-- - Reporter: src/ccnxTestrig_Reporter.c. The console is the list of the lines written.
-- - TestResult: src/ccnxTestrig_SuiteTestResult.c.
-- - Packet: src/ccnxTestrig_PacketUtility.c, the comparison of sent and received packets and encoding.
-- - Link, with Link.Open: src/ccnxTestrig_Link.c. Links live in a store and are pointed to by index;
--   a field that the code has not written is `none`.
-- - World: the objects shared through pointers. Vectors of links and steps live in stores too, since a
--   respond step shares the vector of the step that it answers.
-- - Rig: the rig of src/ccnxTestrig.c, its links by number, vectors of links and flushing.
-- - Script, with Script.Execute: src/ccnxTestrig_Script.c, building scripts and executing their steps.
--   A loop over the bits of a vector has its body as an argument; receiving on all links and on one
--   link share what they do with a packet that came (`observe_link`).
-- - Channels: the links as a script needs them, an interface that links fill: what is received on a
--   link or not, and what is sent. A receive brings nothing or a message that the codec reads, printing
--   does not concern the channels, and the heap has spare bytes. Channels.Udp has links over UDP fill it.
-- - Script.Plan: what a script means, as a list of actions on channels, without pointers, vectors and
--   buffers. The children relate executing steps to performing actions (Asking to Executing) and the
--   functions that build a script to the plan that they build (Built to Listening); Answerable says which plans
--   cannot crash.
-- - Suite, with RandomName, Basic, Errors, Restrictions and RestrictionErrors:
--   src/ccnxTestrig_Suite.c, each of its 21 tests, the table of names, running one test and all.
--   Suite.Plans has their plans in a table, Suite.Refined relates the tests to
--   it, and Suite.Completed the run of all tests.
-- - Main: reading the command line and `main` of src/ccnxTestrig.c.
-- - Examples: a machine on which the code runs, and runs of it.
--
-- The other modules hold proofs and are named for what they prove.
--
-- Bounds and fuel. `int` and `unsigned` are 32 bits wide, and conversions between them are written out.
-- The loop over the bits of a vector is given one round more than there are bits, which is enough
-- (Script.Execute.BitLoop). The option loop and the flushing of a link take their rounds as an argument,
-- since they need not end; when they do, and when not, is stated below.
--
-- Not modelled: the reference counts, destructors and failing allocations of the PARC object system,
-- the format of the lines printed beyond their text and number, waiting for a key before the suite, and
-- the build files and scripts. The copy of the reason of a failed step is made once, of its last reason,
-- where the step is left (`settle`), not in each call of `set_fail`. The CCNx libraries always give a
-- name, so that the assertion on it in the second test holds.
pub mod Prelude
pub mod Run
pub mod Platform
pub mod Heap
pub mod Reporter
pub mod TestResult
pub mod Packet
pub mod Link
pub mod World
pub mod Rig
pub mod Channels
pub mod Script
pub mod Suite
pub mod Main
pub mod Examples
