-- ===== src/Suite/Plans.antt =====
-- The plans of the 21 tests of src/ccnxTestrig_Suite.c: which packets they send on which links, and
-- what they wait for. The packets are made of the name that the test draws.
use ccnx_testrig.Prelude.{ℕ, Option, none, some, List, [], ◌∷◌, ◌++◌}
use ccnx_testrig.Platform.{Platform}
use ccnx_testrig.Platform.Laws.{BufferLaws, CodecLaws}
use ccnx_testrig.Rig.{link_id_a, link_id_b, link_id_c}
use ccnx_testrig.Script.Plan.{Mode, on_all, on_one, on_none, Action, send, respond, receive}
use ccnx_testrig.Suite.Drawn.{drawn_name, hash_of}
use ccnx_testrig.Suite.{
  SuiteTest, fib_test_basic_interest_1a, fib_test_basic_interest_1b, content_object_test_1,
  content_object_test_2, content_object_test_3, content_object_test_4, content_object_test_5,
  content_object_test_6, content_object_errors_1, content_object_errors_2, content_object_errors_3,
  content_object_restrictions_1, content_object_restrictions_2, content_object_restrictions_3,
  content_object_restrictions_4, content_object_restriction_errors_1,
  content_object_restriction_errors_2, content_object_restriction_errors_3,
  content_object_restriction_errors_4, content_object_restriction_errors_5,
  content_object_restriction_errors_6,
}

module _ ⦃p : Platform⦄ where
  abbrev interest_for : p.Name → Option p.Buffer → Option p.Buffer → p.Packet
  interest_for name key_id hash = p.create_interest name 1000 key_id hash

  abbrev content_for : p.Name → p.Packet
  content_for name = p.create_content_object name (p.allocate 1024)

  abbrev nameless : p.Packet
  nameless = p.create_nameless_object (p.allocate 1024)

  -- Signed with a key that is found under "ccnx:/key/locator", with a signature of some bytes.
  abbrev sign : ℕ → p.Packet → p.Packet
  sign bytes packet =
      p.set_signature packet (p.allocate 32) (p.create_signature (p.allocate bytes))
        (p.create_key_locator (p.create_name "ccnx:/key/locator"))

  abbrev key : Option p.Buffer
  key = some (p.allocate 32)

  abbrev wrong_key : Option p.Buffer
  wrong_key = some (p.allocate_c_string "this is a key id")

  -- A packet is sent on link A and awaited on `there`, a second one is sent on `back`, and for it
  -- link A is waited on.
  abbrev exchange : p.Packet → ℕ → ℕ → p.Packet → Mode → List Action
  exchange asked there back answered mode =
      send link_id_a asked
      ∷ receive on_one asked (there ∷ [])
      ∷ send back answered
      ∷ receive mode answered (link_id_a ∷ [])
      ∷ []

module _ ⦃p : Platform⦄ (buffers : BufferLaws p) (codec : CodecLaws p) where
  -- The packet as it is asked for by its hash.
  abbrev asked_by_hash : p.Packet → Option p.Buffer
  asked_by_hash packet = some (hash_of buffers codec packet)

  -- The plan of a test that makes the `d`-th draw of random bytes.
  abbrev pub plan_of : ℕ → SuiteTest → List Action
  plan_of d fib_test_basic_interest_1a =
      let n = drawn_name buffers "ccnx:/test/b" d in
      send link_id_a (interest_for n none none)
      ∷ receive on_one (interest_for n none none) (link_id_b ∷ [])
      ∷ respond 1 (content_for n)
      ∷ receive on_one (content_for n) (link_id_a ∷ [])
      ∷ []
  plan_of d fib_test_basic_interest_1b =
      let n = drawn_name buffers "ccnx:/test/c" d in
      exchange (interest_for n none none) link_id_c link_id_c (content_for n) on_one
  plan_of d content_object_test_1 =
      let n = drawn_name buffers "ccnx:/test/b" d in
      exchange (interest_for n none none) link_id_b link_id_b (content_for n) on_one
  plan_of d content_object_test_2 =
      let n = drawn_name buffers "ccnx:/test/b" d in
      exchange (interest_for n none none) link_id_b link_id_b (p.create_manifest n) on_one
  plan_of d content_object_test_3 =
      let n = drawn_name buffers "ccnx:/test/bc" d in
      send link_id_a (interest_for n none none)
      ∷ receive on_one (interest_for n none none) (link_id_b ∷ link_id_c ∷ [])
      ∷ respond 1 (content_for n)
      ∷ receive on_one (content_for n) (link_id_a ∷ [])
      ∷ []
  plan_of d content_object_test_4 =
      let n = drawn_name buffers "ccnx:/test/ab" d in
      send link_id_a (interest_for n none none)
      ∷ receive on_one (interest_for n none none) (link_id_b ∷ [])
      ∷ receive on_none (interest_for n none none) (link_id_a ∷ [])
      ∷ respond 1 (content_for n)
      ∷ receive on_one (content_for n) (link_id_a ∷ [])
      ∷ []
  plan_of d content_object_test_5 =
      let n = drawn_name buffers "ccnx:/test/c" d in
      send link_id_a (interest_for n none none)
      ∷ send link_id_b (interest_for n none none)
      ∷ receive on_one (interest_for n none none) (link_id_c ∷ [])
      ∷ receive on_none (interest_for n none none) (link_id_c ∷ [])
      ∷ respond 2 (content_for n)
      ∷ receive on_all (content_for n) (link_id_a ∷ link_id_b ∷ [])
      ∷ []
  plan_of d content_object_test_6 =
      let n = drawn_name buffers "ccnx:/test/c" d in
      send link_id_a (interest_for n none none)
      ∷ receive on_one (interest_for n none none) (link_id_c ∷ [])
      ∷ send link_id_a (interest_for n none none)
      ∷ receive on_one (interest_for n none none) (link_id_c ∷ [])
      ∷ respond 3 (content_for n)
      ∷ receive on_all (content_for n) (link_id_a ∷ [])
      ∷ []
  plan_of d content_object_errors_1 =
      let n = drawn_name buffers "ccnx:/test/b" d in
      exchange (interest_for n none none) link_id_b link_id_a (content_for n) on_none
  plan_of d content_object_errors_2 =
      let n = drawn_name buffers "ccnx:/test/b" d in
      exchange (interest_for n none none) link_id_b link_id_c (content_for n) on_none
  plan_of d content_object_errors_3 =
      let n = drawn_name buffers "ccnx:/test/b" d in
      exchange (interest_for n none none) link_id_b link_id_b (content_for n) on_one
      ++ send link_id_b (content_for n) ∷ receive on_none (content_for n) (link_id_a ∷ []) ∷ []
  plan_of d content_object_restrictions_1 =
      let n = drawn_name buffers "ccnx:/test/b" d in
      exchange (interest_for n none (asked_by_hash (content_for n))) link_id_b link_id_b
        (content_for n) on_one
  plan_of d content_object_restrictions_2 =
      let n = drawn_name buffers "ccnx:/test/b" d in
      exchange (interest_for n key none) link_id_b link_id_b (sign 10 (content_for n)) on_one
  plan_of d content_object_restrictions_3 =
      let n = drawn_name buffers "ccnx:/test/b" d in
      exchange (interest_for n key (asked_by_hash (sign 10 (content_for n)))) link_id_b link_id_b
        (sign 10 (content_for n)) on_one
  plan_of d content_object_restrictions_4 =
      let n = drawn_name buffers "ccnx:/test/b" d in
      exchange (interest_for n none (asked_by_hash nameless)) link_id_b link_id_b nameless on_one
  plan_of d content_object_restriction_errors_1 =
      let n = drawn_name buffers "ccnx:/test/b" d in
      exchange (interest_for n none (some (p.allocate 32))) link_id_b link_id_b (content_for n)
        on_none
  plan_of d content_object_restriction_errors_2 =
      let n = drawn_name buffers "ccnx:/test/b" d in
      exchange (interest_for n wrong_key none) link_id_b link_id_b (sign 10 (content_for n)) on_none
  plan_of d content_object_restriction_errors_3 =
      let n = drawn_name buffers "ccnx:/test/b" d in
      exchange (interest_for n wrong_key none) link_id_b link_id_b (content_for n) on_none
  plan_of d content_object_restriction_errors_4 =
      let n = drawn_name buffers "ccnx:/test/b" d in
      exchange (interest_for n key none) link_id_b link_id_b (sign 256 nameless) on_none
  plan_of d content_object_restriction_errors_5 =
      let n = drawn_name buffers "ccnx:/test/b" d in
      exchange (interest_for n key (some (p.allocate 32))) link_id_b link_id_b (sign 10 nameless)
        on_none
  plan_of d content_object_restriction_errors_6 =
      let n = drawn_name buffers "ccnx:/test/b" d in
      exchange (interest_for n wrong_key (asked_by_hash (sign 10 nameless))) link_id_b link_id_b
        (sign 10 nameless) on_none
