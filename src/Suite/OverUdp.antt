-- ===== src/Suite/OverUdp.antt =====
-- The tests of the suite on a rig whose links are over UDP.
use ccnx_testrig.Prelude.{ℕ, ℤ, ◌≤◌, ◌≡◌, true, length}
use ccnx_testrig.Run.{Returns}
use ccnx_testrig.Platform.{Platform}
use ccnx_testrig.Heap.{HasSpareBytes}
use ccnx_testrig.Platform.Laws.{BufferLaws, BitVectorLaws, CodecLaws}
use ccnx_testrig.TestResult.{is_failure}
use ccnx_testrig.World.{Rig, World}
use ccnx_testrig.Rig.Listed.{starts_over}
use ccnx_testrig.Channels.Datagrams.{Datagrams}
use ccnx_testrig.Channels.Udp.{UdpHolds, udp_channels}
use ccnx_testrig.Suite.{SuiteTest, run_case}
use ccnx_testrig.Suite.Refined.{verdict_of, is_failed, run_case-Returns}

module _ ⦃p : Platform⦄ (buffers : BufferLaws p) (laws : BitVectorLaws p) (codec : CodecLaws p)
    (fits : (n : ℕ) → length (p.next_bytes n) ≤ 16)
    (over : (n : ℕ) → starts_over (p.words_behind n) ≡ true) (socket : ℕ → ℤ)
    (datagrams : Datagrams socket) (rig : Rig) (spare : HasSpareBytes) where
  -- Let PARC's buffers and bit vectors and the codec behave as documented, let a draw of random bytes
  -- have at most 16, and let the word behind the arguments of each variadic call be CCNxTestrigLinkID_NULL
  -- or more, and let the heap have a byte to spare behind each block. If the rig's links are over UDP
  -- and each receive on their sockets times out or delivers a datagram that the codec reads, without
  -- an error of poll or recvfrom, each test returns a result: it has failed exactly if the test's plan fails on the datagrams that the
  -- sockets yield, and the links are over UDP afterwards.
  pub run_case-UdpHolds :
      (test : SuiteTest) (e : datagrams.Env) (w : World)
      → UdpHolds socket datagrams rig e w.net
      → Returns
          (λ r w'.
            (is_failure r
              ≡ is_failed (udp_channels socket datagrams rig buffers spare) (
                  verdict_of buffers codec
                    (udp_channels socket datagrams rig buffers spare)
                    w.draws
                    test
                    e))
            × ((e' : datagrams.Env) × UdpHolds socket datagrams rig e' w'.net))
          (run_case rig test w)
  run_case-UdpHolds test e w holds =
      run_case-Returns buffers laws codec (udp_channels socket datagrams rig buffers spare) fits
        over test e w holds
