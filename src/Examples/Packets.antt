-- ===== src/Examples/Packets.antt =====
-- Pairs of packets that are compared, a packet that is encoded, and a result that is reported.
use ccnx_testrig.Prelude.{
  ℕ, ◌+◌, ◌-◌, ◌^◌, ◌≡◌, ◌↔◌, ◌⊎◌, refl, false, String, some, [], ◌∷◌, ◌++◌, arith,
}
use ccnx_testrig.Run.{ok}
use ccnx_testrig.Reporter.{create_reporter, stdout, text}
use ccnx_testrig.TestResult.{TestResult, fresh_result, set_fail, is_failure, report_result}
use ccnx_testrig.TestResult.Report.{verdict, report_result-verdict, set_fail-HasReason}
use ccnx_testrig.Packet.{
  hop_limit_error, no_interest_error, valid_interest_pair, is_valid_packet_pair, encode_packet,
}
use ccnx_testrig.Packet.Pair.{
  Blames, Matches, valid_interest_pair_iff, valid_interest_pair_hop, is_valid_packet_pair_iff,
}
use ccnx_testrig.Packet.Encode.{encode_packet-concat}
use ccnx_testrig.Platform.Laws.{concat}
use ccnx_testrig.Examples.Machine.{Message, desk, desk_buffers}

abbrev sent_packet : Message
sent_packet = record { kind = 0; hop_limit = 32; lifetime = 1000; message_name = 7 }

abbrev forwarded : Message
forwarded = record sent_packet { hop_limit = 31 }

abbrev packets_result : TestResult ⦃p = desk⦄
packets_result = fresh_result ⦃p = desk⦄ "packets"

valid_interest_pair_iff_example :
    (valid_interest_pair ⦃p = desk⦄ sent_packet sent_packet ≡ hop_limit_error)
    ↔ Blames ⦃p = desk⦄ hop_limit_error sent_packet sent_packet
valid_interest_pair_iff_example =
    valid_interest_pair_iff ⦃p = desk⦄ hop_limit_error sent_packet sent_packet

forwarded_ok : valid_interest_pair ⦃p = desk⦄ sent_packet forwarded ≡ no_interest_error
unfolding valid_interest_pair
forwarded_ok = refl

valid_interest_pair_hop_example :
    (◌≡◌ {A = ℕ} 32 (31 + 1)) ⊎ ((◌≡◌ {A = ℕ} 32 0) × (◌≡◌ {A = ℕ} 31 (2 ^ 32 - 1)))
valid_interest_pair_hop_example =
    valid_interest_pair_hop ⦃p = desk⦄ sent_packet forwarded (omega arith) (omega arith)
      forwarded_ok

is_valid_packet_pair_iff_example :
    ((is_failure (is_valid_packet_pair ⦃p = desk⦄ sent_packet forwarded packets_result) ≡ false)
      ↔ ((is_failure packets_result ≡ false) × Matches ⦃p = desk⦄ sent_packet forwarded))
    × (Matches ⦃p = desk⦄ sent_packet forwarded
        → is_valid_packet_pair ⦃p = desk⦄ sent_packet forwarded packets_result ≡ packets_result)
is_valid_packet_pair_iff_example =
    is_valid_packet_pair_iff ⦃p = desk⦄ sent_packet forwarded packets_result

encode_packet-concat_example :
    (b : desk.Buffer) × (encode_packet ⦃p = desk⦄ {S = ℕ} sent_packet 5 ≡ ok b 5)
    × (desk.overlay b ≡ concat (desk.dictionary_encode sent_packet))
encode_packet-concat_example = encode_packet-concat ⦃p = desk⦄ desk_buffers {S = ℕ} sent_packet 5

abbrev failed_result : TestResult ⦃p = desk⦄
failed_result = set_fail ⦃p = desk⦄ packets_result "why"

report_result-verdict_example :
    (why : String) × (failed_result.passed ≡ false → failed_result.reason ≡ some why)
    × (report_result ⦃p = desk⦄ failed_result (create_reporter stdout) []
        ≡ ok tt ([] ++ (stdout, text (verdict ⦃p = desk⦄ failed_result why)) ∷ []))
report_result-verdict_example =
    report_result-verdict ⦃p = desk⦄ failed_result (create_reporter stdout) []
      (set_fail-HasReason ⦃p = desk⦄ packets_result "why")
