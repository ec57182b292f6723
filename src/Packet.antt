-- ===== src/Packet.antt =====
-- src/ccnxTestrig_PacketUtility.c: comparing a sent packet with the received one, and putting a
-- packet into its wire format.
pub mod Pair
pub mod Encode
use ccnx_testrig.Prelude.{
  ℕ, ◌+◌, ◌%◌, ◌^◌, String, str_append, not, List, [], ◌∷◌, if◌then◌else◌, ◌==◌, length,
}
use ccnx_testrig.Run.{Cmd, pure, or_stop, null_pointer, buffer_overflow, ◌>>=◌}
use ccnx_testrig.Platform.{Platform}
use ccnx_testrig.TestResult.{TestResult, set_fail}

pub data InterestFieldError : Type 0 where
  name_error lifetime_error hop_limit_error : InterestFieldError
  key_id_restriction_error content_object_hash_restriction_error : InterestFieldError
  no_interest_error : InterestFieldError

pub data ContentObjectFieldError : Type 0 where
  content_name_error content_payload_error no_content_error : ContentObjectFieldError

pub data ManifestFieldError : Type 0 where
  manifest_name_error manifest_payload_error no_manifest_error : ManifestFieldError

-- `"%d"` of the enumerator
unfoldable pub show_error : InterestFieldError → String
show_error name_error = "0"
show_error lifetime_error = "1"
show_error hop_limit_error = "2"
show_error key_id_restriction_error = "3"
show_error content_object_hash_restriction_error = "4"
show_error no_interest_error = "5"

abbrev pub interest_reason : InterestFieldError → String
interest_reason e = str_append "An interest field was incorrect: " (show_error e)

total_bytes : ℕ → List (List ℕ) → ℕ
total_bytes total [] = total
total_bytes total (piece ∷ pieces) = total_bytes (total + length piece) pieces

module _ ⦃p : Platform⦄ where
  -- The hop limits are C unsigned integers of at most 32 bits.
  unfoldable pub valid_interest_pair : p.Packet → p.Packet → InterestFieldError
  valid_interest_pair egress ingress =
      if not (p.get_hop_limit egress == (p.get_hop_limit ingress + 1) % 2 ^ 32)
      then hop_limit_error
      else if not (p.get_lifetime egress == p.get_lifetime ingress)
      then lifetime_error
      else if not (p.name_equals (p.get_name egress) (p.get_name ingress))
      then name_error
      else if not
          (p.buffer_equals (p.get_key_id_restriction egress) (p.get_key_id_restriction ingress))
      then key_id_restriction_error
      else if not (p.buffer_equals (p.get_hash_restriction egress) (p.get_hash_restriction ingress))
      then content_object_hash_restriction_error
      else no_interest_error

  unfoldable pub valid_content_pair : p.Packet → p.Packet → ContentObjectFieldError
  valid_content_pair egress ingress = no_content_error

  unfoldable pub valid_manifest_pair : p.Packet → p.Packet → ManifestFieldError
  valid_manifest_pair egress ingress = no_manifest_error

  fail_interest : InterestFieldError → TestResult → TestResult
  fail_interest no_interest_error r = r
  fail_interest e r = set_fail r (interest_reason e)

  fail_content : ContentObjectFieldError → TestResult → TestResult
  fail_content no_content_error r = r
  fail_content _ r = set_fail r "A content object field was incorrect"

  fail_manifest : ManifestFieldError → TestResult → TestResult
  fail_manifest no_manifest_error r = r
  fail_manifest _ r = set_fail r "A manifest field was incorrect."

  unfoldable pub is_valid_packet_pair : p.Packet → p.Packet → TestResult → TestResult
  unfolding fail_interest fail_content fail_manifest
  is_valid_packet_pair sent received r =
      if p.is_interest sent
      then fail_interest (valid_interest_pair sent (p.meta_get_interest received)) r
      else if p.is_content_object sent
      then fail_content (valid_content_pair sent received) r
      else if p.is_manifest sent
      then fail_manifest (valid_manifest_pair sent (p.meta_get_manifest received)) r
      else set_fail r "The sent and received packet pair did not have the same message type."

  put_pieces : {S : Type 0} → List (List ℕ) → p.Buffer → Cmd S p.Buffer
  put_pieces [] buffer = pure buffer
  put_pieces (piece ∷ pieces) buffer = do
    written ← or_stop (p.put_array piece buffer) buffer_overflow
    put_pieces pieces written

  unfoldable pub encode_packet : {S : Type 0} → p.Packet → Cmd S p.Buffer
  unfolding total_bytes put_pieces
  encode_packet dict = do
    let pieces = p.dictionary_encode dict
    buffer ← put_pieces pieces (p.allocate (total_bytes 0 pieces))
    pure (p.flip buffer)

  unfoldable pub compute_message_hash : {S : Type 0} → p.Packet → Cmd S p.Buffer
  compute_message_hash dictionary = do
    wire_format ← encode_packet dictionary
    message ← or_stop (p.create_from_wire_format wire_format) null_pointer
    or_stop (p.compute_content_object_hash message) null_pointer
