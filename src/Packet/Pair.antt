-- ===== src/Packet/Pair.antt =====
-- Which pairs of a sent and a received packet are accepted.
use ccnx_testrig.Prelude.{
  ◌+◌, ◌-◌, ◌%◌, ◌^◌, ◌<◌, ◌≡◌, ◌↔◌, ◌⊎◌, inl, inr, subst, Bool, true, false, arith,
}
use ccnx_testrig.Platform.{Platform}
use ccnx_testrig.TestResult.{TestResult, HasReason, is_failure, set_fail}
use ccnx_testrig.Packet.{
  InterestFieldError, name_error, lifetime_error, hop_limit_error, key_id_restriction_error,
  content_object_hash_restriction_error, no_interest_error, valid_interest_pair,
  is_valid_packet_pair, valid_content_pair, valid_manifest_pair,
}

module _ ⦃p : Platform⦄ where
  -- The five conditions on a received Interest, in the order in which they are looked at.
  abbrev pub HopAgrees : p.Packet → p.Packet → Type 0
  HopAgrees egress ingress = p.get_hop_limit egress ≡ (p.get_hop_limit ingress + 1) % 2 ^ 32

  abbrev pub LifetimeAgrees : p.Packet → p.Packet → Type 0
  LifetimeAgrees egress ingress = p.get_lifetime egress ≡ p.get_lifetime ingress

  abbrev pub same_name : p.Packet → p.Packet → Bool
  same_name egress ingress = p.name_equals (p.get_name egress) (p.get_name ingress)

  abbrev pub same_key_id : p.Packet → p.Packet → Bool
  same_key_id egress ingress =
      p.buffer_equals (p.get_key_id_restriction egress) (p.get_key_id_restriction ingress)

  abbrev pub same_hash : p.Packet → p.Packet → Bool
  same_hash egress ingress =
      p.buffer_equals (p.get_hash_restriction egress) (p.get_hash_restriction ingress)

  -- What an answer says of the two packets: the field that it names differs, and every field that
  -- is looked at earlier agrees.
  abbrev pub Blames : InterestFieldError → p.Packet → p.Packet → Type 0
  Blames hop_limit_error e i = ¬ (HopAgrees e i)
  Blames lifetime_error e i = HopAgrees e i × ¬ (LifetimeAgrees e i)
  Blames name_error e i = HopAgrees e i × LifetimeAgrees e i × (same_name e i ≡ false)
  Blames key_id_restriction_error e i =
      HopAgrees e i × LifetimeAgrees e i × (same_name e i ≡ true) × (same_key_id e i ≡ false)
  Blames content_object_hash_restriction_error e i =
      HopAgrees e i
      × LifetimeAgrees e i
      × (same_name e i ≡ true)
      × (same_key_id e i ≡ true)
      × (same_hash e i ≡ false)
  Blames no_interest_error e i =
      HopAgrees e i
      × LifetimeAgrees e i
      × (same_name e i ≡ true)
      × (same_key_id e i ≡ true)
      × (same_hash e i ≡ true)

  valid_interest_pair-Blames : (e i : p.Packet) → Blames (valid_interest_pair e i) e i
  unfolding valid_interest_pair
  valid_interest_pair-Blames e i = ground arith

  eq-of-Blames :
      (x : InterestFieldError) (e i : p.Packet) → Blames x e i → valid_interest_pair e i ≡ x
  unfolding valid_interest_pair
  eq-of-Blames name_error e i b = ground arith
  eq-of-Blames _ e i b = ground arith

  -- The comparison of two Interests answers an error exactly when the field that it names differs
  -- and the fields that are looked at before it agree (hop limit, lifetime, name, KeyId
  -- restriction, hash restriction, in this order), and no error exactly when all five agree.
  pub valid_interest_pair_iff :
      (x : InterestFieldError) (e i : p.Packet) → (valid_interest_pair e i ≡ x) ↔ Blames x e i
  valid_interest_pair_iff x e i =
      (λ q. subst (λ y. Blames y e i) q (valid_interest_pair-Blames e i), eq-of-Blames x e i)

  -- Two Interests whose hop limits are 32-bit numbers are accepted only if the received hop limit
  -- is one less than the sent one, or if it has wrapped from 0 to the largest.
  pub valid_interest_pair_hop :
      (e i : p.Packet)
      → p.get_hop_limit e < 2 ^ 32
      → p.get_hop_limit i < 2 ^ 32
      → valid_interest_pair e i ≡ no_interest_error
      → (p.get_hop_limit e ≡ p.get_hop_limit i + 1)
        ⊎ ((p.get_hop_limit e ≡ 0) × (p.get_hop_limit i ≡ 2 ^ 32 - 1))
  valid_interest_pair_hop e i he hi q =
      let agrees = ((valid_interest_pair_iff no_interest_error e i).0 q).0 in omega arith

  -- What a sent packet asks of the received one, by its type.
  abbrev pub Matches : p.Packet → p.Packet → Type 0
  Matches sent received =
      ((p.is_interest sent ≡ true) × Blames no_interest_error sent (p.meta_get_interest received))
      ⊎ ((p.is_interest sent ≡ false)
          × ((p.is_content_object sent ≡ true) ⊎ (p.is_manifest sent ≡ true)))

  -- A pair that matches leaves the result as it was.
  is_valid_packet_pair-Matches :
      (sent received : p.Packet) (r : TestResult)
      → Matches sent received
      → is_valid_packet_pair sent received r ≡ r
  unfolding is_valid_packet_pair valid_content_pair valid_manifest_pair
  is_valid_packet_pair-Matches sent received r (inl (i, fields)) =
      rw (i, eq-of-Blames no_interest_error sent (p.meta_get_interest received) fields)
  is_valid_packet_pair-Matches sent received r (inr (i, others)) = ground arith

  Matches-of_ok :
      (sent received : p.Packet) (r : TestResult)
      → is_failure (is_valid_packet_pair sent received r) ≡ false
      → Matches sent received
  unfolding is_valid_packet_pair is_failure set_fail
  Matches-of_ok sent received r h =
      ground (arith, valid_interest_pair-Blames sent (p.meta_get_interest received))

  is_failure-of_ok :
      (sent received : p.Packet) (r : TestResult)
      → is_failure (is_valid_packet_pair sent received r) ≡ false
      → is_failure r ≡ false
  is_failure-of_ok sent received r h =
      subst (λ x. is_failure x ≡ false)
        (is_valid_packet_pair-Matches sent received r (Matches-of_ok sent received r h)) h

  -- After a pair is compared the result is no failure exactly when it was none before and the pair
  -- matches: all five fields for an Interest, nothing at all for a content object or a manifest,
  -- and never for a sent packet of another type. The result is unchanged in that case.
  pub is_valid_packet_pair_iff :
      (sent received : p.Packet) (r : TestResult)
      → ((is_failure (is_valid_packet_pair sent received r) ≡ false)
          ↔ ((is_failure r ≡ false) × Matches sent received))
        × (Matches sent received → is_valid_packet_pair sent received r ≡ r)
  is_valid_packet_pair_iff sent received r = (
    (
      λ h. (is_failure-of_ok sent received r h, Matches-of_ok sent received r h),
      λ (f, m). rw (is_valid_packet_pair-Matches sent received r m) f,
    ),
    is_valid_packet_pair-Matches sent received r,
  )

  pub is_valid_packet_pair-HasReason :
      (sent received : p.Packet) (r : TestResult)
      → HasReason r
      → HasReason (is_valid_packet_pair sent received r)
  unfolding is_valid_packet_pair set_fail
  is_valid_packet_pair-HasReason sent received r h = ground arith

  pub is_valid_packet_pair-test_case :
      (sent received : p.Packet) (r : TestResult)
      → (is_valid_packet_pair sent received r).test_case ≡ r.test_case
  unfolding is_valid_packet_pair set_fail
  is_valid_packet_pair-test_case sent received r = ground arith
