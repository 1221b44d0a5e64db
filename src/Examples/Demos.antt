-- ===== src/Examples/Demos.antt =====
-- The demonstration's text, run (scripts/demo_phase5_attestation.py).
use meshlink_node.Prelude.{
  Bool, Bytes, Text, [], codes, false, none, refl, some, suc, take, true, zero, ℕ, ◌++◌, ◌+◌, ◌∷◌,
  ◌≡◌, nat_eq, list_eq, int_eq,
}
use meshlink_node.Gatt.{Peer}
use meshlink_node.Relay.Parts.{
  Pipeline, delivers, decrement_ttl, relay_copy, ttl_offset, is_telemetry_frame,
  is_backend_proxy_frame,
}
use meshlink_node.Relay.{is_attestation_presentation}
use meshlink_node.Relay.Traffic.{ReachesPipeline}
use meshlink_node.Demo.{DemoNode, inject, demo_moment, demo_datagram, int_from_bytes, texts_of}
use meshlink_node.Demo.Calls.{
  phone_a, phone_b, phone_c, loopback, node_1, new_demo, start_node-first, start_node-second,
}
use meshlink_node.Demo.Broadcast.{inject-demo_datagram}
use meshlink_node.Examples.Toy.{toy_core, toy_signer, toy_pipeline, message, moment}
use meshlink_node.Examples.Journeys.{tail}

-- Takes every packet, as one for all zones.
abbrev flooding : Pipeline
flooding = record toy_pipeline {
  process = λ n raw. (delivers (record (message 1 10 raw) { zone_id = 65535 }) none, n + 1);
}

abbrev idna : Text → Bool
idna = λ t. false

abbrev first : DemoNode flooding ℕ
first = new_demo 1 19801 19802 0 19788 idna (phone_a ∷ phone_b ∷ [])

abbrev second : DemoNode flooding ℕ
second = new_demo 2 19802 19801 0 19788 idna (phone_c ∷ [])

abbrev meet : Bytes
meet = 9 ∷ 10 ∷ 1 ∷ tail 65

abbrev meet_copy : Bytes
meet_copy = take ttl_offset meet ++ 2 ∷ 8 ∷ []

meet-reaches :
    (n : DemoNode flooding ℕ) (q : Peer)
    → n.relay.setup.enforces_attestation ≡ true
    → ReachesPipeline toy_core toy_signer n.relay (demo_moment n moment) q meet
unfolding is_telemetry_frame is_backend_proxy_frame is_attestation_presentation
meet-reaches n q e = record { not_telemetry = refl; not_proxy = refl; not_presented = rw e refl }

meet-copied : relay_copy meet none ≡ some meet_copy
unfolding relay_copy decrement_ttl
meet-copied = refl

inject-demo_datagram_example :
    let (a, sent, returned) = inject toy_core toy_signer first moment 5 phone_a meet in
    let (b, sent') =
      demo_datagram toy_core toy_signer second moment 6 (loopback, 19801) (codes "19801") meet in
    (sent ≡ record { payload = meet; to = (loopback, 19802) } ∷ [])
    × (a.phones.inboxes ≡ (phone_a, []) ∷ (phone_b, meet_copy ∷ []) ∷ [])
    × (sent' ≡ record { payload = meet; to = (loopback, 19801) } ∷ [])
    × (b.phones.inboxes ≡ (phone_c, meet_copy ∷ []) ∷ [])
inject-demo_datagram_example =
    inject-demo_datagram toy_core toy_signer flooding first second 19788 19788 idna moment moment 5
      6 meet (record (message 1 10 meet) { zone_id = 65535 })
      (record (message 1 10 meet) { zone_id = 65535 }) none none 0 1 0 1 meet_copy meet_copy 1 1
      (start_node-first 0 19788 idna (phone_a ∷ phone_b ∷ []))
      (start_node-second 0 19788 idna (phone_c ∷ [])) (meet-reaches first phone_a refl) refl refl
      meet-copied refl refl (meet-reaches second node_1 refl) refl refl meet-copied refl

abbrev zeros : ℕ → Bytes → Bytes
zeros zero bs = bs
zeros (suc n) bs = 0 ∷ zeros n bs

texts_of_two :
    texts_of (λ b. b) (zeros 72 (1 ∷ 0 ∷ 2 ∷ codes "hi!") ∷ zeros 72 (2 ∷ 0 ∷ 0 ∷ []) ∷ [])
    ≡ some (codes "hi" ∷ [])
unfolding texts_of int_from_bytes
texts_of_two = refl
