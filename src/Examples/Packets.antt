-- ===== src/Examples/Packets.antt =====
-- Packets at the relay, run (node/relay.py).
use meshlink_node.Prelude.{
  Bytes, [], codes, false, none, pos, refl, some, suc, take, zero, ℕ, ◌++◌, ◌∷◌, ◌≡◌, nat_eq,
  list_eq,
}
use meshlink_node.Location.Service.{LocationService, handle_node_terminated}
use meshlink_node.Location.Store.{get_row}
use meshlink_node.Relay.Parts.{
  is_telemetry_frame, is_backend_proxy_frame, phone_ping_magic, forward_to_zone, send, relay_onward,
  relay_local, relay_copy, decrement_ttl, cross_zone, fan_out, after_location, ttl_offset,
}
use meshlink_node.Relay.{
  handle_packet, handle_mesh_packet, after_pipeline, is_attestation_presentation,
}
use meshlink_node.Relay.Routes.{AllowedBy, handle_packet-Allowed}
use meshlink_node.Relay.Traffic.{ReachesPipeline, beacon-terminated}
use meshlink_node.Examples.Toy.{
  toy_core, toy_signer, toy_pipeline, rows, now, guard, phone, moment, relay, message,
}

-- A beacon of the key 10, and a packet that is too short to parse.
abbrev beacon : Bytes
beacon = 2 ∷ 10 ∷ 7 ∷ 52 ∷ 13 ∷ 6 ∷ []

abbrev short : Bytes
short = 2 ∷ []

abbrev presentation : Bytes
presentation = 6 ∷ 10 ∷ 9 ∷ 97 ∷ []

-- 68 bytes, and then a ttl of 3 and a spray_l of 8.
abbrev long : ℕ → Bytes
long zero = 3 ∷ 8 ∷ []
long (suc n) = 0 ∷ long n

-- A packet for zone 9.
abbrev chat : Bytes
chat = 9 ∷ 10 ∷ 9 ∷ long 65

chat-effects :
    (handle_packet toy_core toy_signer toy_pipeline relay moment phone chat).effects
    ≡ forward_to_zone 9 chat ∷ send (codes "p2") (take ttl_offset chat ++ 2 ∷ 8 ∷ []) ∷ []
unfolding handle_packet handle_mesh_packet after_pipeline after_location relay_onward relay_local
    relay_copy decrement_ttl cross_zone fan_out handle_node_terminated is_telemetry_frame
    is_backend_proxy_frame is_attestation_presentation
chat-effects = refl

handle_packet-Allowed_example :
    AllowedBy toy_signer moment phone chat relay
      (handle_packet toy_core toy_signer toy_pipeline relay moment phone chat)
handle_packet-Allowed_example =
    handle_packet-Allowed toy_core toy_signer {p = toy_pipeline} moment phone chat relay

abbrev telemetry : Bytes
telemetry = phone_ping_magic ++ 1 ∷ []

beacon-reaches : ReachesPipeline toy_core toy_signer relay moment phone beacon
unfolding is_telemetry_frame is_backend_proxy_frame is_attestation_presentation
beacon-reaches = record { not_telemetry = refl; not_proxy = refl; not_presented = refl }

short-reaches : ReachesPipeline toy_core toy_signer relay moment phone short
unfolding is_telemetry_frame is_backend_proxy_frame is_attestation_presentation
short-reaches = record { not_telemetry = refl; not_proxy = refl; not_presented = refl }

abbrev service : LocationService
service = record { rows = rows; authz = guard; own_zone = 7 }

beacon-terminated_example :
    let h = handle_packet toy_core toy_signer toy_pipeline relay moment phone beacon in
    (h.effects ≡ [])
    × (h.raises ≡ false)
    × ((s : LocationService) × (h.relay.location ≡ some s)
        × (get_row s.rows (10 ∷ [])
            ≡ some (record {
              lat_microdeg = pos 52;
              lon_microdeg = pos 13;
              accuracy_m = 6;
              zone_id = 7;
              last_beacon_ts = now;
            })))
beacon-terminated_example =
    beacon-terminated toy_core toy_signer relay moment phone beacon service
      (message 2 10 (52 ∷ 13 ∷ 6 ∷ [])) none 1 (record { lat = pos 52; lon = pos 13; accuracy = 6 })
      beacon-reaches refl refl refl refl
