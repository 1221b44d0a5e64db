-- ===== src/Relay.antt =====
-- The relay's packet handler (node/relay.py): what becomes of each packet that arrives over a phone
-- transport or the backhaul.
pub mod Parts
pub mod Ttl
pub mod Counters
pub mod Growth
pub mod Rows
pub mod Routes
pub mod Traffic
pub mod Delivery
pub mod Onward
pub mod Queries
pub mod Arrival
use meshlink_node.Prelude.{
  Bool, Bytes, Option, [], false, if◌then◌else◌, none, some, ℕ, ◌&&◌, ◌+◌, ◌==◌, ◌∷◌, nat_eq,
  list_eq,
}
use meshlink_node.Gatt.{Peer}
use meshlink_node.Location.Core.{Core}
use meshlink_node.Location.Service.{Signer, LocationService, handle_node_terminated}
use meshlink_node.Relay.Parts.{
  Handled, Moment, NodeRelay, Pipeline, PipelineResult, accepted_one, after_location, counted,
  cross_zone, decode_ascii, delivers, drops, is_backend_proxy_frame, is_telemetry_frame,
  msg_type_attestation_present, ping_frame, proxy_frame, received_one, relay_onward,
}

module _ (c : Core) (k : Signer) (p : Pipeline) where
  -- After the pipeline.
  unfoldable pub after_pipeline :
      NodeRelay p → Moment → Peer → Bytes → PipelineResult → Option LocationService → Handled p
  unfolding after_location
  after_pipeline r m peer raw drops location = record {
    relay = counted r (record r.stats { dropped = r.stats.dropped + 1 });
    effects = [];
    raises = false;
  }
  after_pipeline r m peer raw (delivers msg forward) none =
      relay_onward (accepted_one r) m peer raw msg forward
  after_pipeline r m peer raw (delivers msg forward) (some s) =
      let t = handle_node_terminated c k s m.directory m.clocks peer msg in
      after_location (accepted_one r) m peer raw msg forward t t.consumed

  abbrev dropped_one : NodeRelay p → p.State → Handled p
  dropped_one r core = record {
    relay = record r { core = core; stats = record r.stats { dropped = r.stats.dropped + 1 } };
    effects = [];
    raises = false;
  }

  -- After `add_token`, or after a payload that is not ASCII.
  unfoldable pub after_token : NodeRelay p → Bytes → ℕ → Option Bytes × p.State → Handled p
  unfolding cross_zone
  after_token r raw zone (none, core) = dropped_one r core
  after_token r raw zone (some sender_key, core) = record {
    relay = record r {
      core = core;
      stats = record r.stats { attestations_cached = r.stats.attestations_cached + 1 };
    };
    effects = cross_zone r.setup.own_zone_id zone raw;
    raises = false;
  }

  unfoldable pub after_presentation : NodeRelay p → Bytes → PipelineResult × p.State → Handled p
  unfolding after_token decode_ascii
  after_presentation r raw (drops, core) = dropped_one r core
  after_presentation r raw (delivers msg forward, core) =
      after_token r raw msg.zone_id
        (elim (decode_ascii msg.payload) [ none ↦ (none, core) | some t ↦ p.add_token core t ])

  unfoldable pub is_attestation_presentation : Bytes → Bool
  is_attestation_presentation raw = elim (p.parse_packet raw) [
    | none ↦ false
    | some msg ↦ msg.msg_type == msg_type_attestation_present
  ]

  -- What is neither telemetry nor proxy traffic.
  unfoldable pub handle_mesh_packet : NodeRelay p → Moment → Peer → Bytes → Handled p
  unfolding after_pipeline after_presentation is_attestation_presentation
  handle_mesh_packet r₀ m peer raw =
      let r = received_one r₀ in
      let presented = after_presentation r raw (p.process_presentation r.core raw) in
      let (result, core) = p.process r.core raw in
      let piped = after_pipeline (record r { core = core }) m peer raw result r.location in
      if r.setup.enforces_attestation && is_attestation_presentation raw then presented else piped

  unfoldable pub handle_packet : NodeRelay p → Moment → Peer → Bytes → Handled p
  unfolding handle_mesh_packet is_telemetry_frame is_backend_proxy_frame
  handle_packet r m peer raw =
      if is_telemetry_frame raw
      then record {
        relay = r;
        effects = if r.setup.has_phone_ping then ping_frame peer raw ∷ [] else [];
        raises = false;
      }
      else if is_backend_proxy_frame raw
      then record {
        relay = r;
        effects = if r.setup.has_backend_proxy then proxy_frame peer raw ∷ [] else [];
        raises = false;
      }
      else handle_mesh_packet r m peer raw
