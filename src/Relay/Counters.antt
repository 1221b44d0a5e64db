-- ===== src/Relay/Counters.antt =====
-- The traffic counters add up (node/relay.py).
use meshlink_node.Prelude.{
  Bool, Bool-cases, Bytes, List, Option, arith, false, inl, inr, none, some, true, ℕ, ◌&&◌, ◌+◌,
  ◌≡◌, ◌≤◌, nat_eq, list_eq,
}
use meshlink_node.Gatt.{Peer}
use meshlink_node.Location.Core.{Message, Core}
use meshlink_node.Location.Service.{Signer, LocationService, Terminated, handle_node_terminated}
use meshlink_node.Relay.Parts.{
  Pipeline, PipelineResult, drops, delivers, Stats, Moment, NodeRelay, count_zone, relay_copy,
  relay_local, relay_onward, after_location, counted, received_one, accepted_one,
}
use meshlink_node.Relay.{
  after_pipeline, after_token, after_presentation, handle_mesh_packet, handle_packet,
  is_attestation_presentation,
}

-- Every packet that was received was accepted, dropped or cached as an attestation; every accepted
-- message was terminated, or relayed to phones, or neither; and none was sent to two kinds of nodes.
pub record Adds (s : Stats) : Type 0 where
  pub outcomes : s.received ≡ s.accepted + s.dropped + s.attestations_cached
  pub local_outcomes : s.relayed_to_phones + s.location_terminated ≤ s.accepted
  pub node_outcomes :
      s.broadcast_to_nodes + s.forwarded_cross_zone + s.location_terminated ≤ s.accepted

-- One accepted message whose outcome is still open.
record Pending (s : Stats) : Type 0 where
  outcomes : s.received ≡ s.accepted + s.dropped + s.attestations_cached
  local_outcomes : s.relayed_to_phones + s.location_terminated + 1 ≤ s.accepted
  node_outcomes :
      s.broadcast_to_nodes + s.forwarded_cross_zone + s.location_terminated + 1 ≤ s.accepted

-- One packet received, and nothing more.
record Opened (s : Stats) : Type 0 where
  outcomes : s.received ≡ s.accepted + s.dropped + s.attestations_cached + 1
  local_outcomes : s.relayed_to_phones + s.location_terminated ≤ s.accepted
  node_outcomes : s.broadcast_to_nodes + s.forwarded_cross_zone + s.location_terminated ≤ s.accepted

-- The zone is counted, the local cell not yet.
record Zoned (s : Stats) : Type 0 where
  outcomes : s.received ≡ s.accepted + s.dropped + s.attestations_cached
  local_outcomes : s.relayed_to_phones + s.location_terminated + 1 ≤ s.accepted
  node_outcomes : s.broadcast_to_nodes + s.forwarded_cross_zone + s.location_terminated ≤ s.accepted

count_zone-Zoned : (own zone : ℕ) (s : Stats) → Pending s → Zoned (count_zone own zone s)
unfolding count_zone
count_zone-Zoned own zone s h = ground arith

module _ {p : Pipeline} where
  relay_local-Adds :
      (r : NodeRelay p) (peers : List Peer) (peer : Peer) (b : Option Bytes)
      → Zoned r.stats
      → Adds (relay_local r peers peer b).relay.stats
  unfolding relay_local
  relay_local-Adds r peers peer none h = ground arith
  relay_local-Adds r peers peer (some b) h = ground arith

  relay_onward-Adds :
      (r : NodeRelay p) (m : Moment) (peer : Peer) (raw : Bytes) (msg : Message) (f : Option Bytes)
      → Pending r.stats
      → Adds (relay_onward r m peer raw msg f).relay.stats
  unfolding relay_onward
  relay_onward-Adds r m peer raw msg f h =
      let own = r.setup.own_zone_id in
      relay_local-Adds (counted r (count_zone own msg.zone_id r.stats)) m.list_peers peer
        (relay_copy raw f) (count_zone-Zoned own msg.zone_id r.stats h)

  after_location-Adds :
      (r : NodeRelay p) (m : Moment) (peer : Peer) (raw : Bytes) (msg : Message) (f : Option Bytes)
      (t : Terminated) (consumed : Option Bool)
      → Pending r.stats
      → Adds (after_location r m peer raw msg f t consumed).relay.stats
  unfolding after_location
  after_location-Adds r m peer raw msg f t none h = ground arith
  after_location-Adds r m peer raw msg f t (some true) h = ground arith
  after_location-Adds r m peer raw msg f t (some false) h =
      relay_onward-Adds (record r { location = some t.service }) m peer raw msg f h

module _ (c : Core) (k : Signer) (p : Pipeline) where
  after_pipeline-Adds :
      (r : NodeRelay p) (m : Moment) (peer : Peer) (raw : Bytes) (x : PipelineResult)
      (l : Option LocationService)
      → Opened r.stats
      → Adds (after_pipeline c k p r m peer raw x l).relay.stats
  unfolding after_pipeline
  after_pipeline-Adds r m peer raw drops l h = ground arith
  after_pipeline-Adds r m peer raw (delivers msg f) none h =
      relay_onward-Adds (accepted_one r) m peer raw msg f (ground arith)
  after_pipeline-Adds r m peer raw (delivers msg f) (some s) h =
      let t = handle_node_terminated c k s m.directory m.clocks peer msg in
      after_location-Adds (accepted_one r) m peer raw msg f t t.consumed (ground arith)

  after_token-Adds :
      (r : NodeRelay p) (raw : Bytes) (zone : ℕ) (x : Option Bytes × p.State)
      → Opened r.stats
      → Adds (after_token c k p r raw zone x).relay.stats
  unfolding after_token
  after_token-Adds r raw zone (none, core) h = ground arith
  after_token-Adds r raw zone (some key, core) h = ground arith

  after_presentation-Adds :
      (r : NodeRelay p) (raw : Bytes) (x : PipelineResult × p.State)
      → Opened r.stats
      → Adds (after_presentation c k p r raw x).relay.stats
  unfolding after_presentation
  after_presentation-Adds r raw (drops, core) h = ground arith
  after_presentation-Adds r raw (delivers msg f, core) h = after_token-Adds r raw msg.zone_id _ h

  handle_mesh_packet-Adds :
      (r : NodeRelay p) (m : Moment) (peer : Peer) (raw : Bytes)
      → Adds r.stats
      → Adds (handle_mesh_packet c k p r m peer raw).relay.stats
  unfolding handle_mesh_packet
  handle_mesh_packet-Adds r₀ m peer raw h =
      let r = received_one r₀ in
      let (result, core) = p.process r₀.core raw in
      let opened : Opened r.stats = ground arith in
      elim (Bool-cases (r₀.setup.enforces_attestation && is_attestation_presentation c k p raw)) [
        | inl e ↦
            rw (e, handle_mesh_packet)
              (after_presentation-Adds r raw (p.process_presentation r₀.core raw) opened)
        | inr e ↦
            rw (e, handle_mesh_packet)
              (after_pipeline-Adds (record r { core = core }) m peer raw result r₀.location opened)
      ]

  -- After every packet, also when an exception leaves the handler, the traffic counters add up if
  -- they did before: each packet received was accepted, dropped or cached, and the accepted ones
  -- bound those that were terminated, relayed to phones or handed to other nodes.
  pub handle_packet-Adds :
      (r : NodeRelay p) (m : Moment) (peer : Peer) (raw : Bytes)
      → Adds r.stats
      → Adds (handle_packet c k p r m peer raw).relay.stats
  unfolding handle_packet
  handle_packet-Adds r m peer raw h = ground (arith, handle_mesh_packet-Adds r m peer raw h)
