-- ===== src/Relay/Growth.antt =====
-- The counters of what goes on never fall (node/relay.py).
use meshlink_node.Prelude.{
  Bool, Bool-cases, Bytes, List, Option, arith, false, inl, inr, none, some, true, ℕ, ◌&&◌, ◌≤◌,
  nat_eq, list_eq,
}
use meshlink_node.Gatt.{Peer}
use meshlink_node.Location.Core.{Message, Core}
use meshlink_node.Location.Service.{Signer, LocationService, Terminated, handle_node_terminated}
use meshlink_node.Relay.Parts.{
  Pipeline, PipelineResult, drops, delivers, Stats, Moment, NodeRelay, count_zone, relay_copy,
  relay_local, relay_onward, after_location, counted, received_one, accepted_one,
}
use meshlink_node.Relay.{
  after_pipeline, after_token, after_presentation, handle_mesh_packet, handle_packet,
  is_attestation_presentation,
}

pub record Grows (s s' : Stats) : Type 0 where
  pub phones : s.relayed_to_phones ≤ s'.relayed_to_phones
  pub zones : s.forwarded_cross_zone ≤ s'.forwarded_cross_zone
  pub nodes : s.broadcast_to_nodes ≤ s'.broadcast_to_nodes

count_zone-Grows : (s s' : Stats) (own zone : ℕ) → Grows s s' → Grows s (count_zone own zone s')
unfolding count_zone
count_zone-Grows s s' own zone h = ground arith

module _ {p : Pipeline} (s : Stats) where
  relay_local-Grows :
      (r : NodeRelay p) (peers : List Peer) (peer : Peer) (b : Option Bytes)
      → Grows s r.stats
      → Grows s (relay_local r peers peer b).relay.stats
  unfolding relay_local
  relay_local-Grows r peers peer none h = h
  relay_local-Grows r peers peer (some b) h = ground arith

  relay_onward-Grows :
      (r : NodeRelay p) (m : Moment) (peer : Peer) (raw : Bytes) (msg : Message) (f : Option Bytes)
      → Grows s r.stats
      → Grows s (relay_onward r m peer raw msg f).relay.stats
  unfolding relay_onward
  relay_onward-Grows r m peer raw msg f h =
      let own = r.setup.own_zone_id in
      relay_local-Grows (counted r (count_zone own msg.zone_id r.stats)) m.list_peers peer
        (relay_copy raw f) (count_zone-Grows s r.stats own msg.zone_id h)

  after_location-Grows :
      (r : NodeRelay p) (m : Moment) (peer : Peer) (raw : Bytes) (msg : Message) (f : Option Bytes)
      (t : Terminated) (consumed : Option Bool)
      → Grows s r.stats
      → Grows s (after_location r m peer raw msg f t consumed).relay.stats
  unfolding after_location
  after_location-Grows r m peer raw msg f t none h = h
  after_location-Grows r m peer raw msg f t (some true) h = ground arith
  after_location-Grows r m peer raw msg f t (some false) h =
      relay_onward-Grows (record r { location = some t.service }) m peer raw msg f h

  module _ (c : Core) (k : Signer) where
    after_pipeline-Grows :
        (r : NodeRelay p) (m : Moment) (peer : Peer) (raw : Bytes) (x : PipelineResult)
        (l : Option LocationService)
        → Grows s r.stats
        → Grows s (after_pipeline c k p r m peer raw x l).relay.stats
    unfolding after_pipeline
    after_pipeline-Grows r m peer raw drops l h = ground arith
    after_pipeline-Grows r m peer raw (delivers msg f) none h =
        relay_onward-Grows (accepted_one r) m peer raw msg f (ground arith)
    after_pipeline-Grows r m peer raw (delivers msg f) (some l) h =
        let t = handle_node_terminated c k l m.directory m.clocks peer msg in
        after_location-Grows (accepted_one r) m peer raw msg f t t.consumed (ground arith)

    after_token-Grows :
        (r : NodeRelay p) (raw : Bytes) (zone : ℕ) (x : Option Bytes × p.State)
        → Grows s r.stats
        → Grows s (after_token c k p r raw zone x).relay.stats
    unfolding after_token
    after_token-Grows r raw zone (none, core) h = ground arith
    after_token-Grows r raw zone (some key, core) h = ground arith

    after_presentation-Grows :
        (r : NodeRelay p) (raw : Bytes) (x : PipelineResult × p.State)
        → Grows s r.stats
        → Grows s (after_presentation c k p r raw x).relay.stats
    unfolding after_presentation
    after_presentation-Grows r raw (drops, core) h = ground arith
    after_presentation-Grows r raw (delivers msg f, core) h =
        after_token-Grows r raw msg.zone_id _ h

    handle_mesh_packet-Grows :
        (r : NodeRelay p) (m : Moment) (peer : Peer) (raw : Bytes)
        → Grows s r.stats
        → Grows s (handle_mesh_packet c k p r m peer raw).relay.stats
    unfolding handle_mesh_packet
    handle_mesh_packet-Grows r₀ m peer raw h =
        let r = received_one r₀ in
        let (result, core) = p.process r₀.core raw in
        let opened : Grows s r.stats = ground arith in
        elim (Bool-cases (r₀.setup.enforces_attestation && is_attestation_presentation c k p raw)) [
          | inl e ↦
              rw (e, handle_mesh_packet)
                (after_presentation-Grows r raw (p.process_presentation r₀.core raw) opened)
          | inr e ↦
              rw (e, handle_mesh_packet)
                (after_pipeline-Grows (record r { core = core }) m peer raw result r₀.location
                  opened)
        ]

    pub handle_packet-Grows :
        (r : NodeRelay p) (m : Moment) (peer : Peer) (raw : Bytes)
        → Grows s r.stats
        → Grows s (handle_packet c k p r m peer raw).relay.stats
    unfolding handle_packet
    handle_packet-Grows r m peer raw h = ground (arith, handle_mesh_packet-Grows r m peer raw h)
