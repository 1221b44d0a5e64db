-- ===== src/Node/Faults.antt =====
-- What a bad announcement costs the phones of a node (node/relay.py, node/backhaul/zone_sync.py).
use meshlink_node.Prelude.{
  Bytes, List, Option, Text, [], ap, false, none, pos, refl, some, starts_with, true, ℕ, ◌++◌, ◌+◌,
  ◌==◌, ◌∙◌, ◌≡◌, ◌≤◌, nat_eq, list_eq,
}
use meshlink_node.Json.{Value, Json}
use meshlink_node.Gatt.{Peer}
use meshlink_node.Location.Core.{Core, Message}
use meshlink_node.Location.Service.{Signer}
use meshlink_node.Backhaul.Udp.{is_null, Endpoint, endpoint, is_own, other, zone_sync_magic}
use meshlink_node.Backhaul.Udp
use meshlink_node.Backhaul.Sync.{announced, decode_announcement, on_control}
use meshlink_node.Backhaul.Gossip.{forward_to_zone-raises}
use meshlink_node.BackendProxy.{Uplink}
use meshlink_node.Relay.Parts.{
  Pipeline, delivers, Effect, forward_to_zone, broadcast_zone, cross_zone,
}
use meshlink_node.Relay
use meshlink_node.Relay.Traffic.{ReachesPipeline}
use meshlink_node.Relay.Delivery.{NotTerminated}
use meshlink_node.Relay.Onward.{handle_packet-onward}
use meshlink_node.Node.{
  Node, Instant, moment_of, perform, perform_all, settled, on_packet, on_datagram,
}
use meshlink_node.Node.Across.{on_datagram-control}

module _ (c : Core) (k : Signer) (p : Pipeline) (j : Json) (u : Uplink) where
  -- A call that raises is the last.
  perform_all-raises :
      (n : Node p j.Float) (own now zone : ℕ) (raw : Bytes) (es : List Effect)
      → (zone == broadcast_zone) ≡ false
      → (zone == own) ≡ false
      → Udp.forward_to_zone n.backhaul n.table now zone raw ≡ none
      → perform_all c k p j u n now (cross_zone own zone raw ++ es)
        ≡ record { node = n; outs = []; failed = some (forward_to_zone zone raw) }
  unfolding perform_all perform cross_zone
  perform_all-raises n own now zone raw es z o e = rw (z, o, e)

  on_packet-raises :
      (n : Node p j.Float) (t : Instant) (from : Peer) (raw : Bytes) (msg : Message)
      (forward : Option Bytes) (core : p.State)
      → ReachesPipeline c k n.relay (moment_of n t) from raw
      → p.process n.relay.core raw ≡ (delivers msg forward, core)
      → NotTerminated k n.relay.location msg
      → (msg.zone_id == broadcast_zone) ≡ false
      → (msg.zone_id == n.relay.setup.own_zone_id) ≡ false
      → Udp.forward_to_zone n.backhaul n.table t.monotonic msg.zone_id raw ≡ none
      → let (n', outs) = on_packet c k p j u n t from raw in
        (outs ≡ [])
        × (n'.relay.stats.relayed_to_phones ≡ n.relay.stats.relayed_to_phones)
        × (n'.relay.stats.forwarded_cross_zone ≡ n.relay.stats.forwarded_cross_zone)
  unfolding on_packet settled
  on_packet-raises n t from raw msg forward core reaches e passes z o sent =
      let m = moment_of n t in
      let h = Relay.handle_packet c k p n.relay m from raw in
      let (es, all, same) =
        handle_packet-onward c k m from raw n.relay msg forward core reaches e passes in
      let ran =
        ap (perform_all c k p j u (record n { relay = h.relay }) t.monotonic) same
        ∙ perform_all-raises (record n { relay = h.relay }) n.relay.setup.own_zone_id t.monotonic
            msg.zone_id raw es z o sent in
      rw ran (refl, refl, refl)

  -- An announcement of another node with an address that is neither null nor a string nor a pair of
  -- a host and a port is learned by the node that hears it, and while the entry is no older than
  -- the TTL, a packet from a phone that the relay takes and leaves to the routing, for the
  -- announced zone, which is not the node's own and not the broadcast zone, makes the node send
  -- nothing, not to its other phones either, and is counted neither as relayed nor as forwarded.
  pub on_packet-lost :
      (a : Node p j.Float) (t₁ t₂ : Instant) (at : Endpoint) (port : Text) (frame raw : Bytes)
      (phone : Peer) (node : Text) (v : Value j.Float) (msg : Message) (forward : Option Bytes)
      (core : p.State)
      → a.backhaul.control_cb ≡ true
      → is_own (endpoint a.backhaul.udp_port a.backhaul.own_addr) at ≡ false
      → starts_with frame zone_sync_magic ≡ true
      → decode_announcement j frame ≡ announced node (pos msg.zone_id) (other v)
      → is_null (other v) ≡ false
      → (node == a.sync.node_id) ≡ false
      → t₂.monotonic ≤ t₁.monotonic + a.table.entry_ttl
      → ReachesPipeline c k a.relay (moment_of a t₂) phone raw
      → p.process a.relay.core raw ≡ (delivers msg forward, core)
      → NotTerminated k a.relay.location msg
      → (msg.zone_id == broadcast_zone) ≡ false
      → (msg.zone_id == a.relay.setup.own_zone_id) ≡ false
      → (msg.zone_id == a.backhaul.zone_id) ≡ false
      → let a' = (on_datagram c k p j u a t₁ at port frame).0 in
        let (a'', outs) = on_packet c k p j u a' t₂ phone raw in
        (outs ≡ [])
        × (a''.relay.stats.relayed_to_phones ≡ a.relay.stats.relayed_to_phones)
        × (a''.relay.stats.forwarded_cross_zone ≡ a.relay.stats.forwarded_cross_zone)
  on_packet-lost a t₁ t₂ at port frame raw phone node v msg forward core hears foreign magic decoded
        not_null other_node fresh reaches takes passes not_all other_zone other_zone' =
      let table' = on_control j a.sync a.table t₁.monotonic frame in
      let learned = on_datagram-control c k p j u a t₁ at port frame foreign magic hears in
      rw learned (
        on_packet-raises (record a { table = table' }) t₂ phone raw msg forward core reaches takes
          passes not_all other_zone
          (forward_to_zone-raises j a.backhaul a.sync a.table t₁.monotonic t₂.monotonic frame raw
            node msg.zone_id v decoded not_null other_node other_zone' fresh))
