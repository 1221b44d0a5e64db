-- ===== src/Node/Across.antt =====
-- From a phone of one node to the phones of another: the announcement, the datagram and the copies
-- (node/relay.py, node/backhaul/, node/transport/).
use meshlink_node.Prelude.{
  All, Bool-cases, Bytes, List, Option, Text, [], ap, append-nil, beq_refl, false, get_elem?, inl,
  inr, refl, repeat, some, starts_with, starts_with-append, suc, true, ℕ, ◌++◌, ◌+◌, ◌==◌, ◌∙◌, ◌∷◌,
  ◌≡◌, ◌≢◌, ◌≤◌, nat_eq, list_eq,
}
use meshlink_node.Json.{Json}
use meshlink_node.Gatt.{Peer}
use meshlink_node.Framing.{new_assembler}
use meshlink_node.Framing.Stream.{feed_all}
use meshlink_node.Framing.Wire.{IsPacket}
use meshlink_node.Transport.Multi.{list_peers}
use meshlink_node.Transport.Multi
use meshlink_node.Transport.Routing.{Prefixed}
use meshlink_node.Location.Core.{Core, Message}
use meshlink_node.Location.Service.{Signer}
use meshlink_node.Backhaul.Udp.{
  BatmanBackhaul, Datagram, Endpoint, endpoint, target, is_own, receive, to_data, to_control,
  backhaul_peer, zone_sync_magic,
}
use meshlink_node.Backhaul.Udp
use meshlink_node.Backhaul.Sync.{encode_announcement, on_control, announcement}
use meshlink_node.Backhaul.Gossip.{IsAddr, ReadsBack, forward_to_zone-on_control}
use meshlink_node.BackendProxy.{Uplink}
use meshlink_node.Relay.Parts.{
  Pipeline, delivers, Effect, ping_frame, proxy_frame, send, forward_to_zone,
  broadcast_to_all_nodes, ttl_offset, broadcast_zone, cross_zone, relay_copy,
}
use meshlink_node.Relay
use meshlink_node.Relay.Traffic.{ReachesPipeline}
use meshlink_node.Relay.Delivery.{listed, NotTerminated, IsSend}
use meshlink_node.Relay.Onward.{handle_packet-onward}
use meshlink_node.Relay.Arrival.{OnWifi, ble_listed}
use meshlink_node.Node.{
  Node, Instant, moment_of, perform, perform_all, on_packet, on_datagram, send_returns, deliver_all,
}
use meshlink_node.Node.Calls.{link_of, notified_of, datagrams_of}
use meshlink_node.Node.Delivery.{on_packet-delivers, backhauled, datagrams_of-map}

module _ {F : Type 0} (b : BatmanBackhaul F) (from : Endpoint) (digits : Text) (raw : Bytes) where
  receive-control :
      is_own (endpoint b.udp_port b.own_addr) from ≡ false
      → starts_with raw zone_sync_magic ≡ true
      → b.control_cb ≡ true
      → receive b from digits raw ≡ to_control (backhaul_peer from.0 digits) raw ∷ []
  unfolding receive
  receive-control foreign magic set = rw (foreign, receive, magic, set)

  receive-data :
      is_own (endpoint b.udp_port b.own_addr) from ≡ false
      → starts_with raw zone_sync_magic ≡ false
      → b.data_cb ≡ true
      → receive b from digits raw ≡ to_data (backhaul_peer from.0 digits) raw ∷ []
  unfolding receive
  receive-data foreign magic set = rw (foreign, receive, magic, set)

module _ (c : Core) (k : Signer) (p : Pipeline) (j : Json) (u : Uplink) where
  perform_all-IsSend :
      (n : Node p j.Float) (now : ℕ) (es : List Effect)
      → All IsSend es
      → datagrams_of (perform_all c k p j u n now es).outs ≡ []
  unfolding perform_all perform
  perform_all-IsSend n now [] h = refl
  perform_all-IsSend n now (send x b ∷ es) h =
      elim (Bool-cases (send_returns (Multi.send n.transport x b))) [
        | inl e ↦ rw e (perform_all-IsSend n now es h.1)
        | inr e ↦ rw e refl
      ]
  perform_all-IsSend n now (ping_frame x b ∷ es) h = elim h.0 [ ]
  perform_all-IsSend n now (proxy_frame x b ∷ es) h = elim h.0 [ ]
  perform_all-IsSend n now (forward_to_zone z b ∷ es) h = elim h.0 [ ]
  perform_all-IsSend n now (broadcast_to_all_nodes b ∷ es) h = elim h.0 [ ]

  -- The datagrams go out whatever becomes of the sends after them.
  perform_all-forwards :
      (n : Node p j.Float) (own now zone : ℕ) (raw : Bytes) (es : List Effect) (ds : List Datagram)
      → All IsSend es
      → (zone == broadcast_zone) ≡ false
      → (zone == own) ≡ false
      → Udp.forward_to_zone n.backhaul n.table now zone raw ≡ some ds
      → datagrams_of (perform_all c k p j u n now (cross_zone own zone raw ++ es)).outs ≡ ds
  unfolding perform_all perform cross_zone
  perform_all-forwards n own now zone raw es ds all z o e =
      rw (z, o, e)
        (datagrams_of-map c k p j u ds (perform_all c k p j u n now es).outs
          ∙ rw (perform_all-IsSend n now es all) (append-nil ds))

  on_packet-forwards :
      (n : Node p j.Float) (t : Instant) (from : Peer) (raw : Bytes) (msg : Message)
      (forward : Option Bytes) (core : p.State) (ds : List Datagram)
      → ReachesPipeline c k n.relay (moment_of n t) from raw
      → p.process n.relay.core raw ≡ (delivers msg forward, core)
      → NotTerminated k n.relay.location msg
      → (msg.zone_id == broadcast_zone) ≡ false
      → (msg.zone_id == n.relay.setup.own_zone_id) ≡ false
      → Udp.forward_to_zone n.backhaul n.table t.monotonic msg.zone_id raw ≡ some ds
      → datagrams_of (on_packet c k p j u n t from raw).1 ≡ ds
  unfolding on_packet
  on_packet-forwards n t from raw msg forward core ds reaches e passes z o sent =
      let m = moment_of n t in
      let h = Relay.handle_packet c k p n.relay m from raw in
      let (es, all, same) =
        handle_packet-onward c k m from raw n.relay msg forward core reaches e passes in
      rw same (
        perform_all-forwards (record n { relay = h.relay }) n.relay.setup.own_zone_id t.monotonic
          msg.zone_id raw es ds all z o sent)

  -- A node's announcement, heard by another node.
  pub heard : Node p j.Float → Node p j.Float → Instant → Endpoint → Text → Node p j.Float
  heard a b t from digits =
      (on_datagram c k p j u a t from digits
        (encode_announcement j b.sync.node_id b.sync.zone_id b.sync.own_addr)).0

  pub on_datagram-control :
      (a : Node p j.Float) (t : Instant) (from : Endpoint) (digits : Text) (raw : Bytes)
      → is_own (endpoint a.backhaul.udp_port a.backhaul.own_addr) from ≡ false
      → starts_with raw zone_sync_magic ≡ true
      → a.backhaul.control_cb ≡ true
      → on_datagram c k p j u a t from digits raw
        ≡ (record a { table = on_control j a.sync a.table t.monotonic raw }, [])
  unfolding on_datagram deliver_all
  on_datagram-control a t from digits raw foreign magic set =
      rw (receive-control a.backhaul from digits raw foreign magic set)

  on_datagram-data :
      (b : Node p j.Float) (t : Instant) (from : Endpoint) (digits : Text) (raw : Bytes)
      → is_own (endpoint b.backhaul.udp_port b.backhaul.own_addr) from ≡ false
      → starts_with raw zone_sync_magic ≡ false
      → b.backhaul.data_cb ≡ true
      → on_datagram c k p j u b t from digits raw
        ≡ on_packet c k p j u b t (backhaul_peer from.0 digits) raw
  unfolding on_datagram deliver_all
  on_datagram-data b t from digits raw foreign magic set =
      rw (receive-data b.backhaul from digits raw foreign magic set) (
        let x = on_packet c k p j u b t (backhaul_peer from.0 digits) raw in
        ap (λ os. (x.0, os)) (append-nil x.1))

  heard-learned :
      (a b : Node p j.Float) (t : Instant) (from : Endpoint) (digits : Text)
      → is_own (endpoint a.backhaul.udp_port a.backhaul.own_addr) from ≡ false
      → a.backhaul.control_cb ≡ true
      → heard a b t from digits ≡ record a {
        table =
            on_control j a.sync a.table t.monotonic
              (encode_announcement j b.sync.node_id b.sync.zone_id b.sync.own_addr);
      }
  unfolding heard encode_announcement
  heard-learned a b t from digits foreign set =
      let magic =
        starts_with-append zone_sync_magic
          (j.dumps (announcement b.sync.node_id b.sync.zone_id b.sync.own_addr)) in
      ap (λ x. x.0) (on_datagram-control a t from digits _ foreign magic set)

  backhauled-own :
      (b : Node p j.Float) (now zone : ℕ) (raw : Bytes)
      → zone ≡ b.relay.setup.own_zone_id
      → (b.relay.setup.own_zone_id == broadcast_zone) ≡ false
      → backhauled c k p j u b b.relay.setup.own_zone_id now zone raw ≡ some []
  backhauled-own b now zone raw own not_all = rw (own, not_all, beq_refl b.relay.setup.own_zone_id)

  -- The first of two nodes has heard the second, whose address is one that sendto takes and whose
  -- announcement json reads back as it was written, and neither takes the other for itself. While
  -- the entry is no older than the TTL, a packet from a phone that the first one's relay takes and
  -- leaves to the routing, for the second one's zone, which is not the first one's own and not the
  -- broadcast zone, makes the first node send one datagram, the packet to the announced address.
  -- When that datagram comes to the second node, has no zone-sync magic, and its relay takes the
  -- packet too, as one for its own zone, with a copy of at most 460 bytes and a ttl above 0, and it
  -- has no WiFi connection under a peer id without the WiFi prefix, then every other phone that the
  -- WiFi transport lists has the copy on its connection as often as it is listed, and the chunks
  -- that the GATT server gives its backend to notify, to every central that is subscribed, are the
  -- copy once for each listed BLE peer but the sender, when the bytes are put together from
  -- nothing.
  pub on_datagram-on_packet :
      (a b : Node p j.Float) (t₁ t₂ t₃ : Instant) (a_at b_at to' : Endpoint) (a_port b_port : Text)
      (phone : Peer) (raw : Bytes) (msg msg' : Message) (forward forward' : Option Bytes)
      (core core' : p.State) (copy : Bytes) (ttl : ℕ)
      → a.backhaul.control_cb ≡ true
      → b.backhaul.data_cb ≡ true
      → is_own (endpoint a.backhaul.udp_port a.backhaul.own_addr) b_at ≡ false
      → is_own (endpoint b.backhaul.udp_port b.backhaul.own_addr) a_at ≡ false
      → IsAddr b.sync.own_addr
      → target a.backhaul b.sync.own_addr ≡ some to'
      → ReadsBack j b.sync.node_id b.sync.zone_id b.sync.own_addr
      → (b.sync.node_id == a.sync.node_id) ≡ false
      → t₂.monotonic ≤ t₁.monotonic + a.table.entry_ttl
      → ReachesPipeline c k a.relay (moment_of a t₂) phone raw
      → p.process a.relay.core raw ≡ (delivers msg forward, core)
      → NotTerminated k a.relay.location msg
      → msg.zone_id ≡ b.sync.zone_id
      → (b.sync.zone_id == broadcast_zone) ≡ false
      → (b.sync.zone_id == a.relay.setup.own_zone_id) ≡ false
      → (b.sync.zone_id == a.backhaul.zone_id) ≡ false
      → starts_with raw zone_sync_magic ≡ false
      → ReachesPipeline c k b.relay (moment_of b t₃) (backhaul_peer a_at.0 a_port) raw
      → p.process b.relay.core raw ≡ (delivers msg' forward', core')
      → NotTerminated k b.relay.location msg'
      → msg'.zone_id ≡ b.relay.setup.own_zone_id
      → (b.relay.setup.own_zone_id == broadcast_zone) ≡ false
      → relay_copy raw forward' ≡ some copy
      → IsPacket copy
      → get_elem? copy ttl_offset ≡ some (suc ttl)
      → Prefixed b.transport.wifi.conns
      → (datagrams_of (on_packet c k p j u (heard a b t₁ b_at b_port) t₂ phone raw).1
          ≡ record { payload = raw; to = to' } ∷ [])
        × ((q : Peer)
            → q ≢ backhaul_peer a_at.0 a_port
            → OnWifi b.transport q
            → feed_all new_assembler (link_of q (on_datagram c k p j u b t₃ a_at a_port raw).1)
              ≡ (repeat (listed q (list_peers b.transport)) copy, new_assembler))
        × (feed_all new_assembler (notified_of (on_datagram c k p j u b t₃ a_at a_port raw).1) ≡ (
          repeat (ble_listed (backhaul_peer a_at.0 a_port) (list_peers b.transport)) copy,
          new_assembler,
        ))
  on_datagram-on_packet a b t₁ t₂ t₃ a_at b_at to' a_port b_port phone raw msg msg' forward forward'
        core core' copy ttl a_hears b_hears b_foreign a_foreign addr sendable reads other_node fresh
        a_reaches a_takes a_passes zoned b_zone other_zone other_zone' no_magic b_reaches b_takes
        b_passes own not_all copied small above prefixed =
      let frame = encode_announcement j b.sync.node_id b.sync.zone_id b.sync.own_addr in
      let table' = on_control j a.sync a.table t₁.monotonic frame in
      let a' : Node p j.Float = record a { table = table' } in
      let sent : Udp.forward_to_zone a'.backhaul a'.table t₂.monotonic b.sync.zone_id raw
          ≡ some (record { payload = raw; to = to' } ∷ []) =
        forward_to_zone-on_control j a.backhaul a.sync b.sync a.table t₁.monotonic t₂.monotonic to'
          raw addr reads other_node other_zone' sendable fresh in
      let relayed =
        on_packet-delivers c k p j u b t₃ (backhaul_peer a_at.0 a_port) raw msg' forward' core' copy
          ttl [] prefixed b_reaches b_takes b_passes copied small above
          (backhauled-own b t₃.monotonic msg'.zone_id raw own not_all) in
      (
        rw (heard-learned a b t₁ b_at b_port b_foreign a_hears) (
            on_packet-forwards a' t₂ phone raw msg forward core _ a_reaches a_takes a_passes
              (rw zoned b_zone) (rw zoned other_zone) (rw zoned sent)),
        rw (on_datagram-data b t₃ a_at a_port raw a_foreign no_magic b_hears) relayed.1,
        rw (on_datagram-data b t₃ a_at a_port raw a_foreign no_magic b_hears) relayed.2,
      )
