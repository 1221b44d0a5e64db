-- ===== src/Demo/Broadcast.antt =====
-- A text of the demonstration's Device A, from node 1 to the phones of both nodes
-- (scripts/demo_phase5_attestation.py).
use meshlink_node.Prelude.{
  Bool, Bytes, Dict, List, Option, Text, [], append-nil, codes, false, get_elem?, put, refl, some,
  some-injective, starts_with, subst, suc, sym, ℕ, ◌∙◌, ◌∷◌, ◌≡◌, nat_eq, list_eq, int_eq,
}
use meshlink_node.Gatt.{Peer}
use meshlink_node.Location.Core.{Core, Message}
use meshlink_node.Location.Service.{Signer}
use meshlink_node.Backhaul.Udp.{Datagram, endpoint, receive, zone_sync_magic}
use meshlink_node.Relay.Parts.{
  Pipeline, delivers, Effect, ttl_offset, broadcast_zone, relay_copy, Moment, NodeRelay,
}
use meshlink_node.Relay
use meshlink_node.Relay.Traffic.{ReachesPipeline}
use meshlink_node.Relay.Onward.{handle_packet-effects}
use meshlink_node.Demo.{
  empty_inboxes, DemoNode, start_node, demo_perform, demo_moment, demo_packet, inject, demo_deliver,
  demo_datagram,
}
use meshlink_node.Demo.Calls.{
  phone_a, phone_b, phone_c, loopback, node_1, new_demo, start_node-first, start_node-second,
  perform-first, perform-second,
}

module _ (c : Core) (k : Signer) (p : Pipeline) (F : Type 0) (m : Moment) (raw : Bytes) where
  -- The part of a packet's handling that the phones and the network see.
  abbrev Seen :
      DemoNode p F × List Datagram × Bool → Dict Peer (List Bytes) → List Datagram → Type 0
  Seen (n, ds, returned) inboxes sent = (n.phones.inboxes ≡ inboxes) × (ds ≡ sent)

  demo_packet-Seen :
      (n : DemoNode p F) (now : ℕ) (from : Peer) (es : List Effect)
      (inboxes : Dict Peer (List Bytes)) (sent : List Datagram)
      → (Relay.handle_packet c k p n.relay (demo_moment n m) from raw).effects ≡ es
      → ((r : NodeRelay p)
          → let ran = demo_perform (record n { relay = r }) now es in
            (ran.node.phones.inboxes ≡ inboxes) × (ran.datagrams ≡ sent))
      → Seen (demo_packet c k n m now from raw) inboxes sent
  unfolding demo_packet
  demo_packet-Seen n now from es inboxes sent e ran =
      rw e (ran (Relay.handle_packet c k p n.relay (demo_moment n m) from raw).relay)

  module _ (msg : Message) (forward : Option Bytes) (core core' : p.State) (copy : Bytes) (ttl : ℕ)
      (port : ℕ) (idna : Text → Bool) (now : ℕ) where
    demo_packet-first :
        let n : DemoNode p F = new_demo 1 19801 19802 core port idna (phone_a ∷ phone_b ∷ []) in
        ReachesPipeline c k n.relay (demo_moment n m) phone_a raw
        → p.process core raw ≡ (delivers msg forward, core')
        → msg.zone_id ≡ broadcast_zone
        → relay_copy raw forward ≡ some copy
        → get_elem? copy ttl_offset ≡ some (suc ttl)
        → Seen
            (demo_packet c k n m now phone_a raw)
            ((phone_a, []) ∷ (phone_b, copy ∷ []) ∷ [])
            (record { payload = raw; to = (loopback, 19802) } ∷ [])
    unfolding empty_inboxes put
    demo_packet-first reaches takes all copied above =
        let n : DemoNode p F = new_demo 1 19801 19802 core port idna (phone_a ∷ phone_b ∷ []) in
        demo_packet-Seen n now phone_a _ _ _
          (handle_packet-effects c k (demo_moment n m) phone_a raw n.relay msg forward core' [] copy
            ttl reaches takes refl copied above)
          (λ r. rw (perform-first core port idna now msg.zone_id r raw copy all) (refl, refl))

    demo_packet-second :
        let n : DemoNode p F = new_demo 2 19802 19801 core port idna (phone_c ∷ []) in
        ReachesPipeline c k n.relay (demo_moment n m) node_1 raw
        → p.process core raw ≡ (delivers msg forward, core')
        → msg.zone_id ≡ broadcast_zone
        → relay_copy raw forward ≡ some copy
        → get_elem? copy ttl_offset ≡ some (suc ttl)
        → Seen
            (demo_packet c k n m now node_1 raw)
            ((phone_c, copy ∷ []) ∷ [])
            (record { payload = raw; to = (loopback, 19801) } ∷ [])
    unfolding empty_inboxes put
    demo_packet-second reaches takes all copied above =
        let n : DemoNode p F = new_demo 2 19802 19801 core port idna (phone_c ∷ []) in
        demo_packet-Seen n now node_1 _ _ _
          (handle_packet-effects c k (demo_moment n m) node_1 raw n.relay msg forward core' [] copy
            ttl reaches takes refl copied above)
          (λ r. rw (perform-second core port idna now msg.zone_id r raw copy all) (refl, refl))

    demo_datagram-second :
        let n : DemoNode p F = new_demo 2 19802 19801 core port idna (phone_c ∷ []) in
        ReachesPipeline c k n.relay (demo_moment n m) node_1 raw
        → p.process core raw ≡ (delivers msg forward, core')
        → msg.zone_id ≡ broadcast_zone
        → relay_copy raw forward ≡ some copy
        → get_elem? copy ttl_offset ≡ some (suc ttl)
        → starts_with raw zone_sync_magic ≡ false
        → let (n', sent) = demo_datagram c k n m now (loopback, 19801) (codes "19801") raw in
          (n'.phones.inboxes ≡ (phone_c, copy ∷ []) ∷ [])
          × (sent ≡ record { payload = raw; to = (loopback, 19801) } ∷ [])
    unfolding demo_datagram demo_deliver receive endpoint
    demo_datagram-second reaches takes all copied above no_magic =
        let (inboxes, sent) = demo_packet-second reaches takes all copied above in
        rw no_magic (inboxes, append-nil _ ∙ sent)

-- On the demonstration's two new nodes, with pipelines in any state, a packet for all zones,
-- without the zone-sync magic, that both relays take, and whose copies have a ttl above 0, when
-- Device A writes it to node 1: it goes to node 2's address as one datagram, phone B is sent node
-- 1's copy and phone A nothing; and when that datagram comes to node 2, phone C is sent node 2's
-- copy, and node 2 sends the packet back to node 1's address.
pub inject-demo_datagram :
    (c : Core) (k : Signer) (p : Pipeline) {F : Type 0} (a b : DemoNode p F) (port_a port_b : ℕ)
    (idna : Text → Bool) (m₁ m₂ : Moment) (now₁ now₂ : ℕ) (raw : Bytes) (msg msg' : Message)
    (forward forward' : Option Bytes) (core₁ core₁' core₂ core₂' : p.State) (copy copy' : Bytes)
    (ttl ttl' : ℕ)
    → start_node 1 (phone_a ∷ phone_b ∷ []) core₁ port_a idna ≡ some a
    → start_node 2 (phone_c ∷ []) core₂ port_b idna ≡ some b
    → ReachesPipeline c k a.relay (demo_moment a m₁) phone_a raw
    → p.process core₁ raw ≡ (delivers msg forward, core₁')
    → msg.zone_id ≡ broadcast_zone
    → relay_copy raw forward ≡ some copy
    → get_elem? copy ttl_offset ≡ some (suc ttl)
    → starts_with raw zone_sync_magic ≡ false
    → ReachesPipeline c k b.relay (demo_moment b m₂) node_1 raw
    → p.process core₂ raw ≡ (delivers msg' forward', core₂')
    → msg'.zone_id ≡ broadcast_zone
    → relay_copy raw forward' ≡ some copy'
    → get_elem? copy' ttl_offset ≡ some (suc ttl')
    → let (a', sent, returned) = inject c k a m₁ now₁ phone_a raw in
      let (b', sent') = demo_datagram c k b m₂ now₂ (loopback, 19801) (codes "19801") raw in
      (sent ≡ record { payload = raw; to = (loopback, 19802) } ∷ [])
      × (a'.phones.inboxes ≡ (phone_a, []) ∷ (phone_b, copy ∷ []) ∷ [])
      × (sent' ≡ record { payload = raw; to = (loopback, 19801) } ∷ [])
      × (b'.phones.inboxes ≡ (phone_c, copy' ∷ []) ∷ [])
unfolding inject start_node
inject-demo_datagram c k p {F = F} a b port_a port_b idna m₁ m₂ now₁ now₂ raw msg msg' forward
      forward' core₁ core₁' core₂ core₂' copy copy' ttl ttl' up₁ up₂ reaches₁ takes₁ all₁ copied₁
      above₁ no_magic reaches₂ takes₂ all₂ copied₂ above₂ =
    let first : new_demo 1 19801 19802 core₁ port_a idna (phone_a ∷ phone_b ∷ []) ≡ a =
      some-injective _ a
        (sym (start_node-first core₁ port_a idna (phone_a ∷ phone_b ∷ [])) ∙ up₁) in
    let second : new_demo 2 19802 19801 core₂ port_b idna (phone_c ∷ []) ≡ b =
      some-injective _ b (sym (start_node-second core₂ port_b idna (phone_c ∷ [])) ∙ up₂) in
    let (at_a, out_a) =
      subst
        (λ (n : DemoNode p F).
          ReachesPipeline c k n.relay (demo_moment n m₁) phone_a raw
          → Seen c k p F m₁ raw (inject c k n m₁ now₁ phone_a raw)
              ((phone_a, []) ∷ (phone_b, copy ∷ []) ∷ [])
              (record { payload = raw; to = (loopback, 19802) } ∷ []))
        first
        (λ reaches.
          demo_packet-first c k p F m₁ raw msg forward core₁ core₁' copy ttl port_a idna now₁
            reaches takes₁ all₁ copied₁ above₁)
        reaches₁ in
    let (at_b, out_b) =
      subst
        (λ (n : DemoNode p F).
          ReachesPipeline c k n.relay (demo_moment n m₂) node_1 raw
          → let (n', sent) = demo_datagram c k n m₂ now₂ (loopback, 19801) (codes "19801") raw in
            (n'.phones.inboxes ≡ (phone_c, copy' ∷ []) ∷ [])
            × (sent ≡ record { payload = raw; to = (loopback, 19801) } ∷ []))
        second
        (λ reaches.
          demo_datagram-second c k p F m₂ raw msg' forward' core₂ core₂' copy' ttl' port_b idna now₂
            reaches takes₂ all₂ copied₂ above₂ no_magic)
        reaches₂ in
    (out_a, at_a, out_b, at_b)
