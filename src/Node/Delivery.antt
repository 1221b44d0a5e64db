-- ===== src/Node/Delivery.antt =====
-- Where a packet that a node takes on ends up: on the WiFi connections of its other phones, in what the BLE
-- server notifies, and on the backhaul (node/relay.py, over node/transport/ and node/backhaul/).
use meshlink_node.Prelude.{
  All, Bool-cases, Bytes, List, Option, [], ap, append-nil, append_assoc, false, get_elem?,
  if◌then◌else◌, inl, inr, map, none, not, refl, repeat, some, starts_with, suc, ℕ, ◌++◌, ◌==◌, ◌∙◌,
  ◌∷◌, ◌≡◌, ◌≢◌, nat_eq, list_eq,
}
use meshlink_node.Json.{Json}
use meshlink_node.Gatt.{Peer}
use meshlink_node.Framing.{new_assembler}
use meshlink_node.Framing.Stream.{feed_all}
use meshlink_node.Framing.Wire.{IsPacket}
use meshlink_node.Transport.Multi.{MultiTransport, list_peers}
use meshlink_node.Transport.Multi
use meshlink_node.Transport.Routing.{Prefixed}
use meshlink_node.Transport.Wifi.{wifi_peer_prefix}
use meshlink_node.Location.Core.{Core, Message}
use meshlink_node.Location.Service.{Signer}
use meshlink_node.Backhaul.Udp.{Datagram}
use meshlink_node.Backhaul.Udp
use meshlink_node.BackendProxy.{Uplink}
use meshlink_node.Relay.Parts.{
  Pipeline, delivers, Effect, ping_frame, proxy_frame, send, forward_to_zone,
  broadcast_to_all_nodes, ttl_offset, broadcast_zone, fan_out, cross_zone, relay_copy, send_all,
}
use meshlink_node.Relay
use meshlink_node.Relay.Traffic.{ReachesPipeline}
use meshlink_node.Relay.Delivery.{
  sent_to, listed, NotTerminated, terminated, NotTerminated-terminated, fan_out-other,
}
use meshlink_node.Relay.Onward.{handle_packet-effects}
use meshlink_node.Relay.Arrival.{
  written_by, notified_by, link, notices, ble_sent, ble_listed, OnWifi, IsSmallSend,
  ble_sent-fan_out, feed_all-link, feed_all-notices,
}
use meshlink_node.Node.{
  Node, Instant, Out, to_node, Ran, moment_of, perform, perform_all, on_packet,
}
use meshlink_node.Node.Calls.{
  link_of, notified_of, datagrams_of, datagrams_of-append, link_of-append, notified_of-append,
  perform_all-sends, perform_all-behind,
}

link-append :
    (t : MultiTransport) (q : Peer) (bs cs : List Bytes)
    → link t q (bs ++ cs) ≡ link t q bs ++ link t q cs
link-append t q [] cs = refl
link-append t q (b ∷ bs) cs = rw (
  link-append t q bs cs,
  append_assoc (written_by (Multi.send t q b)) (link t q bs) (link t q cs),
)

-- Sends before other calls.
module _ (t : MultiTransport) (es : List Effect) where
  sent_to-behind :
      (q : Peer) (xs : List Effect)
      → All IsSmallSend xs
      → sent_to q (xs ++ es) ≡ sent_to q xs ++ sent_to q es
  sent_to-behind q [] h = refl
  sent_to-behind q (send x b ∷ xs) h = elim (Bool-cases (x == q)) [
    | inl e ↦ rw (e, sent_to-behind q xs h.1)
    | inr e ↦ rw (e, sent_to-behind q xs h.1)
  ]
  sent_to-behind q (ping_frame x b ∷ xs) h = elim h.0 [ ]
  sent_to-behind q (proxy_frame x b ∷ xs) h = elim h.0 [ ]
  sent_to-behind q (forward_to_zone z b ∷ xs) h = elim h.0 [ ]
  sent_to-behind q (broadcast_to_all_nodes b ∷ xs) h = elim h.0 [ ]

  notices-behind :
      (xs : List Effect) → All IsSmallSend xs → notices t (xs ++ es) ≡ notices t xs ++ notices t es
  notices-behind [] h = refl
  notices-behind (send x b ∷ xs) h = rw (
    notices-behind xs h.1,
    append_assoc (notified_by (Multi.send t x b)) (notices t xs) (notices t es),
  )
  notices-behind (ping_frame x b ∷ xs) h = elim h.0 [ ]
  notices-behind (proxy_frame x b ∷ xs) h = elim h.0 [ ]
  notices-behind (forward_to_zone z b ∷ xs) h = elim h.0 [ ]
  notices-behind (broadcast_to_all_nodes b ∷ xs) h = elim h.0 [ ]

  pub ble_sent-behind :
      (xs : List Effect) → All IsSmallSend xs → ble_sent (xs ++ es) ≡ ble_sent xs ++ ble_sent es
  ble_sent-behind [] h = refl
  ble_sent-behind (send x b ∷ xs) h = elim (Bool-cases (starts_with x wifi_peer_prefix)) [
    | inl e ↦ rw (e, ble_sent-behind xs h.1)
    | inr e ↦ rw (e, ble_sent-behind xs h.1)
  ]
  ble_sent-behind (ping_frame x b ∷ xs) h = elim h.0 [ ]
  ble_sent-behind (proxy_frame x b ∷ xs) h = elim h.0 [ ]
  ble_sent-behind (forward_to_zone z b ∷ xs) h = elim h.0 [ ]
  ble_sent-behind (broadcast_to_all_nodes b ∷ xs) h = elim h.0 [ ]

pub fan_out-IsSmallSend :
    (qs : List Peer) (from : Peer) (b : Bytes) → IsPacket b → All IsSmallSend (fan_out qs from b)
unfolding fan_out
fan_out-IsSmallSend [] from b small = tt
fan_out-IsSmallSend (x ∷ qs) from b small = elim (Bool-cases (x == from)) [
  | inl e ↦ rw e (fan_out-IsSmallSend qs from b small)
  | inr e ↦ rw e (small, fan_out-IsSmallSend qs from b small)
]

module _ (c : Core) (k : Signer) (p : Pipeline) (j : Json) (u : Uplink) where
  -- The datagrams of the relay's call for a packet's zone, or `none` where it raises.
  abbrev pub backhauled : Node p j.Float → ℕ → ℕ → ℕ → Bytes → Option (List Datagram)
  backhauled n own now zone raw =
      if zone == broadcast_zone
      then Udp.broadcast_to_all_nodes n.backhaul raw
      else if not (zone == own)
      then Udp.forward_to_zone n.backhaul n.table now zone raw
      else some []

  pub datagrams_of-map :
      (ds : List Datagram) (os : List (Out j.Float))
      → datagrams_of (map to_node ds ++ os) ≡ ds ++ datagrams_of os
  datagrams_of-map [] os = refl
  datagrams_of-map (d ∷ ds) os = ap (◌∷◌ d) (datagrams_of-map ds os)

  link_of-map :
      (q : Peer) (ds : List Datagram) (os : List (Out j.Float))
      → link_of q (map to_node ds ++ os) ≡ link_of q os
  link_of-map q [] os = refl
  link_of-map q (d ∷ ds) os = link_of-map q ds os

  notified_of-map :
      (ds : List Datagram) (os : List (Out j.Float))
      → notified_of (map to_node ds ++ os) ≡ notified_of os
  notified_of-map [] os = refl
  notified_of-map (d ∷ ds) os = notified_of-map ds os

  -- What the calls of a relayed packet come to when the backhaul's returns.
  pub record Made (n : Node p j.Float) (ds : List Datagram) (es : List Effect) (r : Ran p j.Float)
      : Type 0 where
    pub failed_none : r.failed ≡ none
    pub datagrams : datagrams_of r.outs ≡ ds
    pub links : (q : Peer) → link_of q r.outs ≡ link n.transport q (sent_to q es)
    pub notes : notified_of r.outs ≡ notices n.transport es

  sent-Made :
      (n : Node p j.Float) (es : List Effect) (ds : List Datagram) (r : Ran p j.Float)
      → Made n [] es r
      → Made n ds es (record r { outs = map to_node ds ++ r.outs })
  sent-Made n es ds r h = record {
    failed_none = h.failed_none;
    datagrams = datagrams_of-map ds r.outs ∙ rw h.datagrams (append-nil ds);
    links = λ q. link_of-map q ds r.outs ∙ h.links q;
    notes = notified_of-map ds r.outs ∙ h.notes;
  }

  pub perform_all-Made :
      (n : Node p j.Float) (own now zone : ℕ) (raw : Bytes) (es : List Effect) (ds : List Datagram)
      → All IsSmallSend es
      → backhauled n own now zone raw ≡ some ds
      → Made n ds es (perform_all c k p j u n now (cross_zone own zone raw ++ es))
  unfolding perform_all perform cross_zone
  perform_all-Made n own now zone raw es ds small e =
      let (same, fine, none', links, notes) = perform_all-sends c k p j u n now es small in
      let local : Made n [] es (perform_all c k p j u n now es) = record {
        failed_none = fine;
        datagrams = none';
        links = links;
        notes = notes;
      } in
      elim (Bool-cases (zone == broadcast_zone)) [
        | inl z ↦
            let sent : Udp.broadcast_to_all_nodes n.backhaul raw ≡ some ds = rw z at e in
            rw (z, sent) (sent-Made n es ds (perform_all c k p j u n now es) local)
        | inr z ↦ elim (Bool-cases (zone == own)) [
          | inl o ↦
              let nothing : ◌≡◌ {A = Option (List Datagram)} (some []) (some ds) = rw (z, o) at e in
              let empty : ds ≡ [] = cc in rw (z, o, empty) local
          | inr o ↦
              let sent : Udp.forward_to_zone n.backhaul n.table now zone raw ≡ some ds =
                rw (z, o) at e in
              rw (z, o, sent) (sent-Made n es ds (perform_all c k p j u n now es) local)
        ]
      ]

  -- The same with answers before them.
  answered-Made :
      (n : Node p j.Float) (now : ℕ) (xs calls es : List Effect) (ds : List Datagram)
      → All IsSmallSend xs
      → Made n ds es (perform_all c k p j u n now calls)
      → Made n ds (xs ++ es) (perform_all c k p j u n now (xs ++ calls))
  answered-Made n now xs calls es ds small h =
      let (same, fine, none', links, notes) = perform_all-sends c k p j u n now xs small in
      let first = (perform_all c k p j u n now xs).outs in
      let later = perform_all c k p j u n now calls in
      rw (perform_all-behind c k p j u n now xs calls small) (record {
        failed_none = h.failed_none;
        datagrams = datagrams_of-append first later.outs ∙ rw none' h.datagrams;
        links = λ q.
            link_of-append q first later.outs
            ∙ rw (
              links q,
              h.links q,
              sent_to-behind n.transport es q xs small,
              link-append n.transport q (sent_to q xs) (sent_to q es),
            );
        notes =
            notified_of-append first later.outs
            ∙ rw (notes, h.notes, notices-behind n.transport es xs small);
      })

  -- What leaves a node that relays a packet, behind the location service's answers to it.
  pub on_packet-Made :
      (n : Node p j.Float) (t : Instant) (from : Peer) (raw : Bytes) (msg : Message)
      (forward : Option Bytes) (core : p.State) (answers : List (Peer × Bytes)) (b : Bytes)
      (ttl : ℕ) (ds : List Datagram)
      → ReachesPipeline c k n.relay (moment_of n t) from raw
      → p.process n.relay.core raw ≡ (delivers msg forward, core)
      → terminated c k n.relay.location (moment_of n t) from msg ≡ (answers, some false)
      → All IsSmallSend (send_all answers)
      → relay_copy raw forward ≡ some b
      → IsPacket b
      → get_elem? b ttl_offset ≡ some (suc ttl)
      → backhauled n n.relay.setup.own_zone_id t.monotonic msg.zone_id raw ≡ some ds
      → let outs = (on_packet c k p j u n t from raw).1 in
        let es = send_all answers ++ fan_out (list_peers n.transport) from b in
        (datagrams_of outs ≡ ds)
        × ((q : Peer) → link_of q outs ≡ link n.transport q (sent_to q es))
        × (notified_of outs ≡ notices n.transport es)
  unfolding on_packet
  on_packet-Made n t from raw msg forward core answers b ttl ds n' e passes answered copied small
        above crossed =
      let m = moment_of n t in
      let h = Relay.handle_packet c k p n.relay m from raw in
      let es = fan_out (list_peers n.transport) from b in
      let effects : h.effects
          ≡ send_all answers ++ (cross_zone n.relay.setup.own_zone_id msg.zone_id raw ++ es) =
        handle_packet-effects c k m from raw n.relay msg forward core answers b ttl n' e passes
          copied above in
      let n'' : Node p j.Float = record n { relay = h.relay } in
      let ran : Made n'' ds (send_all answers ++ es)
          (perform_all c k p j u n'' t.monotonic h.effects) =
        rw effects (
          answered-Made n'' t.monotonic (send_all answers)
            (cross_zone n.relay.setup.own_zone_id msg.zone_id raw ++ es) es ds answered
            (perform_all-Made n'' n.relay.setup.own_zone_id t.monotonic msg.zone_id raw es ds
              (fan_out-IsSmallSend (list_peers n.transport) from b small) crossed)) in
      (ran.datagrams, ran.links, ran.notes)

  -- A packet that the relay takes and leaves to the routing, with a small copy and a ttl above 0, at a
  -- node whose backhaul does not raise: the backhaul's datagrams are sent, every other phone that the
  -- WiFi transport lists has the copy as often as it is listed, and who puts together what is notified
  -- has it once for each other BLE peer that is listed.
  pub on_packet-delivers :
      (n : Node p j.Float) (t : Instant) (from : Peer) (raw : Bytes) (msg : Message)
      (forward : Option Bytes) (core : p.State) (b : Bytes) (ttl : ℕ) (ds : List Datagram)
      → Prefixed n.transport.wifi.conns
      → ReachesPipeline c k n.relay (moment_of n t) from raw
      → p.process n.relay.core raw ≡ (delivers msg forward, core)
      → NotTerminated k n.relay.location msg
      → relay_copy raw forward ≡ some b
      → IsPacket b
      → get_elem? b ttl_offset ≡ some (suc ttl)
      → backhauled n n.relay.setup.own_zone_id t.monotonic msg.zone_id raw ≡ some ds
      → let outs = (on_packet c k p j u n t from raw).1 in
        (datagrams_of outs ≡ ds)
        × ((q : Peer)
            → q ≢ from
            → OnWifi n.transport q
            → feed_all new_assembler (link_of q outs)
              ≡ (repeat (listed q (list_peers n.transport)) b, new_assembler))
        × (feed_all new_assembler (notified_of outs)
            ≡ (repeat (ble_listed from (list_peers n.transport)) b, new_assembler))
  on_packet-delivers n t from raw msg forward core b ttl ds prefixed n' e passes copied small above
        crossed =
      let peers = list_peers n.transport in
      let (sent, links, notes) =
        on_packet-Made n t from raw msg forward core [] b ttl ds n' e
          (NotTerminated-terminated c k n.relay.location (moment_of n t) from msg passes) tt copied
          small above crossed in
      (
        sent,
        λ q ne on.
            ap (feed_all new_assembler)
              (links q ∙ ap (link n.transport q) (fan_out-other peers from q b ne))
            ∙ feed_all-link n.transport q b (listed q peers) prefixed on small,
        ap (feed_all new_assembler) notes
            ∙ feed_all-notices n.transport (fan_out peers from b)
                (fan_out-IsSmallSend peers from b small)
            ∙ ap (λ bs. (bs, new_assembler)) (ble_sent-fan_out peers from b),
      )
