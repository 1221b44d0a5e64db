-- ===== src/Node/Journey.antt =====
-- From the bytes of one phone to the bytes of another: a read of a WiFi connection that completes a packet
-- (node/transport/, node/relay.py).
use meshlink_node.Prelude.{
  All, Bytes, List, Option, [], ap, append-nil, get, get_elem?, map, put, repeat, some, suc, true,
  ℕ, ◌++◌, ◌∷◌, ◌≡◌, ◌≢◌, nat_eq, list_eq,
}
use meshlink_node.Json.{Json}
use meshlink_node.Gatt.{Peer}
use meshlink_node.Framing.{new_assembler}
use meshlink_node.Framing.Stream.{feed_all}
use meshlink_node.Framing.Wire.{IsPacket, IsPartial, wire, feed-wire}
use meshlink_node.Transport.Ble.{received, gate}
use meshlink_node.Transport.Wifi.{data_in}
use meshlink_node.Transport.Readers.{NonEmpty, passed, dispatch_all-passed}
use meshlink_node.Transport.Multi.{list_peers}
use meshlink_node.Transport.Sockets.{Sockets, Reader, fed, turn}
use meshlink_node.Location.Core.{Core, Message}
use meshlink_node.Location.Service.{Signer}
use meshlink_node.Backhaul.Udp.{Datagram}
use meshlink_node.BackendProxy.{Uplink}
use meshlink_node.Relay.Parts.{Pipeline, delivers, ttl_offset, relay_copy}
use meshlink_node.Relay.Traffic.{ReachesPipeline}
use meshlink_node.Relay.Delivery.{listed, NotTerminated}
use meshlink_node.Relay.Arrival.{OnWifi, ble_listed}
use meshlink_node.Node.{Node, Instant, sockets_of, moment_of, on_packet, on_call, on_calls}
use meshlink_node.Node.Calls.{link_of, notified_of, datagrams_of}
use meshlink_node.Node.Delivery.{backhauled, on_packet-delivers}
use meshlink_node.Node.Invariant.{IsGood}
use meshlink_node.Node.Events.{Clock, on_read}

-- A read that completes some packets hands those that pass the gate to the relay, and keeps the rest.
turn-wire :
    (m : ℕ) (s : Sockets) (conn : ℕ) (r : Reader) (chunk : Bytes) (ps : List Bytes) (rest : Bytes)
    → s.wifi.callback ≡ true
    → r.assembler.buf ++ chunk ≡ wire ps ++ rest
    → NonEmpty chunk
    → All IsPacket ps
    → IsPartial rest
    → turn m s conn (some r) (data_in chunk) ≡ (
      record s {
        readers = put s.readers conn (record { peer = r.peer; assembler = record { buf = rest } });
      },
      map (received r.peer) (passed m ps),
    )
unfolding turn fed
turn-wire m s conn r [] ps rest set e n h k = elim n [ ]
turn-wire m s conn r (b ∷ bs) ps rest set e n h k =
    rw (feed-wire r.assembler (b ∷ bs) ps rest e h k, fed, set, dispatch_all-passed m r.peer ps)

module _ (c : Core) (k : Signer) (p : Pipeline) (j : Json) (u : Uplink) where
  -- The node after such a read, before its packet is handled.
  abbrev pub kept_rest : Node p j.Float → ℕ → Peer → Bytes → Node p j.Float
  kept_rest n conn peer rest = record n {
    readers = put n.readers conn (record { peer = peer; assembler = record { buf = rest } });
  }

  on_calls-received :
      (n : Node p j.Float) (clock : ℕ → Instant) (q : Peer) (raw : Bytes)
      → on_calls c k p j u n clock (received q raw ∷ []) ≡ on_packet c k p j u n (clock 0) q raw
  unfolding on_calls on_call
  on_calls-received n clock q raw =
      let x = on_packet c k p j u n (clock 0) q raw in ap (λ os. (x.0, os)) (append-nil x.1)

  pub on_read-on_packet :
      (m : ℕ) (n : Node p j.Float) (t : Clock) (conn : ℕ) (r : Reader) (chunk raw rest : Bytes)
      → get n.readers conn ≡ some r
      → n.transport.wifi.callback ≡ true
      → r.assembler.buf ++ chunk ≡ wire (raw ∷ []) ++ rest
      → NonEmpty chunk
      → IsPacket raw
      → gate m raw ≡ true
      → IsPartial rest
      → on_read c k p j u m n t conn (data_in chunk)
        ≡ on_packet c k p j u (kept_rest n conn r.peer rest) (t.handler 0) r.peer raw
  unfolding on_read
  on_read-on_packet m n t conn r chunk raw rest has set e ne small ok part =
      rw
        (has, turn-wire m (sockets_of n) conn r chunk (raw ∷ []) rest set e ne (small, tt) part, ok)
        (on_calls-received (kept_rest n conn r.peer rest) t.handler r.peer raw)

  -- At a node in good state, a read that completes a packet puts its copy on the WiFi connections of
  -- the other phones and in what is notified, and its datagrams on the backhaul.
  pub on_read-delivers :
      (m : ℕ) (n : Node p j.Float) (t : Clock) (conn : ℕ) (r : Reader) (chunk raw rest : Bytes)
      (msg : Message) (forward : Option Bytes) (core : p.State) (b : Bytes) (ttl : ℕ)
      (ds : List Datagram)
      → get n.readers conn ≡ some r
      → IsGood c k p j u n
      → r.assembler.buf ++ chunk ≡ wire (raw ∷ []) ++ rest
      → NonEmpty chunk
      → IsPacket raw
      → gate m raw ≡ true
      → IsPartial rest
      → ReachesPipeline c k n.relay (moment_of n (t.handler 0)) r.peer raw
      → p.process n.relay.core raw ≡ (delivers msg forward, core)
      → NotTerminated k n.relay.location msg
      → relay_copy raw forward ≡ some b
      → IsPacket b
      → get_elem? b ttl_offset ≡ some (suc ttl)
      → backhauled c k p j u n n.relay.setup.own_zone_id (t.handler 0).monotonic msg.zone_id raw
        ≡ some ds
      → let (n', outs) = on_read c k p j u m n t conn (data_in chunk) in
        (datagrams_of outs ≡ ds)
        × ((q : Peer)
            → q ≢ r.peer
            → OnWifi n.transport q
            → feed_all new_assembler (link_of q outs)
              ≡ (repeat (listed q (list_peers n.transport)) b, new_assembler))
        × (feed_all new_assembler (notified_of outs)
            ≡ (repeat (ble_listed r.peer (list_peers n.transport)) b, new_assembler))
  on_read-delivers m n t conn r chunk raw rest msg forward core b ttl ds has good e ne small ok part
        reaches takes passes copied small' above crossed =
      rw (on_read-on_packet m n t conn r chunk raw rest has good.hears e ne small ok part) (
        on_packet-delivers c k p j u (kept_rest n conn r.peer rest) (t.handler 0) r.peer raw msg
          forward core b ttl ds good.prefixed reaches takes passes copied small' above crossed)
