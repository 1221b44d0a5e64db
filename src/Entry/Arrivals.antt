-- ===== src/Entry/Arrivals.antt =====
-- A phone's packet on a node that has been running since its boot (node/main.py and its components).
use meshlink_node.Prelude.{
  Bool, Bytes, List, Option, [], get, get_elem?, repeat, some, subst, suc, true, ℕ, ◌++◌, ◌∷◌, ◌≡◌,
  ◌≢◌, nat_eq, list_eq,
}
use meshlink_node.Json.{Json}
use meshlink_node.Gatt.{Peer}
use meshlink_node.Config.{Settings}
use meshlink_node.Directory.{User}
use meshlink_node.Framing.{new_assembler}
use meshlink_node.Framing.Stream.{feed_all}
use meshlink_node.Framing.Wire.{IsPacket, IsPartial, wire}
use meshlink_node.Transport.Ble.{gate}
use meshlink_node.Transport.Wifi.{data_in}
use meshlink_node.Transport.Readers.{NonEmpty}
use meshlink_node.Transport.Multi.{list_peers}
use meshlink_node.Transport.Sockets.{Reader}
use meshlink_node.Location.Core.{Core, Message}
use meshlink_node.Location.Service.{Signer}
use meshlink_node.Backhaul.Udp.{Datagram}
use meshlink_node.BackendProxy.{Uplink}
use meshlink_node.Relay.Parts.{Pipeline, delivers, ttl_offset, relay_copy}
use meshlink_node.Relay.Traffic.{ReachesPipeline}
use meshlink_node.Relay.Delivery.{listed, NotTerminated}
use meshlink_node.Relay.Arrival.{OnWifi, ble_listed}
use meshlink_node.Node.{Node, Out, moment_of}
use meshlink_node.Node.Calls.{link_of, notified_of, datagrams_of}
use meshlink_node.Node.Delivery.{backhauled}
use meshlink_node.Node.Events.{NodeEvent, Clock, node_run, on_read}
use meshlink_node.Node.Invariant.{IsGood}
use meshlink_node.Node.Journey.{on_read-delivers}
use meshlink_node.Entry.Wiring.{Boot, new_node, started}
use meshlink_node.Entry.Boot.{started-node_run}

module _ (c : Core) (k : Signer) (p : Pipeline) (j : Json) (u : Uplink) where
  -- On a node that the main function makes from any settings, with WiFi on, and starts, after
  -- anything that its radio, sockets, timers and threads bring: when a read of a phone's WiFi
  -- connection completes, in its buffer, the frame of a packet of at most 460 bytes that passes the
  -- gate, with at most the start of another behind it, and the relay pipeline is reached and
  -- accepts the packet, the location service leaves it to the relay, its copy has at most 460 bytes
  -- and a ttl above 0, and the backhaul does not raise, then the node sends the backhaul's
  -- datagrams, every other phone that the WiFi transport lists has the copy on its connection as
  -- often as it is listed, and the chunks that the GATT server gives its backend to notify, to
  -- every central that is subscribed, are the copy once for each listed BLE peer but the sender,
  -- when the bytes are put together from nothing.
  pub on_read-arrives :
      (s : Settings j.Float) (b : Boot p j.Float) (bound : Bool) (users : Option (List User))
      (m : ℕ) (n₀ n : Node p j.Float) (outs₀ : List (Out j.Float))
      (es : List (Clock × NodeEvent j.Float)) (t : Clock) (conn : ℕ) (r : Reader)
      (chunk raw rest : Bytes) (msg : Message) (forward : Option Bytes) (core : p.State)
      (copy : Bytes) (ttl : ℕ) (ds : List Datagram)
      → started c p j (new_node c p s b) bound users ≡ some (n₀, outs₀)
      → (node_run c k p j u m n₀ es).0 ≡ n
      → get n.readers conn ≡ some r
      → r.assembler.buf ++ chunk ≡ wire (raw ∷ []) ++ rest
      → NonEmpty chunk
      → IsPacket raw
      → gate m raw ≡ true
      → IsPartial rest
      → ReachesPipeline c k n.relay (moment_of n (t.handler 0)) r.peer raw
      → p.process n.relay.core raw ≡ (delivers msg forward, core)
      → NotTerminated k n.relay.location msg
      → relay_copy raw forward ≡ some copy
      → IsPacket copy
      → get_elem? copy ttl_offset ≡ some (suc ttl)
      → backhauled c k p j u n n.relay.setup.own_zone_id (t.handler 0).monotonic msg.zone_id raw
        ≡ some ds
      → let outs = (on_read c k p j u m n t conn (data_in chunk)).1 in
        (datagrams_of outs ≡ ds)
        × ((q : Peer)
            → q ≢ r.peer
            → OnWifi n.transport q
            → feed_all new_assembler (link_of q outs)
              ≡ (repeat (listed q (list_peers n.transport)) copy, new_assembler))
        × (feed_all new_assembler (notified_of outs)
            ≡ (repeat (ble_listed r.peer (list_peers n.transport)) copy, new_assembler))
  on_read-arrives s b bound users m n₀ n outs₀ es t conn r chunk raw rest msg forward core copy ttl
        ds up ran has e ne small ok part reaches takes passes copied small' above crossed =
      on_read-delivers c k p j u m n t conn r chunk raw rest msg forward core copy ttl ds has
        (subst (IsGood c k p j u) ran (started-node_run c k p j u s b bound users n₀ outs₀ m es up))
        e ne small ok part reaches takes passes copied small' above crossed
