-- ===== src/Node.antt =====
-- A node with its components connected as node/main.py connects them: what a callback, a datagram, a
-- timer or a loop's turn makes of all of them. A handler runs as one step, and a call of it that raises
-- ends it there; the caller catches and logs.
pub mod Events
pub mod Calls
pub mod Delivery
pub mod Across
pub mod Queries
pub mod Keeps
pub mod Invariant
pub mod Faults
pub mod Journey
use meshlink_node.Prelude.{
  Bool, Bytes, Dict, List, Option, Text, [], false, if◌then◌else◌, map, none, not, some, true, ℕ, ℤ,
  ◌++◌, ◌+◌, ◌==◌, ◌∷◌, nat_eq, list_eq, int_eq,
}
use meshlink_node.Json.{Fields, Json}
use meshlink_node.Gatt.{Peer}
use meshlink_node.Transport.Ble.{Call, received, connected}
use meshlink_node.Transport.Wifi.{raises}
use meshlink_node.Transport.Multi.{MultiTransport, Routed, over_wifi, list_peers}
use meshlink_node.Transport.Multi
use meshlink_node.Transport.Sockets.{Reader, Sockets}
use meshlink_node.ZoneTable.{ZoneTable}
use meshlink_node.Directory.{Directory}
use meshlink_node.Directory
use meshlink_node.Location.Core.{Core}
use meshlink_node.Location.Service.{Signer, Clocks}
use meshlink_node.Backhaul.Udp.{
  Addr, BatmanBackhaul, Datagram, Endpoint, Inbound, to_control, to_data, receive,
}
use meshlink_node.Backhaul.Udp
use meshlink_node.Backhaul.Sync.{ZoneSync, on_control}
use meshlink_node.PhonePing.{PhonePing, on_peer_connected}
use meshlink_node.PhonePing
use meshlink_node.BackendProxy.{Uplink}
use meshlink_node.BackendProxy
use meshlink_node.Relay.Parts.{
  Pipeline, Stats, Effect, ping_frame, proxy_frame, send, forward_to_zone, broadcast_to_all_nodes,
  Moment, NodeRelay,
}
use meshlink_node.Relay

pub record Node (p : Pipeline) (F : Type 0) : Type 0 where
  pub relay : NodeRelay p
  pub transport : MultiTransport
  pub readers : Dict ℕ Reader
  pub backhaul : BatmanBackhaul F
  pub table : ZoneTable ℤ (Addr F)
  pub sync : ZoneSync F
  pub sync_running : Bool
  pub phone_ping : PhonePing F
  pub directory : Directory
  pub directory_running : Bool

-- The readings of the clocks that one handler takes.
pub record Instant : Type 0 where
  pub clocks : Clocks
  pub monotonic : ℕ

-- What leaves a node: a packet for a phone, a datagram, or a job for the proxy's workers.
pub data Out (F : Type 0) : Type 0 where
  to_phone : Peer → Routed → Out F
  to_node : Datagram → Out F
  to_worker : Peer → Fields F → Out F

pub record Performed (p : Pipeline) (F : Type 0) : Type 0 where
  pub node : Node p F
  pub outs : List (Out F)
  pub returned : Bool

-- After several calls, with the one that raised, if any.
pub record Ran (p : Pipeline) (F : Type 0) : Type 0 where
  pub node : Node p F
  pub outs : List (Out F)
  pub failed : Option Effect

-- `send` of the WiFi transport lets the ValueError of `frame` out, that of the BLE transport nothing.
unfoldable pub send_returns : Routed → Bool
send_returns (over_wifi raises) = false
send_returns r = true

-- The counters that are advanced after the call that raised are as they were.
unfoldable pub settled : Stats → Stats → Peer → Option Effect → Stats
settled before after' from none = after'
settled before after' from (some (send q b)) =
    if q == from
    then record after' {
      broadcast_to_nodes = before.broadcast_to_nodes;
      forwarded_cross_zone = before.forwarded_cross_zone;
      relayed_to_phones = before.relayed_to_phones;
    }
    else record after' { relayed_to_phones = before.relayed_to_phones }
settled before after' from (some (forward_to_zone z b)) = record after' {
  forwarded_cross_zone = before.forwarded_cross_zone;
  relayed_to_phones = before.relayed_to_phones;
}
settled before after' from (some (broadcast_to_all_nodes b)) = record after' {
  broadcast_to_nodes = before.broadcast_to_nodes;
  relayed_to_phones = before.relayed_to_phones;
}
settled before after' from (some (ping_frame q b)) = after'
settled before after' from (some (proxy_frame q b)) = after'

abbrev pub sockets_of : {p : Pipeline} {F : Type 0} → Node p F → Sockets
sockets_of n = record { wifi = n.transport.wifi; readers = n.readers }

abbrev pub with_sockets : {p : Pipeline} {F : Type 0} → Node p F → Sockets → Node p F
with_sockets n s = record n {
  transport = record n.transport { wifi = s.wifi };
  readers = s.readers;
}

abbrev pub moment_of : {p : Pipeline} {F : Type 0} → Node p F → Instant → Moment
moment_of n t = record {
  list_peers = list_peers n.transport;
  directory = n.directory;
  clocks = t.clocks;
}

module _ (c : Core) (k : Signer) (p : Pipeline) (j : Json) (u : Uplink) where
  abbrev sent_datagrams : Node p j.Float → Option (List Datagram) → Performed p j.Float
  sent_datagrams n none = record { node = n; outs = []; returned = false }
  sent_datagrams n (some ds) = record { node = n; outs = map to_node ds; returned = true }

  -- One call of the relay's.
  unfoldable pub perform : Node p j.Float → ℕ → Effect → Performed p j.Float
  unfolding send_returns
  perform n now (ping_frame q b) =
      let (s, raised) = PhonePing.handle_frame j n.phone_ping now q b in
      record { node = record n { phone_ping = s }; outs = []; returned = not raised }
  perform n now (proxy_frame q b) = record {
    node = n;
    outs = elim (BackendProxy.handle_frame j u b) [ none ↦ [] | some req ↦ to_worker q req ∷ [] ];
    returned = true;
  }
  perform n now (send q b) =
      let r = Multi.send n.transport q b in
      record { node = n; outs = to_phone q r ∷ []; returned = send_returns r }
  perform n now (forward_to_zone z b) =
      sent_datagrams n (Udp.forward_to_zone n.backhaul n.table now z b)
  perform n now (broadcast_to_all_nodes b) =
      sent_datagrams n (Udp.broadcast_to_all_nodes n.backhaul b)

  unfoldable pub perform_all : Node p j.Float → ℕ → List Effect → Ran p j.Float
  unfolding perform
  perform_all n now [] = record { node = n; outs = []; failed = none }
  perform_all n now (e ∷ es) =
      let x = perform n now e in
      let rest = perform_all x.node now es in
      if x.returned
      then record { node = rest.node; outs = x.outs ++ rest.outs; failed = rest.failed }
      else record { node = x.node; outs = x.outs; failed = some e }

  -- `_handle_packet` of the relay, with its calls made.
  unfoldable pub on_packet :
      Node p j.Float → Instant → Peer → Bytes → Node p j.Float × List (Out j.Float)
  unfolding perform_all settled
  on_packet n t from raw =
      let h = Relay.handle_packet c k p n.relay (moment_of n t) from raw in
      let ran = perform_all (record n { relay = h.relay }) t.monotonic h.effects in
      let stats' = settled n.relay.stats h.relay.stats from ran.failed in
      (record ran.node { relay = record ran.node.relay { stats = stats' } }, ran.outs)

  -- A transport's calls: on_receive(relay._handle_packet), on_connect(phone_ping.on_peer_connected).
  unfoldable pub on_call : Node p j.Float → Instant → Call → Node p j.Float × List (Out j.Float)
  unfolding on_packet
  on_call n t (received q b) = on_packet n t q b
  on_call n t (connected q) = (record n { phone_ping = on_peer_connected j n.phone_ping q }, [])

  -- Calls in order, at the clock's readings in order.
  unfoldable pub on_calls :
      Node p j.Float → (ℕ → Instant) → List Call → Node p j.Float × List (Out j.Float)
  unfolding on_call
  on_calls n clock [] = (n, [])
  on_calls n clock (x ∷ xs) =
      let (n', outs) = on_call n (clock 0) x in
      let (n'', more) = on_calls n' (λ i. clock (i + 1)) xs in (n'', outs ++ more)

  -- `_deliver` of the backhaul: on_receive(relay._handle_packet), on_control(zone_sync._on_control).
  unfoldable pub deliver_all :
      Node p j.Float → Instant → List Inbound → Node p j.Float × List (Out j.Float)
  unfolding on_packet
  deliver_all n t [] = (n, [])
  deliver_all n t (to_control q b ∷ is) =
      deliver_all (record n { table = on_control j n.sync n.table t.monotonic b }) t is
  deliver_all n t (to_data q b ∷ is) =
      let (n', outs) = on_packet n t q b in
      let (n'', more) = deliver_all n' t is in (n'', outs ++ more)

  unfoldable pub on_datagram :
      Node p j.Float → Instant → Endpoint → Text → Bytes → Node p j.Float × List (Out j.Float)
  unfolding deliver_all
  on_datagram n t from digits raw = deliver_all n t (receive n.backhaul from digits raw)
