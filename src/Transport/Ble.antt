-- ===== src/Transport/Ble.antt =====
-- The BLE transport (node/transport/ble_transport.py), on a GATT server. MAX_PACKET of meshlink-core is
-- a parameter. A callback that raises is caught, so a call of it is all there is to see.
use meshlink_node.Prelude.{
  Bool, Bytes, List, [], false, if◌then◌else◌, length, ltb, not, or_default, true, ℕ, ◌++◌, ◌==◌,
  ◌||◌, ◌∷◌, nat_eq, list_eq,
}
use meshlink_node.Gatt.{
  Peer, GattServer, Event, packet_in, peer_up, peer_down, send_packet, peers, Input, run,
}

-- What the transport's owner is called with.
pub data Call : Type 0 where
  received : Peer → Bytes → Call
  connected : Peer → Call

pub record BleTransport : Type 0 where
  pub server : GattServer
  pub callback : Bool
  pub connect_callback : Bool

-- BleTransport(server)
unfoldable pub new_ble : GattServer → BleTransport
new_ble s = record {
  server = record s { on_packet = true; on_connect = true; on_disconnect = true };
  callback = false;
  connect_callback = false;
}

-- The sanity gate in front of the receive callback, which both transports have.
unfoldable pub gate : ℕ → Bytes → Bool
gate max_packet packet = not (length packet == 0 || ltb max_packet (length packet))

unfoldable pub dispatch : ℕ → Bool → Peer → Bytes → List Call
unfolding gate
dispatch max_packet set peer packet =
    if not (gate max_packet packet) then [] else if not set then [] else received peer packet ∷ []

-- on_receive and on_connect
unfoldable pub ble_on_receive : BleTransport → BleTransport
ble_on_receive t = record t { callback = true }

unfoldable pub ble_on_connect : BleTransport → BleTransport
ble_on_connect t = record t { connect_callback = true }

-- The chunks that are notified; none where `send_packet` raises, which is caught.
unfoldable pub ble_send : BleTransport → Peer → Bytes → List Bytes
unfolding send_packet
ble_send t peer packet = or_default (send_packet peer packet) []

unfoldable pub ble_list_peers : BleTransport → List Peer
unfolding peers
ble_list_peers t = peers t.server

-- The GATT server's callbacks.
unfoldable pub on_event : ℕ → BleTransport → Event → List Call
unfolding dispatch
on_event max_packet t (packet_in peer packet) = dispatch max_packet t.callback peer packet
on_event max_packet t (peer_up peer) = if t.connect_callback then connected peer ∷ [] else []
on_event max_packet t (peer_down peer) = []

unfoldable pub on_events : ℕ → BleTransport → List Event → List Call
unfolding on_event
on_events max_packet t [] = []
on_events max_packet t (e ∷ es) = on_event max_packet t e ++ on_events max_packet t es

-- A transport through what the radio reports.
unfoldable pub ble_run : ℕ → BleTransport → List Input → BleTransport × List Call
unfolding run on_events
ble_run max_packet t is =
    let (s, es) = run t.server is in (record t { server = s }, on_events max_packet t es)
