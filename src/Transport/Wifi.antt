-- ===== src/Transport/Wifi.antt =====
-- The WiFi transport (node/transport/wifi_transport.py): one TCP connection for each phone. A socket is
-- a number; what its `recv` returns is an input, and so is whether the listener could be bound.
use meshlink_node.Prelude.{
  Bool, Bytes, Dict, List, Text, [], codes, false, get, if◌then◌else◌, keys, map, none, not, put,
  remove, some, true, ℕ, ◌++◌, ◌∷◌, nat_eq, list_eq,
}
use meshlink_node.Gatt.{Peer}
use meshlink_node.Framing.{FrameAssembler, new_assembler, Fed, packets, corrupt, feed, frame}
use meshlink_node.Transport.Ble.{Call, connected, dispatch}

-- WIFI_PEER_PREFIX
abbrev pub wifi_peer_prefix : Text
wifi_peer_prefix = codes "wifi:"

pub record WifiTransport : Type 0 where
  pub running : Bool
  pub callback : Bool
  pub connect_callback : Bool
  pub conns : Dict Peer ℕ

-- WifiTransport(host, port)
abbrev pub new_wifi : WifiTransport
new_wifi = record { running = false; callback = false; connect_callback = false; conns = [] }

unfoldable pub start : WifiTransport → Bool → WifiTransport
start t bound = if t.running then t else if not bound then t else record t { running = true }

-- The sockets that are closed come with the state.
unfoldable pub stop : WifiTransport → WifiTransport × List ℕ
stop t = (record t { running = false; conns = [] }, map (λ q. q.1) t.conns)

unfoldable pub wifi_on_receive : WifiTransport → WifiTransport
wifi_on_receive t = record t { callback = true }

unfoldable pub wifi_on_connect : WifiTransport → WifiTransport
wifi_on_connect t = record t { connect_callback = true }

unfoldable pub wifi_list_peers : WifiTransport → List Peer
wifi_list_peers t = keys t.conns

-- What `send` does: nothing to an unknown peer; the bytes for a socket; or the exception of `frame`,
-- which is not an OSError.
pub data Sent : Type 0 where
  unknown_peer : Sent
  written : ℕ → Bytes → Sent
  raises : Sent

unfoldable pub wifi_send : WifiTransport → Peer → Bytes → Sent
wifi_send t peer packet = elim (get t.conns peer) [
  | none ↦ unknown_peer
  | some conn ↦ elim (frame packet) [ none ↦ raises | some framed ↦ written conn framed ]
]

-- f"{WIFI_PEER_PREFIX}{addr[0]}:{addr[1]}", of the host and of the port's digits
abbrev pub wifi_peer : Text → Text → Peer
wifi_peer host port = wifi_peer_prefix ++ host ++ codes ":" ++ port

-- One turn of `_accept_loop` with a connection.
unfoldable pub accept : WifiTransport → ℕ → Text → Text → WifiTransport × List Call
accept t conn host port =
    let peer = wifi_peer host port in
    if t.running
    then (
      record t { conns = put t.conns peer conn },
      if t.connect_callback then connected peer ∷ [] else [],
    )
    else (t, [])

-- conn.recv(4096), or its OSError
pub data Recv : Type 0 where
  data_in : Bytes → Recv
  recv_fails : Recv

unfoldable pub dispatch_all : ℕ → Bool → Peer → List Bytes → List Call
unfolding dispatch
dispatch_all max_packet set peer [] = []
dispatch_all max_packet set peer (b ∷ bs) =
    dispatch max_packet set peer b ++ dispatch_all max_packet set peer bs

-- After a `feed`, where the rest of the loop is `later`: a corrupt stream ends the loop.
unfoldable pub read_on : ℕ → Bool → Peer → Fed → List Call × Bool → List Call × Bool
unfolding dispatch_all
read_on max_packet set peer (corrupt n) later = ([], true)
read_on max_packet set peer (packets ps) later =
    (dispatch_all max_packet set peer ps ++ later.0, later.1)

-- The loop of `_reader`: the calls that it makes, and whether it has ended.
unfoldable pub read_loop : ℕ → Bool → Peer → FrameAssembler → List Recv → List Call × Bool
unfolding read_on
read_loop max_packet set peer a [] = ([], false)
read_loop max_packet set peer a (recv_fails ∷ rs) = ([], true)
read_loop max_packet set peer a (data_in [] ∷ rs) = ([], true)
read_loop max_packet set peer a (data_in (b ∷ bs) ∷ rs) =
    let (r, a') = feed a (b ∷ bs) in
    read_on max_packet set peer r (read_loop max_packet set peer a' rs)

-- The `finally` of `_reader`.
unfoldable pub reader_done : WifiTransport → Peer → WifiTransport
reader_done t peer = record t { conns = remove t.conns peer }

-- `_reader` of an accepted connection.
unfoldable pub reader : ℕ → WifiTransport → Peer → List Recv → WifiTransport × List Call
unfolding read_loop reader_done
reader max_packet t peer rs =
    let (calls, ended) = read_loop max_packet t.callback peer new_assembler rs in
    (if ended then reader_done t peer else t, calls)
