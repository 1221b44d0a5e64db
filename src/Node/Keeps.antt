-- ===== src/Node/Keeps.antt =====
-- What single operations keep of the state of their component (node/relay.py, node/backhaul/zone_sync.py,
-- node/transport/wifi_transport.py).
use meshlink_node.Prelude.{
  Bool-cases, Bytes, IsKeyed, Option, Text, [], arith, inl, inr, none, put-IsKeyed, refl, some, ℕ,
  ℤ, ◌==◌, ◌∷◌, ◌≡◌, nat_eq, list_eq, int_eq,
}
use meshlink_node.Json.{Json}
use meshlink_node.Gatt.{Peer}
use meshlink_node.Framing.{Fed, FrameAssembler, packets, corrupt, feed}
use meshlink_node.Transport.Wifi.{Recv, data_in, recv_fails, accept}
use meshlink_node.Transport.Routing.{Prefixed, accepts, reader_ends, wifi_step, wifi_step-Prefixed}
use meshlink_node.Transport.Sockets.{Reader, Sockets, accepted, closed, fed, turn}
use meshlink_node.ZoneTable.{ZoneTable, learn}
use meshlink_node.Backhaul.Udp.{Addr}
use meshlink_node.Backhaul.Sync.{
  ZoneSync, announced, malformed, raised, Decoded, decode_announcement, on_control,
}
use meshlink_node.Relay.Parts.{
  Stats, Effect, ping_frame, proxy_frame, send, forward_to_zone, broadcast_to_all_nodes,
}
use meshlink_node.Relay.Counters.{Adds}
use meshlink_node.Relay.Growth.{Grows}
use meshlink_node.Node.{settled}

pub settled-Adds :
    (s s' : Stats) (from : Peer) (o : Option Effect)
    → Adds s'
    → Grows s s'
    → Adds (settled s s' from o)
unfolding settled
settled-Adds s s' from none h g = h
settled-Adds s s' from (some (send q b)) h g = ground arith
settled-Adds s s' from (some (forward_to_zone z b)) h g = ground arith
settled-Adds s s' from (some (broadcast_to_all_nodes b)) h g = ground arith
settled-Adds s s' from (some (ping_frame q b)) h g = h
settled-Adds s s' from (some (proxy_frame q b)) h g = h

pub on_control-IsKeyed :
    (j : Json) (z : ZoneSync j.Float) (t : ZoneTable ℤ (Addr j.Float)) (now : ℕ) (frame : Bytes)
    → IsKeyed t.learned
    → IsKeyed (on_control j z t now frame).learned
unfolding on_control learn
on_control-IsKeyed j z t now frame h = decoded (decode_announcement j frame) refl
  where
    decoded :
        (d : Decoded j.Float)
        → decode_announcement j frame ≡ d
        → IsKeyed (on_control j z t now frame).learned
    decoded (announced node zone addr) e = elim (Bool-cases (node == z.node_id)) [
      | inl own ↦ rw (e, on_control, own) h
      | inr other ↦ rw (e, on_control, other) (put-IsKeyed t.learned zone (addr, now) h)
    ]
    decoded malformed e = rw (e, on_control) h
    decoded raised e = rw (e, on_control) h

pub accepted-Prefixed :
    (s : Sockets) (conn : ℕ) (host port : Text)
    → Prefixed s.wifi.conns
    → Prefixed (accepted s conn host port).0.wifi.conns
unfolding accepted wifi_step
accepted-Prefixed s conn host port h = wifi_step-Prefixed s.wifi (accepts conn host port) h

pub accepted-callback :
    (s : Sockets) (conn : ℕ) (host port : Text)
    → (accepted s conn host port).0.wifi.callback ≡ s.wifi.callback
unfolding accepted accept
accepted-callback s conn host port = elim (Bool-cases s.wifi.running) [
  | inl e ↦ rw (e, accept)
  | inr e ↦ rw (e, accept)
]

pub turn-Prefixed :
    (m : ℕ) (s : Sockets) (conn : ℕ) (o : Option Reader) (x : Recv)
    → Prefixed s.wifi.conns
    → Prefixed (turn m s conn o x).0.wifi.conns
unfolding turn fed closed wifi_step
turn-Prefixed m s conn none x h = h
turn-Prefixed m s conn (some r) recv_fails h = wifi_step-Prefixed s.wifi (reader_ends r.peer) h
turn-Prefixed m s conn (some r) (data_in []) h = wifi_step-Prefixed s.wifi (reader_ends r.peer) h
turn-Prefixed m s conn (some r) (data_in (b ∷ bs)) h = fed-Prefixed (feed r.assembler (b ∷ bs))
  where
    fed-Prefixed : (y : Fed × FrameAssembler) → Prefixed (fed m s conn r.peer y).0.wifi.conns
    fed-Prefixed (corrupt len, a) = wifi_step-Prefixed s.wifi (reader_ends r.peer) h
    fed-Prefixed (packets ps, a) = h
