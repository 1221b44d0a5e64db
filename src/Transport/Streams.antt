-- ===== src/Transport/Streams.antt =====
-- What reaches the relay from one phone's WiFi connection while others are read too
-- (node/transport/wifi_transport.py).
use meshlink_node.Prelude.{
  All, Bytes, List, [], ap, append-nil, concat, get, map, some, true, ℕ, ◌++◌, ◌∙◌, ◌≡◌, nat_eq,
  list_eq,
}
use meshlink_node.Gatt.{Peer}
use meshlink_node.Framing.{new_assembler}
use meshlink_node.Framing.Wire.{IsPacket, wire, IsPartial}
use meshlink_node.Transport.Ble.{received}
use meshlink_node.Transport.Wifi.{Recv, data_in, dispatch_all, read_loop}
use meshlink_node.Transport.Readers.{passed, dispatch_all-passed, NonEmpty, read_loop-wire}
use meshlink_node.Transport.Sockets.{Sockets, read_all, of_socket, of_socket-read_all}

-- On a WiFi transport with a receive callback, a connection whose thread has an empty buffer and
-- reads a stream of frames of at most 460 bytes, with at most the start of another, cut in any way,
-- has each packet that passes the gate handed to the relay, in order, whatever the threads of the
-- other connections read in between.
pub read_all-wire :
    (m : ℕ) (s : Sockets) (conn : ℕ) (p : Peer) (xs : List (ℕ × Recv)) (cs ps : List Bytes)
    (r : Bytes)
    → s.wifi.callback ≡ true
    → get s.readers conn ≡ some (record { peer = p; assembler = new_assembler })
    → of_socket conn xs ≡ map data_in cs
    → concat cs ≡ wire ps ++ r
    → All IsPacket ps
    → IsPartial r
    → All NonEmpty cs
    → of_socket conn (read_all m s xs).1 ≡ map (received p) (passed m ps)
unfolding read_loop
read_all-wire m s conn p xs cs ps r set has reads e h k n =
    let run = read_loop-wire m true p new_assembler cs ps r [] e h k tt n in
    of_socket-read_all m s conn xs
    ∙ rw (set, has, reads, ← append-nil (map data_in cs))
        (ap (λ y. y.0) run ∙ append-nil (dispatch_all m true p ps) ∙ dispatch_all-passed m p ps)
