-- ===== src/Examples/Links.antt =====
-- Phones on both radios (node/transport/).
use meshlink_node.Prelude.{
  Bytes, List, [], arith, codes, false, get, length, map, none, refl, some, suc, true, zero, ℕ, ◌∷◌,
  ◌≡◌, nat_eq, list_eq,
}
use meshlink_node.Gatt.{Peer, new_server}
use meshlink_node.Transport.Ble.{BleTransport, received, gate}
use meshlink_node.Transport.Wifi.{
  WifiTransport, new_wifi, data_in, recv_fails, reader, reader_done, wifi_peer, wifi_send,
  unknown_peer,
}
use meshlink_node.Transport.Multi.{MultiTransport}
use meshlink_node.Transport.Readers.{passed, reader-corrupt}
use meshlink_node.Transport.Routing.{WifiOp, starts, accepts, wifi_run}
use meshlink_node.Transport.Sockets.{Sockets, accepted, read}
use meshlink_node.Transport.Reconnect.{read-reconnected}

abbrev ann : Peer
ann = codes "ann"

abbrev ble : BleTransport
ble = record {
  server = record new_server { on_packet = true; on_connect = true; on_disconnect = true };
  callback = true;
  connect_callback = false;
}

-- A packet of two bytes, an empty frame, and the start of another.
abbrev stream : Bytes
stream = 0 ∷ 2 ∷ 5 ∷ 6 ∷ 0 ∷ 0 ∷ 0 ∷ []

passed_stream : passed 460 ((5 ∷ 6 ∷ []) ∷ [] ∷ []) ≡ (5 ∷ 6 ∷ []) ∷ []
unfolding gate
passed_stream = refl

abbrev listening : WifiTransport
listening = record new_wifi { running = true; callback = true }

-- After the stream comes a length of 65535, and then another frame.
reader-corrupt_example :
    reader 460 listening ann
      (data_in stream ∷ data_in (1 ∷ 9 ∷ 255 ∷ 255 ∷ []) ∷ data_in (0 ∷ 1 ∷ 7 ∷ []) ∷ [])
    ≡ (reader_done listening ann, map (received ann) (passed 460 ((5 ∷ 6 ∷ []) ∷ [] ∷ [])))
reader-corrupt_example =
    reader-corrupt 460 listening ann (stream ∷ []) ((5 ∷ 6 ∷ []) ∷ [] ∷ []) (0 ∷ [])
      (1 ∷ 9 ∷ 255 ∷ 255 ∷ []) ((9 ∷ []) ∷ []) (255 ∷ 255 ∷ []) (data_in (0 ∷ 1 ∷ 7 ∷ []) ∷ []) refl
      refl (omega arith, (omega arith, tt)) tt (tt, tt) tt refl (omega arith, tt) (omega arith)

abbrev history : List WifiOp
history = starts true ∷ accepts 4 (codes "h") (codes "1") ∷ []

abbrev both : MultiTransport
both = record { ble = ble; wifi = wifi_run new_wifi history }

abbrev phone : Peer
phone = wifi_peer (codes "h") (codes "1")

abbrev listens : Sockets
listens = record { wifi = listening; readers = [] }

-- The second connection of the phone, before and after the first one's thread ends.
abbrev before : Sockets
before = (accepted (accepted listens 4 (codes "h") (codes "1")).0 5 (codes "h") (codes "1")).0

abbrev after : Sockets
after = (read 460 before 4 recv_fails).0

read-reconnected_example :
    (get before.wifi.conns phone ≡ some 5)
    × (get after.wifi.conns phone ≡ none)
    × (wifi_send after.wifi phone (5 ∷ []) ≡ unknown_peer)
    × ((read 460 after 5 (data_in (0 ∷ 1 ∷ 7 ∷ []))).1
        ≡ (read 460 before 5 (data_in (0 ∷ 1 ∷ 7 ∷ []))).1)
read-reconnected_example =
    read-reconnected 460 listens 4 5 (codes "h") (codes "1") (5 ∷ []) (data_in (0 ∷ 1 ∷ 7 ∷ []))
      refl refl

abbrev zeros : ℕ → Bytes
zeros zero = []
zeros (suc n) = 0 ∷ zeros n

length-zeros : (n : ℕ) → length (zeros n) ≡ n
length-zeros zero = refl
length-zeros (suc n) = rw (length-zeros n)
