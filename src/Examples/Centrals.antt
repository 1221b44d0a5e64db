-- ===== src/Examples/Centrals.antt =====
-- Two centrals that write at the same time (node/ble/base.py).
use meshlink_node.Prelude.{
  All, Bytes, List, [], arith, codes, get, refl, some, true, ◌∷◌, ◌≡◌, nat_eq, list_eq,
}
use meshlink_node.Framing.{new_assembler}
use meshlink_node.Framing.Chunks.{FitsLink}
use meshlink_node.Framing.Stream.{feed_all}
use meshlink_node.Gatt.{
  Peer, GattServer, new_server, send_packet, Input, chunk_of, connects, disconnects, run,
}
use meshlink_node.Gatt.Streams.{packets_of, run-wire}
use meshlink_node.Gatt.Peers.{send_packet-feed_all}

abbrev ann : Peer
ann = codes "ann"

abbrev bob : Peer
bob = codes "bob"

abbrev listening : GattServer
listening = record new_server { on_packet = true; on_connect = true }

-- Ann's packet comes in two writes, with one of Bob's between them.
abbrev interleaved : List Input
interleaved =
    connects ann
    ∷ chunk_of ann (0 ∷ 2 ∷ 5 ∷ [])
    ∷ chunk_of bob (0 ∷ 1 ∷ 9 ∷ [])
    ∷ chunk_of ann (6 ∷ [])
    ∷ disconnects bob
    ∷ []

run-wire_example : packets_of ann (run listening interleaved).1 ≡ (5 ∷ 6 ∷ []) ∷ []
unfolding get
run-wire_example =
    run-wire listening ann interleaved ((5 ∷ 6 ∷ []) ∷ []) [] refl refl (refl, tt) refl
      (omega arith, tt) tt

send_packet-feed_all_example :
    (cs : List Bytes) × (send_packet ann (1 ∷ 2 ∷ []) ≡ some cs)
    × All (FitsLink 180) cs
    × (feed_all new_assembler cs ≡ ((1 ∷ 2 ∷ []) ∷ [], new_assembler))
send_packet-feed_all_example = send_packet-feed_all ann (1 ∷ 2 ∷ []) (omega arith)
