-- ===== src/Examples/Arrivals.antt =====
-- A phone's packet on a running node, run (node/main.py and its components).
use meshlink_node.Prelude.{
  Bytes, List, [], arith, codes, get, inr, none, put, refl, repeat, some, take, true, ℕ, ◌++◌, ◌∷◌,
  ◌≡◌, ◌≢◌, nat_eq, list_eq, int_eq,
}
use meshlink_node.Gatt.{Peer}
use meshlink_node.Framing.{new_assembler, feed, drain}
use meshlink_node.Framing.Stream.{feed_all}
use meshlink_node.Directory.{refresh}
use meshlink_node.Transport.Ble.{gate}
use meshlink_node.Transport.Wifi.{data_in, wifi_peer, start, accept, dispatch_all}
use meshlink_node.Transport.Multi.{on_receive, on_connect, list_peers}
use meshlink_node.Transport.Sockets.{Reader, accepted, turn, fed}
use meshlink_node.Backhaul.Sync.{announce_now}
use meshlink_node.Relay.Parts.{
  decrement_ttl, relay_copy, ttl_offset, is_telemetry_frame, is_backend_proxy_frame,
}
use meshlink_node.Relay.{is_attestation_presentation}
use meshlink_node.Relay.Traffic.{ReachesPipeline}
use meshlink_node.Relay.Delivery.{listed}
use meshlink_node.Relay.Arrival.{OnWifi, ble_listed}
use meshlink_node.Node.{Node, Out, moment_of, on_call, on_calls}
use meshlink_node.Node.Calls.{link_of, notified_of, datagrams_of}
use meshlink_node.Node.Events.{
  NodeEvent, wifi_accepts, wifi_reads, Clock, node_run, node_step, on_accept, on_read,
}
use meshlink_node.Entry.Wiring.{new_node, transport_of, relay_of, location_of, started}
use meshlink_node.Entry.Arrivals.{on_read-arrives}
use meshlink_node.Examples.Toy.{toy_core, toy_signer, toy_pipeline, message}
use meshlink_node.Examples.Nodes.{json}
use meshlink_node.Examples.Networks.{no_uplink}
use meshlink_node.Examples.Boots.{plain_settings, boot, clock}
use meshlink_node.Examples.Journeys.{tail}

-- Two phones come over WiFi, and the first has sent a part of its packet.
abbrev arrivals : List (Clock × NodeEvent ℕ)
arrivals =
    (clock, wifi_accepts 4 (codes "h") (codes "1"))
    ∷ (clock, wifi_reads 4 (data_in (0 ∷ 70 ∷ 9 ∷ [])))
    ∷ (clock, wifi_accepts 5 (codes "h") (codes "2"))
    ∷ []

-- A packet for the node's own zone, and the copy of it.
abbrev chat : Bytes
chat = 9 ∷ 10 ∷ 1 ∷ tail 65

abbrev chat_copy : Bytes
chat_copy = take ttl_offset chat ++ 2 ∷ 8 ∷ []

abbrev fresh : Node toy_pipeline ℕ
fresh = new_node toy_core toy_pipeline plain_settings boot

abbrev up : Node toy_pipeline ℕ
up = record fresh {
  transport = record fresh.transport { wifi = start fresh.transport.wifi true };
  directory = (refresh toy_core.pubkey_id fresh.directory none).1;
}

abbrev busy : Node toy_pipeline ℕ
busy = (node_run toy_core toy_signer toy_pipeline json no_uplink 460 up arrivals).0

abbrev sender : Peer
sender = wifi_peer (codes "h") (codes "1")

abbrev half : Reader
half = record { peer = sender; assembler = record { buf = 0 ∷ 70 ∷ 9 ∷ [] } }

first_read : get busy.readers 4 ≡ some half
unfolding new_node transport_of start on_receive on_connect node_run node_step on_accept on_read
    accepted accept turn fed feed drain on_calls on_call get put dispatch_all
first_read = refl

same_relay : busy.relay ≡ fresh.relay
unfolding new_node transport_of start on_receive on_connect node_run node_step on_accept on_read
    accepted accept turn fed feed drain on_calls on_call get put dispatch_all
same_relay = refl

chat-reaches :
    ReachesPipeline toy_core toy_signer busy.relay (moment_of busy (clock.handler 0)) sender chat
unfolding is_telemetry_frame is_backend_proxy_frame is_attestation_presentation new_node
chat-reaches = record { not_telemetry = refl; not_proxy = refl; not_presented = rw same_relay refl }

chat-copied : relay_copy chat none ≡ some chat_copy
unfolding relay_copy decrement_ttl
chat-copied = refl

chat-passes : gate 460 chat ≡ true
unfolding gate
chat-passes = refl

abbrev reading : List (Out ℕ)
reading =
    (on_read toy_core toy_signer toy_pipeline json no_uplink 460 busy clock 4
      (data_in (10 ∷ 1 ∷ tail 65))).1

on_read-arrives_example :
    (datagrams_of reading ≡ [])
    × ((q : Peer)
        → q ≢ sender
        → OnWifi busy.transport q
        → feed_all new_assembler (link_of q reading)
          ≡ (repeat (listed q (list_peers busy.transport)) chat_copy, new_assembler))
    × (feed_all new_assembler (notified_of reading)
        ≡ (repeat (ble_listed sender (list_peers busy.transport)) chat_copy, new_assembler))
unfolding started announce_now refresh new_node relay_of location_of transport_of start on_receive
    on_connect node_run node_step on_accept on_read accepted accept turn fed feed drain on_calls
    on_call get put dispatch_all
on_read-arrives_example =
    on_read-arrives toy_core toy_signer toy_pipeline json no_uplink plain_settings boot true none
      460 up busy _ arrivals clock 4 half (10 ∷ 1 ∷ tail 65) chat []
      (record (message 9 10 (tail 65)) { zone_id = 1 }) none 1 chat_copy 1 [] refl refl first_read
      refl tt (omega arith) chat-passes tt chat-reaches refl (inr (omega arith, omega arith))
      chat-copied (omega arith) refl refl
