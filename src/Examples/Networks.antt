-- ===== src/Examples/Networks.antt =====
-- Whole nodes, run: two zones and a bad announcement (node/main.py and its components).
use meshlink_node.Prelude.{
  Bytes, [], arith, codes, false, inr, none, pos, refl, repeat, some, take, true, ℕ, ◌++◌, ◌∷◌, ◌≡◌,
  ◌≢◌, nat_eq, list_eq, int_eq,
}
use meshlink_node.Json.{integer}
use meshlink_node.Gatt.{Peer}
use meshlink_node.Framing.{new_assembler}
use meshlink_node.Framing.Stream.{feed_all}
use meshlink_node.Transport.Multi.{list_peers}
use meshlink_node.BackendProxy.{Uplink, unreachable}
use meshlink_node.Backhaul.Udp.{endpoint, target, backhaul_peer}
use meshlink_node.Relay.Parts.{
  NodeRelay, decrement_ttl, relay_copy, ttl_offset, zero_stats, is_telemetry_frame,
  is_backend_proxy_frame,
}
use meshlink_node.Relay.{is_attestation_presentation}
use meshlink_node.Relay.Traffic.{ReachesPipeline}
use meshlink_node.Relay.Delivery.{listed}
use meshlink_node.Relay.Arrival.{OnWifi, ble_listed}
use meshlink_node.Node.{Node, Instant, moment_of, on_packet, on_datagram}
use meshlink_node.Node.Calls.{link_of, notified_of, datagrams_of}
use meshlink_node.Node.Across.{heard, on_datagram-on_packet}
use meshlink_node.Node.Faults.{on_packet-lost}
use meshlink_node.Examples.Toy.{
  toy_core, toy_signer, toy_pipeline, rows, guard, users, now, phone, message,
}
use meshlink_node.Examples.Nodes.{
  there, json, second, first, backhaul, table, second-ReadsBack, toy_json, odd_body, odd_frame,
  odd_decoded,
}
use meshlink_node.Examples.Journeys.{tail, both, both-Prefixed}

abbrev pub no_uplink : Uplink
no_uplink = record {
  base_url = [];
  lower = λ t. t;
  encode = λ t. some t;
  decode_replace = λ b. b;
  urlopen = λ r. unreachable;
}

abbrev relay_in : ℕ → NodeRelay toy_pipeline
relay_in zone = record {
  setup = record {
    own_zone_id = zone;
    enforces_attestation = true;
    has_phone_ping = true;
    has_backend_proxy = true;
  };
  core = 0;
  location = some (record { rows = rows; authz = guard; own_zone = zone });
  stats = zero_stats;
}

-- The node of zone 1.
abbrev pub node_a : Node toy_pipeline ℕ
node_a = record {
  relay = relay_in 1;
  transport = both;
  readers = [];
  backhaul = backhaul;
  table = table;
  sync = first;
  sync_running = true;
  phone_ping = record {
    interval = 90;
    node_name = none;
    node_lat = none;
    node_lon = none;
    reports = [];
    stopped = false;
    connect_timers = [];
  };
  directory = users;
  directory_running = true;
}

-- The node of zone 2.
abbrev node_b : Node toy_pipeline ℕ
node_b = record node_a {
  relay = relay_in 2;
  backhaul = record backhaul { zone_id = 2; own_addr = there };
  sync = second;
}

abbrev pub at_time : ℕ → Instant
at_time n = record { clocks = record { check = now; age = now; beacon = now }; monotonic = n }

-- A packet for zone 2, and node B's copy of it.
abbrev hello : Bytes
hello = 9 ∷ 10 ∷ 2 ∷ tail 65

abbrev hello_copy : Bytes
hello_copy = take ttl_offset hello ++ 2 ∷ 8 ∷ []

abbrev peer_a : Peer
peer_a = backhaul_peer (codes "a") (codes "19788")

a-reaches :
    ReachesPipeline toy_core toy_signer node_a.relay (moment_of node_a (at_time 200)) phone hello
unfolding is_telemetry_frame is_backend_proxy_frame is_attestation_presentation
a-reaches = record { not_telemetry = refl; not_proxy = refl; not_presented = refl }

b-reaches :
    ReachesPipeline toy_core toy_signer node_b.relay (moment_of node_b (at_time 201)) peer_a hello
unfolding is_telemetry_frame is_backend_proxy_frame is_attestation_presentation
b-reaches = record { not_telemetry = refl; not_proxy = refl; not_presented = refl }

hello-copied : relay_copy hello none ≡ some hello_copy
unfolding relay_copy decrement_ttl
hello-copied = refl

on_datagram-on_packet_example :
    let a =
      heard toy_core toy_signer toy_pipeline json no_uplink node_a node_b
        (at_time 100)
        (codes "b", 99)
        (codes "99") in
    (datagrams_of
        (on_packet toy_core toy_signer toy_pipeline json no_uplink a (at_time 200) phone hello).1
      ≡ record { payload = hello; to = (codes "b", 99) } ∷ [])
    × ((q : Peer)
        → q ≢ peer_a
        → OnWifi node_b.transport q
        → feed_all new_assembler (
            link_of q
              (on_datagram toy_core toy_signer toy_pipeline json no_uplink node_b
                (at_time 201)
                (codes "a", 19788)
                (codes "19788")
                hello).1)
          ≡ (repeat (listed q (list_peers node_b.transport)) hello_copy, new_assembler))
    × (feed_all new_assembler (
          notified_of
            (on_datagram toy_core toy_signer toy_pipeline json no_uplink node_b
              (at_time 201)
              (codes "a", 19788)
              (codes "19788")
              hello).1)
        ≡ (repeat (ble_listed peer_a (list_peers node_b.transport)) hello_copy, new_assembler))
unfolding endpoint target
on_datagram-on_packet_example =
    on_datagram-on_packet toy_core toy_signer toy_pipeline json no_uplink node_a node_b
      (at_time 100) (at_time 200) (at_time 201) (codes "a", 19788) (codes "b", 99) (codes "b", 99)
      (codes "19788") (codes "99") phone hello (record (message 9 10 (tail 65)) { zone_id = 2 })
      (record (message 9 10 (tail 65)) { zone_id = 2 }) none none 1 1 hello_copy 1 refl refl refl
      refl tt refl second-ReadsBack refl (omega arith) a-reaches refl
      (inr (omega arith, omega arith)) refl refl refl refl refl b-reaches refl
      (inr (omega arith, omega arith)) refl refl hello-copied (omega arith) refl both-Prefixed

on_packet-lost_example :
    let j = toy_json odd_body in
    let a =
      (on_datagram toy_core toy_signer toy_pipeline j no_uplink node_a
        (at_time 100)
        (codes "b", 99)
        (codes "99")
        odd_frame).0 in
    let (a', outs) =
      on_packet toy_core toy_signer toy_pipeline j no_uplink a (at_time 200) phone hello in
    (outs ≡ []) × (a'.relay.stats.relayed_to_phones ≡ 0) × (a'.relay.stats.forwarded_cross_zone ≡ 0)
unfolding endpoint
on_packet-lost_example =
    on_packet-lost toy_core toy_signer toy_pipeline (toy_json odd_body) no_uplink node_a
      (at_time 100) (at_time 200) (codes "b", 99) (codes "99") odd_frame hello phone (codes "n2")
      (integer (pos 5)) (record (message 9 10 (tail 65)) { zone_id = 2 }) none 1 refl refl refl
      odd_decoded refl refl (omega arith) a-reaches refl (inr (omega arith, omega arith)) refl refl
      refl
