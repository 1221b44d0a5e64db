-- ===== src/Examples/Boots.antt =====
-- A node from its boot, run (node/main.py), and two WiFi phones read in turns.
use meshlink_node.Prelude.{
  List, [], arith, codes, false, get, inl, map, none, pos, refl, some, true, ℕ, ◌∷◌, ◌≡◌, nat_eq,
  list_eq, int_eq,
}
use meshlink_node.Gatt.{Peer, chunk_of}
use meshlink_node.Framing.{new_assembler}
use meshlink_node.Config.{Settings}
use meshlink_node.Directory.{refresh}
use meshlink_node.Transport.Ble.{received}
use meshlink_node.Transport.Wifi.{new_wifi, Recv, data_in, recv_fails, wifi_peer}
use meshlink_node.Transport.Readers.{passed}
use meshlink_node.Transport.Sockets.{Sockets, read_all, of_socket, alone, of_socket-read_all}
use meshlink_node.Transport.Streams.{read_all-wire}
use meshlink_node.Backhaul.Sync.{announce_now}
use meshlink_node.Node.{Node}
use meshlink_node.Node.Events.{
  NodeEvent, radio, wifi_accepts, wifi_reads, sync_wakes, Clock, node_run,
}
use meshlink_node.Node.Invariant.{IsGood}
use meshlink_node.Entry.Wiring.{Boot, new_node, started}
use meshlink_node.Entry.Boot.{started-node_run}
use meshlink_node.Examples.Toy.{toy_core, toy_signer, toy_pipeline}
use meshlink_node.Examples.Nodes.{json}
use meshlink_node.Examples.Networks.{no_uplink, at_time}

abbrev pub plain_settings : Settings ℕ
plain_settings = record {
  node_zone_id = pos 1;
  node_zone_name = codes "Zone 1";
  backhaul_udp_port = pos 19788;
  backhaul_broadcast_addr = inl (codes "all");
  backhaul_zone_table = some ((pos 3, inl (codes "c")) ∷ []);
  backhaul_advertise_addr = inl (codes "a");
  zone_entry_ttl_s = 180;
  backend_channel = codes "batman";
  backend_url = codes "http://x";
  event_id = codes "e";
  organiser_pubkey = none;
  organiser_key_cache = codes "k";
  node_id = codes "n1";
  heartbeat_interval_s = 60;
  node_identity_path = codes "i";
  directory_cache = codes "d";
  location_query_min_interval_s = 60;
  phone_ping_interval_s = 90;
  phone_ping_connect_delay_s = 3;
  node_info_path = codes "p";
  wifi_listen = codes "h:1";
  wifi_ap_provision = codes "off";
}

abbrev pub boot : Boot toy_pipeline ℕ
boot = record {
  zone_id = 1;
  udp_port = 19788;
  idna = λ t. false;
  ticks = λ n. n;
  node_name = none;
  node_lat = none;
  node_lon = none;
  cached_users = none;
  pipelines = 0;
}

abbrev pub clock : Clock
clock = record { handler = λ i. at_time 200; sweep = λ z. 200 }

-- A phone comes over WiFi and sends a frame in two reads, a central writes one, and the loop wakes.
abbrev events : List (Clock × NodeEvent ℕ)
events =
    (clock, wifi_accepts 4 (codes "h") (codes "1"))
    ∷ (clock, wifi_reads 4 (data_in (0 ∷ 4 ∷ 9 ∷ [])))
    ∷ (clock, wifi_reads 4 (data_in (10 ∷ 1 ∷ 7 ∷ [])))
    ∷ (clock, radio (chunk_of (codes "ann") (0 ∷ 2 ∷ 5 ∷ 6 ∷ [])))
    ∷ (clock, sync_wakes)
    ∷ []

started-node_run_example :
    (n : Node toy_pipeline ℕ) × IsGood toy_core toy_signer toy_pipeline json no_uplink
      (node_run toy_core toy_signer toy_pipeline json no_uplink 460 n events).0
unfolding started announce_now refresh new_node
started-node_run_example =
    let x =
      started toy_core toy_pipeline json (new_node toy_core toy_pipeline plain_settings boot) true
        none in
    (
      _,
      started-node_run toy_core toy_signer toy_pipeline json no_uplink plain_settings boot true none
          _ _ 460 events refl,
    )

abbrev peer : ℕ → Peer
peer n = wifi_peer (codes "h") (n ∷ [])

abbrev sockets : Sockets
sockets = record {
  wifi = record new_wifi {
    running = true;
    callback = true;
    conns = (peer 1, 1) ∷ (peer 2, 2) ∷ [];
  };
  readers =
      (1, record { peer = peer 1; assembler = new_assembler })
      ∷ (2, record { peer = peer 2; assembler = new_assembler })
      ∷ [];
}

-- A frame of one phone in two reads, with a frame and the end of the other's connection between.
abbrev reads : List (ℕ × Recv)
reads =
    (1, data_in (0 ∷ 2 ∷ 5 ∷ []))
    ∷ (2, data_in (0 ∷ 1 ∷ 9 ∷ []))
    ∷ (2, recv_fails)
    ∷ (1, data_in (6 ∷ []))
    ∷ []

of_socket-read_all_example :
    of_socket 1 (read_all 460 sockets reads).1
    ≡ alone 460 true (get sockets.readers 1) (of_socket 1 reads)
of_socket-read_all_example = of_socket-read_all 460 sockets 1 reads

read_all-wire_example :
    of_socket 1 (read_all 460 sockets reads).1
    ≡ map (received (peer 1)) (passed 460 ((5 ∷ 6 ∷ []) ∷ []))
unfolding get
read_all-wire_example =
    read_all-wire 460 sockets 1 (peer 1) reads ((0 ∷ 2 ∷ 5 ∷ []) ∷ (6 ∷ []) ∷ [])
      ((5 ∷ 6 ∷ []) ∷ []) [] refl refl refl refl (omega arith, tt) tt (tt, (tt, tt))
