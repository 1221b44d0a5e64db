-- ===== src/Demo/Calls.antt =====
-- The demonstration's two nodes when they are new, and the calls that a packet to all zones makes there
-- (scripts/demo_phase5_attestation.py).
use meshlink_node.Prelude.{
  Bool, Bytes, List, Option, Text, [], codes, false, get, none, pos, put, refl, some, true, ℕ, ◌++◌,
  ◌∷◌, ◌≡◌, nat_eq, list_eq, int_eq,
}
use meshlink_node.Gatt.{Peer}
use meshlink_node.ZoneTable.{new_table}
use meshlink_node.Backhaul.Udp.{host_port, endpoint, backhaul_peer, send_to, target, takes_host}
use meshlink_node.Backhaul.Udp
use meshlink_node.Relay.Parts.{Pipeline, broadcast_zone, fan_out, cross_zone, zero_stats, NodeRelay}
use meshlink_node.Demo.{
  empty_inboxes, phone_send, DemoNode, demo_zone_table, start_node, demo_perform,
}

abbrev pub phone_a : Peer
phone_a = codes "phoneA"

abbrev pub phone_b : Peer
phone_b = codes "phoneB"

abbrev pub phone_c : Peer
phone_c = codes "phoneC"

abbrev pub loopback : Text
loopback = codes "127.0.0.1"

abbrev pub node_1 : Peer
node_1 = backhaul_peer loopback (codes "19801")

module _ {p : Pipeline} {F : Type 0} where
  abbrev pub new_demo : ℕ → ℕ → ℕ → p.State → ℕ → (Text → Bool) → List Peer → DemoNode p F
  new_demo zone own other core port idna phones = record {
    relay = record {
      setup = record {
        own_zone_id = zone;
        enforces_attestation = true;
        has_phone_ping = false;
        has_backend_proxy = false;
      };
      core = core;
      location = none;
      stats = zero_stats;
    };
    phones = record { inboxes = empty_inboxes phones []; callback = true };
    backhaul = record {
      zone_id = zone;
      own_addr = host_port (loopback, own);
      broadcast_addr = host_port (loopback, other);
      udp_port = port;
      idna = idna;
      data_cb = true;
      control_cb = false;
    };
    table = new_table (pos zone) (some demo_zone_table) 180000000;
  }

  pub start_node-first :
      (core : p.State) (port : ℕ) (idna : Text → Bool) (phones : List Peer)
      → ◌≡◌ {A = Option (DemoNode p F)}
          (start_node 1 phones core port idna)
          (some (new_demo 1 19801 19802 core port idna phones))
  unfolding start_node demo_zone_table get
  start_node-first core port idna phones = refl

  pub start_node-second :
      (core : p.State) (port : ℕ) (idna : Text → Bool) (phones : List Peer)
      → ◌≡◌ {A = Option (DemoNode p F)}
          (start_node 2 phones core port idna)
          (some (new_demo 2 19802 19801 core port idna phones))
  unfolding start_node demo_zone_table get
  start_node-second core port idna phones = refl

  -- The calls for a packet to all zones, at node 1 from its phone A, and at node 2 from node 1.
  pub perform-first :
      (core : p.State) (port : ℕ) (idna : Text → Bool) (now zone : ℕ) (r : NodeRelay p)
      (raw copy : Bytes)
      → zone ≡ broadcast_zone
      → let n : DemoNode p F = new_demo 1 19801 19802 core port idna (phone_a ∷ phone_b ∷ []) in
        demo_perform
          (record n { relay = r })
          now
          (cross_zone 1 zone raw ++ fan_out (phone_a ∷ phone_b ∷ []) phone_a copy)
        ≡ record {
          node = record n {
            relay = r;
            phones = record {
              inboxes = (phone_a, []) ∷ (phone_b, copy ∷ []) ∷ [];
              callback = true;
            };
          };
          datagrams = record { payload = raw; to = (loopback, 19802) } ∷ [];
          failed = none;
        }
  unfolding demo_perform phone_send empty_inboxes put get cross_zone fan_out
      Udp.broadcast_to_all_nodes send_to target endpoint takes_host
  perform-first core port idna now zone r raw copy all = rw all refl

  pub perform-second :
      (core : p.State) (port : ℕ) (idna : Text → Bool) (now zone : ℕ) (r : NodeRelay p)
      (raw copy : Bytes)
      → zone ≡ broadcast_zone
      → let n : DemoNode p F = new_demo 2 19802 19801 core port idna (phone_c ∷ []) in
        demo_perform
          (record n { relay = r })
          now
          (cross_zone 2 zone raw ++ fan_out (phone_c ∷ []) node_1 copy)
        ≡ record {
          node = record n {
            relay = r;
            phones = record { inboxes = (phone_c, copy ∷ []) ∷ []; callback = true };
          };
          datagrams = record { payload = raw; to = (loopback, 19801) } ∷ [];
          failed = none;
        }
  unfolding demo_perform phone_send empty_inboxes put get cross_zone fan_out
      Udp.broadcast_to_all_nodes send_to target endpoint takes_host
  perform-second core port idna now zone r raw copy all = rw all refl
