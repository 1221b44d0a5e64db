-- ===== src/Entry/Wiring.antt =====
-- The components as the main function makes and connects them (node/main.py), with WiFi on. A zone
-- and a UDP port are natural numbers here, as on every packet; the node's name and place are given.
use meshlink_node.Prelude.{
  Bool, Dict, List, Option, Text, [], false, if◌then◌else◌, inl, inr, map, negsuc, none, pos, some,
  true, ℕ, ℤ, ◌∷◌, ◌⊎◌, int_eq,
}
use meshlink_node.Json.{text, integer, array, nil, cons, Json}
use meshlink_node.Gatt.{new_server}
use meshlink_node.Config.{Settings}
use meshlink_node.Directory.{User, new_directory, refresh}
use meshlink_node.Location.Core.{Core}
use meshlink_node.Location.Authz.{new_authz}
use meshlink_node.Location.Service.{LocationService}
use meshlink_node.Transport.Ble.{new_ble}
use meshlink_node.Transport.Wifi.{new_wifi, start}
use meshlink_node.Transport.Multi.{MultiTransport, on_receive, on_connect}
use meshlink_node.ZoneTable.{ZoneTable, new_table}
use meshlink_node.Backhaul.Udp.{Addr, host, host_port, other, BatmanBackhaul}
use meshlink_node.Backhaul.Sync.{ZoneSync, announce_now}
use meshlink_node.PhonePing.{PhonePing}
use meshlink_node.Relay.Parts.{Pipeline, NodeRelay, zero_stats}
use meshlink_node.Node.{Node, Out, to_node}
use meshlink_node.Node.Events.{goes_on}

-- What parse_addr returns, as an address; with a negative port, `sendto` raises.
unfoldable pub addr_of : {F : Type 0} → Text ⊎ (Text × ℤ) → Addr F
addr_of (inl h) = host h
addr_of (inr (h, pos n)) = host_port (h, n)
addr_of (inr (h, negsuc n)) = other (array (cons (text h) (cons (integer (negsuc n)) nil)))

unfoldable pub seed_of : {F : Type 0} → Dict ℤ (Text ⊎ (Text × ℤ)) → Dict ℤ (Addr F)
unfolding addr_of
seed_of [] = []
seed_of ((zone, addr) ∷ d) = (zone, addr_of addr) ∷ seed_of d

-- What the settings do not hold: the zone and the UDP port as natural numbers, seconds as ticks of a
-- clock, the codec of host names, the node's name and place, the cached directory, and the pipelines when they are new.
pub record Boot (p : Pipeline) (F : Type 0) : Type 0 where
  pub zone_id : ℕ
  pub udp_port : ℕ
  pub idna : Text → Bool
  pub ticks : F → ℕ
  pub node_name : Option Text
  pub node_lat : Option F
  pub node_lon : Option F
  pub cached_users : Option (List User)
  pub pipelines : p.State

module _ (c : Core) (p : Pipeline) {F : Type 0} (s : Settings F) (b : Boot p F) where
  -- MultiTransport(BleTransport(server), WifiTransport(…)), after the relay's on_receive and the
  -- phone pings' on_connect
  unfoldable pub transport_of : MultiTransport
  unfolding on_receive on_connect
  transport_of = on_connect (on_receive (record { ble = new_ble new_server; wifi = new_wifi }))

  unfoldable pub zone_table_of : ZoneTable ℤ (Addr F)
  unfolding new_table seed_of
  zone_table_of =
      new_table (pos b.zone_id)
        (elim s.backhaul_zone_table [ none ↦ none | some d ↦ some (seed_of d) ])
        (b.ticks s.zone_entry_ttl_s)

  -- BatmanBackhaul(…), after the relay's on_receive and the zone sync's on_control
  unfoldable pub backhaul_of : BatmanBackhaul F
  unfolding addr_of
  backhaul_of = record {
    zone_id = b.zone_id;
    own_addr = addr_of s.backhaul_advertise_addr;
    broadcast_addr = addr_of s.backhaul_broadcast_addr;
    udp_port = b.udp_port;
    idna = b.idna;
    data_cb = true;
    control_cb = true;
  }

  unfoldable pub zone_sync_of : ZoneSync F
  unfolding addr_of
  zone_sync_of = record {
    node_id = s.node_id;
    zone_id = b.zone_id;
    own_addr = addr_of s.backhaul_advertise_addr;
  }

  unfoldable pub phone_ping_of : PhonePing F
  phone_ping_of = record {
    interval = b.ticks s.phone_ping_interval_s;
    node_name = b.node_name;
    node_lat = b.node_lat;
    node_lon = b.node_lon;
    reports = [];
    stopped = false;
    connect_timers = [];
  }

  unfoldable pub location_of : LocationService
  unfolding new_authz
  location_of = record {
    rows = [];
    authz = new_authz (b.ticks s.location_query_min_interval_s);
    own_zone = b.zone_id;
  }

  unfoldable pub relay_of : NodeRelay p
  unfolding location_of
  relay_of = record {
    setup = record {
      own_zone_id = b.zone_id;
      enforces_attestation = true;
      has_phone_ping = true;
      has_backend_proxy = true;
    };
    core = b.pipelines;
    location = some location_of;
    stats = zero_stats;
  }

  -- The node when all components are made, before any is started.
  unfoldable pub new_node : Node p F
  unfolding transport_of zone_table_of backhaul_of zone_sync_of phone_ping_of relay_of
  new_node = record {
    relay = relay_of;
    transport = transport_of;
    readers = [];
    backhaul = backhaul_of;
    table = zone_table_of;
    sync = zone_sync_of;
    sync_running = true;
    phone_ping = phone_ping_of;
    directory = new_directory c.pubkey_id b.cached_users;
    directory_running = true;
  }

-- The starts, of which the zone sync's announces and the directory's refreshes at once; `none` where
-- one of the two raises. Whether the WiFi listener can be bound is given.
unfoldable pub started :
    (c : Core) (p : Pipeline) (j : Json)
    → Node p j.Float
    → Bool
    → Option (List User)
    → Option (Node p j.Float × List (Out j.Float))
unfolding start
started c p j n bound users = elim (announce_now j n.sync n.backhaul) [
  | none ↦ none
  | some ds ↦
      let n' : Node p j.Float = record n {
        transport = record n.transport { wifi = start n.transport.wifi bound };
        directory = (refresh c.pubkey_id n.directory users).1;
      } in
      if goes_on (refresh c.pubkey_id n.directory users).0 then some (n', map to_node ds) else none
]
