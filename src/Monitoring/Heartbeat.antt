-- ===== src/Monitoring/Heartbeat.antt =====
-- The heartbeat (node/monitoring/heartbeat_sender.py). Readings of clocks and other services are
-- arguments.
use meshlink_node.Prelude.{
  Bytes, List, Option, Text, [], codes, if◌then◌else◌, length, none, or_default, pos, some,
  starts_with, ℕ, ℤ, ◌++◌, ◌-◌, ◌∷◌, nat_eq, list_eq,
}
use meshlink_node.Strings.{rstrip_of}
use meshlink_node.Json.{
  Value, null, integer, text, array, object, Values, nil, cons, Fields, no_fields, field,
}
use meshlink_node.Gatt.{Peer}
use meshlink_node.Transport.Wifi.{wifi_peer_prefix}

-- HEARTBEAT_VERSION
abbrev pub heartbeat_version : ℕ
heartbeat_version = 2

pub record HeartbeatSender : Type 0 where
  pub node_id : Text
  pub zone_id : ℤ
  pub zone_name : Text
  pub url : Text

unfoldable pub new_heartbeat : Text → ℤ → Text → Text → HeartbeatSender
unfolding rstrip_of
new_heartbeat node_id zone_id zone_name base_url = record {
  node_id = node_id;
  zone_id = zone_id;
  zone_name = zone_name;
  url = rstrip_of b'/' base_url ++ codes "/heartbeat";
}

-- What build_payload reads: the peers, the time as text, the seconds since start, and what the other
-- services return; `none` where the node has no such service.
pub record Readings (F : Type 0) : Type 0 where
  pub peers : List Peer
  pub sent_at : Text
  pub uptime_s : ℤ
  pub batman_peer_count : ℤ
  pub battery : Value F
  pub relay_stats : Option (Value F)
  pub reports : Option (Value F)
  pub system : Value F

unfoldable pub wifi_peers : List Peer → List Peer
wifi_peers [] = []
wifi_peers (p ∷ ps) =
    let rest = wifi_peers ps in if starts_with p wifi_peer_prefix then p ∷ rest else rest

abbrev pub texts : {F : Type 0} → List Text → Values F
texts [] = nil
texts (t ∷ ts) = cons (text t) (texts ts)

abbrev pub count : {F : Type 0} → ℕ → Value F
count n = integer (pos n)

-- len(peers) - len(wifi_peers), which are among the peers
unfoldable pub phones : {F : Type 0} → List Peer → Fields F
unfolding wifi_peers
phones peers = field (codes "ble_count") (count (length peers - length (wifi_peers peers))) (
    field (codes "wifi_count") (count (length (wifi_peers peers)))
      (field (codes "peers") (array (texts peers)) no_fields))

unfoldable pub build_payload : {F : Type 0} → HeartbeatSender → Readings F → Fields F
unfolding phones
build_payload s r = field (codes "heartbeat_version") (count heartbeat_version) (
    field (codes "node_id") (text s.node_id) (
      field (codes "zone_id") (integer s.zone_id) (
        field (codes "zone_name") (text s.zone_name) (
          field (codes "sent_at") (text r.sent_at) (
            field (codes "uptime_s") (integer r.uptime_s) (
              field (codes "connected_phone_count") (count (length r.peers)) (
                field (codes "batman_peer_count") (integer r.batman_peer_count) (
                  field (codes "phones") (object (phones r.peers)) (
                    field (codes "battery") r.battery (
                      field (codes "relay") (or_default r.relay_stats null) (
                        field (codes "phone_telemetry")
                          (elim r.reports [
                            | none ↦ null
                            | some v ↦ object (field (codes "reports") v no_fields)
                          ])
                          (field (codes "system") r.system no_fields))))))))))))

-- The request of one beat, whose failure is only logged.
unfoldable pub beat : {F : Type 0} → (Value F → Bytes) → HeartbeatSender → Readings F → Text × Bytes
unfolding build_payload
beat dumps s r = (s.url, dumps (object (build_payload s r)))
