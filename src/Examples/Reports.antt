-- ===== src/Examples/Reports.antt =====
-- Heartbeats, keys at boot and shutdowns (node/monitoring/, node/attestation/organiser_key.py,
-- node/main.py).
use meshlink_node.Prelude.{
  List, [], codes, false, none, pos, refl, some, true, ◌∷◌, ◌≡◌, nat_eq, list_eq,
}
use meshlink_node.Json.{Value, null, text, object, Fields, no_fields, field, field_of}
use meshlink_node.Gatt.{new_server}
use meshlink_node.Gatt
use meshlink_node.Transport.Ble.{ble_list_peers}
use meshlink_node.Transport.Wifi.{new_wifi, wifi_list_peers}
use meshlink_node.Transport.Multi.{MultiTransport, list_peers}
use meshlink_node.Monitoring.Heartbeat.{HeartbeatSender, Readings, count, build_payload}
use meshlink_node.Monitoring.Counts.{build_payload-list_peers}
use meshlink_node.Organiser.{unreachable, body, key, public_key, load_organiser_pubkey}
use meshlink_node.Organiser.Sources.{load_organiser_pubkey-reboot}
use meshlink_node.Entry.{Action, backend_proxy, access_point, interrupted, unwinds, lifecycle}
use meshlink_node.Entry.Lifecycle.{
  started, stopped, with_start, without_start, backwards, lifecycle-stopped,
}

abbrev both : MultiTransport
both = record {
  ble = record {
    server = record new_server { connected = codes "BB" ∷ codes "AA" ∷ [] };
    callback = true;
    connect_callback = true;
  };
  wifi = record new_wifi { conns = (codes "wifi:10.78.0.2:5", 7) ∷ [] };
}

abbrev sender : HeartbeatSender
sender = record { node_id = codes "n"; zone_id = pos 1; zone_name = codes "z"; url = codes "u" }

abbrev readings : Readings Unit
readings = record {
  peers = list_peers both;
  sent_at = codes "now";
  uptime_s = pos 3;
  batman_peer_count = pos 0;
  battery = null;
  relay_stats = none;
  reports = none;
  system = null;
}

build_payload-list_peers_example :
    (parts : Fields Unit) × (field_of (build_payload sender readings) (codes "phones")
      ≡ some (object parts))
    × (field_of parts (codes "ble_count") ≡ some (count 2))
    × (field_of parts (codes "wifi_count") ≡ some (count 1))
    × (field_of (build_payload sender readings) (codes "connected_phone_count") ≡ some (count 3))
unfolding ble_list_peers wifi_list_peers Gatt.peers
build_payload-list_peers_example =
    build_payload-list_peers sender readings both refl (refl, (refl, tt)) (refl, tt)

abbrev reply : Value Unit
reply = object (field (codes "public_key") (text (codes "00ff")) no_fields)

load_organiser_pubkey-reboot_example :
    let (kept, first) =
      load_organiser_pubkey (body (some reply)) (record { file = none; can_write = true }) in
    (first ≡ key (codes "00ff"))
    × (load_organiser_pubkey {F = Unit} unreachable kept ≡ (kept, key (codes "00ff")))
unfolding public_key
load_organiser_pubkey-reboot_example =
    load_organiser_pubkey-reboot reply (codes "00ff") (record { file = none; can_write = true })
      refl refl refl

-- Control-C on a node with an access point.
abbrev ran : List Action
ran = lifecycle true (λ s. false) (λ s. false) interrupted

lifecycle-stopped_example :
    (with_start (stopped ran) ≡ backwards (started ran))
    × (without_start (stopped ran) ≡ backend_proxy ∷ access_point ∷ [])
unfolding unwinds
lifecycle-stopped_example = lifecycle-stopped true (λ s. false) (λ s. false) interrupted refl
