-- ===== src/Monitoring/Counts.antt =====
-- The counts of phones in a heartbeat (node/monitoring/heartbeat_sender.py).
use meshlink_node.Prelude.{
  All, Bool, List, [], ap, arith, codes, false, length, length-append, refl, some, starts_with,
  true, ◌++◌, ◌+◌, ◌-◌, ◌∷◌, ◌≡◌, nat_eq, list_eq,
}
use meshlink_node.Json.{object, Fields, field_of}
use meshlink_node.Gatt.{Peer}
use meshlink_node.Transport.Wifi.{wifi_peer_prefix, wifi_list_peers}
use meshlink_node.Transport.Ble.{ble_list_peers}
use meshlink_node.Transport.Multi.{MultiTransport, list_peers}
use meshlink_node.Monitoring.Heartbeat.{
  HeartbeatSender, Readings, wifi_peers, phones, count, build_payload,
}

abbrev pub Prefixed : Bool → Peer → Type 0
Prefixed b p = starts_with p wifi_peer_prefix ≡ b

-- A composite's peers: those of BLE, which have no WiFi prefix, then those of WiFi.
wifi_peers-append :
    (bs ws : List Peer)
    → All (Prefixed false) bs
    → All (Prefixed true) ws
    → wifi_peers (bs ++ ws) ≡ ws
unfolding wifi_peers
wifi_peers-append [] [] h k = refl
wifi_peers-append [] (w ∷ ws) h k = rw (k.0, wifi_peers, wifi_peers-append [] ws tt k.1)
wifi_peers-append (b ∷ bs) ws h k = rw (h.0, wifi_peers) (wifi_peers-append bs ws h.1 k)

-- If no BLE peer has the WiFi prefix and every WiFi peer has it, the heartbeat of a node with both
-- transports counts as BLE phones those of BLE, as WiFi phones those of WiFi, and their sum as
-- connected.
pub build_payload-list_peers :
    {F : Type 0} (s : HeartbeatSender) (r : Readings F) (t : MultiTransport)
    → r.peers ≡ list_peers t
    → All (Prefixed false) (ble_list_peers t.ble)
    → All (Prefixed true) (wifi_list_peers t.wifi)
    → let ble = length (ble_list_peers t.ble) in
      let wifi = length (wifi_list_peers t.wifi) in
      (parts : Fields F) × (field_of (build_payload s r) (codes "phones") ≡ some (object parts))
      × (field_of parts (codes "ble_count") ≡ some (count ble))
      × (field_of parts (codes "wifi_count") ≡ some (count wifi))
      × (field_of (build_payload s r) (codes "connected_phone_count") ≡ some (count (ble + wifi)))
unfolding build_payload phones list_peers
build_payload-list_peers s r t e h k =
    let bs = ble_list_peers t.ble in
    let ws = wifi_list_peers t.wifi in
    let split = wifi_peers-append bs ws h k in
    let total = length-append bs ws in
    let left : length (bs ++ ws) - length ws ≡ length bs = omega arith in
    (
      phones r.peers,
      refl,
      rw (e, split) (ap (λ n. some (count n)) left),
      rw (e, split),
      rw (e) (ap (λ n. some (count n)) total),
    )
