-- ===== src/Examples/Journeys.antt =====
-- Transports with a phone on them, and packets for it (node/transport/).
use meshlink_node.Prelude.{Bytes, List, [], codes, suc, true, zero, ℕ, ◌∷◌}
use meshlink_node.Gatt.{new_server}
use meshlink_node.Transport.Ble.{new_ble}
use meshlink_node.Transport.Wifi.{new_wifi}
use meshlink_node.Transport.Multi.{MultiTransport}
use meshlink_node.Transport.Routing.{
  WifiOp, hooks_receive, hooks_connect, starts, accepts, wifi_run, Prefixed, wifi_run-Prefixed,
  no_conns-Prefixed,
}

-- Some zeros, and then a ttl of 3 and a spray_l of 8.
abbrev pub tail : ℕ → Bytes
tail zero = 3 ∷ 8 ∷ []
tail (suc n) = 0 ∷ tail n

abbrev history : List WifiOp
history = hooks_connect ∷ hooks_receive ∷ starts true ∷ accepts 4 (codes "h") (codes "1") ∷ []

-- Two phones over BLE, and one over WiFi
abbrev pub both : MultiTransport
both = record {
  ble = new_ble (record new_server { connected = codes "P1" ∷ codes "P2" ∷ [] });
  wifi = wifi_run new_wifi history;
}

pub both-Prefixed : Prefixed both.wifi.conns
both-Prefixed = wifi_run-Prefixed new_wifi history no_conns-Prefixed
