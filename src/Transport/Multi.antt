-- ===== src/Transport/Multi.antt =====
-- The composite of both transports (node/transport/multi_transport.py).
use meshlink_node.Prelude.{Bytes, List, if◌then◌else◌, starts_with, ◌++◌, nat_eq, list_eq}
use meshlink_node.Gatt.{Peer}
use meshlink_node.Transport.Ble.{
  BleTransport, ble_send, ble_list_peers, ble_on_receive, ble_on_connect,
}
use meshlink_node.Transport.Wifi.{
  WifiTransport, wifi_peer_prefix, Sent, wifi_send, wifi_list_peers, wifi_on_receive,
  wifi_on_connect,
}

pub record MultiTransport : Type 0 where
  pub ble : BleTransport
  pub wifi : WifiTransport

-- Which child sends, and what it does.
pub data Routed : Type 0 where
  over_wifi : Sent → Routed
  over_ble : List Bytes → Routed

unfoldable pub send : MultiTransport → Peer → Bytes → Routed
unfolding wifi_send ble_send
send t peer packet =
    if starts_with peer wifi_peer_prefix
    then over_wifi (wifi_send t.wifi peer packet)
    else over_ble (ble_send t.ble peer packet)

unfoldable pub on_receive : MultiTransport → MultiTransport
unfolding ble_on_receive wifi_on_receive
on_receive t = record { ble = ble_on_receive t.ble; wifi = wifi_on_receive t.wifi }

unfoldable pub on_connect : MultiTransport → MultiTransport
unfolding ble_on_connect wifi_on_connect
on_connect t = record { ble = ble_on_connect t.ble; wifi = wifi_on_connect t.wifi }

unfoldable pub list_peers : MultiTransport → List Peer
unfolding ble_list_peers wifi_list_peers
list_peers t = ble_list_peers t.ble ++ wifi_list_peers t.wifi
