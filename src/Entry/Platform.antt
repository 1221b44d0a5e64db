-- ===== src/Entry/Platform.antt =====
-- Which GATT backend a node gets (node/ble/__init__.py), as the main function asks for one (node/main.py).
use meshlink_node.Prelude.{
  Bool, Option, Text, [], codes, false, if◌then◌else◌, none, or_default, refl, some, true, ◌==◌,
  ◌≡◌, nat_eq, list_eq,
}
use meshlink_node.Config.{nonempty}

pub data GattBackend : Type 0 where
  core_bluetooth : GattBackend
  bluez : GattBackend

-- `create_gatt_server`, with MESHLINK_BLE_BACKEND and whether the platform is darwin; or its ValueError.
unfoldable pub create_gatt_server : Option Text → Bool → Option GattBackend
create_gatt_server env darwin =
    let backend =
      or_default (nonempty env) (if darwin then codes "corebluetooth" else codes "bluez") in
    if backend == codes "corebluetooth"
    then some core_bluetooth
    else if backend == codes "bluez"
    then some bluez
    else none

-- Without the setting the platform decides, and an empty setting is none.
create_gatt_server-unset :
    (darwin : Bool)
    → (create_gatt_server none darwin ≡ some (if darwin then core_bluetooth else bluez))
      × (create_gatt_server (some []) darwin ≡ create_gatt_server none darwin)
unfolding create_gatt_server
create_gatt_server-unset true = (refl, refl)
create_gatt_server-unset false = (refl, refl)
