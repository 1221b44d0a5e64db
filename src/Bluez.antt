-- ===== src/Bluez.antt =====
-- The BlueZ backend of the GATT server (node/ble/bluez.py): the objects that it exports on D-Bus, and
-- what the methods and signals do. The bus is a service of the system.
pub mod Core
pub mod Delivery
use meshlink_node.Prelude.{
  Bool, Bytes, Dict, List, Option, Text, [], codes, contains, false, if◌then◌else◌, map, none, not,
  or_default, some, true, ◌&&◌, ◌++◌, ◌==◌, ◌∷◌, nat_eq, list_eq,
}
use meshlink_node.Gatt.{
  Peer, GattServer, new_server, Event, handle_chunk, peer_connected, peer_disconnected, send_packet,
}
use meshlink_node.CoreBluetooth.{mesh_service_uuid, rx_char_uuid, tx_char_uuid, ble_local_name}

abbrev app_path : Text
app_path = codes "/com/meshlink/node"

abbrev pub adapter_iface : Text
adapter_iface = codes "org.bluez.Adapter1"

abbrev pub gatt_manager_iface : Text
gatt_manager_iface = codes "org.bluez.GattManager1"

abbrev pub gatt_service_iface : Text
gatt_service_iface = codes "org.bluez.GattService1"

abbrev pub gatt_chrc_iface : Text
gatt_chrc_iface = codes "org.bluez.GattCharacteristic1"

abbrev pub le_ad_manager_iface : Text
le_ad_manager_iface = codes "org.bluez.LEAdvertisingManager1"

abbrev pub le_ad_iface : Text
le_ad_iface = codes "org.bluez.LEAdvertisement1"

-- A D-Bus variant
pub data Variant : Type 0 where
  string : Text → Variant
  strings : List Text → Variant
  object_path : Text → Variant
  truth : Bool → Variant

abbrev advertisement_path : Text
advertisement_path = app_path ++ codes "/advertisement0"

abbrev service_path : Text
service_path = app_path ++ codes "/service0"

unfoldable pub advertisement_properties : Dict Text Variant
advertisement_properties =
    (codes "Type", string (codes "peripheral"))
    ∷ (codes "ServiceUUIDs", strings (mesh_service_uuid ∷ []))
    ∷ (codes "LocalName", string ble_local_name)
    ∷ (codes "Discoverable", truth true)
    ∷ []

pub record Characteristic : Type 0 where
  pub path : Text
  pub uuid : Text
  pub flags : List Text

abbrev pub rx_characteristic : Characteristic
rx_characteristic = record {
  path = service_path ++ codes "/char_rx";
  uuid = rx_char_uuid;
  flags = codes "write" ∷ codes "write-without-response" ∷ [];
}

abbrev pub tx_characteristic : Characteristic
tx_characteristic = record {
  path = service_path ++ codes "/char_tx";
  uuid = tx_char_uuid;
  flags = codes "notify" ∷ [];
}

unfoldable pub characteristic_properties : Characteristic → Dict Text (Dict Text Variant)
characteristic_properties c =
    (
      gatt_chrc_iface,
      (codes "Service", object_path service_path)
          ∷ (codes "UUID", string c.uuid)
          ∷ (codes "Flags", strings c.flags)
          ∷ [],
    )
    ∷ []

unfoldable pub service_properties : Dict Text (Dict Text Variant)
service_properties =
    (
      gatt_service_iface,
      (codes "UUID", string mesh_service_uuid) ∷ (codes "Primary", truth true) ∷ [],
    )
    ∷ []

-- GetAll, of an object whose interface is `own`; the DBusException is `none`.
unfoldable pub get_all : Text → Dict Text Variant → Text → Option (Dict Text Variant)
get_all own properties interface = if not (interface == own) then none else some properties

unfoldable pub get_managed_objects : Dict Text (Dict Text (Dict Text Variant))
unfolding service_properties characteristic_properties
get_managed_objects =
    (service_path, service_properties)
    ∷ (rx_characteristic.path, characteristic_properties rx_characteristic)
    ∷ (tx_characteristic.path, characteristic_properties tx_characteristic)
    ∷ []

pub record Bluez : Type 0 where
  pub server : GattServer
  pub notifying : Bool

abbrev pub new_bluez : Bluez
new_bluez = record { server = new_server; notifying = false }

-- What the backend asks of the bus, and what it hands to the node.
pub data Effect : Type 0 where
  power_on : Text → Effect
  register_application : Text → Text → Effect
  register_advertisement : Text → Text → Effect
  quit_loop : Effect
  properties_changed : Bytes → Effect
  hand : Event → Effect
  value_error : Effect

-- The first adapter with both managers; the RuntimeError is `none`.
unfoldable pub find_adapter : Dict Text (List Text) → Option Text
find_adapter [] = none
find_adapter ((path, ifaces) ∷ objects) =
    let rest = find_adapter objects in
    if contains ifaces gatt_manager_iface && contains ifaces le_ad_manager_iface
    then some path
    else rest

unfoldable pub start : Dict Text (List Text) → Option (List Effect)
unfolding find_adapter
start objects = elim (find_adapter objects) [
  | none ↦ none
  | some adapter ↦ some (
      power_on adapter
      ∷ register_application adapter app_path
      ∷ register_advertisement adapter advertisement_path
      ∷ [])
]

-- `_fatal`, where a registration fails, and `stop`
unfoldable pub stop : List Effect
stop = quit_loop ∷ []

unfoldable pub fatal : List Effect
unfolding stop
fatal = stop

unfoldable pub write_value : Bluez → Bytes → Option Peer → Bluez × List Effect
unfolding handle_chunk
write_value s value device =
    let (server, es) = handle_chunk s.server (or_default device (codes "unknown")) value in
    (record s { server = server }, map hand es)

unfoldable pub start_notify : Bluez → Bluez
start_notify s = record s { notifying = true }

unfoldable pub stop_notify : Bluez → Bluez
stop_notify s = record s { notifying = false }

unfoldable pub notify_chunk : Bluez → Bytes → List Effect
notify_chunk s data' = if not s.notifying then [] else properties_changed data' ∷ []

-- `for chunk in framing.chunk(...): self._notify_chunk(chunk)`
unfoldable pub notify_all : Bluez → List Bytes → List Effect
unfolding notify_chunk
notify_all s [] = []
notify_all s (c ∷ cs) = notify_chunk s c ++ notify_all s cs

unfoldable pub send : Bluez → Peer → Bytes → List Effect
unfolding send_packet notify_all
send s peer packet = elim (send_packet peer packet) [
  | none ↦ value_error ∷ []
  | some chunks ↦ notify_all s chunks
]

-- With what `changed` says under "Connected", and the path
unfoldable pub device_properties_changed : Bluez → Option Bool → Option Peer → Bluez × List Effect
unfolding peer_connected peer_disconnected
device_properties_changed s none path = (s, [])
device_properties_changed s (some connected) none = (s, [])
device_properties_changed s (some connected) (some peer) =
    let (server, es) =
      if connected then peer_connected s.server peer else peer_disconnected s.server peer in
    (record s { server = server }, map hand es)

-- What comes over the bus, and the sends of the node, in their order.
pub data Call : Type 0 where
  writes : Bytes → Option Peer → Call
  starts_notify : Call
  stops_notify : Call
  device_changed : Option Bool → Option Peer → Call
  sends : Peer → Bytes → Call

unfoldable pub step : Bluez → Call → Bluez × List Effect
unfolding write_value start_notify stop_notify device_properties_changed send
step s (writes value device) = write_value s value device
step s starts_notify = (start_notify s, [])
step s stops_notify = (stop_notify s, [])
step s (device_changed connected path) = device_properties_changed s connected path
step s (sends peer packet) = (s, send s peer packet)

unfoldable pub run : Bluez → List Call → Bluez × List Effect
unfolding step
run s [] = (s, [])
run s (c ∷ cs) = let (s', es) = step s c in let (t, fs) = run s' cs in (t, es ++ fs)
