-- ===== src/CoreBluetooth.antt =====
-- The CoreBluetooth backend of the GATT server (node/ble/corebluetooth.py): the queue of chunks that
-- the radio refused, and what the callbacks of the peripheral manager do. The manager is a service
-- of the system: `accepts n` says whether its n-th updateValue takes the chunk.
pub mod Queue
pub mod Core
pub mod Delivery
use meshlink_node.Prelude.{
  Bool, Bytes, List, Option, Text, [], codes, false, if◌then◌else◌, map, none, not, some, suc, true,
  ℕ, ◌&&◌, ◌++◌, ◌==◌, ◌∷◌, nat_eq, list_eq,
}
use meshlink_node.Gatt.{
  Peer, GattServer, new_server, Event, handle_chunk, peer_connected, peer_disconnected, send_packet,
}

-- MESH_SERVICE_UUID, RX_CHAR_UUID, TX_CHAR_UUID and BLE_LOCAL_NAME of node/config.py
abbrev pub mesh_service_uuid : Text
mesh_service_uuid = codes "4d455348-4c49-4e4b-0001-000000000001"

abbrev pub rx_char_uuid : Text
rx_char_uuid = codes "4d455348-4c49-4e4b-0002-000000000002"

abbrev pub tx_char_uuid : Text
tx_char_uuid = codes "4d455348-4c49-4e4b-0003-000000000003"

abbrev pub ble_local_name : Text
ble_local_name = codes "MeshLink"

-- How often updateValue was called, and the chunks that it took.
pub record Radio : Type 0 where
  pub calls : ℕ
  pub taken : List Bytes

pub record CoreBluetooth : Type 0 where
  pub server : GattServer
  pub manager : Bool
  pub tx_char : Bool
  pub runloop : Bool
  pub pending : List Bytes
  pub radio : Radio

pub record Request : Type 0 where
  pub characteristic : Text
  pub value : Option Bytes
  pub central : Peer

pub data Property : Type 0 where
  write : Property
  write_without_response : Property
  notify : Property

pub data Permission : Type 0 where
  readable : Permission
  writeable : Permission

pub record Characteristic : Type 0 where
  pub uuid : Text
  pub properties : List Property
  pub permission : Permission

-- What the backend asks of the system, what it hands to the node, and what it raises.
pub data Effect : Type 0 where
  create_manager : Effect
  run_loop : Effect
  stop_advertising : Effect
  stop_run_loop : Effect
  add_service : Text → List Characteristic → Effect
  start_advertising : List Text → Text → Effect
  respond : Request → Effect
  hand : Event → Effect
  index_error : Effect
  value_error : Effect

abbrev pub new_core_bluetooth : CoreBluetooth
new_core_bluetooth = record {
  server = new_server;
  manager = false;
  tx_char = false;
  runloop = false;
  pending = [];
  radio = record { calls = 0; taken = [] };
}

unfoldable pub start : CoreBluetooth → CoreBluetooth × List Effect
start s = (record s { manager = true }, create_manager ∷ [])

unfoldable pub run_forever : CoreBluetooth → CoreBluetooth × List Effect
run_forever s = (record s { runloop = true }, run_loop ∷ [])

-- With what `isAdvertising` answers.
unfoldable pub stop : CoreBluetooth → Bool → List Effect
stop s is_advertising =
    (if s.manager && is_advertising then stop_advertising ∷ [] else [])
    ++ (if s.runloop then stop_run_loop ∷ [] else [])

abbrev pub rx : Characteristic
rx = record {
  uuid = rx_char_uuid;
  properties = write ∷ write_without_response ∷ [];
  permission = writeable;
}

abbrev pub tx : Characteristic
tx = record { uuid = tx_char_uuid; properties = notify ∷ []; permission = readable }

unfoldable pub register_service : CoreBluetooth → CoreBluetooth × List Effect
register_service s =
    (record s { tx_char = true }, add_service mesh_service_uuid (rx ∷ tx ∷ []) ∷ [])

unfoldable pub state_changed : CoreBluetooth → Bool → CoreBluetooth × List Effect
unfolding register_service
state_changed s powered_on = if not powered_on then (s, []) else register_service s

unfoldable pub service_added : CoreBluetooth → Bool → Bool → List Effect
unfolding stop
service_added s failed is_advertising =
    if failed
    then stop s is_advertising
    else start_advertising (mesh_service_uuid ∷ []) ble_local_name ∷ []

unfoldable pub handle_request : GattServer → Request → GattServer × List Event
unfolding handle_chunk
handle_request s q =
    if not (q.characteristic == rx_char_uuid)
    then (s, [])
    else elim q.value [ none ↦ (s, []) | some value ↦ handle_chunk s q.central value ]

-- `for request in requests`
unfoldable pub handle_requests : GattServer → List Request → GattServer × List Event
unfolding handle_request
handle_requests s [] = (s, [])
handle_requests s (q ∷ qs) =
    let (s', es) = handle_request s q in let (t, fs) = handle_requests s' qs in (t, es ++ fs)

-- `respondToRequest_withResult_(requests[0], ...)`
unfoldable pub respond_first : List Request → List Effect
respond_first [] = index_error ∷ []
respond_first (q ∷ qs) = respond q ∷ []

unfoldable pub write_requests : CoreBluetooth → List Request → CoreBluetooth × List Effect
unfolding handle_requests respond_first
write_requests s qs =
    let (server, es) = handle_requests s.server qs in
    (record s { server = server }, map hand es ++ respond_first qs)

module _ (accepts : ℕ → Bool) where
  unfoldable pub update_value : Radio → Bytes → Bool × Radio
  update_value r data' =
      let sent = accepts r.calls in
      (
        sent,
        record { calls = suc r.calls; taken = if sent then r.taken ++ data' ∷ [] else r.taken },
      )

  unfoldable pub notify_chunk : CoreBluetooth → Bytes → CoreBluetooth
  unfolding update_value
  notify_chunk s data' = if not s.tx_char then s else elim s.pending [
    | c ∷ cs ↦ record s { pending = s.pending ++ data' ∷ [] }
    | [] ↦
        let (sent, r) = update_value s.radio data' in
        if not sent
        then record s { radio = r; pending = s.pending ++ data' ∷ [] }
        else record s { radio = r }
  ]

  -- `while self._pending`
  unfoldable pub flush : Radio → List Bytes → List Bytes × Radio
  unfolding update_value
  flush r [] = ([], r)
  flush r (c ∷ cs) =
      let (sent, r') = update_value r c in
      let rest = flush r' cs in if not sent then (c ∷ cs, r') else rest

  unfoldable pub flush_pending : CoreBluetooth → CoreBluetooth
  unfolding flush
  flush_pending s =
      let (pending, r) = flush s.radio s.pending in record s { pending = pending; radio = r }

  -- `for chunk in framing.chunk(...): self._notify_chunk(chunk)`
  unfoldable pub notify_all : CoreBluetooth → List Bytes → CoreBluetooth
  notify_all s [] = s
  notify_all s (c ∷ cs) = notify_all (notify_chunk s c) cs

  unfoldable pub send : CoreBluetooth → Peer → Bytes → CoreBluetooth × List Effect
  unfolding send_packet
  send s peer packet = elim (send_packet peer packet) [
    | none ↦ (s, value_error ∷ [])
    | some chunks ↦ (notify_all s chunks, [])
  ]

-- What the delegate is called with, and the sends of the node, in their order.
pub data Callback : Type 0 where
  did_update_state : Bool → Callback
  did_add_service : Bool → Bool → Callback
  did_receive_write : List Request → Callback
  did_subscribe : Peer → Callback
  did_unsubscribe : Peer → Callback
  is_ready : Callback
  sends : Peer → Bytes → Callback

module _ (accepts : ℕ → Bool) where
  unfoldable pub step : CoreBluetooth → Callback → CoreBluetooth × List Effect
  unfolding peer_connected peer_disconnected
  step s (did_update_state powered_on) = state_changed s powered_on
  step s (did_add_service failed is_advertising) = (s, service_added s failed is_advertising)
  step s (did_receive_write qs) = write_requests s qs
  step s (did_subscribe p) =
      let (server, es) = peer_connected s.server p in (record s { server = server }, map hand es)
  step s (did_unsubscribe p) =
      let (server, es) = peer_disconnected s.server p in (record s { server = server }, map hand es)
  step s is_ready = (flush_pending accepts s, [])
  step s (sends p packet) = send accepts s p packet

  unfoldable pub run : CoreBluetooth → List Callback → CoreBluetooth × List Effect
  run s [] = (s, [])
  run s (c ∷ cs) = let (s', es) = step s c in let (t, fs) = run s' cs in (t, es ++ fs)
