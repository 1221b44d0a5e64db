-- ===== src/Examples/Backends.antt =====
-- Backends that send and receive (node/ble/corebluetooth.py, node/ble/bluez.py).
use meshlink_node.Prelude.{
  Bool, Bool-cases, List, [], arith, codes, false, inl, inr, none, refl, repeat, some, true, ℕ, ◌%◌,
  ◌++◌, ◌+◌, ◌==◌, ◌∷◌, ◌≡◌, nat_eq, list_eq,
}
use meshlink_node.Framing.{new_assembler}
use meshlink_node.Framing.Stream.{feed_all}
use meshlink_node.Gatt.{Peer}
use meshlink_node.Gatt
use meshlink_node.CoreBluetooth.{
  CoreBluetooth, new_core_bluetooth, Callback, did_receive_write, did_subscribe, is_ready, sends,
  rx_char_uuid,
}
use meshlink_node.CoreBluetooth
use meshlink_node.CoreBluetooth.Queue.{line, run-line}
use meshlink_node.CoreBluetooth.Core.{events, run-core}
use meshlink_node.CoreBluetooth.Delivery.{run-feed_all}
use meshlink_node.Bluez.{
  Bluez, new_bluez, Call, starts_notify, stops_notify, writes, device_changed,
}
use meshlink_node.Bluez
use meshlink_node.Bluez.Core.{notified, gather}
use meshlink_node.Bluez.Delivery.{notified-feed_all}

abbrev cat : Peer
cat = codes "cat"

-- The radio refuses its first chunk, and every other one.
abbrev every_other : ℕ → Bool
every_other n = n % 2 == 1

every_other-fair : (n : ℕ) → (m : ℕ) × (every_other (m + n) ≡ true)
every_other-fair n = elim (Bool-cases (n % 2 == 1)) [
  | inl e ↦ (0, ground arith)
  | inr e ↦ (1, ground arith)
]

abbrev registered : CoreBluetooth
registered = record new_core_bluetooth { manager = true; tx_char = true }

abbrev busy : List Callback
busy =
    sends cat (7 ∷ 8 ∷ [])
    ∷ did_receive_write (
        record { characteristic = rx_char_uuid; value = some (0 ∷ 1 ∷ 9 ∷ []); central = cat } ∷ [])
    ∷ sends cat (9 ∷ [])
    ∷ is_ready
    ∷ did_subscribe cat
    ∷ []

run-feed_all_example :
    (k : ℕ) × (let t = (CoreBluetooth.run every_other registered (busy ++ repeat k is_ready)).0 in
      (t.pending ≡ [])
      × (feed_all new_assembler t.radio.taken ≡ ((7 ∷ 8 ∷ []) ∷ (9 ∷ []) ∷ [], new_assembler)))
run-feed_all_example =
    run-feed_all every_other registered busy every_other-fair refl refl
      (omega arith, (omega arith, tt))

run-line_example :
    line (CoreBluetooth.run every_other registered busy).0
    ≡ (0 ∷ 2 ∷ 7 ∷ 8 ∷ []) ∷ (0 ∷ 1 ∷ 9 ∷ []) ∷ []
unfolding Gatt.send_packet meshlink_node.Framing.frame meshlink_node.Framing.chunk
run-line_example = run-line every_other registered busy

run-core_example :
    (
      (CoreBluetooth.run every_other registered busy).0.server,
      events (CoreBluetooth.run every_other registered busy).1,
    )
    ≡ Gatt.run registered.server (Gatt.chunk_of cat (0 ∷ 1 ∷ 9 ∷ []) ∷ Gatt.connects cat ∷ [])
run-core_example = run-core every_other registered busy

-- A packet that is sent before a central subscribes is not heard.
abbrev calls : List Call
calls =
    Bluez.sends cat (1 ∷ [])
    ∷ starts_notify
    ∷ Bluez.sends cat (2 ∷ 3 ∷ [])
    ∷ writes (5 ∷ []) none
    ∷ device_changed (some false) (some cat)
    ∷ Bluez.sends cat (4 ∷ [])
    ∷ stops_notify
    ∷ Bluez.sends cat (6 ∷ [])
    ∷ []

notified-feed_all_example :
    feed_all new_assembler (gather notified (Bluez.run new_bluez calls).1)
    ≡ ((2 ∷ 3 ∷ []) ∷ (4 ∷ []) ∷ [], new_assembler)
notified-feed_all_example = notified-feed_all new_bluez calls (omega arith, (omega arith, tt))
