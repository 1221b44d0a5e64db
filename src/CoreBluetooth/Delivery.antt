-- ===== src/CoreBluetooth/Delivery.antt =====
-- From a packet that the node sends to the packet that a subscribed phone puts together
-- (node/ble/corebluetooth.py, node/ble/base.py, node/ble/framing.py).
use meshlink_node.Prelude.{
  All, Bool, Bytes, List, [], append-nil, arith, concat, concat-append, or_default, refl, repeat,
  sym, true, ℕ, ◌++◌, ◌+◌, ◌∙◌, ◌∷◌, ◌≡◌,
}
use meshlink_node.Framing.{new_assembler}
use meshlink_node.Framing.Wire.{IsPacket, wire}
use meshlink_node.Framing.Stream.{feed_all, feed_all-wire}
use meshlink_node.Gatt.{send_packet}
use meshlink_node.Gatt.Runs.{send_packet-concat}
use meshlink_node.CoreBluetooth.{
  CoreBluetooth, Callback, did_update_state, did_add_service, did_receive_write, did_subscribe,
  did_unsubscribe, is_ready, sends, run,
}
use meshlink_node.CoreBluetooth.Queue.{line, submitted, run-drains}

abbrev pub sent_packets : List Callback → List Bytes
sent_packets [] = []
sent_packets (sends p packet ∷ ks) = packet ∷ sent_packets ks
sent_packets (did_update_state on ∷ ks) = sent_packets ks
sent_packets (did_add_service failed is_advertising ∷ ks) = sent_packets ks
sent_packets (did_receive_write qs ∷ ks) = sent_packets ks
sent_packets (did_subscribe p ∷ ks) = sent_packets ks
sent_packets (did_unsubscribe p ∷ ks) = sent_packets ks
sent_packets (is_ready ∷ ks) = sent_packets ks

submitted-wire :
    (ks : List Callback)
    → All IsPacket (sent_packets ks)
    → concat (submitted true ks) ≡ wire (sent_packets ks)
submitted-wire [] h = refl
submitted-wire (sends p packet ∷ ks) h =
    concat-append (or_default (send_packet p packet) []) (submitted true ks)
    ∙ rw (send_packet-concat p packet (omega arith), submitted-wire ks h.1)
submitted-wire (did_update_state on ∷ ks) h = ground (arith, submitted-wire ks h)
submitted-wire (did_add_service failed is_advertising ∷ ks) h = submitted-wire ks h
submitted-wire (did_receive_write qs ∷ ks) h = submitted-wire ks h
submitted-wire (did_subscribe p ∷ ks) h = submitted-wire ks h
submitted-wire (did_unsubscribe p ∷ ks) h = submitted-wire ks h
submitted-wire (is_ready ∷ ks) h = submitted-wire ks h

-- If the service is registered, nothing was submitted before, and the radio, however often it has
-- been asked, takes a chunk again some time later, then after any callbacks and sends, of packets
-- of at most 460 bytes, and enough calls of IsReadyToUpdateSubscribers, nothing waits, and a phone
-- that puts together what the radio took has exactly the packets that were sent, in order.
pub run-feed_all :
    (accepts : ℕ → Bool) (s : CoreBluetooth) (ks : List Callback)
    → ((n : ℕ) → (m : ℕ) × (accepts (m + n) ≡ true))
    → s.tx_char ≡ true
    → line s ≡ []
    → All IsPacket (sent_packets ks)
    → (k : ℕ) × (let t = (run accepts s (ks ++ repeat k is_ready)).0 in
        (t.pending ≡ [])
        × (feed_all new_assembler t.radio.taken ≡ (sent_packets ks, new_assembler)))
run-feed_all accepts s ks fair on empty small =
    let (k, drained) = run-drains accepts s ks fair in
    let ps = sent_packets ks in
    let stream : concat (submitted true ks) ≡ wire ps ++ [] =
      submitted-wire ks small ∙ sym (append-nil (wire ps)) in
    let read = feed_all-wire new_assembler (submitted true ks) ps [] stream small tt tt in
    (k, (drained.0, rw (drained.1, empty, on) read))
