-- ===== src/Bluez/Delivery.antt =====
-- From a packet that the node sends to the packet that a subscribed phone puts together
-- (node/ble/bluez.py, node/ble/base.py, node/ble/framing.py).
use meshlink_node.Prelude.{
  All, Bool, Bytes, List, Option-cases, [], ap, append-nil, append_assoc, arith, codes, concat,
  concat-append, false, if◌then◌else◌, inl, inr, length, none, or_default, refl, some, subst, sym,
  true, ◌++◌, ◌∙◌, ◌∷◌, ◌≡◌, nat_eq, list_eq,
}
use meshlink_node.Framing.{be16, new_assembler}
use meshlink_node.Framing.Wire.{IsPacket, wire}
use meshlink_node.Framing.Stream.{All-left, All-right, feed_all, feed_all-wire}
use meshlink_node.Gatt.{Peer, send_packet, peer_connected, peer_disconnected, handle_chunk}
use meshlink_node.Gatt.Runs.{send_packet-concat}
use meshlink_node.Bluez.{
  Bluez, Call, writes, starts_notify, stops_notify, device_changed, sends, step, run, send,
  write_value, start_notify, stop_notify, device_properties_changed,
}
use meshlink_node.Bluez.Core.{
  notified, gather, gather-append, gather-hand_silent, notify_all-effects,
}

-- The packets that are sent while a central has asked for notifications.
abbrev pub heard : Bool → List Call → List Bytes
heard on [] = []
heard on (starts_notify ∷ ks) = heard true ks
heard on (stops_notify ∷ ks) = heard false ks
heard on (sends p packet ∷ ks) = (if on then packet ∷ [] else []) ++ heard on ks
heard on (writes value device ∷ ks) = heard on ks
heard on (device_changed connected path ∷ ks) = heard on ks

send-notified :
    (s : Bluez) (p : Peer) (packet : Bytes)
    → gather notified (send s p packet)
      ≡ (if s.notifying then or_default (send_packet p packet) [] else [])
unfolding send
send-notified s p packet = elim (Option-cases (send_packet p packet)) [
  | inl e ↦ rw (e, send) (ground arith)
  | inr (cs, e) ↦ rw (e, send) (notify_all-effects s cs).1
]

heard-wire :
    (on : Bool) (p : Peer) (packet : Bytes)
    → All IsPacket (heard on (sends p packet ∷ []))
    → concat (if on then or_default (send_packet p packet) [] else [])
      ≡ wire (heard on (sends p packet ∷ []))
heard-wire true p packet h =
    send_packet-concat p packet (omega arith) ∙ sym (append-nil (be16 (length packet) ++ packet))
heard-wire false p packet h = refl

step-notified :
    (s : Bluez) (k : Call)
    → All IsPacket (heard s.notifying (k ∷ []))
    → concat (gather notified (step s k).1) ≡ wire (heard s.notifying (k ∷ []))
unfolding step write_value device_properties_changed send
step-notified s (writes value device) h =
    rw (gather-hand_silent (handle_chunk s.server (or_default device (codes "unknown")) value).1)
step-notified s starts_notify h = refl
step-notified s stops_notify h = refl
step-notified s (device_changed none path) h = refl
step-notified s (device_changed (some connected) none) h = refl
step-notified s (device_changed (some true) (some p)) h =
    rw (gather-hand_silent (peer_connected s.server p).1)
step-notified s (device_changed (some false) (some p)) h =
    rw (gather-hand_silent (peer_disconnected s.server p).1)
step-notified s (sends p packet) h =
    ap concat (send-notified s p packet) ∙ heard-wire s.notifying p packet h

heard-step :
    (s : Bluez) (k : Call) (ks : List Call)
    → heard s.notifying (k ∷ ks) ≡ heard s.notifying (k ∷ []) ++ heard (step s k).0.notifying ks
unfolding step write_value device_properties_changed start_notify stop_notify
heard-step s (writes value device) ks = refl
heard-step s starts_notify ks = refl
heard-step s stops_notify ks = refl
heard-step s (device_changed none path) ks = refl
heard-step s (device_changed (some connected) none) ks = refl
heard-step s (device_changed (some true) (some p)) ks = refl
heard-step s (device_changed (some false) (some p)) ks = refl
heard-step s (sends p packet) ks = rw (append-nil (if s.notifying then packet ∷ [] else []))

wire-append : (ps qs : List Bytes) → wire (ps ++ qs) ≡ wire ps ++ wire qs
wire-append [] qs = refl
wire-append (p ∷ ps) qs =
    ap (λ x. (be16 (length p) ++ p) ++ x) (wire-append ps qs)
    ∙ sym (append_assoc (be16 (length p) ++ p) (wire ps) (wire qs))

run-wire :
    (s : Bluez) (ks : List Call)
    → All IsPacket (heard s.notifying ks)
    → concat (gather notified (run s ks).1) ≡ wire (heard s.notifying ks)
unfolding run
run-wire s [] h = refl
run-wire s (k ∷ ks) h =
    let (s', es) = step s k in
    let now = heard s.notifying (k ∷ []) in
    let later = heard s'.notifying ks in
    let parts = subst (All IsPacket) (heard-step s k ks) h in
    rw
      (
        gather-append notified es (run s' ks).1,
        concat-append (gather notified es) (gather notified (run s' ks).1),
        step-notified s k (All-left IsPacket now later parts),
        run-wire s' ks (All-right IsPacket now later parts),
        heard-step s k ks,
      )
      (sym (wire-append now later))

-- Over any sequence of calls and sends, a phone that puts together all notifications has exactly
-- the packets that were sent while notifications were on, in order, if these have at most 460
-- bytes.
pub notified-feed_all :
    (s : Bluez) (ks : List Call)
    → All IsPacket (heard s.notifying ks)
    → feed_all new_assembler (gather notified (run s ks).1) ≡ (heard s.notifying ks, new_assembler)
notified-feed_all s ks h =
    let ps = heard s.notifying ks in
    feed_all-wire new_assembler (gather notified (run s ks).1) ps []
      (run-wire s ks h ∙ sym (append-nil (wire ps))) h tt tt
