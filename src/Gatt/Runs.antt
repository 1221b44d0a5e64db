-- ===== src/Gatt/Runs.antt =====
-- What the backends use of the core (node/ble/base.py): runs in two parts, and the bytes of a packet
-- that is sent.
use meshlink_node.Prelude.{
  Bytes, List, [], ap, append_assoc, arith, concat, length, or_default, refl, sym, ◌++◌, ◌∷◌, ◌≡◌,
  ◌≤◌, nat_eq, list_eq,
}
use meshlink_node.Framing.{be16}
use meshlink_node.Framing.Chunks.{chunk_lem, frame_lem}
use meshlink_node.Gatt.{Peer, GattServer, Input, send_packet}
use meshlink_node.Gatt

pub run-append :
    (s : GattServer) (is js : List Input)
    → Gatt.run s (is ++ js)
      ≡ (let (t, es) = Gatt.run s is in let (u, fs) = Gatt.run t js in (u, es ++ fs))
unfolding Gatt.run
run-append s [] js = refl
run-append s (i ∷ is) js =
    let (t, es) = Gatt.step s i in
    let r = Gatt.run t is in
    rw (run-append t is js)
      (ap (λ e. ((Gatt.run r.0 js).0, e)) (sym (append_assoc es r.1 (Gatt.run r.0 js).1)))

pub send_packet-concat :
    (p : Peer) (packet : Bytes)
    → length packet ≤ 65535
    → concat (or_default (send_packet p packet) []) ≡ be16 (length packet) ++ packet
unfolding send_packet
send_packet-concat p packet h =
    let made = frame_lem packet h in
    let (cs, e, whole, fits) = chunk_lem (be16 (length packet) ++ packet) 180 (omega arith) in
    rw (made, send_packet, e) whole
