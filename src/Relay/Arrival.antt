-- ===== src/Relay/Arrival.antt =====
-- What phones put together from what the node writes on a WiFi connection, and from what it notifies over
-- BLE, while the relay handles a packet (node/relay.py, over node/transport/ and node/ble/). The transport
-- stays as it is meanwhile.
use meshlink_node.Prelude.{
  All, Bool-cases, Bytes, List, [], ap, append-nil, append_assoc, arith, contains, if◌then◌else◌,
  inl, inr, length, refl, repeat, starts_with, suc, sym, true, zero, ℕ, ◌++◌, ◌==◌, ◌∙◌, ◌∷◌, ◌≡◌,
  nat_eq, list_eq,
}
use meshlink_node.Gatt.{Peer}
use meshlink_node.Framing.{FrameAssembler, new_assembler, feed, be16}
use meshlink_node.Framing.Wire.{IsPacket}
use meshlink_node.Framing.Stream.{returned, feed_all, feed_all-wire}
use meshlink_node.Transport.Wifi.{wifi_peer_prefix, written, unknown_peer, raises, wifi_list_peers}
use meshlink_node.Transport.Multi.{MultiTransport, Routed, over_wifi, over_ble, send}
use meshlink_node.Transport.Routing.{Prefixed, send-listed, send-ble}
use meshlink_node.Relay.Parts.{Effect, fan_out}

-- What a send writes on the WiFi connection of its peer.
abbrev pub written_by : Routed → List Bytes
written_by (over_wifi (written conn bytes)) = bytes ∷ []
written_by (over_wifi unknown_peer) = []
written_by (over_wifi raises) = []
written_by (over_ble cs) = []

-- The chunks that a send gives the BLE backend to notify: to every central that is subscribed, whatever
-- peer it names.
abbrev pub notified_by : Routed → List Bytes
notified_by (over_wifi s) = []
notified_by (over_ble cs) = cs

-- What the composite transport writes on a phone's WiFi connection for some packets.
abbrev pub link : MultiTransport → Peer → List Bytes → List Bytes
link t q [] = []
link t q (b ∷ bs) = written_by (send t q b) ++ link t q bs

-- The chunks to notify for the relay's sends.
abbrev pub notices : MultiTransport → List Effect → List Bytes
notices t [] = []
notices t (Effect.send q b ∷ es) = notified_by (send t q b) ++ notices t es
notices t (_ ∷ es) = notices t es

-- The packets that are sent to peers without the WiFi prefix.
abbrev pub ble_sent : List Effect → List Bytes
ble_sent [] = []
ble_sent (Effect.send q b ∷ es) =
    let rest = ble_sent es in if starts_with q wifi_peer_prefix then rest else b ∷ rest
ble_sent (_ ∷ es) = ble_sent es

-- How many BLE peers but one are listed.
abbrev pub ble_listed : Peer → List Peer → ℕ
ble_listed from [] = 0
ble_listed from (x ∷ xs) =
    let rest = ble_listed from xs in
    if x == from then rest else if starts_with x wifi_peer_prefix then rest else suc rest

-- The WiFi transport lists the phone.
abbrev pub OnWifi : MultiTransport → Peer → Type 0
OnWifi t q = contains (wifi_list_peers t.wifi) q ≡ true

-- A packet of at most 460 bytes for a phone.
abbrev pub IsSmallSend : Effect → Type 0
IsSmallSend (Effect.send q b) = IsPacket b
IsSmallSend e = ⊥

pub ble_sent-fan_out :
    (qs : List Peer) (from : Peer) (b : Bytes)
    → ble_sent (fan_out qs from b) ≡ repeat (ble_listed from qs) b
unfolding fan_out
ble_sent-fan_out [] from b = refl
ble_sent-fan_out (x ∷ qs) from b = elim (Bool-cases (x == from)) [
  | inl e ↦ rw (e, ble_sent-fan_out qs from b)
  | inr e ↦ elim (Bool-cases (starts_with x wifi_peer_prefix)) [
    | inl w ↦ rw (e, w, ble_sent-fan_out qs from b)
    | inr w ↦ rw (e, w, ble_sent-fan_out qs from b)
  ]
]

feed_all-append :
    (s : FrameAssembler) (xs ys ps qs : List Bytes) (t u : FrameAssembler)
    → feed_all s xs ≡ (ps, t)
    → feed_all t ys ≡ (qs, u)
    → feed_all s (xs ++ ys) ≡ (ps ++ qs, u)
unfolding feed_all
feed_all-append s [] ys ps qs t u e f =
    let same : t ≡ s = sym (ap (λ q. q.1) e) in
    let empty : ps ≡ [] = sym (ap (λ q. q.0) e) in rw empty (ap (λ a. feed_all a ys) (sym same) ∙ f)
feed_all-append s (c ∷ cs) ys ps qs t u e f =
    let (r, s') = feed s c in
    let (xs, v) = feed_all s' cs in
    let rest =
      feed_all-append s' cs ys xs qs v u refl (ap (λ a. feed_all a ys) (ap (λ q. q.1) e) ∙ f) in
    ap (λ z. (returned r ++ z.0, z.1)) rest
    ∙ ap (λ z. (z, u)) (sym (append_assoc (returned r) xs qs))
    ∙ ap (λ z. (z ++ qs, u)) (ap (λ z. z.0) e)

feed_all-written :
    (t : MultiTransport) (q : Peer) (b : Bytes)
    → Prefixed t.wifi.conns
    → OnWifi t q
    → IsPacket b
    → feed_all new_assembler (written_by (send t q b)) ≡ (b ∷ [], new_assembler)
feed_all-written t q b prefixed on small =
    let (conn, _, e) = send-listed t q b prefixed on (omega arith) in
    rw e (
      feed_all-wire new_assembler ((be16 (length b) ++ b) ∷ []) (b ∷ []) [] (sym (append-nil _))
        (small, tt) tt tt)

pub feed_all-link :
    (t : MultiTransport) (q : Peer) (b : Bytes) (n : ℕ)
    → Prefixed t.wifi.conns
    → OnWifi t q
    → IsPacket b
    → feed_all new_assembler (link t q (repeat n b)) ≡ (repeat n b, new_assembler)
unfolding feed_all
feed_all-link t q b zero prefixed on small = refl
feed_all-link t q b (suc n) prefixed on small =
    feed_all-append new_assembler (written_by (send t q b)) (link t q (repeat n b)) (b ∷ [])
      (repeat n b) new_assembler new_assembler (feed_all-written t q b prefixed on small)
      (feed_all-link t q b n prefixed on small)

-- A central that puts together what is notified has the packets for BLE peers.
pub feed_all-notices :
    (t : MultiTransport) (es : List Effect)
    → All IsSmallSend es
    → feed_all new_assembler (notices t es) ≡ (ble_sent es, new_assembler)
unfolding feed_all send
feed_all-notices t [] h = refl
feed_all-notices t (Effect.send q b ∷ es) h =
    let rest = feed_all-notices t es h.1 in
    elim (Bool-cases (starts_with q wifi_peer_prefix)) [
      | inl w ↦ rw (w, send) rest
      | inr w ↦
          let (cs, e, whole) = send-ble t q b w h.0 in
          rw (e, w)
            (feed_all-append new_assembler cs (notices t es) (b ∷ []) (ble_sent es) new_assembler
              new_assembler whole rest)
    ]
feed_all-notices t (Effect.ping_frame x b ∷ es) h = elim h.0 [ ]
feed_all-notices t (Effect.proxy_frame x b ∷ es) h = elim h.0 [ ]
feed_all-notices t (Effect.forward_to_zone z b ∷ es) h = elim h.0 [ ]
feed_all-notices t (Effect.broadcast_to_all_nodes b ∷ es) h = elim h.0 [ ]
