-- ===== src/Transport/Routing.antt =====
-- Which transport a packet to a listed peer leaves over (node/transport/).
use meshlink_node.Prelude.{
  Bool, Bool-cases, Bytes, Dict, List, Option, Option-cases, Text, [], arith, beq_eq, codes,
  contains, contains-keys, false, get, get-put, get-remove, inl, inr, leb, length, none, put, refl,
  remove, some, starts_with, starts_with-append, subst, sym, true, ℕ, ◌++◌, ◌<◌, ◌==◌, ◌∙◌, ◌∷◌,
  ◌≡◌, ◌≤◌, ◌⊎◌, nat_eq, list_eq,
}
use meshlink_node.Gatt.{send_packet, Peer}
use meshlink_node.Framing.{be16, new_assembler, frame}
use meshlink_node.Framing.Stream.{feed_all}
use meshlink_node.Gatt.Peers.{send_packet-feed_all}
use meshlink_node.Framing.Wire.{IsPacket}
use meshlink_node.Framing.Chunks.{frame_lem}
use meshlink_node.Transport.Ble.{ble_send}
use meshlink_node.Transport.Wifi.{
  WifiTransport, new_wifi, wifi_peer_prefix, start, stop, accept, reader_done, raises, unknown_peer,
  written, wifi_send, wifi_peer, wifi_list_peers, wifi_on_receive, wifi_on_connect,
}
use meshlink_node.Transport.Multi.{MultiTransport, over_wifi, over_ble, send}

-- What happens to a WiFi transport.
pub data WifiOp : Type 0 where
  starts : Bool → WifiOp
  stops : WifiOp
  accepts : ℕ → Text → Text → WifiOp
  reader_ends : Peer → WifiOp
  hooks_receive : WifiOp
  hooks_connect : WifiOp

unfoldable pub wifi_step : WifiTransport → WifiOp → WifiTransport
wifi_step t (starts bound) = start t bound
wifi_step t stops = (stop t).0
wifi_step t (accepts conn host port) = (accept t conn host port).0
wifi_step t (reader_ends peer) = reader_done t peer
wifi_step t hooks_receive = wifi_on_receive t
wifi_step t hooks_connect = wifi_on_connect t

unfoldable pub wifi_run : WifiTransport → List WifiOp → WifiTransport
wifi_run t [] = t
wifi_run t (op ∷ ops) = wifi_run (wifi_step t op) ops

-- Every connection is filed under a peer id with the WiFi prefix.
abbrev pub Prefixed : Dict Peer ℕ → Type 0
Prefixed d = (p : Peer) (conn : ℕ) → get d p ≡ some conn → starts_with p wifi_peer_prefix ≡ true

put-Prefixed :
    (d : Dict Peer ℕ) (host port : Text) (conn : ℕ)
    → Prefixed d
    → Prefixed (put d (wifi_peer host port) conn)
put-Prefixed d host port conn h p c e = elim (Bool-cases (wifi_peer host port == p)) [
  | inl same ↦
      subst (λ q. starts_with q wifi_peer_prefix ≡ true) (beq_eq (wifi_peer host port) p same)
        (starts_with-append wifi_peer_prefix (host ++ codes ":" ++ port))
  | inr other ↦ h p c (sym (get-put d (wifi_peer host port) p conn ∙ rw other refl) ∙ e)
]

remove-Prefixed : (d : Dict Peer ℕ) (q : Peer) → Prefixed d → Prefixed (remove d q)
remove-Prefixed d q h p c e = elim (Bool-cases (q == p)) [
  | inl same ↦ absurd (none_not_some c (sym (get-remove d q p ∙ rw same refl) ∙ e))
  | inr other ↦ h p c (sym (get-remove d q p ∙ rw other refl) ∙ e)
]
  where
    none_not_some : (a : ℕ) → ◌≡◌ {A = Option ℕ} none (some a) → ⊥
    none_not_some a x = cc

pub wifi_step-Prefixed :
    (t : WifiTransport) (op : WifiOp) → Prefixed t.conns → Prefixed (wifi_step t op).conns
unfolding wifi_step start stop accept reader_done wifi_on_receive wifi_on_connect get
wifi_step-Prefixed t (starts bound) h = elim (Bool-cases t.running) [
  | inl e ↦ rw (e, wifi_step, start) h
  | inr e ↦ elim (Bool-cases bound) [
    | inl b ↦ rw (e, wifi_step, start, b) h
    | inr b ↦ rw (e, wifi_step, start, b) h
  ]
]
wifi_step-Prefixed t stops h = λ p c e. cc
wifi_step-Prefixed t (accepts conn host port) h = elim (Bool-cases t.running) [
  | inl e ↦ rw (e, wifi_step, accept) (put-Prefixed t.conns host port conn h)
  | inr e ↦ rw (e, wifi_step, accept) h
]
wifi_step-Prefixed t (reader_ends peer) h = remove-Prefixed t.conns peer h
wifi_step-Prefixed t hooks_receive h = h
wifi_step-Prefixed t hooks_connect h = h

pub wifi_run-Prefixed :
    (t : WifiTransport) (ops : List WifiOp) → Prefixed t.conns → Prefixed (wifi_run t ops).conns
unfolding wifi_run
wifi_run-Prefixed t [] h = h
wifi_run-Prefixed t (op ∷ ops) h =
    wifi_run-Prefixed (wifi_step t op) ops (wifi_step-Prefixed t op h)

pub no_conns-Prefixed : Prefixed new_wifi.conns
unfolding get
no_conns-Prefixed p c e = cc

not_both : false ≡ true → ⊥
not_both e = cc

pub wifi_send-absent :
    (t : WifiTransport) (peer : Peer) (packet : Bytes)
    → get t.conns peer ≡ none
    → wifi_send t peer packet ≡ unknown_peer
unfolding wifi_send
wifi_send-absent t peer packet e = rw (e, wifi_send)

-- A packet of at most 65535 bytes that the composite sends to a peer which the WiFi transport lists goes
-- out framed on that peer's connection.
pub send-listed :
    (t : MultiTransport) (peer : Peer) (packet : Bytes)
    → Prefixed t.wifi.conns
    → contains (wifi_list_peers t.wifi) peer ≡ true
    → length packet ≤ 65535
    → (conn : ℕ) × (get t.wifi.conns peer ≡ some conn)
      × (send t peer packet ≡ over_wifi (written conn (be16 (length packet) ++ packet)))
unfolding send wifi_send wifi_list_peers
send-listed t peer packet h listed small = elim (Option-cases (get t.wifi.conns peer)) [
  | inl e ↦ absurd (not_both (sym (contains-keys t.wifi.conns peer ∙ rw e refl) ∙ listed))
  | inr (conn, e) ↦ (conn, e, rw (h peer conn e, send, wifi_send, e, frame_lem packet small))
]

-- A peer without the prefix is a BLE peer.
pub send-ble :
    (t : MultiTransport) (peer : Peer) (packet : Bytes)
    → starts_with peer wifi_peer_prefix ≡ false
    → IsPacket packet
    → (cs : List Bytes) × (send t peer packet ≡ over_ble cs)
      × (feed_all new_assembler cs ≡ (packet ∷ [], new_assembler))
unfolding send ble_send
send-ble t peer packet plain small =
    let (cs, e, fits, whole) = send_packet-feed_all peer packet small in
    (cs, rw (plain, send, e), whole)

-- A packet of more than 65535 bytes reaches nobody: over BLE nothing is notified, over WiFi the
-- call raises or knows no such peer.
pub send-oversize :
    (t : MultiTransport) (peer : Peer) (packet : Bytes)
    → 65535 < length packet
    → (send t peer packet ≡ over_ble [])
      ⊎ (send t peer packet ≡ over_wifi raises)
      ⊎ (send t peer packet ≡ over_wifi unknown_peer)
unfolding send wifi_send ble_send send_packet frame
send-oversize t peer packet big =
    let none' : frame packet ≡ none = rw (not-leb (length packet) big) in
    elim (Bool-cases (starts_with peer wifi_peer_prefix)) [
      | inr plain ↦ inl (rw (plain, send, ble_send, send_packet, none'))
      | inl wifi ↦ elim (Option-cases (get t.wifi.conns peer)) [
        | inl e ↦ inr (inr (rw (wifi, send, wifi_send, e)))
        | inr (conn, e) ↦ inr (inl (rw (wifi, send, wifi_send, e, none')))
      ]
    ]
  where
    not-leb : (n : ℕ) → 65535 < n → leb n 65535 ≡ false
    not-leb n h = ground arith
