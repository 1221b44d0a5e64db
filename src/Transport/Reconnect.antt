-- ===== src/Transport/Reconnect.antt =====
-- A phone that comes again from the same address before its earlier connection is closed
-- (node/transport/wifi_transport.py).
use meshlink_node.Prelude.{
  Bytes, Text, [], ap, arith, beq_refl, false, get, get-put, get-remove, none, put, refl, some, sym,
  true, ℕ, ◌==◌, ◌∙◌, ◌∷◌, ◌≡◌, nat_eq, list_eq,
}
use meshlink_node.Framing.{FrameAssembler, new_assembler, Fed, packets, corrupt, feed}
use meshlink_node.Gatt.{Peer}
use meshlink_node.Transport.Wifi.{
  Recv, data_in, recv_fails, accept, reader_done, unknown_peer, wifi_send, wifi_peer,
}
use meshlink_node.Transport.Routing.{wifi_send-absent}
use meshlink_node.Transport.Sockets.{Reader, Sockets, accepted, closed, fed, turn, read}

-- The state with a connection and its thread.
abbrev made : Sockets → ℕ → Peer → Sockets
made s conn peer = record {
  wifi = record s.wifi { conns = put s.wifi.conns peer conn };
  readers = put s.readers conn (record { peer = peer; assembler = new_assembler });
}

accepted-running :
    (s : Sockets) (conn : ℕ) (host port : Text)
    → s.wifi.running ≡ true
    → (accepted s conn host port).0 ≡ made s conn (wifi_peer host port)
unfolding accepted accept
accepted-running s conn host port up = rw (up, accepted, accept)

module _ (max_packet : ℕ) where
  fed-calls :
      (s s' : Sockets) (conn : ℕ) (peer : Peer) (y : Fed × FrameAssembler)
      → s.wifi.callback ≡ s'.wifi.callback
      → (fed max_packet s conn peer y).1 ≡ (fed max_packet s' conn peer y).1
  unfolding fed
  fed-calls s s' conn peer (corrupt len, a) e = refl
  fed-calls s s' conn peer (packets ps, a) e = rw (e)

  -- What a thread hands on depends on its reader and on the callback only.
  turn-calls :
      (s s' : Sockets) (conn : ℕ) (r : Reader) (x : Recv)
      → s.wifi.callback ≡ s'.wifi.callback
      → (turn max_packet s conn (some r) x).1 ≡ (turn max_packet s' conn (some r) x).1
  unfolding turn
  turn-calls s s' conn r recv_fails e = refl
  turn-calls s s' conn r (data_in []) e = refl
  turn-calls s s' conn r (data_in (b ∷ bs)) e =
      fed-calls s s' conn r.peer (feed r.assembler (b ∷ bs)) e

  -- The end of one connection's thread, seen from a later connection of the same peer.
  read-fails :
      (s : Sockets) (old new : ℕ) (r r' : Reader) (x : Recv)
      → (old == new) ≡ false
      → get s.readers old ≡ some r
      → get s.readers new ≡ some r'
      → let after = (read max_packet s old recv_fails).0 in
        (get after.wifi.conns r.peer ≡ none)
        × ((read max_packet after new x).1 ≡ (read max_packet s new x).1)
  unfolding turn closed reader_done
  read-fails s old new r r' x other e f =
      let s' = closed s old r.peer in
      let ended : (read max_packet s old recv_fails).0 ≡ s' = rw e refl in
      let kept : get s'.readers new ≡ some r' = get-remove s.readers old new ∙ rw other f in
      rw ended (
        get-remove s.wifi.conns r.peer r.peer ∙ rw (beq_refl r.peer) refl,
        ap (λ o. (turn max_packet s' new o x).1) kept
            ∙ turn-calls s' s new r' x refl
            ∙ sym (ap (λ o. (turn max_packet s new o x).1) f),
      )

  -- On a running WiFi transport, a phone's connection is accepted, and then another one from the
  -- same address and port, which is the one that is filed. When the thread of the earlier one then
  -- ends on an OSError, the later connection is no longer filed, a packet to the phone is sent to
  -- nobody, and yet whatever the later connection's thread reads next is handed on as before.
  pub read-reconnected :
      (s : Sockets) (old new : ℕ) (host port : Text) (packet : Bytes) (x : Recv)
      → s.wifi.running ≡ true
      → (old == new) ≡ false
      → let peer = wifi_peer host port in
        let before = (accepted (accepted s old host port).0 new host port).0 in
        let after = (read max_packet before old recv_fails).0 in
        (get before.wifi.conns peer ≡ some new)
        × (get after.wifi.conns peer ≡ none)
        × (wifi_send after.wifi peer packet ≡ unknown_peer)
        × ((read max_packet after new x).1 ≡ (read max_packet before new x).1)
  read-reconnected s old new host port packet x up other =
      let peer = wifi_peer host port in
      let r : Reader = record { peer = peer; assembler = new_assembler } in
      let first = accepted-running s old host port up in
      let s₁ : Sockets = made s old peer in
      let second : (accepted (accepted s old host port).0 new host port).0 ≡ made s₁ new peer =
        ap (λ z. (accepted z new host port).0) first ∙ accepted-running s₁ new host port up in
      let s₂ : Sockets = made s₁ new peer in
      let swapped : (new == old) ≡ false = ground arith in
      let has_old : get s₂.readers old ≡ some r =
        get-put s₁.readers new old r
        ∙ rw (swapped) (get-put s.readers old old r ∙ rw (beq_refl old) refl) in
      let has_new : get s₂.readers new ≡ some r =
        get-put s₁.readers new new r ∙ rw (beq_refl new) refl in
      let (gone, same) = read-fails s₂ old new r r x other has_old has_new in
      rw second (
        get-put s₁.wifi.conns peer peer new ∙ rw (beq_refl peer) refl,
        gone,
        wifi_send-absent (read max_packet s₂ old recv_fails).0.wifi peer packet gone,
        same,
      )
