-- ===== src/Transport/Readers.antt =====
-- What reaches the relay from a phone's connection or from a central (node/transport/).
use meshlink_node.Prelude.{
  All, Bool, Bool-cases, Bytes, List, [], ap, append-nil, append_assoc, arith, concat, get,
  if◌then◌else◌, inl, inr, map, none, refl, subst, sym, true, ℕ, ◌++◌, ◌==◌, ◌∙◌, ◌∷◌, ◌≡◌, nat_eq,
  list_eq,
}
use meshlink_node.Gatt.{Peer, Event, packet_in, peer_up, peer_down, Input, run}
use meshlink_node.Gatt.Streams.{packets_of, chunks_of, Stays, run-wire}
use meshlink_node.Framing.{FrameAssembler, new_assembler, packets, corrupt, feed}
use meshlink_node.Framing.Wire.{IsPacket, wire, IsPartial, IsCorrupt, feed-wire, feed-corrupt}
use meshlink_node.Framing.Stream.{cut, uncut, All-left, All-right}
use meshlink_node.Transport.Ble.{
  BleTransport, Call, received, connected, gate, dispatch, on_event, on_events, ble_run,
}
use meshlink_node.Transport.Wifi.{
  WifiTransport, Recv, data_in, dispatch_all, read_on, read_loop, reader, reader_done,
}

-- The packets that pass the gate.
abbrev pub passed : ℕ → List Bytes → List Bytes
passed m [] = []
passed m (b ∷ bs) = if gate m b then b ∷ passed m bs else passed m bs

dispatch_all-append :
    (m : ℕ) (set : Bool) (p : Peer) (xs ys : List Bytes)
    → dispatch_all m set p (xs ++ ys) ≡ dispatch_all m set p xs ++ dispatch_all m set p ys
unfolding dispatch_all
dispatch_all-append m set p [] ys = refl
dispatch_all-append m set p (x ∷ xs) ys =
    ap (◌++◌ (dispatch m set p x)) (dispatch_all-append m set p xs ys)
    ∙ sym (append_assoc (dispatch m set p x) (dispatch_all m set p xs) (dispatch_all m set p ys))

pub dispatch_all-passed :
    (m : ℕ) (p : Peer) (ps : List Bytes) → dispatch_all m true p ps ≡ map (received p) (passed m ps)
unfolding dispatch_all dispatch
dispatch_all-passed m p [] = refl
dispatch_all-passed m p (b ∷ bs) = elim (Bool-cases (gate m b)) [
  | inl e ↦ rw (e, dispatch_all-passed m p bs)
  | inr e ↦ rw (e, dispatch_all-passed m p bs)
]

abbrev pub NonEmpty : Bytes → Type 0
NonEmpty [] = ⊥
NonEmpty (b ∷ bs) = Unit

module _ (m : ℕ) (set : Bool) (p : Peer) where
  read_loop-chunk :
      (a a' : FrameAssembler) (c : Bytes) (ps : List Bytes) (rs : List Recv)
      → NonEmpty c
      → feed a c ≡ (packets ps, a')
      → read_loop m set p a (data_in c ∷ rs)
        ≡ (dispatch_all m set p ps ++ (read_loop m set p a' rs).0, (read_loop m set p a' rs).1)
  unfolding read_loop read_on
  read_loop-chunk a a' [] ps rs n e = elim n [ ]
  read_loop-chunk a a' (b ∷ bs) ps rs n e = rw e

  read_loop-bad :
      (a a' : FrameAssembler) (c : Bytes) (n : ℕ) (rs : List Recv)
      → NonEmpty c
      → feed a c ≡ (corrupt n, a')
      → read_loop m set p a (data_in c ∷ rs) ≡ ([], true)
  unfolding read_loop read_on
  read_loop-bad a a' [] n rs ne e = elim ne [ ]
  read_loop-bad a a' (b ∷ bs) n rs ne e = rw e

  -- A stream of frames, cut in any way, and then whatever else the socket gives.
  pub read_loop-wire :
      (a : FrameAssembler) (cs ps : List Bytes) (r : Bytes) (rs : List Recv)
      → a.buf ++ concat cs ≡ wire ps ++ r
      → All IsPacket ps
      → IsPartial r
      → IsPartial a.buf
      → All NonEmpty cs
      → let rest = read_loop m set p (record { buf = r }) rs in
        read_loop m set p a (map data_in cs ++ rs) ≡ (dispatch_all m set p ps ++ rest.0, rest.1)
  unfolding dispatch_all
  read_loop-wire a [] ps r rs e h k start n =
      let (q, b) = uncut a.buf ps r (sym (append-nil a.buf) ∙ e) h start in
      rw q (λ i. read_loop m set p (record { buf = b i }) rs)
  read_loop-wire a (c ∷ cs) ps r rs e h k start n =
      let d = cut (a.buf ++ c) (concat cs) ps r (append_assoc a.buf c (concat cs) ∙ e) h k in
      let split = subst (All IsPacket) d.all_packets h in
      let opened : FrameAssembler = record { buf = d.open_frame } in
      let now =
        feed-wire a c d.first d.open_frame d.left (All-left IsPacket d.first d.later split)
          d.starts in
      let rest =
        read_loop-wire opened cs d.later r rs d.right (All-right IsPacket d.first d.later split) k
          d.starts n.1 in
      let here = read_loop-chunk a opened c d.first (map data_in cs ++ rs) n.0 now in
      let both = dispatch_all-append m set p d.first d.later in
      let x = read_loop m set p (record { buf = r }) rs in
      here
      ∙ ap (λ (y : List Call × Bool). (dispatch_all m set p d.first ++ y.0, y.1)) rest
      ∙ ap (λ l. (l, x.1))
          (sym (append_assoc (dispatch_all m set p d.first) (dispatch_all m set p d.later) x.0)
            ∙ ap (λ l. l ++ x.0) (sym both ∙ ap (dispatch_all m set p) (sym d.all_packets)))

-- A phone that sends a stream of frames of at most 460 bytes, with at most the start of another,
-- cut in any way, over a WiFi connection whose transport has a callback, and then closes, has each
-- packet that passes the gate handed to the relay, in order, and its connection forgotten.
pub reader-wire :
    (m : ℕ) (t : WifiTransport) (p : Peer) (cs ps : List Bytes) (r : Bytes) (rs : List Recv)
    → t.callback ≡ true
    → concat cs ≡ wire ps ++ r
    → All IsPacket ps
    → IsPartial r
    → All NonEmpty cs
    → reader m t p (map data_in cs ++ data_in [] ∷ rs)
      ≡ (reader_done t p, map (received p) (passed m ps))
unfolding reader read_loop
reader-wire m t p cs ps r rs set e h k n =
    let run = read_loop-wire m t.callback p new_assembler cs ps r (data_in [] ∷ rs) e h k tt n in
    rw (run, append-nil (dispatch_all m t.callback p ps), set, dispatch_all-passed m p ps)

-- Once a length above 460 comes on a WiFi connection whose transport has a callback, nothing more
-- of it is handed to the relay, not even the packets that came in the same read before that length,
-- and the connection is forgotten; what came in earlier reads was handed on, in order, if it passed
-- the gate.
pub reader-corrupt :
    (m : ℕ) (t : WifiTransport) (p : Peer) (cs ps : List Bytes) (r c : Bytes) (qs : List Bytes)
    (bad : Bytes) (rs : List Recv)
    → t.callback ≡ true
    → concat cs ≡ wire ps ++ r
    → All IsPacket ps
    → IsPartial r
    → All NonEmpty cs
    → NonEmpty c
    → r ++ c ≡ wire qs ++ bad
    → All IsPacket qs
    → IsCorrupt bad
    → reader m t p (map data_in cs ++ data_in c ∷ rs)
      ≡ (reader_done t p, map (received p) (passed m ps))
unfolding reader
reader-corrupt m t p cs ps r c qs bad rs set e h k n ne e' h' k' =
    let run = read_loop-wire m t.callback p new_assembler cs ps r (data_in c ∷ rs) e h k tt n in
    let ends =
      read_loop-bad m t.callback p (record { buf = r }) _ c _ rs ne
        (feed-corrupt (record { buf = r }) c qs bad e' h' k') in
    rw (run, ends, append-nil (dispatch_all m t.callback p ps), set, dispatch_all-passed m p ps)

-- The packets that the receive callback got from one peer.
abbrev pub received_from : Peer → List Call → List Bytes
received_from p [] = []
received_from p (received q b ∷ cs) = if q == p then b ∷ received_from p cs else received_from p cs
received_from p (connected q ∷ cs) = received_from p cs

received_from-append :
    (p : Peer) (xs ys : List Call)
    → received_from p (xs ++ ys) ≡ received_from p xs ++ received_from p ys
received_from-append p [] ys = refl
received_from-append p (received q b ∷ xs) ys = ground (arith, received_from-append p xs ys)
received_from-append p (connected q ∷ xs) ys = received_from-append p xs ys

on_events-passed :
    (m : ℕ) (t : BleTransport) (p : Peer) (es : List Event)
    → t.callback ≡ true
    → received_from p (on_events m t es) ≡ passed m (packets_of p es)
unfolding on_events on_event dispatch
on_events-passed m t p [] set = refl
on_events-passed m t p (packet_in q b ∷ es) set =
    rw
      (
        received_from-append p (on_event m t (packet_in q b)) (on_events m t es),
        on_events-passed m t p es set,
      )
      (ground arith)
on_events-passed m t p (peer_up q ∷ es) set =
    rw
      (
        received_from-append p (on_event m t (peer_up q)) (on_events m t es),
        on_events-passed m t p es set,
      )
      (ground arith)
on_events-passed m t p (peer_down q ∷ es) set = on_events-passed m t p es set

-- A central without an assembler that writes a stream of frames of at most 460 bytes, with at most
-- the start of another, to a transport with a receive callback, cut and interleaved in any way, and
-- does not disconnect, has each packet that passes the gate handed to the relay, in order.
pub ble_run-wire :
    (m : ℕ) (t : BleTransport) (p : Peer) (is : List Input) (ps : List Bytes) (r : Bytes)
    → t.callback ≡ true
    → t.server.on_packet ≡ true
    → get t.server.assemblers p ≡ none
    → Stays p is
    → concat (chunks_of p is) ≡ wire ps ++ r
    → All IsPacket ps
    → IsPartial r
    → received_from p (ble_run m t is).1 ≡ passed m ps
unfolding ble_run
ble_run-wire m t p is ps r set on fresh stays e h k =
    on_events-passed m t p (run t.server is).1 set
    ∙ ap (passed m) (run-wire t.server p is ps r on fresh stays e h k)
