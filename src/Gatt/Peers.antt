-- ===== src/Gatt/Peers.antt =====
-- Which centrals the node counts as connected, and when it says so (node/ble/base.py).
use meshlink_node.Prelude.{
  All, Bool, Bytes, List, [], add, ap, arith, beq_refl, contains, contains-add, contains-discard,
  false, if◌then◌else◌, length, refl, some, true, ◌++◌, ◌==◌, ◌∙◌, ◌∷◌, ◌≡◌, nat_eq, list_eq,
}
use meshlink_node.Framing.{be16, new_assembler}
use meshlink_node.Framing.Wire.{IsPacket}
use meshlink_node.Framing.Chunks.{FitsLink, chunk_lem, frame_lem, chunk-feed_all}
use meshlink_node.Framing.Stream.{feed_all}
use meshlink_node.Gatt.{
  Peer, GattServer, peer_up, handle_chunk, peer_connected, Input, chunk_of, connects, disconnects,
  step, run, send_packet,
}

-- What the last input about a central says: it is there after a chunk or a connect, and gone after a
-- disconnect.
abbrev pub present : Peer → Bool → List Input → Bool
present p was [] = was
present p was (chunk_of q b ∷ is) = present p (if q == p then true else was) is
present p was (connects q ∷ is) = present p (if q == p then true else was) is
present p was (disconnects q ∷ is) = present p (if q == p then false else was) is

step-connected :
    (s : GattServer) (p : Peer) (i : Input) (is : List Input)
    → present p (contains (step s i).0.connected p) is ≡ present p (contains s.connected p) (i ∷ is)
unfolding step
step-connected s p (chunk_of q b) is = ap (λ x. present p x is) (contains-add s.connected q p)
step-connected s p (connects q) is = ap (λ x. present p x is) (contains-add s.connected q p)
step-connected s p (disconnects q) is = ap (λ x. present p x is) (contains-discard s.connected q p)

-- Over any sequence of inputs, a central counts as connected exactly when the last thing it did was
-- a chunk or a connect, and as before if it did nothing.
pub run-connected :
    (s : GattServer) (p : Peer) (is : List Input)
    → contains (run s is).0.connected p ≡ present p (contains s.connected p) is
unfolding run
run-connected s p [] = refl
run-connected s p (i ∷ is) = run-connected (step s i).0 p is ∙ step-connected s p i is

-- A connect is announced exactly when the central was not counted as connected: a second connect,
-- or one whose first chunk was handled before it, is silent.
pub peer_connected-events :
    (s : GattServer) (p : Peer)
    → s.on_connect ≡ true
    → (contains s.connected p ≡ false → (peer_connected s p).1 ≡ peer_up p ∷ [])
      × (contains s.connected p ≡ true → (peer_connected s p).1 ≡ [])
unfolding peer_connected
peer_connected-events s p set = ground arith

-- A central whose first chunk is handled before its connect is not announced by that connect,
-- though it is counted as connected.
pub connect_after_chunk_silent :
    (s : GattServer) (p : Peer) (b : Bytes)
    → let s' = (handle_chunk s p b).0 in
      ((peer_connected s' p).1 ≡ []) × (contains (peer_connected s' p).0.connected p ≡ true)
unfolding peer_connected handle_chunk
connect_after_chunk_silent s p b =
    let at = contains-add s.connected p p in
    let again = contains-add (add s.connected p) p p in
    let there : contains (add s.connected p) p ≡ true =
      at ∙ ap (λ (x : Bool). if x then true else contains s.connected p) (beq_refl p) in
    rw (there, again, beq_refl p) (refl, refl)

-- A packet of at most 460 bytes is always sent, in notifications of 1 to 180 bytes, and a receiver
-- that puts them together from nothing has exactly that packet.
pub send_packet-feed_all :
    (p : Peer) (packet : Bytes)
    → IsPacket packet
    → (cs : List Bytes) × (send_packet p packet ≡ some cs)
      × All (FitsLink 180) cs
      × (feed_all new_assembler cs ≡ (packet ∷ [], new_assembler))
unfolding send_packet
send_packet-feed_all p packet h =
    let made = frame_lem packet (omega arith) in
    let framed = be16 (length packet) ++ packet in
    let (cs, e, whole, fits) = chunk_lem framed 180 (omega arith) in
    (cs, rw (made, send_packet) e, fits, chunk-feed_all packet framed 180 cs h (omega arith) made e)
