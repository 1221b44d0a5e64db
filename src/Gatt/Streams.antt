-- ===== src/Gatt/Streams.antt =====
-- Each central has a stream of its own (node/ble/base.py): what the node receives from one does not
-- depend on what the others write, nor on how its own writes are cut.
use meshlink_node.Prelude.{
  All, Bool, Bool-cases, Bytes, List, Option, [], ap, arith, concat, false, get,
  get-put-set_default, get-remove, if◌then◌else◌, inl, inr, list_beq_iff, map, none, or_default,
  refl, some, true, ◌++◌, ◌==◌, ◌∙◌, ◌∷◌, ◌≡◌, nat_eq, list_eq,
}
use meshlink_node.Framing.{FrameAssembler, new_assembler, Fed, packets, corrupt, feed}
use meshlink_node.Framing.Wire.{IsPacket, wire, IsPartial}
use meshlink_node.Framing.Stream.{returned, feed_all, feed_all-wire}
use meshlink_node.Gatt.{
  Peer, GattServer, Event, packet_in, peer_up, peer_down, assembler_of, deliver, handle_chunk,
  peer_connected, peer_disconnected, Input, chunk_of, connects, disconnects, step, run,
}

-- The packets that the callback got from one central.
abbrev pub packets_of : Peer → List Event → List Bytes
packets_of p [] = []
packets_of p (packet_in q b ∷ es) = if q == p then b ∷ packets_of p es else packets_of p es
packets_of p (peer_up q ∷ es) = packets_of p es
packets_of p (peer_down q ∷ es) = packets_of p es

-- One assembler that sees only what one central does.
abbrev pub solo : Peer → FrameAssembler → List Input → List Bytes
solo p a [] = []
solo p a (chunk_of q b ∷ is) =
    let (r, a') = feed a b in
    let mine = returned r ++ solo p a' is in
    let other = solo p a is in if q == p then mine else other
solo p a (connects q ∷ is) = solo p a is
solo p a (disconnects q ∷ is) = solo p (if q == p then new_assembler else a) is

packets_of-append :
    (p : Peer) (es fs : List Event) → packets_of p (es ++ fs) ≡ packets_of p es ++ packets_of p fs
packets_of-append p [] fs = refl
packets_of-append p (packet_in q b ∷ es) fs = ground (arith, packets_of-append p es fs)
packets_of-append p (peer_up q ∷ es) fs = packets_of-append p es fs
packets_of-append p (peer_down q ∷ es) fs = packets_of-append p es fs

packets_of-map :
    (p q : Peer) (ps : List Bytes)
    → packets_of p (map (packet_in q) ps) ≡ (if q == p then ps else [])
packets_of-map p q [] = ground arith
packets_of-map p q (b ∷ ps) = ground (arith, packets_of-map p q ps)

deliver-packets :
    (p q : Peer) (r : Fed) → packets_of p (deliver true q r) ≡ (if q == p then returned r else [])
unfolding deliver
deliver-packets p q (packets ps) = packets_of-map p q ps
deliver-packets p q (corrupt n) = ground arith

handle_chunk-packets :
    (s : GattServer) (p q : Peer) (b : Bytes)
    → s.on_packet ≡ true
    → packets_of p (handle_chunk s q b).1
      ≡ (if q == p then returned (feed (assembler_of s q) b).0 else [])
unfolding handle_chunk
handle_chunk-packets s p q b set = rw set (deliver-packets p q (feed (assembler_of s q) b).0)

or_default-if :
    (b : Bool) (a : FrameAssembler) (o : Option FrameAssembler)
    → or_default (if b then some a else o) new_assembler
      ≡ (if b then a else or_default o new_assembler)
or_default-if true a o = refl
or_default-if false a o = refl

or_default-if_none :
    (b : Bool) (o : Option FrameAssembler)
    → or_default (if b then none else o) new_assembler
      ≡ (if b then new_assembler else or_default o new_assembler)
or_default-if_none true o = refl
or_default-if_none false o = refl

handle_chunk-assembler :
    (s : GattServer) (p q : Peer) (b : Bytes)
    → assembler_of (handle_chunk s q b).0 p
      ≡ (if q == p then (feed (assembler_of s q) b).1 else assembler_of s p)
unfolding handle_chunk
handle_chunk-assembler s p q b =
    let at = get-put-set_default s.assemblers q p new_assembler (feed (assembler_of s q) b).1 in
    ap (λ o. or_default o new_assembler) at ∙ or_default-if (q == p) _ _

disconnect-assembler :
    (s : GattServer) (p q : Peer)
    → assembler_of (peer_disconnected s q).0 p
      ≡ (if q == p then new_assembler else assembler_of s p)
unfolding peer_disconnected
disconnect-assembler s p q =
    ap (λ o. or_default o new_assembler) (get-remove s.assemblers q p)
    ∙ or_default-if_none (q == p) _

other_events :
    (p : Peer) (s : GattServer) (q : Peer)
    → (packets_of p (peer_connected s q).1 ≡ []) × (packets_of p (peer_disconnected s q).1 ≡ [])
unfolding peer_connected peer_disconnected
other_events p s q = ground arith

step-on_packet : (s : GattServer) (i : Input) → (step s i).0.on_packet ≡ s.on_packet
unfolding step
step-on_packet s (chunk_of q b) = refl
step-on_packet s (connects q) = refl
step-on_packet s (disconnects q) = refl

step-solo :
    (s : GattServer) (p : Peer) (i : Input) (is : List Input)
    → s.on_packet ≡ true
    → packets_of p (step s i).1 ++ solo p (assembler_of (step s i).0 p) is
      ≡ solo p (assembler_of s p) (i ∷ is)
unfolding step
step-solo s p (chunk_of q b) is set =
    rw (handle_chunk-packets s p q b set, handle_chunk-assembler s p q b)
      (ground (arith, list_beq_iff q p))
step-solo s p (connects q) is set = rw ((other_events p s q).0) refl
step-solo s p (disconnects q) is set =
    rw ((other_events p s q).1, disconnect-assembler s p q) (ground arith)

-- With the packet callback set, what the node receives from a central over any sequence of chunks,
-- connects and disconnects of any centrals is what one assembler gives that sees only what this
-- central does.
pub run-solo :
    (s : GattServer) (p : Peer) (is : List Input)
    → s.on_packet ≡ true
    → packets_of p (run s is).1 ≡ solo p (assembler_of s p) is
unfolding run
run-solo s p [] set = refl
run-solo s p (i ∷ is) set =
    let rest = run-solo (step s i).0 p is (step-on_packet s i ∙ set) in
    packets_of-append p (step s i).1 (run (step s i).0 is).1
    ∙ ap (◌++◌ (packets_of p (step s i).1)) rest
    ∙ step-solo s p i is set

-- The chunks that one central writes in a sequence.
abbrev pub chunks_of : Peer → List Input → List Bytes
chunks_of p [] = []
chunks_of p (chunk_of q b ∷ is) = if q == p then b ∷ chunks_of p is else chunks_of p is
chunks_of p (connects q ∷ is) = chunks_of p is
chunks_of p (disconnects q ∷ is) = chunks_of p is

abbrev pub Stays : Peer → List Input → Type 0
Stays p [] = Unit
Stays p (chunk_of q b ∷ is) = Stays p is
Stays p (connects q ∷ is) = Stays p is
Stays p (disconnects q ∷ is) = ((q == p) ≡ false) × Stays p is

solo-feed_all :
    (p : Peer) (a : FrameAssembler) (is : List Input)
    → Stays p is
    → solo p a is ≡ (feed_all a (chunks_of p is)).0
unfolding feed_all
solo-feed_all p a [] h = refl
solo-feed_all p a (chunk_of q b ∷ is) h = elim (Bool-cases (q == p)) [
  | inl e ↦ rw (e, solo-feed_all p (feed a b).1 is h)
  | inr e ↦ rw (e, solo-feed_all p a is h)
]
solo-feed_all p a (connects q ∷ is) h = solo-feed_all p a is h
solo-feed_all p a (disconnects q ∷ is) h = rw (h.0, solo-feed_all p a is h.1)

-- If the packet callback is set and a central that has no assembler yet writes a stream of frames
-- of at most 460 bytes, with at most the start of another, cut in any way and interleaved in any
-- way with what other centrals do, and does not disconnect, the node receives from it exactly the
-- packets of its frames, in order.
pub run-wire :
    (s : GattServer) (p : Peer) (is : List Input) (ps : List Bytes) (r : Bytes)
    → s.on_packet ≡ true
    → get s.assemblers p ≡ none
    → Stays p is
    → concat (chunks_of p is) ≡ wire ps ++ r
    → All IsPacket ps
    → IsPartial r
    → packets_of p (run s is).1 ≡ ps
run-wire s p is ps r set fresh stays e h k =
    let a : assembler_of s p ≡ new_assembler = rw fresh in
    run-solo s p is set
    ∙ solo-feed_all p (assembler_of s p) is stays
    ∙ ap (λ (x : FrameAssembler). (feed_all x (chunks_of p is)).0) a
    ∙ ap (λ (x : List Bytes × FrameAssembler). x.0)
        (feed_all-wire new_assembler (chunks_of p is) ps r e h k tt)
