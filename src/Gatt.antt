-- ===== src/Gatt.antt =====
-- The GATT server core (node/ble/base.py): per-peer reassembly, the set of connected centrals, and
-- framing of what is sent. What a callback is called with is an event; a callback that is not set
-- gives none.
pub mod Streams
pub mod Peers
pub mod Runs
use meshlink_node.Prelude.{
  Bool, Bytes, Dict, List, Option, Text, [], add, contains, discard, false, get, if◌then◌else◌, ltb,
  map, none, not, or_default, put, remove, set_default, some, true, ℕ, ◌&&◌, ◌++◌, ◌∷◌, nat_eq,
  list_eq,
}
use meshlink_node.Framing.{FrameAssembler, new_assembler, Fed, packets, corrupt, feed, frame, chunk}

-- `peer_id`, an opaque string
abbrev pub Peer : Type 0
Peer = Text

pub record GattServer : Type 0 where
  pub assemblers : Dict Peer FrameAssembler
  pub connected : List Peer
  pub on_packet : Bool
  pub on_connect : Bool
  pub on_disconnect : Bool

pub data Event : Type 0 where
  packet_in : Peer → Bytes → Event
  peer_up : Peer → Event
  peer_down : Peer → Event

abbrev pub new_server : GattServer
new_server = record {
  assemblers = [];
  connected = [];
  on_packet = false;
  on_connect = false;
  on_disconnect = false;
}

-- BLE_NOTIFY_CHUNK of node/config.py
abbrev pub ble_notify_chunk : ℕ
ble_notify_chunk = 180

abbrev pub assembler_of : GattServer → Peer → FrameAssembler
assembler_of s peer = or_default (get s.assemblers peer) new_assembler

abbrev emit : Bool → Event → List Event
emit set e = if set then e ∷ [] else []

-- `for packet in packets: self.on_packet(peer_id, packet)`, or the warning on a corrupt stream
unfoldable pub deliver : Bool → Peer → Fed → List Event
deliver set peer (packets ps) = if set then map (packet_in peer) ps else []
deliver set peer (corrupt n) = []

unfoldable pub handle_chunk : GattServer → Peer → Bytes → GattServer × List Event
unfolding deliver
handle_chunk s peer bytes =
    let (r, a) = feed (assembler_of s peer) bytes in
    (
      record s {
        connected = add s.connected peer;
        assemblers = put (set_default s.assemblers peer new_assembler) peer a;
      },
      deliver s.on_packet peer r,
    )

unfoldable pub peer_connected : GattServer → Peer → GattServer × List Event
peer_connected s peer =
    let is_new = not (contains s.connected peer) in
    (record s { connected = add s.connected peer }, emit (is_new && s.on_connect) (peer_up peer))

unfoldable pub peer_disconnected : GattServer → Peer → GattServer × List Event
peer_disconnected s peer = (
  record s { connected = discard s.connected peer; assemblers = remove s.assemblers peer },
  emit s.on_disconnect (peer_down peer),
)

-- The chunks that are notified, to every subscribed central, or `none` where `frame` raises.
unfoldable pub send_packet : Peer → Bytes → Option (List Bytes)
send_packet peer packet = elim (frame packet) [
  | none ↦ none
  | some framed ↦ chunk framed ble_notify_chunk
]

-- `sorted` on strings, by code point
unfoldable pub text_leb : Text → Text → Bool
text_leb [] t = true
text_leb (c ∷ s) [] = false
text_leb (c ∷ s) (d ∷ t) = if ltb c d then true else if ltb d c then false else text_leb s t

unfoldable pub insert_sorted : Text → List Text → List Text
insert_sorted a [] = a ∷ []
insert_sorted a (b ∷ bs) = if text_leb a b then a ∷ b ∷ bs else b ∷ insert_sorted a bs

unfoldable pub sorted : List Text → List Text
unfolding text_leb insert_sorted
sorted [] = []
sorted (a ∷ as') = insert_sorted a (sorted as')

unfoldable pub peers : GattServer → List Peer
unfolding sorted
peers s = sorted s.connected

-- What the radio reports, in the order in which it does.
pub data Input : Type 0 where
  chunk_of : Peer → Bytes → Input
  connects : Peer → Input
  disconnects : Peer → Input

unfoldable pub step : GattServer → Input → GattServer × List Event
unfolding handle_chunk peer_connected peer_disconnected
step s (chunk_of peer bytes) = handle_chunk s peer bytes
step s (connects peer) = peer_connected s peer
step s (disconnects peer) = peer_disconnected s peer

unfoldable pub run : GattServer → List Input → GattServer × List Event
unfolding step
run s [] = (s, [])
run s (i ∷ is) = let (s', es) = step s i in let (t, fs) = run s' is in (t, es ++ fs)
