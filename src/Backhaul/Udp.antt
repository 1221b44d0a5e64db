-- ===== src/Backhaul/Udp.antt =====
-- The batman-adv backhaul (node/backhaul/batman_backhaul.py). A datagram that `sendto` refuses is lost
-- and logged, so what is asked of the socket is all there is to see.
use meshlink_node.Json.{Value, null}
use meshlink_node.Prelude.{
  Bool, Bytes, List, Option, Text, [], codes, contains, false, if◌then◌else◌, leb, ltb, none, pos,
  some, starts_with, true, ℕ, ℤ, ◌++◌, ◌==◌, ◌||◌, ◌∷◌, nat_eq, list_eq, pair_eq, int_eq,
}
use meshlink_node.Gatt.{Peer}
use meshlink_node.ZoneTable.{ZoneTable, addr_for}

abbrev pub Endpoint : Type 0
Endpoint = Text × ℕ

-- str | Endpoint; and, as announcements are not checked, any other value that came with one, of which null
-- is Python's None
pub data Addr (F : Type 0) : Type 0 where
  host : Text → Addr F
  host_port : Endpoint → Addr F
  other : Value F → Addr F

-- Beside the state, `idna` tells whether Python's codec for host names takes a text.
pub record BatmanBackhaul (F : Type 0) : Type 0 where
  pub zone_id : ℕ
  pub own_addr : Addr F
  pub broadcast_addr : Addr F
  pub udp_port : ℕ
  pub data_cb : Bool
  pub control_cb : Bool
  pub idna : Text → Bool

-- `_endpoint`, with config.BACKHAUL_UDP_PORT; `none` for what `sendto` takes for no pair of a host and a
-- port, a TypeError, or for a port above 65535, its OverflowError.
unfoldable pub endpoint : {F : Type 0} → ℕ → Addr F → Option Endpoint
endpoint port (host ip) = some (ip, port)
endpoint port (host_port (ip, n)) = if leb n 65535 then some (ip, n) else none
endpoint port (other v) = none

abbrev is_ascii : Text → Bool
is_ascii [] = true
is_ascii (x ∷ xs) = let rest = is_ascii xs in if ltb x 128 then rest else false

-- A host with a NUL is a TypeError of `sendto`, and one that is not ASCII goes through the codec, with
-- its UnicodeError.
unfoldable pub takes_host : {F : Type 0} → BatmanBackhaul F → Text → Bool
takes_host b ip = if contains ip 0 then false else is_ascii ip || b.idna ip

-- Where `sendto` sends for an address, or `none` where it raises what is no OSError.
unfoldable pub target : {F : Type 0} → BatmanBackhaul F → Addr F → Option Endpoint
unfolding endpoint takes_host
target b addr = elim (endpoint b.udp_port addr) [
  | none ↦ none
  | some e ↦ if takes_host b e.0 then some e else none
]

-- `addr is None`, also of an announced null, which the table keeps
abbrev pub is_null : {F : Type 0} → Addr F → Bool
is_null (other null) = true
is_null _ = false

-- sendto(packet, endpoint)
pub record Datagram : Type 0 where
  pub payload : Bytes
  pub to : Endpoint

abbrev pub zone_sync_magic : Bytes
zone_sync_magic = codes "MLZS1"

abbrev pub datagram_to : Bytes → Option Endpoint → Option (List Datagram)
datagram_to packet none = none
datagram_to packet (some e) = some (record { payload = packet; to = e } ∷ [])

-- `_send`, which catches an OSError only
unfoldable pub send_to : {F : Type 0} → BatmanBackhaul F → Bytes → Addr F → Option (List Datagram)
unfolding target
send_to b packet addr = datagram_to packet (target b addr)

unfoldable pub broadcast_to_all_nodes :
    {F : Type 0} → BatmanBackhaul F → Bytes → Option (List Datagram)
unfolding send_to
broadcast_to_all_nodes b packet = send_to b packet b.broadcast_addr

unfoldable pub broadcast_control : {F : Type 0} → BatmanBackhaul F → Bytes → Option (List Datagram)
unfolding send_to
broadcast_control b frame = send_to b frame b.broadcast_addr

-- What is sent, or `none` where an exception leaves the call. An address that is None is none.
unfoldable pub forward_to_zone :
    {F : Type 0} → BatmanBackhaul F → ZoneTable ℤ (Addr F) → ℕ → ℕ → Bytes → Option (List Datagram)
unfolding send_to broadcast_to_all_nodes
forward_to_zone b table now zone packet =
    if zone == b.zone_id then some [] else elim (addr_for table now (pos zone)) [
      | none ↦ broadcast_to_all_nodes b packet
      | some addr ↦ if is_null addr then broadcast_to_all_nodes b packet else send_to b packet addr
    ]

-- What `_recv_loop` does with a datagram: who is called, if anyone.
pub data Inbound : Type 0 where
  to_control : Peer → Bytes → Inbound
  to_data : Peer → Bytes → Inbound

-- f"backhaul:{addr[0]}:{addr[1]}", where the port's digits come with the sender's address
abbrev pub backhaul_peer : Text → Text → Peer
backhaul_peer ip port = codes "backhaul:" ++ ip ++ codes ":" ++ port

-- The sender's address against the node's own.
abbrev pub is_own : Option Endpoint → Endpoint → Bool
is_own none from = false
is_own (some e) from = from == e

unfoldable pub receive : {F : Type 0} → BatmanBackhaul F → Endpoint → Text → Bytes → List Inbound
unfolding endpoint
receive b from digits data' =
    let peer = backhaul_peer from.0 digits in
    if is_own (endpoint b.udp_port b.own_addr) from
    then []
    else if starts_with data' zone_sync_magic
    then (if b.control_cb then to_control peer data' ∷ [] else [])
    else if b.data_cb
    then to_data peer data' ∷ []
    else []
