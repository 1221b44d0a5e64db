-- ===== src/Backhaul/Sync.antt =====
-- Zone announcements (node/backhaul/zone_sync.py).
use meshlink_node.Prelude.{
  Bytes, List, Option, Text, codes, drop, if◌then◌else◌, length, none, not, pos, some, starts_with,
  ℕ, ℤ, ◌++◌, ◌==◌, nat_eq, list_eq, int_eq,
}
use meshlink_node.Json.{
  Value, boolean, integer, real, text, array, object, nil, cons, Fields, no_fields, field, field_of,
  Whole, whole, value_error, overflow_error, Json,
}
use meshlink_node.ZoneTable.{ZoneTable, learn}
use meshlink_node.Backhaul.Udp.{
  Addr, host, host_port, other, BatmanBackhaul, Datagram, zone_sync_magic, broadcast_control,
}

-- What decoding ends in: an announcement, `None`, or an exception.
pub data Decoded (F : Type 0) : Type 0 where
  announced : Text → ℤ → Addr F → Decoded F
  malformed : Decoded F
  raised : Decoded F

pub record ZoneSync (F : Type 0) : Type 0 where
  pub node_id : Text
  pub zone_id : ℕ
  pub own_addr : Addr F

-- list(addr) if isinstance(addr, tuple) else addr
unfoldable pub wire_addr : {F : Type 0} → Addr F → Value F
wire_addr (host ip) = text ip
wire_addr (host_port (ip, n)) = array (cons (text ip) (cons (integer (pos n)) nil))
wire_addr (other v) = v

-- tuple(raw_addr) if isinstance(raw_addr, list) else raw_addr; a boolean is a port like 0 and 1
unfoldable pub table_addr : {F : Type 0} → Value F → Addr F
table_addr (text ip) = host ip
table_addr (array (cons (text ip) (cons (integer (pos n)) nil))) = host_port (ip, n)
table_addr (array (cons (text ip) (cons (boolean b) nil))) = host_port (ip, if b then 1 else 0)
table_addr v = other v

-- The body of an announcement.
unfoldable pub announcement : {F : Type 0} → Text → ℕ → Addr F → Value F
unfolding wire_addr
announcement node zone addr = object (
    field (codes "node_id") (text node) (
      field (codes "zone_id") (integer (pos zone))
        (field (codes "addr") (wire_addr addr) no_fields)))

module _ (j : Json) where
  unfoldable pub encode_announcement : Text → ℕ → Addr j.Float → Bytes
  encode_announcement node zone addr = zone_sync_magic ++ j.dumps (announcement node zone addr)

  -- int(body["zone_id"]); a ValueError and a TypeError are one
  unfoldable pub int_of : Value j.Float → Whole
  int_of (integer n) = whole n
  int_of (boolean b) = whole (pos (if b then 1 else 0))
  int_of (real x) = j.int_of_float x
  int_of (text t) = elim (j.int_of_text t) [ none ↦ value_error | some n ↦ whole n ]
  int_of v = value_error

  unfoldable pub announced_as : Text → Whole → Option (Value j.Float) → Decoded j.Float
  announced_as node (whole zone) (some addr) = announced node zone (table_addr addr)
  announced_as node (whole zone) none = malformed
  announced_as node value_error addr = malformed
  announced_as node overflow_error addr = raised

  unfoldable pub decode_fields : Fields j.Float → Decoded j.Float
  unfolding announced_as int_of
  decode_fields fs = elim (field_of fs (codes "node_id")) [
    | none ↦ malformed
    | some node ↦ elim (field_of fs (codes "zone_id")) [
      | none ↦ malformed
      | some zone ↦ announced_as (j.str_of node) (int_of zone) (field_of fs (codes "addr"))
    ]
  ]

  unfoldable pub decode_body : Option (Value j.Float) → Decoded j.Float
  unfolding decode_fields
  decode_body (some (object fs)) = decode_fields fs
  decode_body _ = malformed

  unfoldable pub decode_announcement : Bytes → Decoded j.Float
  unfolding decode_body
  decode_announcement frame =
      if not (starts_with frame zone_sync_magic)
      then malformed
      else decode_body (j.loads (drop (length zone_sync_magic) frame))

  -- `announce_now`
  unfoldable pub announce_now : ZoneSync j.Float → BatmanBackhaul j.Float → Option (List Datagram)
  unfolding encode_announcement broadcast_control
  announce_now z b = broadcast_control b (encode_announcement z.node_id z.zone_id z.own_addr)

  -- The table after `_on_control`; an exception that leaves it is caught and logged by the backhaul.
  unfoldable pub on_control :
      ZoneSync j.Float → ZoneTable ℤ (Addr j.Float) → ℕ → Bytes → ZoneTable ℤ (Addr j.Float)
  unfolding decode_announcement
  on_control z t now frame = elim (decode_announcement frame) [
    | announced node zone addr ↦ if node == z.node_id then t else learn t now zone addr
    | malformed ↦ t
    | raised ↦ t
  ]
