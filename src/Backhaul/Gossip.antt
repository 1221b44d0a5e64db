-- ===== src/Backhaul/Gossip.antt =====
-- What one node announces is where another one sends (node/backhaul/zone_sync.py, batman_backhaul.py).
use meshlink_node.Prelude.{
  Bytes, Text, [], ap, beq_refl, drop, false, if◌then◌else◌, length, le→leb, none, pos, refl, some,
  ℕ, ℤ, ◌++◌, ◌+◌, ◌==◌, ◌∙◌, ◌∷◌, ◌≡◌, ◌≤◌, nat_eq, list_eq, int_eq,
}
use meshlink_node.Json.{Value, text, Json}
use meshlink_node.ZoneTable.{ZoneTable, learn, addr_for}
use meshlink_node.ZoneTable.Routing.{addr_for-learn}
use meshlink_node.Backhaul.Udp.{
  Addr, host, host_port, other, BatmanBackhaul, Endpoint, endpoint, target, is_null,
  zone_sync_magic, send_to, forward_to_zone,
}
use meshlink_node.Backhaul.Sync.{
  announced, ZoneSync, wire_addr, table_addr, announcement, encode_announcement, int_of,
  announced_as, decode_fields, decode_body, decode_announcement, on_control,
}

-- An address as a node is configured with it.
abbrev pub IsAddr : {F : Type 0} → Addr F → Type 0
IsAddr (host ip) = Unit
IsAddr (host_port e) = Unit
IsAddr (other v) = ⊥

table-wire : {F : Type 0} (a : Addr F) → IsAddr a → table_addr (wire_addr a) ≡ a
unfolding table_addr wire_addr
table-wire (host ip) h = refl
table-wire (host_port (ip, n)) h = refl
table-wire (other v) h = elim h [ ]

drop_magic : (b : Bytes) → drop (length zone_sync_magic) (zone_sync_magic ++ b) ≡ b
drop_magic b = refl

IsAddr-not_null : {F : Type 0} (a : Addr F) → IsAddr a → is_null a ≡ false
IsAddr-not_null (host ip) h = refl
IsAddr-not_null (host_port e) h = refl
IsAddr-not_null (other v) h = elim h [ ]

module _ (j : Json) where
  -- json.loads reads back what json.dumps wrote, and str of a string is that string.
  pub record ReadsBack (node : Text) (zone : ℕ) (addr : Addr j.Float) : Type 0 where
    pub loads_dumps :
        j.loads (j.dumps (announcement node zone addr)) ≡ some (announcement node zone addr)
    pub str_text : j.str_of (text node) ≡ node

  -- An announcement of an address that is a host, or a host and a port, and that json reads back as
  -- it was written, is decoded to the node, the zone and the address that were encoded.
  pub decode-encode_announcement :
      (node : Text) (zone : ℕ) (addr : Addr j.Float)
      → IsAddr addr
      → ReadsBack node zone addr
      → decode_announcement j (encode_announcement j node zone addr)
        ≡ announced node (pos zone) addr
  unfolding decode_announcement encode_announcement decode_body decode_fields announced_as int_of
      announcement
  decode-encode_announcement node zone addr h k =
      rw (k.loads_dumps, decode_announcement, k.str_text)
        (ap (announced node (pos zone)) (table-wire addr h))

  on_control-learn :
      (z : ZoneSync j.Float) (t : ZoneTable ℤ (Addr j.Float)) (now : ℕ) (frame : Bytes)
      (node : Text) (zone : ℤ) (addr : Addr j.Float)
      → decode_announcement j frame ≡ announced node zone addr
      → on_control j z t now frame ≡ (if node == z.node_id then t else learn t now zone addr)
  unfolding on_control
  on_control-learn z t now frame node zone addr e = rw (e, on_control)

  addr_for-fresh :
      (t : ZoneTable ℤ (Addr j.Float)) (now later : ℕ) (zone : ℤ) (addr : Addr j.Float)
      → later ≤ now + t.entry_ttl
      → addr_for (learn t now zone addr) later zone ≡ some addr
  addr_for-fresh t now later zone addr le =
      addr_for-learn t now later zone zone addr
      ∙ rw (beq_refl zone, le→leb later (now + t.entry_ttl) le) refl

  -- A node that hears the announcement of another node, whose address is one that sendto takes and
  -- which json reads back as it was written, sends the packets for that node's zone, if that is not
  -- its own, to the announced address alone until the entry is older than the TTL.
  pub forward_to_zone-on_control :
      (b : BatmanBackhaul j.Float) (z heard : ZoneSync j.Float) (t : ZoneTable ℤ (Addr j.Float))
      (now later : ℕ) (to' : Endpoint) (packet : Bytes)
      → IsAddr heard.own_addr
      → ReadsBack heard.node_id heard.zone_id heard.own_addr
      → (heard.node_id == z.node_id) ≡ false
      → (heard.zone_id == b.zone_id) ≡ false
      → target b heard.own_addr ≡ some to'
      → later ≤ now + t.entry_ttl
      → let frame = encode_announcement j heard.node_id heard.zone_id heard.own_addr in
        forward_to_zone b (on_control j z t now frame) later heard.zone_id packet
        ≡ some (record { payload = packet; to = to' } ∷ [])
  unfolding forward_to_zone send_to
  forward_to_zone-on_control b z heard t now later to' packet h k other_node other_zone sendable
        le =
      let frame = encode_announcement j heard.node_id heard.zone_id heard.own_addr in
      let zone : ℤ = pos heard.zone_id in
      let learned : on_control j z t now frame ≡ learn t now zone heard.own_addr =
        on_control-learn z t now frame heard.node_id zone heard.own_addr
          (decode-encode_announcement heard.node_id heard.zone_id heard.own_addr h k)
        ∙ rw other_node refl in
      let answers = addr_for-fresh t now later zone heard.own_addr le in
      rw (learned, forward_to_zone, other_zone, answers, IsAddr-not_null heard.own_addr h, sendable)

  -- A node's own announcement, heard as an echo, changes nothing.
  pub on_control-echo :
      (z : ZoneSync j.Float) (t : ZoneTable ℤ (Addr j.Float)) (now : ℕ)
      → IsAddr z.own_addr
      → ReadsBack z.node_id z.zone_id z.own_addr
      → on_control j z t now (encode_announcement j z.node_id z.zone_id z.own_addr) ≡ t
  on_control-echo z t now h k =
      on_control-learn z t now _ z.node_id (pos z.zone_id) z.own_addr
        (decode-encode_announcement z.node_id z.zone_id z.own_addr h k)
      ∙ rw (beq_refl z.node_id) refl

  -- An announcement from another node whose address is neither null nor a string nor a pair of a host and
  -- a port is learned all the same, and until the entry is older than the TTL every packet for its
  -- zone, if that is not the node's own, raises in forward_to_zone.
  pub forward_to_zone-raises :
      (b : BatmanBackhaul j.Float) (z : ZoneSync j.Float) (t : ZoneTable ℤ (Addr j.Float))
      (now later : ℕ) (frame packet : Bytes) (node : Text) (zone : ℕ) (v : Value j.Float)
      → decode_announcement j frame ≡ announced node (pos zone) (other v)
      → is_null (other v) ≡ false
      → (node == z.node_id) ≡ false
      → (zone == b.zone_id) ≡ false
      → later ≤ now + t.entry_ttl
      → forward_to_zone b (on_control j z t now frame) later zone packet ≡ none
  unfolding forward_to_zone send_to target endpoint
  forward_to_zone-raises b z t now later frame packet node zone v e not_null other_node other_zone
        le =
      let learned : on_control j z t now frame ≡ learn t now (pos zone) (other v) =
        on_control-learn z t now frame node (pos zone) (other v) e ∙ rw other_node refl in
      let answers = addr_for-fresh t now later (pos zone) (other v) le in
      rw (learned, forward_to_zone, other_zone, answers, not_null)
