-- ===== src/Examples/Nodes.antt =====
-- Two nodes that announce their zones (node/backhaul/).
use meshlink_node.Prelude.{
  All, Bytes, List, [], arith, codes, false, length, none, pos, refl, some, true, ℕ, ℤ, ◌++◌, ◌∷◌,
  ◌≡◌, ◌≤◌, nat_eq, list_eq, int_eq,
}
use meshlink_node.Json.{Value, text, integer, object, field, no_fields, Json, whole}
use meshlink_node.ZoneTable.{ZoneTable}
use meshlink_node.Backhaul.Udp.{
  Addr, host, host_port, other, BatmanBackhaul, endpoint, target, is_own, Datagram, forward_to_zone,
  zone_sync_magic, receive,
}
use meshlink_node.Backhaul.Sync.{
  ZoneSync, announcement, announced, encode_announcement, decode_announcement, decode_body,
  decode_fields, announced_as, int_of, table_addr, on_control,
}
use meshlink_node.Backhaul.Demux.{Demuxed, receive-Demuxed}
use meshlink_node.Backhaul.Gossip.{ReadsBack, forward_to_zone-on_control}

abbrev pub there : Addr ℕ
there = host_port (codes "b", 99)

-- A json that knows one value.
abbrev pub toy_json : Value ℕ → Json
toy_json v = record {
  Float = ℕ;
  dumps = λ u. 1 ∷ [];
  loads = λ b. some v;
  loads_utf8 = λ b. some v;
  int_of_float = λ x. whole (pos x);
  float_of_int = λ n. some 0;
  int_of_text = λ t. none;
  str_of = λ u. codes "n2";
}

abbrev pub json : Json
json = toy_json (announcement (codes "n2") 2 there)

abbrev pub second : ZoneSync ℕ
second = record { node_id = codes "n2"; zone_id = 2; own_addr = there }

abbrev pub first : ZoneSync ℕ
first = record { node_id = codes "n1"; zone_id = 1; own_addr = host (codes "a") }

abbrev pub backhaul : BatmanBackhaul ℕ
backhaul = record {
  zone_id = 1;
  own_addr = host (codes "a");
  broadcast_addr = host (codes "all");
  udp_port = 19788;
  idna = λ t. false;
  data_cb = true;
  control_cb = true;
}

abbrev pub table : ZoneTable ℤ (Addr ℕ)
table = record { own_zone_id = pos 1; entry_ttl = 180; pinned = []; learned = [] }

pub second-ReadsBack : ReadsBack json (codes "n2") 2 there
second-ReadsBack = record { loads_dumps = refl; str_text = refl }

forward_to_zone-on_control_example :
    forward_to_zone backhaul
      (on_control json first table 100 (encode_announcement json (codes "n2") 2 there))
      200
      2
      (7 ∷ [])
    ≡ some (record { payload = 7 ∷ []; to = (codes "b", 99) } ∷ [])
unfolding endpoint target
forward_to_zone-on_control_example =
    forward_to_zone-on_control json backhaul first second table 100 200 (codes "b", 99) (7 ∷ []) tt
      second-ReadsBack refl refl refl (omega arith)

-- An announcement whose address is a number.
abbrev pub odd_body : Value ℕ
odd_body = object (
    field (codes "node_id") (text (codes "n2")) (
      field (codes "zone_id") (integer (pos 2)) (field (codes "addr") (integer (pos 5)) no_fields)))

abbrev pub odd_frame : Bytes
odd_frame = zone_sync_magic ++ 1 ∷ []

pub odd_decoded :
    decode_announcement (toy_json odd_body) odd_frame
    ≡ announced (codes "n2") (pos 2) (other (integer (pos 5)))
unfolding decode_announcement decode_body decode_fields announced_as int_of table_addr
odd_decoded = refl

receive-Demuxed_example :
    All (Demuxed odd_frame) (receive backhaul (codes "b", 99) (codes "99") odd_frame)
    × (length (receive backhaul (codes "b", 99) (codes "99") odd_frame) ≤ 1)
    × (is_own (endpoint backhaul.udp_port backhaul.own_addr) (codes "b", 99) ≡ true
        → receive backhaul (codes "b", 99) (codes "99") odd_frame ≡ [])
receive-Demuxed_example = receive-Demuxed backhaul (codes "b", 99) (codes "99") odd_frame

abbrev sent : List Datagram
sent =
    record { payload = encode_announcement json (codes "n2") 2 there; to = (codes "all", 19788) }
    ∷ []
