-- ===== src/PhonePing.antt =====
-- The phone pings (node/monitoring/phone_ping.py): what is sent, what is kept of the answers, and how
-- they age. Times are the monotonic clock's readings in ticks.
pub mod Ageing
pub mod Timers
pub mod Pongs
use meshlink_node.Prelude.{
  Bool, Bytes, Dict, List, Option, Text, [], codes, drop, false, if◌then◌else◌, is_some, length,
  ltb, none, not, put, remove_all, some, true, ℕ, ℤ, ◌*◌, ◌++◌, ◌+◌, ◌-◌, ◌/◌, ◌==◌, ◌∷◌, nat_eq,
  list_eq,
}
use meshlink_node.Json.{
  Value, null, boolean, integer, real, text, object, Fields, no_fields, field, field_of, Whole,
  whole, value_error, overflow_error, Json,
}
use meshlink_node.Gatt.{Peer, text_leb}
use meshlink_node.Location.Store.{ticks_per_s}
use meshlink_node.Relay.Parts.{phone_ping_magic, is_telemetry_frame}

-- An entry of `_reports`.
pub record Report (F : Type 0) : Type 0 where
  pub lat : Option F
  pub lon : Option F
  pub battery : Option ℤ
  pub charging : Option Bool
  pub received_at : ℕ

pub record PhonePing (F : Type 0) : Type 0 where
  pub interval : ℕ
  pub node_name : Option Text
  pub node_lat : Option F
  pub node_lon : Option F
  pub reports : Dict Peer (Report F)
  pub stopped : Bool
  pub connect_timers : List Peer

abbrev optional_field : {A F : Type 0} → (A → Value F) → Text → Option A → Fields F → Fields F
optional_field make name none rest = rest
optional_field make name (some a) rest = field name (make a) rest

unfoldable pub report_ttl : {F : Type 0} → PhonePing F → ℕ
report_ttl s = 3 * s.interval

-- [p for p, r in items if r["received_at"] < cutoff], where `cutoff` is `now` less the TTL
unfoldable pub stale_peers : {F : Type 0} → ℕ → ℕ → Dict Peer (Report F) → List Peer
stale_peers ttl now [] = []
stale_peers ttl now ((p, r) ∷ d) =
    let rest = stale_peers ttl now d in if ltb (r.received_at + ttl) now then p ∷ rest else rest

-- sorted(self._reports.items()): the keys differ, so no two reports are compared
unfoldable pub insert_item :
    {F : Type 0} → Peer → Report F → Dict Peer (Report F) → Dict Peer (Report F)
insert_item p r [] = (p, r) ∷ []
insert_item p r ((q, s) ∷ d) =
    if text_leb p q then (p, r) ∷ (q, s) ∷ d else (q, s) ∷ insert_item p r d

unfoldable pub sort_items : {F : Type 0} → Dict Peer (Report F) → Dict Peer (Report F)
unfolding insert_item
sort_items [] = []
sort_items ((p, r) ∷ d) = insert_item p r (sort_items d)

-- `reports`: what it lists, and the service after it. The age of a listed report is `age_s`.
unfoldable pub reports : {F : Type 0} → PhonePing F → ℕ → Dict Peer (Report F) × PhonePing F
unfolding report_ttl stale_peers sort_items
reports s now =
    let kept = remove_all s.reports (stale_peers (report_ttl s) now s.reports) in
    (sort_items kept, record s { reports = kept })

-- int(now - r["received_at"])
unfoldable pub age_s : {F : Type 0} → ℕ → Report F → ℕ
age_s now r = (now - r.received_at) / ticks_per_s

module _ (j : Json) where
  unfoldable pub encode_ping : PhonePing j.Float → Bytes
  encode_ping s =
      phone_ping_magic
      ++ j.dumps (
          object (
            field (codes "t") (text (codes "ping")) (
              optional_field text (codes "node_name") s.node_name (
                optional_field real (codes "node_lat") s.node_lat
                  (optional_field real (codes "node_lon") s.node_lon no_fields)))))

  abbrev pub optional : {A : Type 0} → (A → Value j.Float) → Option A → Value j.Float
  optional make none = null
  optional make (some a) = make a

  unfoldable pub pong_fields :
      Option j.Float → Option j.Float → Option ℤ → Option Bool → Fields j.Float
  pong_fields lat lon battery charging = field (codes "t") (text (codes "pong")) (
      field (codes "lat") (optional real lat) (
        field (codes "lon") (optional real lon) (
          field (codes "battery") (optional integer battery)
            (optional_field boolean (codes "charging") charging no_fields))))

  unfoldable pub encode_pong : Option j.Float → Option j.Float → Option ℤ → Option Bool → Bytes
  unfolding pong_fields
  encode_pong lat lon battery charging =
      phone_ping_magic ++ j.dumps (object (pong_fields lat lon battery charging))

  with_t : Option (Value j.Float) → Option (Fields j.Float)
  with_t (some (object fs)) = if is_some (field_of fs (codes "t")) then some fs else none
  with_t _ = none

  unfoldable pub decode : Bytes → Option (Fields j.Float)
  unfolding is_telemetry_frame with_t
  decode frame =
      if not (is_telemetry_frame frame)
      then none
      else with_t (j.loads_utf8 (drop (length phone_ping_magic) frame))

  -- `_as_float` and `_as_int` of `body.get(…)`; the outer `none` is an exception
  unfoldable pub as_float : Option (Value j.Float) → Option (Option j.Float)
  as_float (some (real x)) = some (some x)
  as_float (some (integer n)) = elim (j.float_of_int n) [ none ↦ none | some x ↦ some (some x) ]
  as_float _ = some none

  int_or_raise : Whole → Option (Option ℤ)
  int_or_raise (whole n) = some (some n)
  int_or_raise value_error = none
  int_or_raise overflow_error = none

  unfoldable pub as_int : Option (Value j.Float) → Option (Option ℤ)
  unfolding int_or_raise
  as_int (some (integer n)) = some (some n)
  as_int (some (real x)) = int_or_raise (j.int_of_float x)
  as_int _ = some none

  abbrev as_bool : Option (Value j.Float) → Option Bool
  as_bool (some (boolean b)) = some b
  as_bool _ = none

  abbrev is_text : Text → Option (Value j.Float) → Bool
  is_text t (some (text u)) = u == t
  is_text t _ = false

  -- The report that a pong makes; `none` where a conversion raises.
  unfoldable pub report_of : Fields j.Float → ℕ → Option (Report j.Float)
  unfolding as_float as_int
  report_of fs now = elim (as_float (field_of fs (codes "lat"))) [
    | none ↦ none
    | some lat ↦ elim (as_float (field_of fs (codes "lon"))) [
      | none ↦ none
      | some lon ↦ elim (as_int (field_of fs (codes "battery"))) [
        | none ↦ none
        | some battery ↦ some (record {
          lat = lat;
          lon = lon;
          battery = battery;
          charging = as_bool (field_of fs (codes "charging"));
          received_at = now;
        })
      ]
    ]
  ]

  -- What a frame brings: nothing, a report, or an exception that leaves `handle_frame`.
  pub data Pong : Type 0 where
    ignored : Pong
    reported : Report j.Float → Pong
    failed : Pong

  unfoldable pub pong_of : ℕ → Bytes → Pong
  unfolding decode report_of
  pong_of now frame = elim (decode frame) [
    | none ↦ ignored
    | some fs ↦
        if not (is_text (codes "pong") (field_of fs (codes "t")))
        then ignored
        else elim (report_of fs now) [ none ↦ failed | some r ↦ reported r ]
  ]

  unfoldable pub handle_pong : PhonePing j.Float → Peer → Pong → PhonePing j.Float × Bool
  handle_pong s peer ignored = (s, false)
  handle_pong s peer (reported r) = (record s { reports = put s.reports peer r }, false)
  handle_pong s peer failed = (s, true)

  -- `handle_frame`, and whether it raises
  unfoldable pub handle_frame : PhonePing j.Float → ℕ → Peer → Bytes → PhonePing j.Float × Bool
  unfolding pong_of handle_pong
  handle_frame s now peer frame = handle_pong s peer (pong_of now frame)

  -- `ping_peer` and `ping_all`: the sends that are tried, each of which may fail on its own
  unfoldable pub ping_peer : PhonePing j.Float → Peer → List (Peer × Bytes)
  unfolding encode_ping
  ping_peer s peer = (peer, encode_ping s) ∷ []

  unfoldable pub ping_all : PhonePing j.Float → List Peer → List (Peer × Bytes)
  unfolding ping_peer
  ping_all s [] = []
  ping_all s (peer ∷ ps) = ping_peer s peer ++ ping_all s ps

  -- The timer of a connected phone is pending until it fires.
  unfoldable pub on_peer_connected : PhonePing j.Float → Peer → PhonePing j.Float
  on_peer_connected s peer = record s { connect_timers = peer ∷ s.connect_timers }

  -- `_fire_connect_ping` of a pending timer
  unfoldable pub fire_connect_ping : PhonePing j.Float → Peer → List (Peer × Bytes)
  unfolding ping_peer
  fire_connect_ping s peer = if s.stopped then [] else ping_peer s peer

  unfoldable pub stop : PhonePing j.Float → PhonePing j.Float
  stop s = record s { stopped = true; connect_timers = [] }
