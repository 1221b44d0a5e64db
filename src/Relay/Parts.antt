-- ===== src/Relay/Parts.antt =====
-- What the relay is made of (node/relay.py): its state and counters, the effects that it asks other
-- components for, and the steps of `_handle_packet` after the pipeline.
use meshlink_node.Prelude.{
  Bool, Bytes, List, Option, Text, [], codes, drop, false, get_elem?, if◌then◌else◌, is_some, ltb,
  map, none, not, some, starts_with, take, true, ℕ, ◌++◌, ◌+◌, ◌-◌, ◌==◌, ◌∷◌, nat_eq, list_eq,
}
use meshlink_node.Gatt.{Peer}
use meshlink_node.Directory.{Directory}
use meshlink_node.Location.Core.{Message}
use meshlink_node.Location.Service.{LocationService, Clocks, Terminated}

abbrev pub phone_ping_magic : Bytes
phone_ping_magic = codes "MLPP1"

abbrev pub backend_proxy_magic : Bytes
backend_proxy_magic = codes "MLBP1"

unfoldable pub is_telemetry_frame : Bytes → Bool
is_telemetry_frame raw = starts_with raw phone_ping_magic

unfoldable pub is_backend_proxy_frame : Bytes → Bool
is_backend_proxy_frame raw = starts_with raw backend_proxy_magic

-- MSG_TYPE_ATTESTATION_PRESENT of node/attestation/__init__.py
abbrev pub msg_type_attestation_present : ℕ
msg_type_attestation_present = 6

abbrev pub broadcast_zone : ℕ
broadcast_zone = 0xffff

abbrev pub ttl_offset : ℕ
ttl_offset = 68

-- An IndexError on a packet that has no ttl byte, a ValueError of `bytes([-1])` on a ttl of 0.
unfoldable pub decrement_ttl : Bytes → Option Bytes
decrement_ttl raw = elim (get_elem? raw ttl_offset) [
  | none ↦ none
  | some ttl ↦
      if ttl == 0 then none else some (take ttl_offset raw ++ (ttl - 1) ∷ drop (ttl_offset + 1) raw)
]

-- PipelineResult: a drop, or the message and the step-8 forward copy if there is one.
pub data PipelineResult : Type 0 where
  drops : PipelineResult
  delivers : Message → Option Bytes → PipelineResult

-- What the relay calls in meshlink-core. `State` holds both pipelines and the attestation cache, which
-- they share; `add_token` returns or raises ValueError.
pub record Pipeline : Type 1 where
  pub State : Type 0
  pub process : State → Bytes → PipelineResult × State
  pub process_presentation : State → Bytes → PipelineResult × State
  pub add_token : State → Text → Option Bytes × State
  pub parse_packet : Bytes → Option Message

-- The traffic counters.
pub record Stats : Type 0 where
  pub received : ℕ
  pub accepted : ℕ
  pub dropped : ℕ
  pub relayed_to_phones : ℕ
  pub forwarded_cross_zone : ℕ
  pub broadcast_to_nodes : ℕ
  pub attestations_cached : ℕ
  pub location_terminated : ℕ

abbrev pub zero_stats : Stats
zero_stats = record {
  received = 0;
  accepted = 0;
  dropped = 0;
  relayed_to_phones = 0;
  forwarded_cross_zone = 0;
  broadcast_to_nodes = 0;
  attestations_cached = 0;
  location_terminated = 0;
}

pub data Effect : Type 0 where
  ping_frame : Peer → Bytes → Effect
  proxy_frame : Peer → Bytes → Effect
  send : Peer → Bytes → Effect
  forward_to_zone : ℕ → Bytes → Effect
  broadcast_to_all_nodes : Bytes → Effect

-- Which collaborators are set, and the node's zone.
pub record Setup : Type 0 where
  pub own_zone_id : ℕ
  pub enforces_attestation : Bool
  pub has_phone_ping : Bool
  pub has_backend_proxy : Bool

-- What the relay reads elsewhere while it handles one packet.
pub record Moment : Type 0 where
  pub list_peers : List Peer
  pub directory : Directory
  pub clocks : Clocks

-- payload.decode("ascii")
unfoldable pub decode_ascii : Bytes → Option Text
decode_ascii [] = some []
decode_ascii (b ∷ bs) =
    let rest = decode_ascii bs in
    if ltb b 128 then elim rest [ none ↦ none | some t ↦ some (b ∷ t) ] else none

pub record NodeRelay (p : Pipeline) : Type 0 where
  pub setup : Setup
  pub core : p.State
  pub location : Option LocationService
  pub stats : Stats

-- After a packet: the relay, what it asked for, and whether an exception left the handler.
pub record Handled (p : Pipeline) : Type 0 where
  pub relay : NodeRelay p
  pub effects : List Effect
  pub raises : Bool

-- The relay's sends to every listed peer but the one that the packet came from.
unfoldable pub fan_out : List Peer → Peer → Bytes → List Effect
fan_out [] peer b = []
fan_out (q ∷ qs) peer b =
    let rest = fan_out qs peer b in if q == peer then rest else send q b ∷ rest

-- The backhaul call for a packet of some zone.
unfoldable pub cross_zone : ℕ → ℕ → Bytes → List Effect
cross_zone own zone raw =
    if zone == broadcast_zone
    then broadcast_to_all_nodes raw ∷ []
    else if not (zone == own)
    then forward_to_zone zone raw ∷ []
    else []

-- The counter that goes with it, on the path of accepted messages.
unfoldable pub count_zone : ℕ → ℕ → Stats → Stats
count_zone own zone st =
    if zone == broadcast_zone
    then record st { broadcast_to_nodes = st.broadcast_to_nodes + 1 }
    else if not (zone == own)
    then record st { forwarded_cross_zone = st.forwarded_cross_zone + 1 }
    else st

-- The end of `_handle_packet`: the copy for the local cell, from `forward` or by `decrement_ttl`.
unfoldable pub relay_copy : Bytes → Option Bytes → Option Bytes
unfolding decrement_ttl
relay_copy raw none = decrement_ttl raw
relay_copy raw (some b) = some b

abbrev pub send_all : List (Peer × Bytes) → List Effect
send_all ps = map (λ q. send q.0 q.1) ps

module _ {p : Pipeline} where
  abbrev pub counted : NodeRelay p → Stats → NodeRelay p
  counted r st = record r { stats = st }

  -- self._count("received"), self._count("accepted")
  abbrev pub received_one : NodeRelay p → NodeRelay p
  received_one r = counted r (record r.stats { received = r.stats.received + 1 })

  abbrev pub accepted_one : NodeRelay p → NodeRelay p
  accepted_one r = counted r (record r.stats { accepted = r.stats.accepted + 1 })

  -- `if relayed[_TTL_OFFSET] > 0:` and its block. The log line after the sends reads the spray byte.
  unfoldable pub relay_local : NodeRelay p → List Peer → Peer → Option Bytes → Handled p
  unfolding fan_out
  relay_local r peers peer none = record { relay = r; effects = []; raises = true }
  relay_local r peers peer (some b) = elim (get_elem? b ttl_offset) [
    | none ↦ record { relay = r; effects = []; raises = true }
    | some ttl ↦
        if ltb 0 ttl
        then record {
          relay = counted r (record r.stats { relayed_to_phones = r.stats.relayed_to_phones + 1 });
          effects = fan_out peers peer b;
          raises = not (is_some (get_elem? b (ttl_offset + 1)));
        }
        else record { relay = r; effects = []; raises = false }
  ]

  abbrev pub after_effects : List Effect → Handled p → Handled p
  after_effects fx h = record h { effects = fx ++ h.effects }

  -- From the zone test to the end.
  unfoldable pub relay_onward :
      NodeRelay p → Moment → Peer → Bytes → Message → Option Bytes → Handled p
  unfolding cross_zone count_zone relay_copy relay_local
  relay_onward r m peer raw msg forward =
      let own = r.setup.own_zone_id in
      after_effects (cross_zone own msg.zone_id raw) (
        relay_local (counted r (count_zone own msg.zone_id r.stats)) m.list_peers peer
          (relay_copy raw forward))

  -- What follows `handle_node_terminated`.
  unfoldable pub after_location :
      NodeRelay p
      → Moment
      → Peer
      → Bytes
      → Message
      → Option Bytes
      → Terminated
      → Option Bool
      → Handled p
  unfolding relay_onward
  after_location r m peer raw msg forward t none = record {
    relay = record r { location = some t.service };
    effects = send_all t.sends;
    raises = true;
  }
  after_location r m peer raw msg forward t (some true) = record {
    relay = record r {
      location = some t.service;
      stats = record r.stats { location_terminated = r.stats.location_terminated + 1 };
    };
    effects = send_all t.sends;
    raises = false;
  }
  after_location r m peer raw msg forward t (some false) =
      after_effects (send_all t.sends)
        (relay_onward (record r { location = some t.service }) m peer raw msg forward)
