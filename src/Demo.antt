-- ===== src/Demo.antt =====
-- The two-node demonstration (scripts/demo_phase5_attestation.py): nodes with phones in memory, joined by the
-- backhaul on one machine.
pub mod Calls
pub mod Broadcast
use meshlink_node.Prelude.{
  Bool, Bytes, Dict, List, Option, Text, [], codes, false, get, get_elem?, if◌then◌else◌, is_some,
  keys, none, not, pos, put, some, true, ℕ, ℤ, ◌&&◌, ◌*◌, ◌++◌, ◌+◌, ◌==◌, ◌∷◌, nat_eq, list_eq,
  int_eq,
}
use meshlink_node.Gatt.{Peer}
use meshlink_node.Framing.{slice}
use meshlink_node.ZoneTable.{ZoneTable, new_table}
use meshlink_node.Location.Core.{Core}
use meshlink_node.Location.Service.{Signer}
use meshlink_node.Backhaul.Udp.{
  Addr, host_port, BatmanBackhaul, Datagram, Endpoint, Inbound, to_control, to_data, receive,
}
use meshlink_node.Backhaul.Udp
use meshlink_node.Relay.Parts.{
  Pipeline, Effect, ping_frame, proxy_frame, send, forward_to_zone, broadcast_to_all_nodes,
  broadcast_zone, zero_stats, Moment, NodeRelay,
}
use meshlink_node.Relay
use meshlink_node.Node.{settled}

-- What each phone was sent, in order.
pub record PhoneTransport : Type 0 where
  pub inboxes : Dict Peer (List Bytes)
  pub callback : Bool

unfoldable pub empty_inboxes : List Peer → Dict Peer (List Bytes) → Dict Peer (List Bytes)
unfolding put
empty_inboxes [] d = d
empty_inboxes (q ∷ qs) d = empty_inboxes qs (put d q [])

-- `send`, with its KeyError
unfoldable pub phone_send : PhoneTransport → Peer → Bytes → Option PhoneTransport
unfolding put
phone_send t q b = elim (get t.inboxes q) [
  | none ↦ none
  | some bs ↦ some (record t { inboxes = put t.inboxes q (bs ++ b ∷ []) })
]

pub record DemoNode (p : Pipeline) (F : Type 0) : Type 0 where
  pub relay : NodeRelay p
  pub phones : PhoneTransport
  pub backhaul : BatmanBackhaul F
  pub table : ZoneTable ℤ (Addr F)

unfoldable pub demo_zone_table : {F : Type 0} → Dict ℤ (Addr F)
demo_zone_table =
    (pos 1, host_port (codes "127.0.0.1", 19801))
    ∷ (pos 2, host_port (codes "127.0.0.1", 19802))
    ∷ []

-- The node, its callbacks set, with pipelines in some state and the default port of the backhaul
-- and the codec of host names; or the
-- KeyError for a zone without an address.
unfoldable pub start_node :
    {p : Pipeline} {F : Type 0}
    → ℕ
    → List Peer
    → p.State
    → ℕ
    → (Text → Bool)
    → Option (DemoNode p F)
unfolding demo_zone_table empty_inboxes new_table
start_node zone phones core port idna = elim (get demo_zone_table (pos zone)) [
  | none ↦ none
  | some own ↦ elim (get demo_zone_table (if zone == 1 then pos 2 else pos 1)) [
    | none ↦ none
    | some other ↦ some (record {
      relay = record {
        setup = record {
          own_zone_id = zone;
          enforces_attestation = true;
          has_phone_ping = false;
          has_backend_proxy = false;
        };
        core = core;
        location = none;
        stats = zero_stats;
      };
      phones = record { inboxes = empty_inboxes phones []; callback = true };
      backhaul = record {
        zone_id = zone;
        own_addr = own;
        broadcast_addr = other;
        udp_port = port;
        idna = idna;
        data_cb = true;
        control_cb = false;
      };
      table = new_table (pos zone) (some demo_zone_table) 180000000;
    })
  ]
]

-- After some calls, with the one that raised, if any.
pub record DemoRan (p : Pipeline) (F : Type 0) : Type 0 where
  pub node : DemoNode p F
  pub datagrams : List Datagram
  pub failed : Option Effect

module _ {p : Pipeline} {F : Type 0} where
  abbrev with_datagrams : List Datagram → DemoRan p F → DemoRan p F
  with_datagrams ds r = record r { datagrams = ds ++ r.datagrams }

  -- The relay's calls, until one raises.
  unfoldable pub demo_perform : DemoNode p F → ℕ → List Effect → DemoRan p F
  unfolding phone_send
  demo_perform n now [] = record { node = n; datagrams = []; failed = none }
  demo_perform n now (ping_frame q b ∷ es) = demo_perform n now es
  demo_perform n now (proxy_frame q b ∷ es) = demo_perform n now es
  demo_perform n now (send q b ∷ es) = elim (phone_send n.phones q b) [
    | none ↦ record { node = n; datagrams = []; failed = some (send q b) }
    | some t ↦ demo_perform (record n { phones = t }) now es
  ]
  demo_perform n now (forward_to_zone z b ∷ es) =
      let rest = demo_perform n now es in
      elim (Udp.forward_to_zone n.backhaul n.table now z b) [
        | none ↦ record { node = n; datagrams = []; failed = some (forward_to_zone z b) }
        | some ds ↦ with_datagrams ds rest
      ]
  demo_perform n now (broadcast_to_all_nodes b ∷ es) =
      let rest = demo_perform n now es in
      elim (Udp.broadcast_to_all_nodes n.backhaul b) [
        | none ↦ record { node = n; datagrams = []; failed = some (broadcast_to_all_nodes b) }
        | some ds ↦ with_datagrams ds rest
      ]

  abbrev pub demo_moment : DemoNode p F → Moment → Moment
  demo_moment n m = record m { list_peers = keys n.phones.inboxes }

  -- A packet at the relay: the node, its datagrams, and whether the handler returned.
  unfoldable pub demo_packet :
      Core → Signer → DemoNode p F → Moment → ℕ → Peer → Bytes → DemoNode p F × List Datagram × Bool
  unfolding demo_perform settled
  demo_packet c k n m now from raw =
      let h = Relay.handle_packet c k p n.relay (demo_moment n m) from raw in
      let ran = demo_perform (record n { relay = h.relay }) now h.effects in
      let stats' = settled n.relay.stats h.relay.stats from ran.failed in
      (
        record ran.node { relay = record ran.node.relay { stats = stats' } },
        ran.datagrams,
        not (is_some ran.failed) && not h.raises,
      )

  -- `inject`: the exceptions of the handler reach the script, and a callback that is not set is one.
  unfoldable pub inject :
      Core → Signer → DemoNode p F → Moment → ℕ → Peer → Bytes → DemoNode p F × List Datagram × Bool
  unfolding demo_packet
  inject c k n m now phone raw =
      if n.phones.callback then demo_packet c k n m now phone raw else (n, [], false)

  unfoldable pub demo_deliver :
      Core → Signer → DemoNode p F → Moment → ℕ → List Inbound → DemoNode p F × List Datagram
  unfolding demo_packet
  demo_deliver c k n m now [] = (n, [])
  demo_deliver c k n m now (to_control q b ∷ is) = demo_deliver c k n m now is
  demo_deliver c k n m now (to_data q b ∷ is) =
      let (n', ds, returned) = demo_packet c k n m now q b in
      let (n'', more) = demo_deliver c k n' m now is in (n'', ds ++ more)

  unfoldable pub demo_datagram :
      Core
      → Signer
      → DemoNode p F
      → Moment
      → ℕ
      → Endpoint
      → Text
      → Bytes
      → DemoNode p F × List Datagram
  unfolding demo_deliver
  demo_datagram c k n m now from digits raw =
      demo_deliver c k n m now (receive n.backhaul from digits raw)

-- `Device.packet`
unfoldable pub device_packet : Signer → ℕ → Bytes → Bytes
device_packet k type payload = k.build_signed_packet 5 1 broadcast_zone type payload

-- int.from_bytes(b, "big")
unfoldable pub int_from_bytes : ℕ → Bytes → ℕ
int_from_bytes acc [] = acc
int_from_bytes acc (b ∷ bs) = int_from_bytes (acc * 256 + b) bs

-- The texts of node 2's summary, from a decoder that replaces; an IndexError on a packet without a type.
unfoldable pub texts_of : (Bytes → Text) → List Bytes → Option (List Text)
unfolding int_from_bytes
texts_of decode_replace [] = some []
texts_of decode_replace (p ∷ ps) =
    let rest = texts_of decode_replace ps in
    elim (get_elem? p 72) [
      | none ↦ none
      | some type ↦ elim rest [
        | none ↦ none
        | some ts ↦
            let n = int_from_bytes 0 (slice p 73 75) in
            if type == 1 then some (decode_replace (slice p 75 (75 + n)) ∷ ts) else some ts
      ]
    ]
