-- ===== src/Location/Service.antt =====
-- The service that the relay calls with each accepted message (node/location/service.py).
use meshlink_node.Prelude.{
  Bool, Bytes, List, Option, [], false, if◌then◌else◌, none, some, true, ℕ, ◌==◌, ◌∷◌, nat_eq,
  list_eq, pair_eq,
}
use meshlink_node.Gatt.{Peer}
use meshlink_node.Directory.{Directory}
use meshlink_node.Location.Store.{LocationStore, update_row}
use meshlink_node.Location.Core.{Message, Core}
use meshlink_node.Location.Authz.{
  Answer, served, failed, refused, raised, Authz, handle_query, handle_revoke,
}

-- MessageType and `build_signed_packet` of meshlink-core, the latter at the node's own identity and
-- its ephem_id: ttl, spray_l, zone_id, msg_type and payload are left.
pub record Signer : Type 0 where
  pub location_type : ℕ
  pub query_type : ℕ
  pub revoke_type : ℕ
  pub response_type : ℕ
  pub build_signed_packet : ℕ → ℕ → ℕ → ℕ → Bytes → Bytes

abbrev pub response_ttl : ℕ
response_ttl = 3

abbrev pub response_spray_l : ℕ
response_spray_l = 8

pub record LocationService : Type 0 where
  pub rows : LocationStore
  pub authz : Authz
  pub own_zone : ℕ

-- The readings that one call takes of the clocks: the check's, the store's when it computes an age,
-- and the store's when it takes a beacon.
pub record Clocks : Type 0 where
  pub check : ℕ
  pub age : ℕ
  pub beacon : ℕ

-- What a call returns: whether the message is consumed (`none` where it raises), and what it sends.
pub record Terminated : Type 0 where
  pub service : LocationService
  pub consumed : Option Bool
  pub sends : List (Peer × Bytes)

module _ (c : Core) (k : Signer) where
  unfoldable pub ingest_beacon : LocationService → ℕ → Message → LocationService
  ingest_beacon s now msg = elim (c.decode_beacon msg.payload) [
    | none ↦ s
    | some fix ↦ record s { rows = update_row s.rows now msg.sender_key fix msg.zone_id }
  ]

  -- The response to a served query goes back over the requester's session.
  unfoldable pub answer_query : LocationService → Peer → Answer × Authz → Terminated
  answer_query s peer (served payload, z) = record {
    service = record s { authz = z };
    consumed = some false;
    sends =
        (
          peer,
          k.build_signed_packet response_ttl response_spray_l s.own_zone k.response_type payload,
        )
        ∷ [];
  }
  answer_query s peer (failed (refused r), z) = record {
    service = record s { authz = z };
    consumed = some false;
    sends = [];
  }
  answer_query s peer (failed raised, z) = record {
    service = record s { authz = z };
    consumed = none;
    sends = [];
  }

  unfoldable pub handle_node_terminated :
      LocationService → Directory → Clocks → Peer → Message → Terminated
  unfolding ingest_beacon answer_query
  handle_node_terminated s d t peer msg =
      if msg.msg_type == k.location_type
      then record { service = ingest_beacon s t.beacon msg; consumed = some true; sends = [] }
      else if msg.msg_type == k.query_type
      then answer_query s peer (handle_query c s.rows d s.authz t.check t.age msg)
      else if msg.msg_type == k.revoke_type
      then record {
        service = record s { authz = (handle_revoke c s.authz msg).1 };
        consumed = some false;
        sends = [];
      }
      else record { service = s; consumed = some false; sends = [] }
