-- ===== src/Relay/Rows.antt =====
-- The location service of a relay has one row per identity at most, whatever packets come (node/relay.py,
-- node/location/service.py).
use meshlink_node.Prelude.{
  Bool, Bool-cases, Bytes, IsKeyed, List, Option, Option-cases, arith, false, get_elem?, inl, inr,
  ltb, none, put-IsKeyed, refl, some, subst, sym, true, ℕ, ◌&&◌, ◌==◌, ◌≡◌, nat_eq, list_eq,
}
use meshlink_node.Gatt.{Peer}
use meshlink_node.Directory.{Directory}
use meshlink_node.Location.Core.{Message, Core}
use meshlink_node.Location.Authz.{Answer, served, failed, refused, raised, Authz}
use meshlink_node.Location.Service.{
  Signer, Clocks, LocationService, Terminated, answer_query, ingest_beacon, handle_node_terminated,
}
use meshlink_node.Location.Store.{update_row}
use meshlink_node.Relay.Parts.{
  Pipeline, PipelineResult, drops, delivers, Moment, NodeRelay, count_zone, relay_copy, relay_local,
  relay_onward, after_location, counted, received_one, accepted_one, ttl_offset,
}
use meshlink_node.Relay.{
  after_pipeline, after_token, after_presentation, handle_mesh_packet, handle_packet,
  is_attestation_presentation,
}

abbrev pub HasOneRow : Option LocationService → Type 0
HasOneRow none = Unit
HasOneRow (some s) = IsKeyed s.rows

module _ (c : Core) (k : Signer) where
  ingest_beacon-IsKeyed :
      (s : LocationService) (now : ℕ) (msg : Message)
      → IsKeyed s.rows
      → IsKeyed (ingest_beacon c k s now msg).rows
  unfolding ingest_beacon update_row
  ingest_beacon-IsKeyed s now msg h = elim (Option-cases (c.decode_beacon msg.payload)) [
    | inl e ↦ rw (e, ingest_beacon) h
    | inr (fix, e) ↦ rw (e, ingest_beacon) (put-IsKeyed s.rows msg.sender_key _ h)
  ]

  answer_query-IsKeyed :
      (s : LocationService) (peer : Peer) (x : Answer × Authz)
      → IsKeyed s.rows
      → IsKeyed (answer_query c k s peer x).service.rows
  unfolding answer_query
  answer_query-IsKeyed s peer (served b, z) h = h
  answer_query-IsKeyed s peer (failed (refused r), z) h = h
  answer_query-IsKeyed s peer (failed raised, z) h = h

  handle_node_terminated-IsKeyed :
      (s : LocationService) (d : Directory) (t : Clocks) (peer : Peer) (msg : Message)
      → IsKeyed s.rows
      → IsKeyed (handle_node_terminated c k s d t peer msg).service.rows
  unfolding handle_node_terminated
  handle_node_terminated-IsKeyed s d t peer msg h =
      elim (Bool-cases (msg.msg_type == k.location_type)) [
        | inl e ↦ rw (e, handle_node_terminated) (ingest_beacon-IsKeyed s t.beacon msg h)
        | inr e ↦ elim (Bool-cases (msg.msg_type == k.query_type)) [
          | inl q ↦ rw (e, handle_node_terminated, q) (answer_query-IsKeyed s peer _ h)
          | inr q ↦ elim (Bool-cases (msg.msg_type == k.revoke_type)) [
            | inl v ↦ rw (e, handle_node_terminated, q, v) h
            | inr v ↦ rw (e, handle_node_terminated, q, v) h
          ]
        ]
      ]

module _ {p : Pipeline} where
  relay_local-location :
      (r : NodeRelay p) (peers : List Peer) (peer : Peer) (b : Option Bytes)
      → (relay_local r peers peer b).relay.location ≡ r.location
  unfolding relay_local
  relay_local-location r peers peer none = refl
  relay_local-location r peers peer (some b) = elim (Option-cases (get_elem? b ttl_offset)) [
    | inl e ↦ rw (e, relay_local)
    | inr (ttl, e) ↦ elim (Bool-cases (ltb 0 ttl)) [
      | inl u ↦ rw (e, relay_local, u)
      | inr u ↦ rw (e, relay_local, u)
    ]
  ]

  relay_onward-location :
      (r : NodeRelay p) (m : Moment) (peer : Peer) (raw : Bytes) (msg : Message) (f : Option Bytes)
      → (relay_onward r m peer raw msg f).relay.location ≡ r.location
  unfolding relay_onward
  relay_onward-location r m peer raw msg f =
      relay_local-location (counted r (count_zone r.setup.own_zone_id msg.zone_id r.stats))
        m.list_peers peer (relay_copy raw f)

  after_location-HasOneRow :
      (r : NodeRelay p) (m : Moment) (peer : Peer) (raw : Bytes) (msg : Message) (f : Option Bytes)
      (t : Terminated) (consumed : Option Bool)
      → IsKeyed t.service.rows
      → HasOneRow (after_location r m peer raw msg f t consumed).relay.location
  unfolding after_location
  after_location-HasOneRow r m peer raw msg f t none h = h
  after_location-HasOneRow r m peer raw msg f t (some true) h = h
  after_location-HasOneRow r m peer raw msg f t (some false) h =
      subst HasOneRow
        (sym (relay_onward-location (record r { location = some t.service }) m peer raw msg f)) h

  module _ (c : Core) (k : Signer) where
    after_pipeline-HasOneRow :
        (r : NodeRelay p) (m : Moment) (peer : Peer) (raw : Bytes) (x : PipelineResult)
        (l : Option LocationService)
        → HasOneRow r.location
        → HasOneRow l
        → HasOneRow (after_pipeline c k p r m peer raw x l).relay.location
    unfolding after_pipeline
    after_pipeline-HasOneRow r m peer raw drops l h i = h
    after_pipeline-HasOneRow r m peer raw (delivers msg f) none h i =
        subst HasOneRow (sym (relay_onward-location (accepted_one r) m peer raw msg f)) h
    after_pipeline-HasOneRow r m peer raw (delivers msg f) (some l) h i =
        let t = handle_node_terminated c k l m.directory m.clocks peer msg in
        after_location-HasOneRow (accepted_one r) m peer raw msg f t t.consumed
          (handle_node_terminated-IsKeyed c k l m.directory m.clocks peer msg i)

    after_token-location :
        (r : NodeRelay p) (raw : Bytes) (zone : ℕ) (x : Option Bytes × p.State)
        → (after_token c k p r raw zone x).relay.location ≡ r.location
    unfolding after_token
    after_token-location r raw zone (none, core) = refl
    after_token-location r raw zone (some key, core) = refl

    after_presentation-location :
        (r : NodeRelay p) (raw : Bytes) (x : PipelineResult × p.State)
        → (after_presentation c k p r raw x).relay.location ≡ r.location
    unfolding after_presentation
    after_presentation-location r raw (drops, core) = refl
    after_presentation-location r raw (delivers msg f, core) =
        after_token-location r raw msg.zone_id _

    handle_mesh_packet-HasOneRow :
        (r : NodeRelay p) (m : Moment) (peer : Peer) (raw : Bytes)
        → HasOneRow r.location
        → HasOneRow (handle_mesh_packet c k p r m peer raw).relay.location
    unfolding handle_mesh_packet
    handle_mesh_packet-HasOneRow r m peer raw h =
        let (result, core) = p.process r.core raw in
        elim (Bool-cases (r.setup.enforces_attestation && is_attestation_presentation c k p raw)) [
          | inl e ↦
              rw (e, handle_mesh_packet)
                (subst HasOneRow
                  (sym (
                    after_presentation-location (received_one r) raw
                      (p.process_presentation r.core raw)))
                  h)
          | inr e ↦
              rw (e, handle_mesh_packet)
                (after_pipeline-HasOneRow (record (received_one r) { core = core }) m peer raw
                  result r.location h h)
        ]

    pub handle_packet-HasOneRow :
        (r : NodeRelay p) (m : Moment) (peer : Peer) (raw : Bytes)
        → HasOneRow r.location
        → HasOneRow (handle_packet c k p r m peer raw).relay.location
    unfolding handle_packet
    handle_packet-HasOneRow r m peer raw h =
        ground (arith, handle_mesh_packet-HasOneRow r m peer raw h)
