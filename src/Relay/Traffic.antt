-- ===== src/Relay/Traffic.antt =====
-- What never reaches a phone (node/relay.py): control frames, beacons, presentations and drops.
use meshlink_node.Prelude.{
  All, Bool-cases, Bytes, Option, [], beq_refl, false, get-put, inl, inr, none, refl, some, true, ℕ,
  ◌&&◌, ◌==◌, ◌∙◌, ◌≡◌, ◌⊎◌, nat_eq, list_eq,
}
use meshlink_node.Gatt.{Peer}
use meshlink_node.Location.Store.{Fix, LocationRow, update_row, get_row}
use meshlink_node.Location.Core.{Message, Core}
use meshlink_node.Location.Service.{Signer, LocationService, ingest_beacon, handle_node_terminated}
use meshlink_node.Relay.Parts.{
  broadcast_zone, Pipeline, PipelineResult, drops, delivers, Effect, ping_frame, proxy_frame, send,
  Moment, NodeRelay, cross_zone, is_telemetry_frame, is_backend_proxy_frame, received_one,
}
use meshlink_node.Relay.{
  after_token, after_pipeline, after_token, after_presentation, handle_mesh_packet, handle_packet,
  is_attestation_presentation,
}

abbrev pub IsControl : Effect → Type 0
IsControl (ping_frame q b) = Unit
IsControl (proxy_frame q b) = Unit
IsControl _ = ⊥

abbrev NotToPhone : Effect → Type 0
NotToPhone (send q b) = ⊥
NotToPhone _ = Unit

module _ (c : Core) (k : Signer) {p : Pipeline} (r : NodeRelay p) (m : Moment) (from : Peer)
    (raw : Bytes) where
  -- A frame with the telemetry or the proxy magic goes to its service and nowhere else: the relay's
  -- state, its counters and the pipeline are as before.
  pub handle_packet-IsControl :
      (is_telemetry_frame raw ≡ true) ⊎ (is_backend_proxy_frame raw ≡ true)
      → let h = handle_packet c k p r m from raw in
        (h.relay ≡ r) × (h.raises ≡ false) × All IsControl h.effects
  unfolding handle_packet
  handle_packet-IsControl (inl t) = elim (Bool-cases r.setup.has_phone_ping) [
    | inl on ↦ rw (t, handle_packet, on) (refl, refl, (tt, tt))
    | inr off ↦ rw (t, handle_packet, off) (refl, refl, tt)
  ]
  handle_packet-IsControl (inr t) = elim (Bool-cases (is_telemetry_frame raw)) [
    | inl t' ↦ handle_packet-IsControl' t'
    | inr n ↦ elim (Bool-cases r.setup.has_backend_proxy) [
      | inl on ↦ rw (n, handle_packet, t, on) (refl, refl, (tt, tt))
      | inr off ↦ rw (n, handle_packet, t, off) (refl, refl, tt)
    ]
  ]
    where
      handle_packet-IsControl' :
          is_telemetry_frame raw ≡ true
          → let h = handle_packet c k p r m from raw in
            (h.relay ≡ r) × (h.raises ≡ false) × All IsControl h.effects
      handle_packet-IsControl' t = elim (Bool-cases r.setup.has_phone_ping) [
        | inl on ↦ rw (t, handle_packet, on) (refl, refl, (tt, tt))
        | inr off ↦ rw (t, handle_packet, off) (refl, refl, tt)
      ]

  -- The packet gets as far as the relay pipeline.
  pub record ReachesPipeline : Type 0 where
    pub not_telemetry : is_telemetry_frame raw ≡ false
    pub not_proxy : is_backend_proxy_frame raw ≡ false
    pub not_presented :
        (r.setup.enforces_attestation && is_attestation_presentation c k p raw) ≡ false

  pub handle_packet-piped :
      ReachesPipeline
      → (x : PipelineResult) (core : p.State) → p.process r.core raw ≡ (x, core)
      → handle_packet c k p r m from raw
        ≡ after_pipeline c k p (record (received_one r) { core = core }) m from raw x r.location
  unfolding handle_packet
  handle_packet-piped n x core e =
      rw (n.not_telemetry, handle_packet, n.not_proxy, n.not_presented, e)

  get-ingest_beacon :
      (s : LocationService) (msg : Message) (fix : Fix)
      → c.decode_beacon msg.payload ≡ some fix
      → get_row (ingest_beacon c k s m.clocks.beacon msg).rows msg.sender_key
        ≡ some (record {
          lat_microdeg = fix.lat;
          lon_microdeg = fix.lon;
          accuracy_m = fix.accuracy;
          zone_id = msg.zone_id;
          last_beacon_ts = m.clocks.beacon;
        })
  unfolding ingest_beacon get_row update_row
  get-ingest_beacon s msg fix decoded =
      let row : LocationRow = record {
        lat_microdeg = fix.lat;
        lon_microdeg = fix.lon;
        accuracy_m = fix.accuracy;
        zone_id = msg.zone_id;
        last_beacon_ts = m.clocks.beacon;
      } in
      rw (decoded, ingest_beacon)
        (get-put s.rows msg.sender_key msg.sender_key row ∙ rw (beq_refl msg.sender_key) refl)

  -- A beacon that the pipeline accepts and that decodes is stored as its sender's row, with the
  -- time and zone, and the relay asks for nothing: no phone and no node gets it.
  pub beacon-terminated :
      (s : LocationService) (msg : Message) (forward : Option Bytes) (core : p.State) (fix : Fix)
      → ReachesPipeline
      → p.process r.core raw ≡ (delivers msg forward, core)
      → r.location ≡ some s
      → msg.msg_type ≡ k.location_type
      → c.decode_beacon msg.payload ≡ some fix
      → let h = handle_packet c k p r m from raw in
        (h.effects ≡ [])
        × (h.raises ≡ false)
        × ((s' : LocationService) × (h.relay.location ≡ some s')
            × (get_row s'.rows msg.sender_key
                ≡ some (record {
                  lat_microdeg = fix.lat;
                  lon_microdeg = fix.lon;
                  accuracy_m = fix.accuracy;
                  zone_id = msg.zone_id;
                  last_beacon_ts = m.clocks.beacon;
                })))
  unfolding after_pipeline handle_node_terminated
  beacon-terminated s msg forward core fix n e has type decoded =
      let is_beacon : (msg.msg_type == k.location_type) ≡ true =
        rw type (beq_refl k.location_type) in
      rw (handle_packet-piped n (delivers msg forward) core e, has, is_beacon)
        (
          refl,
          refl,
          (ingest_beacon c k s m.clocks.beacon msg, refl, get-ingest_beacon s msg fix decoded),
        )

  -- A packet that the pipeline drops asks for nothing.
  pub dropped-silent :
      (core : p.State)
      → ReachesPipeline
      → p.process r.core raw ≡ (drops, core)
      → let h = handle_packet c k p r m from raw in
        (h.effects ≡ []) × (h.raises ≡ false) × (h.relay.location ≡ r.location)
  unfolding after_pipeline
  dropped-silent core n e = rw (handle_packet-piped n drops core e) (refl, refl, refl)

  cross_zone-NotToPhone : (own zone : ℕ) → All NotToPhone (cross_zone own zone raw)
  unfolding cross_zone
  cross_zone-NotToPhone own zone = elim (Bool-cases (zone == broadcast_zone)) [
    | inl e ↦ rw e (tt, tt)
    | inr e ↦ elim (Bool-cases (zone == own)) [ inl o ↦ rw (e, o) tt | inr o ↦ rw (e, o) (tt, tt) ]
  ]

  after_token-NotToPhone :
      (r : NodeRelay p) (zone : ℕ) (x : Option Bytes × p.State)
      → let h = after_token c k p r raw zone x in
        All NotToPhone h.effects × (h.raises ≡ false) × (h.relay.location ≡ r.location)
  unfolding after_token
  after_token-NotToPhone r zone (none, core) = (tt, refl, refl)
  after_token-NotToPhone r zone (some key, core) =
      (cross_zone-NotToPhone r.setup.own_zone_id zone, refl, refl)

  after_presentation-NotToPhone :
      (r : NodeRelay p) (x : PipelineResult × p.State)
      → let h = after_presentation c k p r raw x in
        All NotToPhone h.effects × (h.raises ≡ false) × (h.relay.location ≡ r.location)
  unfolding after_presentation
  after_presentation-NotToPhone r (drops, core) = (tt, refl, refl)
  after_presentation-NotToPhone r (delivers msg forward, core) =
      after_token-NotToPhone r msg.zone_id _

  -- A presentation, on a node that enforces attestation, goes to other nodes at most and never to a
  -- phone, raises nothing and leaves the location service alone.
  handle_packet-NotToPhone :
      is_telemetry_frame raw ≡ false
      → is_backend_proxy_frame raw ≡ false
      → (r.setup.enforces_attestation && is_attestation_presentation c k p raw) ≡ true
      → let h = handle_packet c k p r m from raw in
        All NotToPhone h.effects × (h.raises ≡ false) × (h.relay.location ≡ r.location)
  unfolding handle_packet handle_mesh_packet
  handle_packet-NotToPhone t b q =
      rw (t, handle_packet, b, handle_mesh_packet, q)
        (after_presentation-NotToPhone (received_one r) (p.process_presentation r.core raw))
