-- ===== src/Relay/Routes.antt =====
-- Where packets may go (node/relay.py).
use meshlink_node.Prelude.{
  All, All-append, Bool, Bool-cases, Bytes, List, Option, Option-cases, [], arith, beq_refl,
  contains, false, get_elem?, inl, inr, lt→ltb, none, refl, some, suc, true, zero, ℕ, ◌&&◌, ◌++◌,
  ◌==◌, ◌∷◌, ◌≡◌, ◌≢◌, ◌⊎◌, nat_eq, list_eq,
}
use meshlink_node.Gatt.{Peer}
use meshlink_node.Directory.{Directory}
use meshlink_node.Location.Core.{Message, Core}
use meshlink_node.Location.Authz.{Answer, served, failed, refused, raised, Authz, handle_query}
use meshlink_node.Location.Service.{
  response_ttl, response_spray_l, Signer, LocationService, Clocks, Terminated, answer_query,
  handle_node_terminated,
}
use meshlink_node.Relay.Parts.{
  Pipeline, PipelineResult, drops, delivers, Effect, ping_frame, proxy_frame, send, forward_to_zone,
  broadcast_to_all_nodes, Moment, NodeRelay, Handled, ttl_offset, broadcast_zone, fan_out,
  cross_zone, count_zone, send_all, is_telemetry_frame, is_backend_proxy_frame, relay_copy,
  relay_local, relay_onward, after_location, counted, received_one, accepted_one,
}
use meshlink_node.Relay.{
  after_pipeline, after_token, after_presentation, handle_mesh_packet, handle_packet,
  is_attestation_presentation,
}

-- A packet that is sent in another phone's name: the phone is listed, is not the one that the packet came
-- from, and the ttl is above 0.
abbrev pub ForOther : List Peer → Peer → Peer → Bytes → Type 0
ForOther peers from q b =
    ((q == from) ≡ false)
    × (contains peers q ≡ true)
    × ((t : ℕ) × (get_elem? b ttl_offset ≡ some (suc t)))

-- The answer to a query, signed by the node.
abbrev pub IsAnswer : Signer → Bytes → Type 0
IsAnswer k b =
    (zone : ℕ) × (payload : Bytes) × (b
      ≡ k.build_signed_packet response_ttl response_spray_l zone k.response_type payload)

-- What the relay may ask for while it handles `raw` from a peer.
abbrev pub Allowed : Signer → ℕ → List Peer → Peer → Bytes → Effect → Type 0
Allowed k own peers from raw (ping_frame q b) =
    (q ≡ from) × (b ≡ raw) × (is_telemetry_frame raw ≡ true)
Allowed k own peers from raw (proxy_frame q b) =
    (q ≡ from) × (b ≡ raw) × (is_backend_proxy_frame raw ≡ true)
Allowed k own peers from raw (send q b) = ((q ≡ from) × IsAnswer k b) ⊎ ForOther peers from q b
Allowed k own peers from raw (forward_to_zone z b) = (z ≢ own) × (z ≢ broadcast_zone) × (b ≡ raw)
Allowed k own peers from raw (broadcast_to_all_nodes b) = b ≡ raw

module _ (k : Signer) (own : ℕ) (all_peers : List Peer) (from : Peer) (raw : Bytes) where
  abbrev pub AllowedAll : List Effect → Type 0
  AllowedAll = All (Allowed k own all_peers from raw)

  -- `qs` is what is left of the listed peers.
  fan_out-Allowed :
      (qs : List Peer) (b : Bytes) (t : ℕ)
      → ((q : Peer) → contains qs q ≡ true → contains all_peers q ≡ true)
      → get_elem? b ttl_offset ≡ some (suc t)
      → AllowedAll (fan_out qs from b)
  unfolding fan_out
  fan_out-Allowed [] b t sub e = tt
  fan_out-Allowed (q ∷ qs) b t sub e = elim (Bool-cases (q == from)) [
    | inl same ↦ rw same (fan_out-Allowed qs b t (λ x h. sub x (later q qs x h)) e)
    | inr other ↦ rw other (
      inr (other, sub q (rw (beq_refl q)), (t, e)),
      fan_out-Allowed qs b t (λ x h. sub x (later q qs x h)) e,
    )
  ]
    where
      later :
          (q : Peer) (qs : List Peer) (x : Peer) → contains qs x ≡ true → contains (q ∷ qs) x ≡ true
      later q qs x h = ground arith

  cross_zone-Allowed : (zone : ℕ) → AllowedAll (cross_zone own zone raw)
  unfolding cross_zone
  cross_zone-Allowed zone = elim (Bool-cases (zone == broadcast_zone)) [
    | inl b ↦ rw b (refl, tt)
    | inr b ↦ elim (Bool-cases (zone == own)) [
      | inl o ↦ rw (b, o) tt
      | inr o ↦ rw (b, o) ((ground arith, ground arith, refl), tt)
    ]
  ]

  send_all-Allowed :
      (ps : List (Peer × Bytes))
      → All (λ q. (q.0 ≡ from) × IsAnswer k q.1) ps
      → AllowedAll (send_all ps)
  send_all-Allowed [] h = tt
  send_all-Allowed (q ∷ ps) h = (inl h.0, send_all-Allowed ps h.1)

  relay_local-Allowed :
      {p : Pipeline} (r : NodeRelay p) (b : Option Bytes)
      → AllowedAll (relay_local r all_peers from b).effects
  unfolding relay_local
  relay_local-Allowed r none = tt
  relay_local-Allowed r (some b) = elim (Option-cases (get_elem? b ttl_offset)) [
    | inl e ↦ rw (e, relay_local) tt
    | inr (zero, e) ↦ rw (e, relay_local) tt
    | inr (suc t, e) ↦
        rw (e, relay_local, lt→ltb 0 (suc t) (omega arith))
          (fan_out-Allowed all_peers b t (λ q h. h) e)
  ]

  All-append_effects : (es fs : List Effect) → AllowedAll es → AllowedAll fs → AllowedAll (es ++ fs)
  All-append_effects es fs h j = All-append (Allowed k own all_peers from raw) es fs h j

module _ (k : Signer) {p : Pipeline} (m : Moment) (from : Peer) (raw : Bytes) where
  abbrev pub AllowedBy : NodeRelay p → Handled p → Type 0
  AllowedBy r h = All (Allowed k r.setup.own_zone_id m.list_peers from raw) h.effects

  relay_onward-Allowed :
      (r : NodeRelay p) (msg : Message) (f : Option Bytes)
      → AllowedBy r (relay_onward r m from raw msg f)
  unfolding relay_onward
  relay_onward-Allowed r msg f =
      let own = r.setup.own_zone_id in
      let r' = counted r (count_zone own msg.zone_id r.stats) in
      All-append_effects k own m.list_peers from raw (cross_zone own msg.zone_id raw) _
        (cross_zone-Allowed k own m.list_peers from raw msg.zone_id)
        (relay_local-Allowed k own m.list_peers from raw r' (relay_copy raw f))

  after_location-Allowed :
      (r : NodeRelay p) (msg : Message) (f : Option Bytes) (t : Terminated) (consumed : Option Bool)
      → All (λ q. (q.0 ≡ from) × IsAnswer k q.1) t.sends
      → AllowedBy r (after_location r m from raw msg f t consumed)
  unfolding after_location
  after_location-Allowed r msg f t none h =
      send_all-Allowed k r.setup.own_zone_id m.list_peers from raw t.sends h
  after_location-Allowed r msg f t (some true) h =
      send_all-Allowed k r.setup.own_zone_id m.list_peers from raw t.sends h
  after_location-Allowed r msg f t (some false) h =
      All-append_effects k r.setup.own_zone_id m.list_peers from raw (send_all t.sends) _
        (send_all-Allowed k r.setup.own_zone_id m.list_peers from raw t.sends h)
        (relay_onward-Allowed (record r { location = some t.service }) msg f)

module _ (c : Core) (k : Signer) where
  answer_query-sends :
      (s : LocationService) (peer : Peer) (a : Answer × Authz)
      → All (λ q. (q.0 ≡ peer) × IsAnswer k q.1) (answer_query c k s peer a).sends
  unfolding answer_query
  answer_query-sends s peer (served b, z) = ((refl, (s.own_zone, b, refl)), tt)
  answer_query-sends s peer (failed (refused r), z) = tt
  answer_query-sends s peer (failed raised, z) = tt

  -- The location service sends answers only, and to the requester's session only.
  pub handle_node_terminated-sends :
      (s : LocationService) (d : Directory) (t : Clocks) (peer : Peer) (msg : Message)
      → All (λ q. (q.0 ≡ peer) × IsAnswer k q.1) (handle_node_terminated c k s d t peer msg).sends
  unfolding handle_node_terminated
  handle_node_terminated-sends s d t peer msg =
      elim (Bool-cases (msg.msg_type == k.location_type)) [
        | inl a ↦ rw (a, handle_node_terminated) tt
        | inr a ↦ elim (Bool-cases (msg.msg_type == k.query_type)) [
          | inl b ↦
              rw (a, handle_node_terminated, b)
                (answer_query-sends s peer (handle_query c s.rows d s.authz t.check t.age msg))
          | inr b ↦ elim (Bool-cases (msg.msg_type == k.revoke_type)) [
            | inl e ↦ rw (a, handle_node_terminated, b, e) tt
            | inr e ↦ rw (a, handle_node_terminated, b, e) tt
          ]
        ]
      ]

module _ (c : Core) (k : Signer) {p : Pipeline} (m : Moment) (from : Peer) (raw : Bytes) where
  after_pipeline-Allowed :
      (r : NodeRelay p) (x : PipelineResult) (l : Option LocationService)
      → AllowedBy k m from raw r (after_pipeline c k p r m from raw x l)
  unfolding after_pipeline
  after_pipeline-Allowed r drops l = tt
  after_pipeline-Allowed r (delivers msg f) none =
      relay_onward-Allowed k m from raw (accepted_one r) msg f
  after_pipeline-Allowed r (delivers msg f) (some s) =
      let t = handle_node_terminated c k s m.directory m.clocks from msg in
      after_location-Allowed k m from raw (accepted_one r) msg f t t.consumed
        (handle_node_terminated-sends c k s m.directory m.clocks from msg)

  after_token-Allowed :
      (r : NodeRelay p) (zone : ℕ) (x : Option Bytes × p.State)
      → AllowedBy k m from raw r (after_token c k p r raw zone x)
  unfolding after_token
  after_token-Allowed r zone (none, core) = tt
  after_token-Allowed r zone (some key, core) =
      cross_zone-Allowed k r.setup.own_zone_id m.list_peers from raw zone

  after_presentation-Allowed :
      (r : NodeRelay p) (x : PipelineResult × p.State)
      → AllowedBy k m from raw r (after_presentation c k p r raw x)
  unfolding after_presentation
  after_presentation-Allowed r (drops, core) = tt
  after_presentation-Allowed r (delivers msg f, core) = after_token-Allowed r msg.zone_id _

  handle_mesh_packet-Allowed :
      (r : NodeRelay p) → AllowedBy k m from raw r (handle_mesh_packet c k p r m from raw)
  unfolding handle_mesh_packet
  handle_mesh_packet-Allowed r₀ =
      let r = received_one r₀ in
      let (result, core) = p.process r₀.core raw in
      elim (Bool-cases (r₀.setup.enforces_attestation && is_attestation_presentation c k p raw)) [
        | inl e ↦
            rw (e, handle_mesh_packet)
              (after_presentation-Allowed r (p.process_presentation r₀.core raw))
        | inr e ↦
            rw (e, handle_mesh_packet)
              (after_pipeline-Allowed (record r { core = core }) result r₀.location)
      ]

  -- Whatever the packet and the pipeline, of the relay's calls: a send that names the peer that the
  -- packet came from is of an answer that the node signed; a send that names another peer names a
  -- listed one, and the packet in it has a ttl above 0; the backhaul is given the packet as it
  -- came, and is asked to forward it only to a zone that is neither the node's own nor the
  -- broadcast zone; and the telemetry and proxy services are given frames with their own magic,
  -- with the peer that they came from.
  pub handle_packet-Allowed :
      (r : NodeRelay p) → AllowedBy k m from raw r (handle_packet c k p r m from raw)
  unfolding handle_packet
  handle_packet-Allowed r = elim (Bool-cases (is_telemetry_frame raw)) [
    | inl t ↦ elim (Bool-cases r.setup.has_phone_ping) [
      | inl on ↦ rw (t, handle_packet, on) ((refl, refl, t), tt)
      | inr off ↦ rw (t, handle_packet, off) tt
    ]
    | inr n ↦ elim (Bool-cases (is_backend_proxy_frame raw)) [
      | inl t ↦ elim (Bool-cases r.setup.has_backend_proxy) [
        | inl on ↦ rw (n, handle_packet, t, on) ((refl, refl, t), tt)
        | inr off ↦ rw (n, handle_packet, t, off) tt
      ]
      | inr t ↦ rw (n, handle_packet, t) (handle_mesh_packet-Allowed r)
    ]
  ]
