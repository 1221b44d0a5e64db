-- ===== src/Relay/Onward.antt =====
-- What the relay asks for when it takes a packet on (node/relay.py).
use meshlink_node.Prelude.{
  All, Bool, Bool-cases, Bytes, List, Option, Option-cases, [], ap, arith, false, get_elem?, inl,
  inr, ltb, lt→ltb, none, refl, some, suc, ℕ, ◌++◌, ◌∙◌, ◌≡◌, nat_eq, list_eq,
}
use meshlink_node.Gatt.{Peer}
use meshlink_node.Location.Core.{Message, Core}
use meshlink_node.Location.Service.{Signer, LocationService, Terminated, handle_node_terminated}
use meshlink_node.Relay.Parts.{
  Pipeline, delivers, Effect, Moment, NodeRelay, ttl_offset, fan_out, cross_zone, relay_copy,
  relay_local, relay_onward, after_location, send_all, counted, count_zone, received_one,
  accepted_one,
}
use meshlink_node.Relay.{after_pipeline, handle_packet}
use meshlink_node.Relay.Traffic.{ReachesPipeline, handle_packet-piped}
use meshlink_node.Relay.Delivery.{
  IsSend, fan_out-IsSend, NotTerminated, terminated, NotTerminated-terminated,
}

module _ (c : Core) (k : Signer) {p : Pipeline} (m : Moment) (from : Peer) (raw : Bytes) where
  -- The relay's calls for other nodes, and then those for the listed phones.
  abbrev pub onward : NodeRelay p → Message → Bytes → List Effect
  onward r msg b = cross_zone r.setup.own_zone_id msg.zone_id raw ++ fan_out m.list_peers from b

  relay_onward-effects :
      (r : NodeRelay p) (msg : Message) (forward : Option Bytes) (b : Bytes) (t : ℕ)
      → relay_copy raw forward ≡ some b
      → get_elem? b ttl_offset ≡ some (suc t)
      → (relay_onward r m from raw msg forward).effects ≡ onward r msg b
  unfolding relay_onward relay_local
  relay_onward-effects r msg forward b t copied above =
      rw (copied, relay_local, above, lt→ltb 0 (suc t) (omega arith))

  after_location-effects :
      (r : NodeRelay p) (msg : Message) (forward : Option Bytes) (b : Bytes) (t : ℕ)
      (u : Terminated) (o : Option Bool)
      → o ≡ some false
      → relay_copy raw forward ≡ some b
      → get_elem? b ttl_offset ≡ some (suc t)
      → (after_location r m from raw msg forward u o).effects ≡ send_all u.sends ++ onward r msg b
  unfolding after_location
  after_location-effects r msg forward b t u o e copied above = rw e (
      ap (λ es. send_all u.sends ++ es)
        (relay_onward-effects (record r { location = some u.service }) msg forward b t copied
          above))

  after_pipeline-effects :
      (r : NodeRelay p) (msg : Message) (forward : Option Bytes) (b : Bytes) (t : ℕ)
      → (l : Option LocationService) (answers : List (Peer × Bytes))
      → terminated c k l m from msg ≡ (answers, some false)
      → relay_copy raw forward ≡ some b
      → get_elem? b ttl_offset ≡ some (suc t)
      → (after_pipeline c k p r m from raw (delivers msg forward) l).effects
        ≡ send_all answers ++ onward r msg b
  unfolding after_pipeline
  after_pipeline-effects r msg forward b t none answers e copied above =
      relay_onward-effects (accepted_one r) msg forward b t copied above
      ∙ ap (λ (z : List (Peer × Bytes) × Option Bool). send_all z.0 ++ onward r msg b) e
  after_pipeline-effects r msg forward b t (some s) answers e copied above =
      let u = handle_node_terminated c k s m.directory m.clocks from msg in
      let sends : u.sends ≡ answers = ap (λ z. z.0) e in
      after_location-effects (accepted_one r) msg forward b t u u.consumed (ap (λ z. z.1) e) copied
        above
      ∙ ap (λ z. send_all z ++ onward r msg b) sends

  -- The calls for a packet that the pipeline accepts and that the location service lets pass.
  pub handle_packet-effects :
      (r : NodeRelay p) (msg : Message) (forward : Option Bytes) (core : p.State)
      (answers : List (Peer × Bytes)) (b : Bytes) (t : ℕ)
      → ReachesPipeline c k r m from raw
      → p.process r.core raw ≡ (delivers msg forward, core)
      → terminated c k r.location m from msg ≡ (answers, some false)
      → relay_copy raw forward ≡ some b
      → get_elem? b ttl_offset ≡ some (suc t)
      → (handle_packet c k p r m from raw).effects ≡ send_all answers ++ onward r msg b
  handle_packet-effects r msg forward core answers b t n e passes copied above =
      rw (handle_packet-piped c k r m from raw n (delivers msg forward) core e) (
        after_pipeline-effects (record (received_one r) { core = core }) msg forward b t r.location
          answers passes copied above)

  relay_local-IsSend :
      (r : NodeRelay p) (b : Option Bytes) → All IsSend (relay_local r m.list_peers from b).effects
  unfolding relay_local
  relay_local-IsSend r none = tt
  relay_local-IsSend r (some b) = elim (Option-cases (get_elem? b ttl_offset)) [
    | inl e ↦ rw (e, relay_local) tt
    | inr (t, e) ↦ elim (Bool-cases (ltb 0 t)) [
      | inl l ↦ rw (e, relay_local, l) (fan_out-IsSend m.list_peers from b)
      | inr l ↦ rw (e, relay_local, l) tt
    ]
  ]

  relay_onward-split :
      (r : NodeRelay p) (msg : Message) (forward : Option Bytes)
      → (es : List Effect) × All IsSend es
        × ((relay_onward r m from raw msg forward).effects
            ≡ cross_zone r.setup.own_zone_id msg.zone_id raw ++ es)
  unfolding relay_onward
  relay_onward-split r msg forward =
      let own = r.setup.own_zone_id in
      let r' = counted r (count_zone own msg.zone_id r.stats) in
      let local = relay_copy raw forward in
      ((relay_local r' m.list_peers from local).effects, relay_local-IsSend r' local, refl)

  after_pipeline-split :
      (r : NodeRelay p) (msg : Message) (forward : Option Bytes) (l : Option LocationService)
      → terminated c k l m from msg ≡ ([], some false)
      → (es : List Effect) × All IsSend es
        × ((after_pipeline c k p r m from raw (delivers msg forward) l).effects
            ≡ cross_zone r.setup.own_zone_id msg.zone_id raw ++ es)
  unfolding after_pipeline after_location
  after_pipeline-split r msg forward none e = relay_onward-split (accepted_one r) msg forward
  after_pipeline-split r msg forward (some s) e =
      let u = handle_node_terminated c k s m.directory m.clocks from msg in
      let sends : u.sends ≡ [] = ap (λ z. z.0) e in
      let passed : u.consumed ≡ some false = ap (λ z. z.1) e in
      let (es, all, same) =
        relay_onward-split (record (accepted_one r) { location = some u.service }) msg forward in
      (es, all, rw (passed, sends) same)

  -- Whatever the copy, the calls for other nodes come first, and the rest are sends.
  pub handle_packet-onward :
      (r : NodeRelay p) (msg : Message) (forward : Option Bytes) (core : p.State)
      → ReachesPipeline c k r m from raw
      → p.process r.core raw ≡ (delivers msg forward, core)
      → NotTerminated k r.location msg
      → (es : List Effect) × All IsSend es
        × ((handle_packet c k p r m from raw).effects
            ≡ cross_zone r.setup.own_zone_id msg.zone_id raw ++ es)
  handle_packet-onward r msg forward core n e passes =
      rw (handle_packet-piped c k r m from raw n (delivers msg forward) core e) (
        after_pipeline-split (record (received_one r) { core = core }) msg forward r.location
          (NotTerminated-terminated c k r.location m from msg passes))
