-- ===== src/Relay/Queries.antt =====
-- What the location service makes of a query, answered or not (node/location/service.py,
-- node/relay.py).
use meshlink_node.Prelude.{
  All, Bytes, List, [], ap, beq_ne, beq_refl, false, refl, some, sym, ◌++◌, ◌==◌, ◌∙◌, ◌∷◌, ◌≡◌,
  ◌≢◌, nat_eq, list_eq,
}
use meshlink_node.Gatt.{Peer}
use meshlink_node.Location.Core.{Message, Core}
use meshlink_node.Location.Authz.{Answer, served, failed, refused, raised, Authz, handle_query}
use meshlink_node.Location.Service.{Signer, LocationService, answer_query, handle_node_terminated}
use meshlink_node.Relay.Parts.{Effect, Moment, send_all}
use meshlink_node.Relay.Routes.{handle_node_terminated-sends, IsAnswer}
use meshlink_node.Relay.Delivery.{sent_to, terminated}

-- Answers to one phone are nothing to another.
pub send_all-other :
    (ps : List (Peer × Bytes)) (from q : Peer) (es : List Effect) (P : Bytes → Type 0)
    → All (λ x. (x.0 ≡ from) × P x.1) ps
    → q ≢ from
    → sent_to q (send_all ps ++ es) ≡ sent_to q es
send_all-other [] from q es P h ne = refl
send_all-other ((x, b) ∷ ps) from q es P h ne =
    let other : (x == q) ≡ false = beq_ne x q (λ e. ne (sym e ∙ h.0.0)) in
    rw (other, send_all-other ps from q es P h.1 ne)

module _ (c : Core) (k : Signer) where
  answer_query-consumed :
      (s : LocationService) (peer : Peer) (x : Answer × Authz)
      → x.0 ≢ failed raised
      → (answer_query c k s peer x).consumed ≡ some false
  unfolding answer_query
  answer_query-consumed s peer (served b, z) h = refl
  answer_query-consumed s peer (failed (refused r), z) h = refl
  answer_query-consumed s peer (failed raised, z) h = absurd (h refl)

module _ (c : Core) (k : Signer) (m : Moment) (from : Peer) where
  -- A query that is answered or refused without an exception is not consumed, and its answers are the
  -- requester's.
  pub terminated-query :
      (s : LocationService) (msg : Message)
      → msg.msg_type ≡ k.query_type
      → (k.query_type == k.location_type) ≡ false
      → (handle_query c s.rows m.directory s.authz m.clocks.check m.clocks.age msg).0
        ≢ failed raised
      → let x = handle_query c s.rows m.directory s.authz m.clocks.check m.clocks.age msg in
        let u = answer_query c k s from x in
        (terminated c k (some s) m from msg ≡ (u.sends, some false))
        × All (λ y. (y.0 ≡ from) × IsAnswer k y.1) u.sends
  unfolding handle_node_terminated
  terminated-query s msg type other returns =
      let x = handle_query c s.rows m.directory s.authz m.clocks.check m.clocks.age msg in
      let u = answer_query c k s from x in
      let query : handle_node_terminated c k s m.directory m.clocks from msg ≡ u =
        rw (type, other, beq_refl k.query_type) in
      (
        rw (query) (ap (λ o. (u.sends, o)) (answer_query-consumed c k s from x returns)),
        rw query at (handle_node_terminated-sends c k s m.directory m.clocks from msg),
      )
