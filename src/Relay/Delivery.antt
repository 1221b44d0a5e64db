-- ===== src/Relay/Delivery.antt =====
-- Who gets a packet that the relay takes on (node/relay.py).
use meshlink_node.Prelude.{
  All, Bool, Bool-cases, Bytes, List, Option, [], beq_eq, beq_ne, false, if◌then◌else◌, inl, inr,
  none, refl, repeat, some, suc, sym, ℕ, ◌==◌, ◌∙◌, ◌∷◌, ◌≡◌, ◌≢◌, ◌⊎◌, nat_eq, list_eq,
}
use meshlink_node.Gatt.{Peer}
use meshlink_node.Directory.{Directory}
use meshlink_node.Location.Core.{Message, Core}
use meshlink_node.Location.Authz.{handle_revoke}
use meshlink_node.Location.Service.{Signer, LocationService, Clocks, handle_node_terminated}
use meshlink_node.Relay.Parts.{Effect, send, Moment, fan_out}

-- The packets that effects send to a phone, in order.
abbrev pub sent_to : Peer → List Effect → List Bytes
sent_to q [] = []
sent_to q (send x b ∷ fx) = let rest = sent_to q fx in if x == q then b ∷ rest else rest
sent_to q (_ ∷ fx) = sent_to q fx

-- How often a phone is listed.
abbrev pub listed : Peer → List Peer → ℕ
listed q [] = 0
listed q (x ∷ xs) = let rest = listed q xs in if x == q then suc rest else rest

pub fan_out-other :
    (qs : List Peer) (from q : Peer) (b : Bytes)
    → q ≢ from
    → sent_to q (fan_out qs from b) ≡ repeat (listed q qs) b
unfolding fan_out
fan_out-other [] from q b ne = refl
fan_out-other (x ∷ qs) from q b ne = elim (Bool-cases (x == from)) [
  | inl e ↦
      let other : (x == q) ≡ false = beq_ne x q (λ same. ne (sym same ∙ beq_eq x from e)) in
      rw (e, other, fan_out-other qs from q b ne)
  | inr e ↦ elim (Bool-cases (x == q)) [
    | inl s ↦ rw (e, s, fan_out-other qs from q b ne)
    | inr s ↦ rw (e, s, fan_out-other qs from q b ne)
  ]
]

abbrev pub IsSend : Effect → Type 0
IsSend (send q b) = Unit
IsSend e = ⊥

pub fan_out-IsSend : (qs : List Peer) (from : Peer) (b : Bytes) → All IsSend (fan_out qs from b)
unfolding fan_out
fan_out-IsSend [] from b = tt
fan_out-IsSend (x ∷ qs) from b = elim (Bool-cases (x == from)) [
  | inl e ↦ rw e (fan_out-IsSend qs from b)
  | inr e ↦ rw e (tt, fan_out-IsSend qs from b)
]

-- The location service, if there is one, leaves the message to the relay.
abbrev pub NotTerminated : Signer → Option LocationService → Message → Type 0
NotTerminated k location msg =
    (location ≡ none) ⊎ ((msg.msg_type ≢ k.location_type) × (msg.msg_type ≢ k.query_type))

module _ (c : Core) (k : Signer) where
  handle_node_terminated-passes :
      (s : LocationService) (d : Directory) (t : Clocks) (peer : Peer) (msg : Message)
      → msg.msg_type ≢ k.location_type
      → msg.msg_type ≢ k.query_type
      → (s' : LocationService) × (handle_node_terminated c k s d t peer msg
          ≡ record { service = s'; consumed = some false; sends = [] })
  unfolding handle_node_terminated
  handle_node_terminated-passes s d t peer msg l q =
      let not_location : (msg.msg_type == k.location_type) ≡ false = beq_ne _ _ l in
      let not_query : (msg.msg_type == k.query_type) ≡ false = beq_ne _ _ q in
      elim (Bool-cases (msg.msg_type == k.revoke_type)) [
        | inl e ↦ (
          record s { authz = (handle_revoke c s.authz msg).1 },
          rw (not_location, handle_node_terminated, not_query, e),
        )
        | inr e ↦ (s, rw (not_location, handle_node_terminated, not_query, e))
      ]

-- What the location service makes of an accepted message: nothing where there is none.
abbrev pub terminated :
    Core
    → Signer
    → Option LocationService
    → Moment
    → Peer
    → Message
    → List (Peer × Bytes) × Option Bool
terminated c k none m from msg = ([], some false)
terminated c k (some s) m from msg =
    let t = handle_node_terminated c k s m.directory m.clocks from msg in (t.sends, t.consumed)

pub NotTerminated-terminated :
    (c : Core) (k : Signer) (l : Option LocationService) (m : Moment) (from : Peer) (msg : Message)
    → NotTerminated k l msg
    → terminated c k l m from msg ≡ ([], some false)
NotTerminated-terminated c k none m from msg n = refl
NotTerminated-terminated c k (some s) m from msg (inl e) = cc
NotTerminated-terminated c k (some s) m from msg (inr (l, q)) =
    rw (handle_node_terminated-passes c k s m.directory m.clocks from msg l q).1
