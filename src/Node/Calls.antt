-- ===== src/Node/Calls.antt =====
-- What the calls of one handler come to when they are made in order (node/relay.py).
use meshlink_node.Prelude.{
  All, Bool-cases, Bytes, IsKeyed, List, Option-cases, [], ap, append_assoc, arith, beq_eq, get,
  if◌then◌else◌, inl, inr, none, refl, starts_with, subst, sym, true, ℕ, ◌++◌, ◌==◌, ◌∙◌, ◌∷◌, ◌≡◌,
  nat_eq, list_eq,
}
use meshlink_node.Json.{Json}
use meshlink_node.Gatt.{Peer}
use meshlink_node.Framing.Chunks.{frame_lem}
use meshlink_node.Framing.Wire.{IsPacket}
use meshlink_node.Transport.Wifi.{wifi_peer_prefix, wifi_send}
use meshlink_node.Transport.Multi.{MultiTransport}
use meshlink_node.Transport.Multi
use meshlink_node.Location.Core.{Core}
use meshlink_node.Location.Service.{Signer}
use meshlink_node.Backhaul.Udp.{Datagram}
use meshlink_node.Backhaul.Udp
use meshlink_node.PhonePing.{PhonePing}
use meshlink_node.PhonePing
use meshlink_node.PhonePing.Ageing.{handle_frame-IsKeyed}
use meshlink_node.BackendProxy.{Uplink}
use meshlink_node.Relay.Parts.{
  Pipeline, Effect, ping_frame, proxy_frame, send, forward_to_zone, broadcast_to_all_nodes,
}
use meshlink_node.Relay.Delivery.{sent_to}
use meshlink_node.Relay.Arrival.{written_by, notified_by, link, notices, IsSmallSend}
use meshlink_node.Node.{Node, Out, to_phone, to_node, to_worker, send_returns, perform, perform_all}

-- What the outputs write on a phone's WiFi connection, the chunks that they give the BLE
-- backend to notify, and the
-- datagrams among them.
abbrev pub link_of : {F : Type 0} → Peer → List (Out F) → List Bytes
link_of q [] = []
link_of q (to_phone x r ∷ os) =
    let rest = link_of q os in if x == q then written_by r ++ rest else rest
link_of q (to_node d ∷ os) = link_of q os
link_of q (to_worker x req ∷ os) = link_of q os

abbrev pub notified_of : {F : Type 0} → List (Out F) → List Bytes
notified_of [] = []
notified_of (to_phone x r ∷ os) = notified_by r ++ notified_of os
notified_of (to_node d ∷ os) = notified_of os
notified_of (to_worker x req ∷ os) = notified_of os

abbrev pub datagrams_of : {F : Type 0} → List (Out F) → List Datagram
datagrams_of [] = []
datagrams_of (to_phone x r ∷ os) = datagrams_of os
datagrams_of (to_node d ∷ os) = d ∷ datagrams_of os
datagrams_of (to_worker x req ∷ os) = datagrams_of os

pub link_of-append :
    {F : Type 0} (q : Peer) (xs ys : List (Out F))
    → link_of q (xs ++ ys) ≡ link_of q xs ++ link_of q ys
link_of-append q [] ys = refl
link_of-append q (to_phone x r ∷ xs) ys = elim (Bool-cases (x == q)) [
  | inl e ↦
      rw (e, link_of-append q xs ys, append_assoc (written_by r) (link_of q xs) (link_of q ys))
  | inr e ↦ rw (e, link_of-append q xs ys)
]
link_of-append q (to_node d ∷ xs) ys = link_of-append q xs ys
link_of-append q (to_worker x req ∷ xs) ys = link_of-append q xs ys

pub notified_of-append :
    {F : Type 0} (xs ys : List (Out F)) → notified_of (xs ++ ys) ≡ notified_of xs ++ notified_of ys
notified_of-append [] ys = refl
notified_of-append (to_phone x r ∷ xs) ys =
    ap (◌++◌ (notified_by r)) (notified_of-append xs ys)
    ∙ sym (append_assoc (notified_by r) (notified_of xs) (notified_of ys))
notified_of-append (to_node d ∷ xs) ys = notified_of-append xs ys
notified_of-append (to_worker x req ∷ xs) ys = notified_of-append xs ys

pub datagrams_of-append :
    {F : Type 0} (xs ys : List (Out F))
    → datagrams_of (xs ++ ys) ≡ datagrams_of xs ++ datagrams_of ys
datagrams_of-append [] ys = refl
datagrams_of-append (to_phone x r ∷ xs) ys = datagrams_of-append xs ys
datagrams_of-append (to_node d ∷ xs) ys = ap (◌∷◌ d) (datagrams_of-append xs ys)
datagrams_of-append (to_worker x req ∷ xs) ys = datagrams_of-append xs ys

send-returns :
    (t : MultiTransport) (q : Peer) (b : Bytes)
    → IsPacket b
    → send_returns (Multi.send t q b) ≡ true
unfolding Multi.send send_returns wifi_send
send-returns t q b small = elim (Bool-cases (starts_with q wifi_peer_prefix)) [
  | inr e ↦ rw (e, Multi.send, send_returns)
  | inl e ↦ elim (Option-cases (get t.wifi.conns q)) [
    | inl g ↦ rw (e, Multi.send, g, wifi_send, send_returns)
    | inr (conn, g) ↦ rw (e, Multi.send, g, wifi_send, frame_lem b (omega arith), send_returns)
  ]
]

module _ (c : Core) (k : Signer) (p : Pipeline) (j : Json) (u : Uplink) where
  -- Of the node's state a call of the relay's changes the phone pings' at most.
  perform-node :
      (n : Node p j.Float) (now : ℕ) (e : Effect)
      → (s : PhonePing j.Float) × ((perform c k p j u n now e).node ≡ record n { phone_ping = s })
        × (IsKeyed n.phone_ping.reports → IsKeyed s.reports)
  unfolding perform
  perform-node n now (ping_frame q b) = (
    (PhonePing.handle_frame j n.phone_ping now q b).0,
    refl,
    handle_frame-IsKeyed j n.phone_ping now q b,
  )
  perform-node n now (proxy_frame q b) = (n.phone_ping, refl, λ h. h)
  perform-node n now (send q b) = (n.phone_ping, refl, λ h. h)
  perform-node n now (forward_to_zone z b) =
      elim (Option-cases (Udp.forward_to_zone n.backhaul n.table now z b)) [
        | inl e ↦ (n.phone_ping, rw (e, perform), λ h. h)
        | inr (ds, e) ↦ (n.phone_ping, rw (e, perform), λ h. h)
      ]
  perform-node n now (broadcast_to_all_nodes b) =
      elim (Option-cases (Udp.broadcast_to_all_nodes n.backhaul b)) [
        | inl e ↦ (n.phone_ping, rw (e, perform), λ h. h)
        | inr (ds, e) ↦ (n.phone_ping, rw (e, perform), λ h. h)
      ]

  pub perform_all-node :
      (n : Node p j.Float) (now : ℕ) (es : List Effect)
      → (s : PhonePing j.Float) × ((perform_all c k p j u n now es).node
          ≡ record n { phone_ping = s })
        × (IsKeyed n.phone_ping.reports → IsKeyed s.reports)
  unfolding perform_all
  perform_all-node n now [] = (n.phone_ping, refl, λ h. h)
  perform_all-node n now (e ∷ es) =
      let (s, first, kept) = perform-node n now e in
      let (s', rest, kept') = perform_all-node (perform c k p j u n now e).node now es in
      let step : IsKeyed s.reports → IsKeyed (perform c k p j u n now e).node.phone_ping.reports =
        subst (λ (x : Node p j.Float). IsKeyed x.phone_ping.reports) (sym first) in
      elim (Bool-cases (perform c k p j u n now e).returned) [
        | inl r ↦ (
          s',
          rw r (rest ∙ ap (λ (m : Node p j.Float). record m { phone_ping = s' }) first),
          λ h. kept' (step (kept h)),
        )
        | inr r ↦ (s, rw r first, kept)
      ]

  -- Small packets are sent without an exception, and change nothing.
  pub perform_all-sends :
      (n : Node p j.Float) (now : ℕ) (es : List Effect)
      → All IsSmallSend es
      → let ran = perform_all c k p j u n now es in
        (ran.node ≡ n)
        × (ran.failed ≡ none)
        × (datagrams_of ran.outs ≡ [])
        × ((q : Peer) → link_of q ran.outs ≡ link n.transport q (sent_to q es))
        × (notified_of ran.outs ≡ notices n.transport es)
  unfolding perform_all perform
  perform_all-sends n now [] h = (refl, refl, refl, λ q. refl, refl)
  perform_all-sends n now (send x b ∷ es) h =
      let (same, fine, none', links, notes) = perform_all-sends n now es h.1 in
      rw (send-returns n.transport x b h.0) (
        same,
        fine,
        none',
        λ q. elim (Bool-cases (x == q)) [
          | inl e ↦
              rw (e, links q)
                (ap
                  (λ y.
                    written_by (Multi.send n.transport y b) ++ link n.transport q (sent_to q es))
                  (beq_eq x q e))
          | inr e ↦ rw (e, links q)
        ],
        ap (◌++◌ (notified_by (Multi.send n.transport x b))) notes,
      )
  perform_all-sends n now (ping_frame x b ∷ es) h = elim h.0 [ ]
  perform_all-sends n now (proxy_frame x b ∷ es) h = elim h.0 [ ]
  perform_all-sends n now (forward_to_zone z b ∷ es) h = elim h.0 [ ]
  perform_all-sends n now (broadcast_to_all_nodes b ∷ es) h = elim h.0 [ ]

  -- Small packets before other calls go out, and then the calls are made as they would be.
  pub perform_all-behind :
      (n : Node p j.Float) (now : ℕ) (xs es : List Effect)
      → All IsSmallSend xs
      → let r = perform_all c k p j u n now es in
        perform_all c k p j u n now (xs ++ es)
        ≡ record r { outs = (perform_all c k p j u n now xs).outs ++ r.outs }
  unfolding perform_all perform
  perform_all-behind n now [] es h = refl
  perform_all-behind n now (send x b ∷ xs) es h =
      rw (send-returns n.transport x b h.0, perform_all-behind n now xs es h.1)
  perform_all-behind n now (ping_frame x b ∷ xs) es h = elim h.0 [ ]
  perform_all-behind n now (proxy_frame x b ∷ xs) es h = elim h.0 [ ]
  perform_all-behind n now (forward_to_zone z b ∷ xs) es h = elim h.0 [ ]
  perform_all-behind n now (broadcast_to_all_nodes b ∷ xs) es h = elim h.0 [ ]
