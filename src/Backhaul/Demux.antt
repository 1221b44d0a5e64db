-- ===== src/Backhaul/Demux.antt =====
-- Where a datagram goes (node/backhaul/batman_backhaul.py): never both ways, and an announcement never to
-- the relay.
use meshlink_node.Prelude.{
  All, Bool-cases, Bytes, List, Option, Text, [], arith, false, inl, inr, length, none, refl, some,
  starts_with, starts_with-append, subst, true, ◌∷◌, ◌≡◌, ◌≤◌, nat_eq, list_eq, pair_eq,
}
use meshlink_node.Json.{Json}
use meshlink_node.Backhaul.Udp.{
  BatmanBackhaul, Endpoint, endpoint, target, Datagram, datagram_to, zone_sync_magic, send_to,
  broadcast_control, Inbound, to_control, to_data, is_own, receive,
}
use meshlink_node.Backhaul.Sync.{ZoneSync, announcement, encode_announcement, announce_now}

-- Control frames have the magic and data has not; and nothing is the node's own echo.
abbrev pub Demuxed : Bytes → Inbound → Type 0
Demuxed raw (to_control p b) = (b ≡ raw) × (starts_with raw zone_sync_magic ≡ true)
Demuxed raw (to_data p b) = (b ≡ raw) × (starts_with raw zone_sync_magic ≡ false)

abbrev pub IsControlOnly : Inbound → Type 0
IsControlOnly (to_control p b) = Unit
IsControlOnly (to_data p b) = ⊥

module _ {F : Type 0} (b : BatmanBackhaul F) (from : Endpoint) (digits : Text) where
  -- A datagram is handed on at most once: to the zone sync only if it has the magic, to the relay
  -- only if it has not, and to neither if it comes from the node's own address.
  pub receive-Demuxed :
      (raw : Bytes)
      → All (Demuxed raw) (receive b from digits raw)
        × (length (receive b from digits raw) ≤ 1)
        × (is_own (endpoint b.udp_port b.own_addr) from ≡ true → receive b from digits raw ≡ [])
  unfolding receive
  receive-Demuxed raw = elim (Bool-cases (is_own (endpoint b.udp_port b.own_addr) from)) [
    | inl own ↦ rw (own, receive) (tt, omega arith, λ _. refl)
    | inr not_own ↦ elim (Bool-cases (starts_with raw zone_sync_magic)) [
      | inl control ↦ elim (Bool-cases b.control_cb) [
        | inl set ↦
            rw (not_own, receive, control, set) (((refl, control), tt), omega arith, λ h. cc)
        | inr unset ↦ rw (not_own, receive, control, unset) (tt, omega arith, λ h. cc)
      ]
      | inr control ↦ elim (Bool-cases b.data_cb) [
        | inl set ↦
            rw (not_own, receive, control, set) (((refl, control), tt), omega arith, λ h. cc)
        | inr unset ↦ rw (not_own, receive, control, unset) (tt, omega arith, λ h. cc)
      ]
    ]
  ]

  magic-IsControlOnly :
      (raw : Bytes)
      → starts_with raw zone_sync_magic ≡ true
      → All IsControlOnly (receive b from digits raw)
  unfolding receive
  magic-IsControlOnly raw e = elim (Bool-cases (is_own (endpoint b.udp_port b.own_addr) from)) [
    | inl own ↦ rw (own, receive) tt
    | inr not_own ↦ elim (Bool-cases b.control_cb) [
      | inl set ↦ rw (not_own, receive, e, set) (tt, tt)
      | inr unset ↦ rw (not_own, receive, e, unset) tt
    ]
  ]

datagram_to-payload :
    (P : Bytes → Type 0) (packet : Bytes) (o : Option Endpoint) (ds : List Datagram)
    → datagram_to packet o ≡ some ds
    → P packet
    → All (λ d. P d.payload) ds
datagram_to-payload P packet none ds e h = absurd (none_not_some ds e)
  where
    none_not_some : (ds : List Datagram) → ◌≡◌ {A = Option (List Datagram)} none (some ds) → ⊥
    none_not_some ds x = cc
datagram_to-payload P packet (some to') ds e h =
    let same : record { payload = packet; to = to' } ∷ [] ≡ ds = cc in
    subst (All (λ (d : Datagram). P d.payload)) same (h, tt)

-- What announce_now sends is handed to no node's relay.
pub announce_now-IsControlOnly :
    (j : Json) (z : ZoneSync j.Float) (a b : BatmanBackhaul j.Float) (from : Endpoint)
    (digits : Text) (ds : List Datagram)
    → announce_now j z a ≡ some ds
    → All (λ d. All IsControlOnly (receive b from digits d.payload)) ds
unfolding announce_now broadcast_control send_to encode_announcement
announce_now-IsControlOnly j z a b from digits ds e =
    let raw = encode_announcement j z.node_id z.zone_id z.own_addr in
    datagram_to-payload (λ x. All IsControlOnly (receive b from digits x)) raw
      (target a a.broadcast_addr) ds e
      (magic-IsControlOnly b from digits raw (
        starts_with-append zone_sync_magic (j.dumps (announcement z.node_id z.zone_id z.own_addr))))
