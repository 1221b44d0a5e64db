-- ===== src/BackendProxy/Return.antt =====
-- A phone's request and the bytes that go out for it (node/backend_proxy.py, over node/transport/).
use meshlink_node.Prelude.{
  Bool-cases, Bytes, Option, Text, [], append-nil, arith, concat, contains, false, inl, inr, leb,
  length, refl, some, starts_with, true, ℕ, ◌++◌, ◌<◌, ◌∙◌, ◌∷◌, ◌≡◌, ◌≤◌, ◌⊎◌, nat_eq, list_eq,
}
use meshlink_node.Json.{Fields, Json}
use meshlink_node.Framing.{be16}
use meshlink_node.Gatt.{Peer}
use meshlink_node.Gatt.Runs.{send_packet-concat}
use meshlink_node.Transport.Ble.{ble_send}
use meshlink_node.Transport.Wifi.{wifi_peer_prefix}
use meshlink_node.Transport.Multi.{MultiTransport, Routed, send}
use meshlink_node.Transport.Routing.{Prefixed, send-oversize, send-listed}
use meshlink_node.Relay.Arrival.{OnWifi, written_by, notified_by}
use meshlink_node.BackendProxy.{
  text_path_allowed, responded, rejected, Uplink, decode, handle_frame, serve, max_response_bytes,
  allowed_methods, request_fields, encode_request,
}
use meshlink_node.BackendProxy.Exchange.{
  ReadsBack, response_fields, encoded, asked_for, serve-encode_request,
}

-- The bytes that a send puts out: those that are written on the phone's WiFi connection, or those
-- of the chunks that the BLE backend is given to notify.
abbrev pub put_out : Routed → Bytes
put_out r = concat (written_by r) ++ concat (notified_by r)

-- The phone can be sent to: WiFi lists it, or it has no WiFi peer id.
abbrev pub CanReach : MultiTransport → Peer → Type 0
CanReach t peer = OnWifi t peer ⊎ (starts_with peer wifi_peer_prefix ≡ false)

put_out-send :
    (t : MultiTransport) (peer : Peer) (packet : Bytes)
    → Prefixed t.wifi.conns
    → CanReach t peer
    → length packet ≤ 65535
    → put_out (send t peer packet) ≡ be16 (length packet) ++ packet
unfolding send ble_send
put_out-send t peer packet prefixed (inl on) h =
    let (conn, _, e) = send-listed t peer packet prefixed on h in
    let bytes = be16 (length packet) ++ packet in rw e (append-nil (bytes ++ []) ∙ append-nil bytes)
put_out-send t peer packet prefixed (inr plain) h =
    rw (plain, send, ble_send) (send_packet-concat peer packet h)

put_out-oversize :
    (t : MultiTransport) (peer : Peer) (packet : Bytes)
    → 65535 < length packet
    → put_out (send t peer packet) ≡ []
put_out-oversize t peer packet h = elim (send-oversize t peer packet h) [
  | inl e ↦ rw e refl
  | inr (inl e) ↦ rw e refl
  | inr (inr e) ↦ rw e refl
]

module _ (j : Json) (k : Uplink) (t : MultiTransport) where
  -- A request frame of a phone with an allowed method and path and a body that has UTF-8, which
  -- json reads back as it was written, is taken up. The backend responds, also with an error
  -- status, with at most 256 KiB to the request that is made of it, the phone is one that the WiFi
  -- transport lists or has no WiFi peer id, and no WiFi connection has a peer id without the WiFi
  -- prefix. Then one reply is made, which decodes, if json reads that back too, to the request's
  -- id, the status and the body. If the reply has at most 65535 bytes, the transport puts out one
  -- frame of it, on the phone's WiFi connection or in the chunks that the GATT server gives its
  -- backend to notify; if it is longer, the transport puts out nothing.
  pub send-serve :
      (peer : Peer) (req_id method path : Text) (body : Option Text) (headers : Fields j.Float)
      (sent : Option Bytes) (status : ℕ) (content : Bytes)
      → Prefixed t.wifi.conns
      → CanReach t peer
      → contains allowed_methods method ≡ true
      → text_path_allowed path ≡ true
      → encoded k body ≡ some sent
      → (k.urlopen (asked_for j k method path sent headers) ≡ responded status content)
        ⊎ (k.urlopen (asked_for j k method path sent headers) ≡ rejected status content)
      → length content ≤ max_response_bytes
      → ReadsBack j (request_fields req_id method path body headers)
      → ReadsBack j (response_fields req_id status (k.decode_replace content))
      → (req : Fields j.Float) × (reply : Bytes) × (handle_frame j k
            (encode_request j req_id method path body headers)
          ≡ some req)
        × (serve j k peer req ≡ (peer, reply) ∷ [])
        × (decode j k reply ≡ some (response_fields req_id status (k.decode_replace content)))
        × (((length reply ≤ 65535) × (put_out (send t peer reply) ≡ be16 (length reply) ++ reply))
            ⊎ ((65535 < length reply) × (put_out (send t peer reply) ≡ [])))
  send-serve peer req_id method path body headers sent status content prefixed reach m p e got small
        back again =
      let (req, reply, taken, served, whole) =
        serve-encode_request j k peer req_id method path body headers sent status content m p e got
          small back again in
      (
        req,
        reply,
        taken,
        served,
        whole,
        elim (Bool-cases (leb (length reply) 65535)) [
          | inl e ↦
              let h : length reply ≤ 65535 = ground arith in
              inl (h, put_out-send t peer reply prefixed reach h)
          | inr e ↦
              let h : 65535 < length reply = ground arith in
              inr (h, put_out-oversize t peer reply h)
        ],
      )
