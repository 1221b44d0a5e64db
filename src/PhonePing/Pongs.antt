-- ===== src/PhonePing/Pongs.antt =====
-- A pong of a phone, from its frame to the reports of the heartbeat (node/monitoring/phone_ping.py).
use meshlink_node.Prelude.{
  Bool, IsKeyed, Option, beq_refl, get, get-put, le→not-ltb, none, put, put-IsKeyed, refl, some, ℕ,
  ℤ, ◌*◌, ◌+◌, ◌∙◌, ◌≡◌, ◌≤◌, nat_eq, list_eq,
}
use meshlink_node.Json.{integer, real, object, Json}
use meshlink_node.Gatt.{Peer}
use meshlink_node.Relay.Parts.{is_telemetry_frame}
use meshlink_node.PhonePing.{
  optional, Report, PhonePing, report_ttl, reports, decode, as_float, as_int, report_of, reported,
  pong_of, handle_pong, handle_frame, pong_fields, encode_pong,
}
use meshlink_node.PhonePing.Ageing.{get-reports}

module _ (j : Json) where
  abbrev pub pong_report :
      Option j.Float → Option j.Float → Option ℤ → Option Bool → ℕ → Report j.Float
  pong_report lat lon battery charging now = record {
    lat = lat;
    lon = lon;
    battery = battery;
    charging = charging;
    received_at = now;
  }

  as_float-optional : (x : Option j.Float) → as_float j (some (optional j real x)) ≡ some x
  unfolding as_float
  as_float-optional none = refl
  as_float-optional (some x) = refl

  as_int-optional : (n : Option ℤ) → as_int j (some (optional j integer n)) ≡ some n
  unfolding as_int
  as_int-optional none = refl
  as_int-optional (some n) = refl

  report_of-pong_fields :
      (lat lon : Option j.Float) (battery : Option ℤ) (charging : Option Bool) (now : ℕ)
      → report_of j (pong_fields j lat lon battery charging) now
        ≡ some (pong_report lat lon battery charging now)
  unfolding report_of pong_fields
  report_of-pong_fields lat lon battery none now =
      rw (as_float-optional lat, report_of, as_float-optional lon, as_int-optional battery)
  report_of-pong_fields lat lon battery (some c) now =
      rw (as_float-optional lat, report_of, as_float-optional lon, as_int-optional battery)

  decode-encode_pong :
      (lat lon : Option j.Float) (battery : Option ℤ) (charging : Option Bool)
      → (let body = object (pong_fields j lat lon battery charging) in
          j.loads_utf8 (j.dumps body) ≡ some body)
      → decode j (encode_pong j lat lon battery charging)
        ≡ some (pong_fields j lat lon battery charging)
  unfolding decode encode_pong is_telemetry_frame pong_fields
  decode-encode_pong lat lon battery charging back = rw back

  pong_of-encode_pong :
      (lat lon : Option j.Float) (battery : Option ℤ) (charging : Option Bool) (now : ℕ)
      → (let body = object (pong_fields j lat lon battery charging) in
          j.loads_utf8 (j.dumps body) ≡ some body)
      → pong_of j now (encode_pong j lat lon battery charging)
        ≡ reported (pong_report lat lon battery charging now)
  unfolding pong_of pong_fields
  pong_of-encode_pong lat lon battery charging now back = rw (
    decode-encode_pong lat lon battery charging back,
    pong_of,
    report_of-pong_fields lat lon battery charging now,
  )

  -- On a service with one report per phone, a pong that json reads back as it was written is
  -- listed, until it is older than three intervals, with exactly the values that the phone encoded.
  pub reports-encode_pong :
      (s : PhonePing j.Float) (peer : Peer) (lat lon : Option j.Float) (battery : Option ℤ)
      (charging : Option Bool) (now later : ℕ)
      → IsKeyed s.reports
      → later ≤ now + 3 * s.interval
      → (let body = object (pong_fields j lat lon battery charging) in
          j.loads_utf8 (j.dumps body) ≡ some body)
      → let s' = (handle_frame j s now peer (encode_pong j lat lon battery charging)).0 in
        get (reports s' later).0 peer ≡ some (pong_report lat lon battery charging now)
  unfolding handle_frame handle_pong report_ttl
  reports-encode_pong s peer lat lon battery charging now later keyed young back =
      let r = pong_report lat lon battery charging now in
      let s' = record s { reports = put s.reports peer r } in
      let stored : (handle_frame j s now peer (encode_pong j lat lon battery charging)).0 ≡ s' =
        rw (pong_of-encode_pong lat lon battery charging now back) in
      rw (stored) (
        (get-reports s' later peer (put-IsKeyed s.reports peer r keyed)).0
        ∙ rw (
          get-put s.reports peer peer r,
          beq_refl peer,
          le→not-ltb (now + 3 * s.interval) later young,
        ))
