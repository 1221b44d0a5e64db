-- ===== src/Examples/Services.antt =====
-- Pings and proxied requests (node/monitoring/phone_ping.py, node/backend_proxy.py).
use meshlink_node.Prelude.{
  Bytes, List, Option, [], arith, codes, false, get, if◌then◌else◌, inl, inr, length, none, pos,
  refl, some, true, ℕ, ◌++◌, ◌<◌, ◌==◌, ◌∷◌, ◌≡◌, ◌≤◌, ◌⊎◌, nat_eq, list_eq,
}
use meshlink_node.Json.{
  Value, null, boolean, real, field_of, text, integer, object, Fields, field, no_fields, Json,
  whole,
}
use meshlink_node.Gatt.{Peer}
use meshlink_node.Relay.Parts.{phone_ping_magic}
use meshlink_node.PhonePing.{PhonePing, reports, report_ttl}
use meshlink_node.PhonePing.Ageing.{
  PingOp, frame_in, asks, ping_run, live, last_report, reports-last_report,
}
use meshlink_node.BackendProxy.{Uplink, responded, execute}
use meshlink_node.BackendProxy.Reach.{Reaches, execute-Reaches}
use meshlink_node.PhonePing.{encode_pong, pong_fields}
use meshlink_node.PhonePing
use meshlink_node.PhonePing.Pongs.{pong_report, reports-encode_pong}
use meshlink_node.BackendProxy.{
  handle_frame, serve, decode, encode_request, request_fields, text_path_allowed,
}
use meshlink_node.BackendProxy.Exchange.{response_fields}
use meshlink_node.BackendProxy.Return.{put_out, send-serve}
use meshlink_node.Framing.{be16}
use meshlink_node.Transport.Multi.{send}
use meshlink_node.Examples.Journeys.{both, both-Prefixed}

-- Every frame is read as a pong with a battery at 80.
abbrev json : Json
json = record {
  Float = ℕ;
  dumps = λ u. 1 ∷ [];
  loads = λ b. none;
  loads_utf8 = λ b. some (
      object (
        field (codes "t") (text (codes "pong"))
          (field (codes "battery") (integer (pos 80)) no_fields)));
  int_of_float = λ x. whole (pos x);
  float_of_int = λ n. some 0;
  int_of_text = λ t. none;
  str_of = λ u. codes "None";
}

abbrev service : PhonePing ℕ
service = record {
  interval = 90;
  node_name = some (codes "gate");
  node_lat = none;
  node_lon = none;
  reports = [];
  stopped = false;
  connect_timers = [];
}

abbrev ann : Peer
ann = codes "ann"

abbrev pong : Bytes
pong = phone_ping_magic ++ 1 ∷ []

abbrev day : List PingOp
day = frame_in 10 ann pong ∷ asks 20 ∷ frame_in 30 ann (1 ∷ []) ∷ asks 200 ∷ []

reports-last_report_example :
    get (reports (ping_run json service day) 250).0 ann
    ≡ live (report_ttl service) 250 (last_report json ann none day)
unfolding get
reports-last_report_example =
    reports-last_report json service day 250 ann tt (omega arith, (omega arith, tt))

abbrev uplink : Uplink
uplink = record {
  base_url = codes "http://b";
  lower = λ t. t;
  encode = λ t. some t;
  decode_replace = λ b. b;
  urlopen = λ r. responded 200 r.url;
}

abbrev request : Fields ℕ
request = field (codes "id") (integer (pos 1)) (
    field (codes "method") (text (codes "GET")) (
      field (codes "path") (text (codes "/events?x=1")) (
        field (codes "headers") (object (field (codes "apikey") (text (codes "k")) no_fields))
          no_fields)))

execute-Reaches_example : Reaches uplink (execute json uplink request).asked
execute-Reaches_example = execute-Reaches json uplink request

-- A json that knows one request and its response, and one pong.
abbrev asks_events : Fields ℕ
asks_events = field (codes "t") (text (codes "req")) (
    field (codes "id") (text (codes "7")) (
      field (codes "method") (text (codes "GET"))
        (field (codes "path") (text (codes "/events?x=1")) no_fields)))

abbrev answers : Fields ℕ
answers = response_fields (codes "7") 200 (codes "ok")

abbrev ann_pong : Fields ℕ
ann_pong = field (codes "t") (text (codes "pong")) (
    field (codes "lat") (real 5) (
      field (codes "lon") null (
        field (codes "battery") (integer (pos 80))
          (field (codes "charging") (boolean true) no_fields))))

abbrev number_of : Option (Value ℕ) → ℕ
number_of (some (text t)) = if t == codes "req" then 1 else if t == codes "res" then 2 else 3
number_of _ = 0

abbrev known : Bytes → Option (Value ℕ)
known (n ∷ []) =
    if n == 1
    then some (object asks_events)
    else if n == 2
    then some (object answers)
    else some (object ann_pong)
known _ = none

abbrev top : Value ℕ → Fields ℕ
top (object fs) = fs
top _ = no_fields

abbrev exact : Json
exact = record json {
  dumps = λ v. number_of (field_of (top v) (codes "t")) ∷ [];
  loads_utf8 = known;
}

abbrev ok_uplink : Uplink
ok_uplink = record uplink { urlopen = λ r. responded 200 (codes "ok") }

send-serve_example :
    (req : Fields ℕ) × (reply : Bytes) × (handle_frame exact ok_uplink
        (encode_request exact (codes "7") (codes "GET") (codes "/events?x=1") none no_fields)
      ≡ some req)
    × (serve exact ok_uplink ann req ≡ (ann, reply) ∷ [])
    × (decode exact ok_uplink reply ≡ some answers)
    × (((length reply ≤ 65535) × (put_out (send both ann reply) ≡ be16 (length reply) ++ reply))
        ⊎ ((65535 < length reply) × (put_out (send both ann reply) ≡ [])))
unfolding text_path_allowed request_fields
send-serve_example =
    send-serve exact ok_uplink both ann (codes "7") (codes "GET") (codes "/events?x=1") none
      no_fields none 200 (codes "ok") both-Prefixed (inr refl) refl refl refl (inl refl)
      (omega arith) refl refl

reports-encode_pong_example :
    let s' =
      (PhonePing.handle_frame exact service 10 ann
        (encode_pong exact (some 5) none (some (pos 80)) (some true))).0 in
    get (reports s' 250).0 ann
    ≡ some (pong_report exact (some 5) none (some (pos 80)) (some true) 10)
unfolding pong_fields
reports-encode_pong_example =
    reports-encode_pong exact service ann (some 5) none (some (pos 80)) (some true) 10 250 tt
      (omega arith) refl
