-- ===== src/Examples/Toy.antt =====
-- Small stand-ins for what the code takes from meshlink-core, to run it on.
use meshlink_node.Prelude.{
  Bytes, Option, [], codes, negsuc, none, pos, some, starts_with, true, ℕ, ◌+◌, ◌∷◌, nat_eq,
  list_eq,
}
use meshlink_node.Gatt.{Peer}
use meshlink_node.Directory.{Directory, new_directory}
use meshlink_node.Examples.Users.{first_byte, alice, bertha}
use meshlink_node.Location.Store.{LocationStore, Fix}
use meshlink_node.Location.Core.{Message, RevocationKey, Core}
use meshlink_node.Location.Authz.{Authz}
use meshlink_node.Location.Service.{Signer}
use meshlink_node.Relay.Parts.{
  PipelineResult, drops, delivers, Pipeline, Moment, NodeRelay, zero_stats,
}

-- A token, and a revocation, is two bytes: its issuer and its grantee.
abbrev pub pair_of_bytes : Bytes → Option (Bytes × Bytes)
pair_of_bytes (i ∷ g ∷ []) = some (i ∷ [], g ∷ [])
pair_of_bytes _ = none

abbrev pub key_of : Bytes × Bytes → RevocationKey
key_of t = (t, (0, []))

abbrev pub fix_of : Bytes → Option Fix
fix_of (lat ∷ lon ∷ acc ∷ []) = some (record { lat = pos lat; lon = pos lon; accuracy = acc })
fix_of _ = none

abbrev pub toy_core : Core
toy_core = record {
  Token = Bytes × Bytes;
  Revoke = Bytes × Bytes;
  issuer_of = λ t. t.0;
  grantee_of = λ t. t.1;
  revocation_key = key_of;
  revoke_issuer = λ t. t.0;
  revoke_key = key_of;
  pubkey_id = first_byte;
  decode_query = λ b. some b;
  parse_token = pair_of_bytes;
  verify = λ token key sender now. starts_with token key;
  decode_revoke = pair_of_bytes;
  decode_beacon = fix_of;
  encode_response = λ p requester key. some (p.beacon_age ∷ p.accuracy_m ∷ key);
}

abbrev pub toy_signer : Signer
toy_signer = record {
  location_type = 2;
  query_type = 3;
  revoke_type = 4;
  response_type = 5;
  build_signed_packet = λ ttl spray_l zone type payload. ttl ∷ type ∷ payload;
}

-- A packet's first byte is its message type, its second its sender, its third its zone.
abbrev pub parse_toy : Bytes → Option Message
parse_toy (type ∷ sender ∷ zone ∷ payload) = some (record {
  msg_id = [];
  sender_key = sender ∷ [];
  ephem_id = [];
  ttl = 1;
  spray_l = 1;
  zone_id = zone;
  msg_type = type;
  payload = payload;
})
parse_toy _ = none

abbrev pub delivered : Option Message → PipelineResult
delivered none = drops
delivered (some msg) = delivers msg none

abbrev pub toy_pipeline : Pipeline
toy_pipeline = record {
  State = ℕ;
  process = λ n raw. (delivered (parse_toy raw), n + 1);
  process_presentation = λ n raw. (delivered (parse_toy raw), n + 1);
  add_token = λ n token. (some token, n);
  parse_packet = parse_toy;
}

abbrev pub users : Directory
users = new_directory first_byte (some (alice ∷ bertha ∷ []))

-- Alice's key has a row, from 5 seconds before `now`.
abbrev pub rows : LocationStore
rows =
    (
      10 ∷ [],
      record {
        lat_microdeg = pos 51;
        lon_microdeg = negsuc 1;
        accuracy_m = 8;
        zone_id = 7;
        last_beacon_ts = 95000000;
      },
    )
    ∷ []

abbrev pub now : ℕ
now = 100000000

-- Queries are ten seconds apart.
abbrev pub guard : Authz
guard = record { min_interval = 10000000; revoked = []; last_query = [] }

abbrev pub message : ℕ → ℕ → Bytes → Message
message type sender payload = record {
  msg_id = [];
  sender_key = sender ∷ [];
  ephem_id = [];
  ttl = 1;
  spray_l = 1;
  zone_id = 7;
  msg_type = type;
  payload = payload;
}

-- Bertha asks for Alice.
abbrev pub query : Message
query = message 3 11 (10 ∷ 11 ∷ [])

-- Alice takes it back.
abbrev pub revocation : Message
revocation = message 4 10 (10 ∷ 11 ∷ [])

abbrev pub phone : Peer
phone = codes "p1"

abbrev pub moment : Moment
moment = record {
  list_peers = phone ∷ codes "p2" ∷ [];
  directory = users;
  clocks = record { check = now; age = now; beacon = now };
}

abbrev pub relay : NodeRelay toy_pipeline
relay = record {
  setup = record {
    own_zone_id = 7;
    enforces_attestation = true;
    has_phone_ping = true;
    has_backend_proxy = true;
  };
  core = 0;
  location = some (record { rows = rows; authz = guard; own_zone = 7 });
  stats = zero_stats;
}
