-- ===== src/Location/Core.antt =====
-- What node/location/ calls in meshlink-core, which is another repository: decoders that return or
-- raise ValueError (`none`), the key hash, the verifier and the sealing encoder.
use meshlink_node.Prelude.{Bool, Bytes, Option, ℕ, ℤ}
use meshlink_node.Location.Store.{Fix}

-- The fields of a parsed packet that the node reads.
pub record Message : Type 0 where
  pub msg_id : Bytes
  pub sender_key : Bytes
  pub ephem_id : Bytes
  pub ttl : ℕ
  pub spray_l : ℕ
  pub zone_id : ℕ
  pub msg_type : ℕ
  pub payload : Bytes

-- (issuer_pubkey_id, grantee_pubkey_id, issued_at, nonce)
abbrev pub RevocationKey : Type 0
RevocationKey = (Bytes × Bytes) × (ℕ × Bytes)

-- LocationResponsePayload
pub record ResponsePayload : Type 0 where
  pub target_pubkey_id : Bytes
  pub lat_microdeg : ℤ
  pub lon_microdeg : ℤ
  pub accuracy_m : ℕ
  pub beacon_age : ℕ
  pub zone : ℕ

pub record Core : Type 1 where
  pub Token : Type 0
  pub Revoke : Type 0
  pub issuer_of : Token → Bytes
  pub grantee_of : Token → Bytes
  pub revocation_key : Token → RevocationKey
  pub revoke_issuer : Revoke → Bytes
  pub revoke_key : Revoke → RevocationKey
  pub pubkey_id : Bytes → Bytes
  pub decode_query : Bytes → Option Bytes
  pub parse_token : Bytes → Option Token
  pub verify : Bytes → Bytes → Bytes → ℕ → Bool
  pub decode_revoke : Bytes → Option Revoke
  pub decode_beacon : Bytes → Option Fix
  pub encode_response : ResponsePayload → Bytes → Bytes → Option Bytes
