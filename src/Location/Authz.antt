-- ===== src/Location/Authz.antt =====
-- The capability check in front of the store (node/location/authz.py). A query is served, refused for
-- a reason that only the log sees, or ends in an exception.
mod Laws
pub mod Serves
pub mod Runs
pub mod Revocation
use meshlink_node.Prelude.{
  Bool, Bytes, Dict, List, Option, Text, [], add, contains, false, get, if◌then◌else◌, ltb, none,
  not, or_default, put, some, true, ℕ, ◌+◌, ◌/◌, ◌==◌, nat_eq, list_eq, pair_eq,
}
use meshlink_node.Directory.{Directory, by_ed25519_id}
use meshlink_node.Directory.Hex.{from_hex}
use meshlink_node.Location.Store.{LocationStore, ticks_per_s, get_row, beacon_age_s}
use meshlink_node.Location.Core.{Message, RevocationKey, Core}

pub data Reason : Type 0 where
  malformed_query not_grantee unknown_issuer bad_token revoked_token : Reason
  rate_limited no_beacon unknown_requester : Reason

-- How a query ends that is not served.
pub data Failure : Type 0 where
  refused : Reason → Failure
  raised : Failure

pub data Answer : Type 0 where
  served : Bytes → Answer
  failed : Failure → Answer

-- A check passes with a value, or ends the query.
pub data Checked {ℓ} (A : Type ℓ) : Type ℓ where
  ok : A → Checked A
  stop : Failure → Checked A

infixl 5 ◌>>=◌ ◌>>◌
abbrev pub ◌>>=◌ {ℓ κ} : {A : Type ℓ} {B : Type κ} → Checked A → (A → Checked B) → Checked B
ok a >>= f = f a
stop x >>= f = stop x

abbrev pub ◌>>◌ {ℓ} : {B : Type ℓ} → Checked (Unit {0}) → Checked B → Checked B
m >> k = m >>= λ _. k

abbrev pub or_refuse {ℓ} : {A : Type ℓ} → Option A → Reason → Checked A
or_refuse none r = stop (refused r)
or_refuse (some a) r = ok a

abbrev pub or_raise {ℓ} : {A : Type ℓ} → Option A → Checked A
or_raise none = stop raised
or_raise (some a) = ok a

abbrev pub require : Bool → Reason → Checked (Unit {0})
require true r = ok tt
require false r = stop (refused r)

-- LocationAuthz: the revocation set, and the last query of each (requester, target)
pub record Authz : Type 0 where
  pub min_interval : ℕ
  pub revoked : List RevocationKey
  pub last_query : Dict (Bytes × Bytes) ℕ

-- QUERY_MIN_INTERVAL_S and LocationAuthz(...)
unfoldable pub new_authz : ℕ → Authz
new_authz interval = record { min_interval = interval; revoked = []; last_query = [] }

-- bytes.fromhex(user[key]), or an exception
abbrev pub hex_field : Option Text → Option Bytes
hex_field none = none
hex_field (some hex) = from_hex hex

pub record Grant : Type 0 where
  pub requester_id : Bytes
  pub issuer_id : Bytes
  pub target_key : Bytes

abbrev pub answer_of : Checked Bytes → Answer
answer_of (ok payload) = served payload
answer_of (stop e) = failed e

-- `now - last < min_interval`, with 0 for a pair that has not asked
abbrev pub too_soon : Authz → ℕ → Bytes × Bytes → Bool
too_soon z now pair = ltb now (or_default (get z.last_query pair) 0 + z.min_interval)

module _ (c : Core) where
  -- `handle_query` up to the revocation test
  unfoldable pub authorise : Directory → Authz → ℕ → Message → Checked Grant
  authorise d z now msg = do
    raw_token ← or_refuse (c.decode_query msg.payload) malformed_query
    token ← or_refuse (c.parse_token raw_token) malformed_query
    let requester_id = c.pubkey_id msg.sender_key
    require (c.grantee_of token == requester_id) not_grantee
    target ← or_refuse (by_ed25519_id c.pubkey_id d (c.issuer_of token)) unknown_issuer
    target_key ← or_raise (hex_field target.ed25519_pub)
    require (c.verify raw_token target_key msg.sender_key (now / ticks_per_s)) bad_token
    require (not (contains z.revoked (c.revocation_key token))) revoked_token
    ok (record {
      requester_id = requester_id;
      issuer_id = c.issuer_of token;
      target_key = target_key;
    })

  -- The response to a query that passed the rate limit. `later` is the store's own clock reading.
  unfoldable pub respond : LocationStore → Directory → ℕ → Grant → Checked Bytes
  respond rows d later g = do
    row ← or_refuse (get_row rows g.target_key) no_beacon
    requester ← or_refuse (by_ed25519_id c.pubkey_id d g.requester_id) unknown_requester
    seal_key ← or_raise (hex_field requester.curve25519_pub)
    or_raise (
        c.encode_response
          (record {
            target_pubkey_id = g.issuer_id;
            lat_microdeg = row.lat_microdeg;
            lon_microdeg = row.lon_microdeg;
            accuracy_m = row.accuracy_m;
            beacon_age = beacon_age_s later row;
            zone = row.zone_id;
          })
          g.requester_id seal_key)

  -- The part of `handle_query` under the lock, and what follows it.
  unfoldable pub serve : LocationStore → Directory → Authz → ℕ → ℕ → Checked Grant → Answer × Authz
  serve rows d z now later (stop e) = (failed e, z)
  serve rows d z now later (ok g) =
      let pair : Bytes × Bytes = (g.requester_id, g.issuer_id) in
      if too_soon z now pair
      then (failed (refused rate_limited), z)
      else (answer_of (respond rows d later g), record z { last_query = put z.last_query pair now })

  unfoldable pub handle_query : LocationStore → Directory → Authz → ℕ → ℕ → Message → Answer × Authz
  unfolding serve
  handle_query rows d z now later msg = serve rows d z now later (authorise d z now msg)

  -- Returns whether the revocation was accepted.
  unfoldable pub handle_revoke : Authz → Message → Bool × Authz
  handle_revoke z msg = elim (c.decode_revoke msg.payload) [
    | none ↦ (false, z)
    | some r ↦
        if not (c.pubkey_id msg.sender_key == c.revoke_issuer r)
        then (false, z)
        else (true, record z { revoked = add z.revoked (c.revoke_key r) })
  ]
