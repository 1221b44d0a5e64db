-- ===== src/Location/Authz/Serves.antt =====
-- Exactly when a coordinate is served (node/location/authz.py).
use meshlink_node.Prelude.{
  Bool, Bytes, arith, beq_eq, beq_refl, contains, false, get, le→not-ltb, not, or_default, refl,
  some, subst, true, ℕ, ◌+◌, ◌/◌, ◌==◌, ◌↔◌, ◌≡◌, ◌≤◌, nat_eq, list_eq, pair_eq,
}
use meshlink_node.Directory.{User, Directory, by_ed25519_id}
use meshlink_node.Location.Store.{LocationRow, LocationStore, ticks_per_s, get_row, beacon_age_s}
use meshlink_node.Location.Core.{Message, Core}
use meshlink_node.Location.Authz.{
  malformed_query, not_grantee, unknown_issuer, bad_token, revoked_token, no_beacon,
  unknown_requester, served, Checked, ok, stop, Authz, hex_field, Grant, authorise, respond,
  answer_of, too_soon, serve, handle_query,
}
use meshlink_node.Location.Authz.Laws.{
  refuse_then, raise_then, require_then, or_raise-ok, ok-injective,
}

not-true : {b : Bool} → not b ≡ true → b ≡ false
not-true {b} h = ground arith

module _ (c : Core) (d : Directory) where
  -- The sender holds a token for the target: it is the token's grantee, the directory knows the issuer,
  -- the issuer's key verifies the token for this sender at this second, and it is not revoked.
  pub record Authorised (z : Authz) (now : ℕ) (msg : Message) (g : Grant) : Type 0 where
    pub raw_token : Bytes
    pub token : c.Token
    pub target : User
    pub carries : c.decode_query msg.payload ≡ some raw_token
    pub parses : c.parse_token raw_token ≡ some token
    pub is_grantee : c.grantee_of token ≡ c.pubkey_id msg.sender_key
    pub knows_issuer : by_ed25519_id c.pubkey_id d (c.issuer_of token) ≡ some target
    pub has_key : hex_field target.ed25519_pub ≡ some g.target_key
    pub verified : c.verify raw_token g.target_key msg.sender_key (now / ticks_per_s) ≡ true
    pub not_revoked : contains z.revoked (c.revocation_key token) ≡ false
    pub for_requester : g.requester_id ≡ c.pubkey_id msg.sender_key
    pub for_issuer : g.issuer_id ≡ c.issuer_of token

  pub authorise-Authorised :
      (z : Authz) (now : ℕ) (msg : Message) (g : Grant)
      → authorise c d z now msg ≡ ok g
      → Authorised z now msg g
  unfolding authorise
  authorise-Authorised z now msg g h =
      refuse_then (c.decode_query msg.payload) malformed_query _ g h λ raw p₁ h₁.
        refuse_then (c.parse_token raw) malformed_query _ g h₁ λ token p₂ h₂.
          require_then (c.grantee_of token == c.pubkey_id msg.sender_key) not_grantee _ g h₂
            λ p₃ h₃.
              refuse_then (by_ed25519_id c.pubkey_id d (c.issuer_of token)) unknown_issuer _ g h₃
                λ target p₄ h₄. raise_then (hex_field target.ed25519_pub) _ g h₄ λ key p₅ h₅.
                  require_then (c.verify raw key msg.sender_key (now / ticks_per_s)) bad_token _ g
                    h₅
                    λ p₆ h₆.
                      require_then (not (contains z.revoked (c.revocation_key token))) revoked_token
                        _ g h₆
                        λ p₇ h₇.
                          let g₀ : Grant = record {
                            requester_id = c.pubkey_id msg.sender_key;
                            issuer_id = c.issuer_of token;
                            target_key = key;
                          } in
                          subst (Authorised z now msg) (ok-injective g₀ g h₇) (record {
                            raw_token = raw;
                            token = token;
                            target = target;
                            carries = p₁;
                            parses = p₂;
                            is_grantee =
                                beq_eq (c.grantee_of token) (c.pubkey_id msg.sender_key) p₃;
                            knows_issuer = p₄;
                            has_key = p₅;
                            verified = p₆;
                            not_revoked = not-true p₇;
                            for_requester = refl;
                            for_issuer = refl;
                          })

  Authorised-authorise :
      (z : Authz) (now : ℕ) (msg : Message) (g : Grant)
      → Authorised z now msg g
      → authorise c d z now msg ≡ ok g
  unfolding authorise
  Authorised-authorise z now msg g a =
      let same : (c.grantee_of a.token == c.pubkey_id msg.sender_key) ≡ true =
        rw a.is_grantee (beq_refl (c.pubkey_id msg.sender_key)) in
      rw (
        a.carries, authorise, a.parses, same, a.knows_issuer, a.has_key, a.verified, a.not_revoked,
        a.for_requester, a.for_issuer,
      )

-- Everything that serving `payload` takes: the sender is authorised, its last query about this target
-- is at least the interval back, the store has a row for the target's key, and the response about that
-- row is sealed to the sender's key from the directory.
pub record Serves (c : Core) (rows : LocationStore) (d : Directory) (z : Authz) (now later : ℕ)
    (msg : Message) (payload : Bytes) : Type 0 where
  pub grant : Grant
  pub authorised : Authorised c d z now msg grant
  pub waited :
      or_default (get z.last_query (grant.requester_id, grant.issuer_id)) 0 + z.min_interval ≤ now
  pub row : LocationRow
  pub stored : get_row rows grant.target_key ≡ some row
  pub requester : User
  pub knows_requester : by_ed25519_id c.pubkey_id d grant.requester_id ≡ some requester
  pub seal_key : Bytes
  pub has_seal_key : hex_field requester.curve25519_pub ≡ some seal_key
  pub sealed :
      c.encode_response
        (record {
          target_pubkey_id = grant.issuer_id;
          lat_microdeg = row.lat_microdeg;
          lon_microdeg = row.lon_microdeg;
          accuracy_m = row.accuracy_m;
          beacon_age = beacon_age_s later row;
          zone = row.zone_id;
        })
        grant.requester_id
        seal_key
      ≡ some payload

module _ (c : Core) (rows : LocationStore) (d : Directory) (z : Authz) (now later : ℕ)
    (msg : Message) (payload : Bytes) where
  answer_of-served : (m : Checked Bytes) → answer_of m ≡ served payload → m ≡ ok payload
  answer_of-served (ok p) h = cc
  answer_of-served (stop a) h = cc

  respond-Serves :
      (g : Grant)
      → Authorised c d z now msg g
      → too_soon z now (g.requester_id, g.issuer_id) ≡ false
      → respond c rows d later g ≡ ok payload
      → Serves c rows d z now later msg payload
  unfolding respond
  respond-Serves g a t h =
      refuse_then (get_row rows g.target_key) no_beacon _ payload h λ row p₁ h₁.
        refuse_then (by_ed25519_id c.pubkey_id d g.requester_id) unknown_requester _ payload h₁
          λ requester p₂ h₂.
            raise_then (hex_field requester.curve25519_pub) _ payload h₂ λ key p₃ h₃. record {
              grant = g;
              authorised = a;
              waited = ground arith;
              row = row;
              stored = p₁;
              requester = requester;
              knows_requester = p₂;
              seal_key = key;
              has_seal_key = p₃;
              sealed = or_raise-ok _ payload h₃;
            }

  Serves-respond :
      (s : Serves c rows d z now later msg payload) → respond c rows d later s.grant ≡ ok payload
  unfolding respond
  Serves-respond s = rw (s.stored, respond, s.knows_requester, s.has_seal_key, s.sealed)

  serve-served :
      (g : Grant)
      → (serve c rows d z now later (ok g)).0 ≡ served payload
      → (too_soon z now (g.requester_id, g.issuer_id) ≡ false)
        × (respond c rows d later g ≡ ok payload)
  unfolding serve
  serve-served g h = ground arith

  serve-Serves :
      (m : Checked Grant)
      → authorise c d z now msg ≡ m
      → (serve c rows d z now later m).0 ≡ served payload
      → Serves c rows d z now later msg payload
  unfolding serve
  serve-Serves (stop e) p h = cc
  serve-Serves (ok g) p h =
      let (t, r) = serve-served g h in respond-Serves g (authorise-Authorised c d z now msg g p) t r

  Serves-serve :
      Serves c rows d z now later msg payload
      → (serve c rows d z now later (authorise c d z now msg)).0 ≡ served payload
  unfolding serve
  Serves-serve s =
      let wait : too_soon z now (s.grant.requester_id, s.grant.issuer_id) ≡ false =
        le→not-ltb now _ s.waited in
      rw (Authorised-authorise c d z now msg s.grant s.authorised, wait, Serves-respond s)

  -- A location query is served with a payload exactly when its sender holds a token of which it is
  -- the grantee, which the issuer's key from the directory verifies for this sender at this second
  -- and which is not revoked, its last query about the target is at least the interval back (time 0
  -- standing for no query), the store has a row for the target's key, and the payload is the
  -- response about that row sealed to the sender's key from the directory.
  pub handle_query-Serves :
      ((handle_query c rows d z now later msg).0 ≡ served payload)
      ↔ Serves c rows d z now later msg payload
  unfolding handle_query
  handle_query-Serves = (serve-Serves (authorise c d z now msg) refl, Serves-serve)
