-- ===== src/Location/Authz/Revocation.antt =====
-- What a revocation does, and that it lasts (node/location/authz.py).
use meshlink_node.Prelude.{
  Bool-cases, Bytes, List, Option-cases, [], beq_eq, beq_refl, contains, contains-add, false,
  if◌then◌else◌, inl, inr, refl, some, subst, sym, true, ℕ, ◌==◌, ◌∙◌, ◌∷◌, ◌≡◌, ◌≢◌, ◌⊎◌, nat_eq,
  list_eq, pair_eq,
}
use meshlink_node.Directory.{Directory}
use meshlink_node.Location.Store.{LocationStore}
use meshlink_node.Location.Core.{Message, RevocationKey, Core}
use meshlink_node.Location.Authz.{served, Authz, authorise, handle_query, handle_revoke}
use meshlink_node.Location.Authz.Serves.{handle_query-Serves}
use meshlink_node.Location.Authz.Runs.{
  Op, asks, revokes, after_op, after_ops, serve-limit, revoke-keeps,
}

module _ (c : Core) where
  op-keeps_revoked :
      (z : Authz) (op : Op) (k : RevocationKey)
      → contains z.revoked k ≡ true
      → contains (after_op c z op).revoked k ≡ true
  unfolding after_op handle_query
  op-keeps_revoked z (asks rows d now later msg) k h =
      let m = authorise c d z now msg in
      let (i, r, l) = serve-limit c rows d z now later m (msg.sender_key, msg.sender_key) in
      subst (λ x. contains x k ≡ true) (sym r) h
  op-keeps_revoked z (revokes msg) k h = (revoke-keeps c z msg).2 k h

  ops-keep_revoked :
      (z : Authz) (ops : List Op) (k : RevocationKey)
      → contains z.revoked k ≡ true
      → contains (after_ops c z ops).revoked k ≡ true
  unfolding after_ops
  ops-keep_revoked z [] k h = h
  ops-keep_revoked z (op ∷ ops) k h =
      ops-keep_revoked (after_op c z op) ops k (op-keeps_revoked z op k h)

  revoke-adds :
      (z : Authz) (msg : Message) (r : c.Revoke)
      → c.decode_revoke msg.payload ≡ some r
      → c.pubkey_id msg.sender_key ≡ c.revoke_issuer r
      → contains (handle_revoke c z msg).1.revoked (c.revoke_key r) ≡ true
  unfolding handle_revoke
  revoke-adds z msg r e own =
      let same : (c.pubkey_id msg.sender_key == c.revoke_issuer r) ≡ true =
        rw own (beq_refl (c.revoke_issuer r)) in
      let k = c.revoke_key r in
      rw (e, handle_revoke, same) (contains-add z.revoked k k ∙ rw (beq_refl k))

  -- Once the issuer of a token has revoked it, no query that carries the token is served, whatever
  -- queries and revocations come between and whatever store, directory and clocks it meets.
  pub revoked-never_served :
      (z : Authz) (revocation : Message) (r : c.Revoke)
      → c.decode_revoke revocation.payload ≡ some r
      → c.pubkey_id revocation.sender_key ≡ c.revoke_issuer r
      → (ops : List Op) (msg : Message) (raw : Bytes) (token : c.Token)
      → c.decode_query msg.payload ≡ some raw
      → c.parse_token raw ≡ some token
      → c.revocation_key token ≡ c.revoke_key r
      → (rows : LocationStore) (d : Directory) (now later : ℕ) (payload : Bytes)
      → (handle_query c rows d (after_ops c (handle_revoke c z revocation).1 ops) now later msg).0
        ≢ served payload
  revoked-never_served z revocation r e own ops msg raw token carries parses key rows d now later
        payload h =
      let z' = after_ops c (handle_revoke c z revocation).1 ops in
      let s = (handle_query-Serves c rows d z' now later msg payload).0 h in
      let there =
        ops-keep_revoked (handle_revoke c z revocation).1 ops (c.revoke_key r)
          (revoke-adds z revocation r e own) in
      clash s.authorised.token s.authorised.raw_token s.authorised.carries s.authorised.parses there
        s.authorised.not_revoked
    where
      clash :
          (t : c.Token) (w : Bytes)
          → c.decode_query msg.payload ≡ some w
          → c.parse_token w ≡ some t
          → contains (after_ops c (handle_revoke c z revocation).1 ops).revoked (c.revoke_key r)
            ≡ true
          → contains (after_ops c (handle_revoke c z revocation).1 ops).revoked (c.revocation_key t)
            ≡ false
          → ⊥
      clash t w a b there gone = cc

  -- A revocation is accepted only if it decodes and its sender is the issuer that it names, and
  -- then adds exactly its key; one that is not accepted changes nothing.
  pub handle_revoke-issuer :
      (z : Authz) (msg : Message)
      → (((handle_revoke c z msg).0 ≡ true)
          × ((r : c.Revoke) × (c.decode_revoke msg.payload ≡ some r)
              × (c.pubkey_id msg.sender_key ≡ c.revoke_issuer r)
              × ((k : RevocationKey)
                  → contains (handle_revoke c z msg).1.revoked k
                    ≡ (if c.revoke_key r == k then true else contains z.revoked k))))
        ⊎ (handle_revoke c z msg ≡ (false, z))
  unfolding handle_revoke
  handle_revoke-issuer z msg = elim (Option-cases (c.decode_revoke msg.payload)) [
    | inl e ↦ inr (rw (e, handle_revoke))
    | inr (r, e) ↦ elim (Bool-cases (c.pubkey_id msg.sender_key == c.revoke_issuer r)) [
      | inl own ↦ inl (
          rw (e, handle_revoke, own)
            (
              refl,
              (
                r,
                refl,
                beq_eq (c.pubkey_id msg.sender_key) (c.revoke_issuer r) own,
                λ k. contains-add z.revoked (c.revoke_key r) k,
              ),
            ))
      | inr other ↦ inr (rw (e, handle_revoke, other))
    ]
  ]
