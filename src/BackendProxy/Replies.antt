-- ===== src/BackendProxy/Replies.antt =====
-- What the proxy sends back (node/backend_proxy.py).
use meshlink_node.Prelude.{
  All, Bool-cases, Bytes, Option, Option-cases, Text, [], ap, arith, codes, inl, inr, length,
  length-take, le→not-ltb, ltb, lt→ltb, none, refl, some, subst, suc, take, true, zero, ℕ, ◌++◌,
  ◌+◌, ◌<◌, ◌∷◌, ◌≡◌, ◌≤◌, nat_eq, list_eq,
}
use meshlink_node.Json.{Value, Fields, field_of, Json}
use meshlink_node.Gatt.{Peer}
use meshlink_node.Relay.Parts.{is_backend_proxy_frame}
use meshlink_node.BackendProxy.{
  path_allowed, method_allowed, Fetched, responded, rejected, unreachable, Uplink, data_of,
  headers_of, forwarded, reply_to, body_response, error_response, execute, serve, response,
  max_response_bytes,
}

module _ (j : Json) (k : Uplink) where
  error_response-magic :
      (v : Option (Value j.Float)) (t : Text)
      → is_backend_proxy_frame (error_response j k v t) ≡ true
  unfolding error_response response is_backend_proxy_frame
  error_response-magic v t = refl

  body_response-magic :
      (v : Option (Value j.Float)) (n : ℕ) (t : Text)
      → is_backend_proxy_frame (body_response j k v n t) ≡ true
  unfolding body_response response is_backend_proxy_frame
  body_response-magic v n t = refl

  forwarded-magic :
      (v : Option (Value j.Float)) (n : ℕ) (content : Bytes)
      → is_backend_proxy_frame (forwarded j k v n content) ≡ true
  unfolding forwarded
  forwarded-magic v n content =
      elim (Bool-cases (ltb max_response_bytes (length (take (max_response_bytes + 1) content)))) [
        | inl e ↦ rw (e, forwarded) (error_response-magic v (codes "response too large"))
        | inr e ↦
            rw (e, forwarded)
              (body_response-magic v n (k.decode_replace (take (max_response_bytes + 1) content)))
      ]

  reply_to-magic :
      (v : Option (Value j.Float)) (f : Fetched) → is_backend_proxy_frame (reply_to j k v f) ≡ true
  unfolding reply_to
  reply_to-magic v (responded n content) = forwarded-magic v n content
  reply_to-magic v (rejected n content) = forwarded-magic v n content
  reply_to-magic v unreachable = error_response-magic v (codes "backend unreachable")

  abbrev HasMagic : Option Bytes → Type 0
  HasMagic none = Unit
  HasMagic (some b) = is_backend_proxy_frame b ≡ true

  execute-HasMagic : (req : Fields j.Float) → HasMagic (execute j k req).reply
  unfolding execute
  execute-HasMagic req = elim (Option-cases (method_allowed (field_of req (codes "method")))) [
    | inl e ↦ rw (e, execute) (error_response-magic (field_of req (codes "id")) _)
    | inr (method, e) ↦ elim (Option-cases (path_allowed (field_of req (codes "path")))) [
      | inl f ↦ rw (e, execute, f) (error_response-magic (field_of req (codes "id")) _)
      | inr (path, f) ↦ elim (Option-cases (data_of j k (field_of req (codes "body")))) [
        | inl g ↦ rw (e, execute, f, g) tt
        | inr (sent, g) ↦
            rw (e, execute, f, g)
              (reply_to-magic (field_of req (codes "id")) (
                k.urlopen (record {
                  url = k.base_url ++ path;
                  body = sent;
                  headers = headers_of j k sent (field_of req (codes "headers"));
                  method = method;
                })))
      ]
    ]
  ]

  -- Every reply of the proxy goes to the peer that asked, behind the proxy magic, and at most one
  -- is sent.
  pub serve-is_backend_proxy_frame :
      (peer : Peer) (req : Fields j.Float)
      → All (λ q. (q.0 ≡ peer) × (is_backend_proxy_frame q.1 ≡ true)) (serve j k peer req)
        × (length (serve j k peer req) ≤ 1)
  unfolding serve
  serve-is_backend_proxy_frame peer req = elim (Option-cases (execute j k req).reply) [
    | inl e ↦ rw (e, serve) (tt, omega arith)
    | inr (reply, e) ↦
        rw (e, serve) (((refl, subst HasMagic e (execute-HasMagic req)), tt), omega arith)
  ]

  take-all : (n : ℕ) (b : Bytes) → length b ≤ n → take n b ≡ b
  take-all zero [] h = refl
  take-all zero (x ∷ b) h = absurd (omega arith)
  take-all (suc n) [] h = refl
  take-all (suc n) (x ∷ b) h = ap (◌∷◌ x) (take-all n b (omega arith))

  -- The backend's answer, also one with an error status, is forwarded whole with its status if it
  -- has at most 256 KiB, and a longer response is refused.
  pub reply_to-forwarded :
      (v : Option (Value j.Float)) (status : ℕ) (content : Bytes)
      → (length content ≤ max_response_bytes
          → (reply_to j k v (responded status content)
              ≡ body_response j k v status (k.decode_replace content))
            × (reply_to j k v (rejected status content)
                ≡ body_response j k v status (k.decode_replace content)))
        × (max_response_bytes < length content
            → reply_to j k v (responded status content)
              ≡ error_response j k v (codes "response too large"))
  unfolding reply_to forwarded
  reply_to-forwarded v status content =
      let n = max_response_bytes in
      let len = length-take (n + 1) content in
      (
        λ small.
            let whole = take-all (n + 1) content (omega arith) in
            let fits = le→not-ltb n (length content) small in
            (rw (whole, reply_to, forwarded, fits), rw (whole, reply_to, forwarded, fits)),
        λ large.
            let over = lt→ltb n (length (take (n + 1) content)) (omega (arith, len)) in
            rw (over, reply_to, forwarded),
      )
