-- ===== src/BackendProxy/Exchange.antt =====
-- One request of a phone, from its frame to the frame that it gets back (node/backend_proxy.py).
use meshlink_node.Prelude.{
  Bytes, Option, Text, [], ap, codes, contains, inl, inr, is_some, length, none, pos, refl, some,
  true, ℕ, ◌++◌, ◌∙◌, ◌∷◌, ◌≡◌, ◌≤◌, ◌⊎◌, nat_eq, list_eq,
}
use meshlink_node.Json.{integer, text, object, Fields, no_fields, field, field_of, Json}
use meshlink_node.Gatt.{Peer}
use meshlink_node.Relay.Parts.{is_backend_proxy_frame, backend_proxy_magic}
use meshlink_node.BackendProxy.{
  text_path_allowed, path_allowed, method_allowed, Request, responded, rejected, Uplink, decode,
  body_response, response, data_of, headers_of, add_headers, reply_to, execute, handle_frame, serve,
  max_response_bytes, allowed_methods, request_fields, encode_request,
}
use meshlink_node.BackendProxy.Replies.{reply_to-forwarded}

-- What json reads back as it was written.
abbrev pub ReadsBack : (j : Json) → Fields j.Float → Type 0
ReadsBack j fs = j.loads_utf8 (j.dumps (object fs)) ≡ some (object fs)

-- A response as the phone sees it
abbrev pub response_fields : {F : Type 0} → Text → ℕ → Text → Fields F
response_fields req_id status body = field (codes "t") (text (codes "res")) (
    field (codes "id") (text req_id)
      (field (codes "status") (integer (pos status)) (field (codes "body") (text body) no_fields)))

-- `body.encode()`, where the text has UTF-8
abbrev pub encoded : Uplink → Option Text → Option (Option Bytes)
encoded k none = some none
encoded k (some t) = elim (k.encode t) [ none ↦ none | some b ↦ some (some b) ]

module _ (j : Json) (k : Uplink) where
  decode-magic :
      (fs : Fields j.Float)
      → ReadsBack j fs
      → is_some (field_of fs (codes "t")) ≡ true
      → decode j k (backend_proxy_magic ++ j.dumps (object fs)) ≡ some fs
  unfolding decode is_backend_proxy_frame
  decode-magic fs back tagged = rw (back, tagged)

  field_of-headers :
      (req_id method path : Text) (body : Option Text) (headers : Fields j.Float) (d : Option Bytes)
      → headers_of j k d
          (field_of (request_fields req_id method path body headers) (codes "headers"))
        ≡ headers_of j k d (some (object headers))
  unfolding request_fields headers_of add_headers
  field_of-headers req_id method path none no_fields d = refl
  field_of-headers req_id method path (some t) no_fields d = refl
  field_of-headers req_id method path none (field key v fs) d = refl
  field_of-headers req_id method path (some t) (field key v fs) d = refl

  field_of-body :
      (req_id method path : Text) (body : Option Text) (headers : Fields j.Float)
      → data_of j k (field_of (request_fields req_id method path body headers) (codes "body"))
        ≡ encoded k body
  unfolding request_fields data_of
  field_of-body req_id method path none no_fields = refl
  field_of-body req_id method path (some t) no_fields = refl
  field_of-body req_id method path none (field key v fs) = refl
  field_of-body req_id method path (some t) (field key v fs) = refl

  -- The request that the proxy makes for one that is allowed.
  abbrev pub asked_for : Text → Text → Option Bytes → Fields j.Float → Request
  asked_for method path sent headers = record {
    url = k.base_url ++ path;
    body = sent;
    headers = headers_of j k sent (some (object headers));
    method = method;
  }

  execute-allowed :
      (req_id method path : Text) (body : Option Text) (headers : Fields j.Float)
      (sent : Option Bytes)
      → contains allowed_methods method ≡ true
      → text_path_allowed path ≡ true
      → encoded k body ≡ some sent
      → let q = asked_for method path sent headers in
        execute j k (request_fields req_id method path body headers)
        ≡ record { asked = some q; reply = some (reply_to j k (some (text req_id)) (k.urlopen q)) }
  unfolding execute method_allowed path_allowed request_fields
  execute-allowed req_id method path body headers sent m p e = rw (
    m,
    execute,
    p,
    field_of-body req_id method path body headers ∙ e,
    field_of-headers req_id method path body headers sent,
  )

  serve-reply :
      (peer : Peer) (req : Fields j.Float) (reply : Bytes)
      → (execute j k req).reply ≡ some reply
      → serve j k peer req ≡ (peer, reply) ∷ []
  unfolding serve
  serve-reply peer req reply h = rw (h, serve)

  handle_frame-request :
      (req_id method path : Text) (body : Option Text) (headers : Fields j.Float)
      → ReadsBack j (request_fields req_id method path body headers)
      → handle_frame j k (encode_request j req_id method path body headers)
        ≡ some (request_fields req_id method path body headers)
  unfolding handle_frame encode_request request_fields
  handle_frame-request req_id method path body headers back =
      rw (decode-magic (request_fields req_id method path body headers) back refl, handle_frame)

  decode-response :
      (req_id : Text) (status : ℕ) (body : Text)
      → ReadsBack j (response_fields req_id status body)
      → decode j k (body_response j k (some (text req_id)) status body)
        ≡ some (response_fields req_id status body)
  unfolding body_response response
  decode-response req_id status body back =
      decode-magic (response_fields req_id status body) back refl

  -- What the service asks the transport to send for a request frame with an allowed method and path,
  -- if the backend responds with at most 256 KiB.
  pub serve-encode_request :
      (peer : Peer) (req_id method path : Text) (body : Option Text) (headers : Fields j.Float)
      (sent : Option Bytes) (status : ℕ) (content : Bytes)
      → contains allowed_methods method ≡ true
      → text_path_allowed path ≡ true
      → encoded k body ≡ some sent
      → (k.urlopen (asked_for method path sent headers) ≡ responded status content)
        ⊎ (k.urlopen (asked_for method path sent headers) ≡ rejected status content)
      → length content ≤ max_response_bytes
      → ReadsBack j (request_fields req_id method path body headers)
      → ReadsBack j (response_fields req_id status (k.decode_replace content))
      → (req : Fields j.Float) × (reply : Bytes) × (handle_frame j k
            (encode_request j req_id method path body headers)
          ≡ some req)
        × (serve j k peer req ≡ (peer, reply) ∷ [])
        × (decode j k reply ≡ some (response_fields req_id status (k.decode_replace content)))
  serve-encode_request peer req_id method path body headers sent status content m p e got small back
        again =
      let req = request_fields req_id method path body headers in
      let reply = body_response j k (some (text req_id)) status (k.decode_replace content) in
      let run = execute-allowed req_id method path body headers sent m p e in
      let both = (reply_to-forwarded j k (some (text req_id)) status content).0 small in
      let q = asked_for method path sent headers in
      let answer : reply_to j k (some (text req_id)) (k.urlopen q) ≡ reply = elim got [
        | inl g ↦ rw (g) both.0
        | inr g ↦ rw (g) both.1
      ] in
      (
        req,
        reply,
        handle_frame-request req_id method path body headers back,
        serve-reply peer req reply (ap (λ x. x.reply) run ∙ ap some answer),
        decode-response req_id status (k.decode_replace content) again,
      )
