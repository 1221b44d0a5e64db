-- ===== src/BackendProxy.antt =====
-- The proxy through which a phone reaches the backend (node/backend_proxy.py). A worker's job is a
-- function of the request; the pool that runs it is left out.
pub mod Reach
pub mod Replies
pub mod Exchange
pub mod Return
use meshlink_node.Prelude.{
  Bool, Bytes, Dict, List, Option, Text, [], codes, contains, drop, false, if◌then◌else◌, is_some,
  length, ltb, none, not, or_default, pos, put, some, starts_with, take, ℕ, ◌&&◌, ◌*◌, ◌++◌, ◌+◌,
  ◌/◌, ◌==◌, ◌||◌, ◌∷◌, nat_eq, list_eq,
}
use meshlink_node.Json.{
  Value, null, integer, text, object, Fields, no_fields, field, field_of, Json,
}
use meshlink_node.Gatt.{Peer}
use meshlink_node.Relay.Parts.{backend_proxy_magic, is_backend_proxy_frame}

-- ALLOWED_PATH_PREFIXES
abbrev pub allowed_path_prefixes : List Text
allowed_path_prefixes =
    codes "/auth/"
    ∷ codes "/tickets"
    ∷ codes "/attestation/"
    ∷ codes "/events"
    ∷ codes "/account"
    ∷ codes "/directory/"
    ∷ codes "/friendships"
    ∷ codes "/health"
    ∷ []

-- ALLOWED_REST_PATHS
abbrev pub allowed_rest_paths : List Text
allowed_rest_paths =
    codes "/rest/v1/directory"
    ∷ codes "/rest/v1/friendships"
    ∷ codes "/rest/v1/relay_messages"
    ∷ codes "/rest/v1/rpc/send_friend_request"
    ∷ codes "/rest/v1/rpc/get_friend_requests"
    ∷ codes "/rest/v1/rpc/accept_friend_request"
    ∷ codes "/rest/v1/rpc/decline_friend_request"
    ∷ codes "/rest/v1/rpc/send_message"
    ∷ codes "/rest/v1/rpc/ack_messages"
    ∷ codes "/rest/v1/rpc/put_location_blobs"
    ∷ codes "/rest/v1/rpc/get_location"
    ∷ codes "/rest/v1/rpc/mirror_friendship"
    ∷ []

-- ALLOWED_METHODS and MAX_RESPONSE_BYTES
abbrev pub allowed_methods : List Text
allowed_methods = codes "GET" ∷ codes "POST" ∷ []

abbrev pub max_response_bytes : ℕ
max_response_bytes = 256 * 1024

-- path.startswith(prefixes)
unfoldable pub starts_with_any : Text → List Text → Bool
starts_with_any path [] = false
starts_with_any path (p ∷ ps) = starts_with path p || starts_with_any path ps

-- ".." in path
unfoldable pub has_dots : Text → Bool
has_dots [] = false
has_dots (c ∷ t) = starts_with (c ∷ t) (codes "..") || has_dots t

-- path.split("?", 1)[0]
unfoldable pub before_query : Text → Text
before_query [] = []
before_query (c ∷ t) = if c == b'?' then [] else c ∷ before_query t

unfoldable pub text_path_allowed : Text → Bool
unfolding starts_with_any has_dots before_query
text_path_allowed path =
    starts_with path (codes "/")
    && not (has_dots path)
    && (starts_with_any path allowed_path_prefixes
        || contains allowed_rest_paths (before_query path))

-- `path_allowed` of `req.get("path")`
unfoldable pub path_allowed : {F : Type 0} → Option (Value F) → Option Text
unfolding text_path_allowed
path_allowed (some (text path)) = if text_path_allowed path then some path else none
path_allowed _ = none

-- `method in ALLOWED_METHODS`
unfoldable pub method_allowed : {F : Type 0} → Option (Value F) → Option Text
method_allowed (some (text m)) = if contains allowed_methods m then some m else none
method_allowed _ = none

-- urllib.request.Request
pub record Request : Type 0 where
  pub url : Text
  pub body : Option Bytes
  pub headers : Dict Text Text
  pub method : Text

-- What urlopen comes to: a response, an HTTPError with its response, or another exception.
pub data Fetched : Type 0 where
  responded : ℕ → Bytes → Fetched
  rejected : ℕ → Bytes → Fetched
  unreachable : Fetched

-- Python's and urllib's functions: `lower`; `encode`, where `none` is a UnicodeEncodeError; the lenient
-- decode; and `urlopen` with the body that can be read.
pub record Uplink : Type 0 where
  pub base_url : Text
  pub lower : Text → Text
  pub encode : Text → Option Bytes
  pub decode_replace : Bytes → Text
  pub urlopen : Request → Fetched

-- allowed.get(str(key).lower())
unfoldable pub canonical : Text → Option Text
canonical key =
    if key == codes "authorization"
    then some (codes "Authorization")
    else if key == codes "apikey"
    then some (codes "apikey")
    else if key == codes "prefer"
    then some (codes "Prefer")
    else none

-- What `_execute` comes to: the request that it makes, if any, and its reply, or `none` for an exception.
pub record Executed : Type 0 where
  pub asked : Option Request
  pub reply : Option Bytes

module _ (j : Json) (k : Uplink) where
  with_t : Option (Value j.Float) → Option (Fields j.Float)
  with_t (some (object fs)) = if is_some (field_of fs (codes "t")) then some fs else none
  with_t _ = none

  unfoldable pub decode : Bytes → Option (Fields j.Float)
  unfolding is_backend_proxy_frame with_t
  decode frame =
      if not (is_backend_proxy_frame frame)
      then none
      else with_t (j.loads_utf8 (drop (length backend_proxy_magic) frame))

  abbrev optional_text : Text → Option Text → Fields j.Float
  optional_text name none = no_fields
  optional_text name (some t) = field name (text t) no_fields

  unfoldable pub response : Option (Value j.Float) → ℕ → Fields j.Float → Bytes
  response req_id status rest =
      backend_proxy_magic
      ++ j.dumps (
          object (
            field (codes "t") (text (codes "res")) (
              field (codes "id") (or_default req_id null)
                (field (codes "status") (integer (pos status)) rest))))

  -- encode_response(req_id, status, body=…) and encode_response(req_id, 0, error=…)
  unfoldable pub body_response : Option (Value j.Float) → ℕ → Text → Bytes
  unfolding response
  body_response req_id status body =
      response req_id status (field (codes "body") (text body) no_fields)

  unfoldable pub error_response : Option (Value j.Float) → Text → Bytes
  unfolding response
  error_response req_id error = response req_id 0 (field (codes "error") (text error) no_fields)

  -- body.encode() if isinstance(body, str) else None; the outer `none` is an exception
  unfoldable pub data_of : Option (Value j.Float) → Option (Option Bytes)
  data_of (some (text t)) = elim (k.encode t) [ none ↦ none | some b ↦ some (some b) ]
  data_of _ = some none

  -- The loop over `raw_headers.items()`.
  unfoldable pub add_headers : Dict Text Text → Fields j.Float → Dict Text Text
  unfolding canonical
  add_headers d no_fields = d
  add_headers d (field key (text value) fs) = elim (canonical (k.lower key)) [
    | none ↦ add_headers d fs
    | some name ↦ add_headers (put d name value) fs
  ]
  add_headers d (field key value fs) = add_headers d fs

  unfoldable pub headers_of : Option Bytes → Option (Value j.Float) → Dict Text Text
  unfolding add_headers
  headers_of data' (some (object fs)) =
      add_headers
        (if is_some data' then (codes "Content-Type", codes "application/json") ∷ [] else []) fs
  headers_of data' _ =
      if is_some data' then (codes "Content-Type", codes "application/json") ∷ [] else []

  -- After `read(MAX_RESPONSE_BYTES + 1)`.
  unfoldable pub forwarded : Option (Value j.Float) → ℕ → Bytes → Bytes
  unfolding body_response error_response
  forwarded req_id status content =
      let read = take (max_response_bytes + 1) content in
      if ltb max_response_bytes (length read)
      then error_response req_id (codes "response too large")
      else body_response req_id status (k.decode_replace read)

  unfoldable pub reply_to : Option (Value j.Float) → Fetched → Bytes
  unfolding forwarded
  reply_to req_id (responded status content) = forwarded req_id status content
  reply_to req_id (rejected status content) = forwarded req_id status content
  reply_to req_id unreachable = error_response req_id (codes "backend unreachable")

  -- str(req.get("method")), in the error text
  abbrev method_text : Option (Value j.Float) → Text
  method_text v = j.str_of (or_default v null)

  unfoldable pub execute : Fields j.Float → Executed
  unfolding path_allowed method_allowed data_of headers_of reply_to
  execute req =
      let req_id = field_of req (codes "id") in
      elim (method_allowed (field_of req (codes "method"))) [
        | none ↦ record {
          asked = none;
          reply = some (
              error_response req_id
                (codes "method not allowed: " ++ method_text (field_of req (codes "method"))));
        }
        | some method ↦ elim (path_allowed (field_of req (codes "path"))) [
          | none ↦ record {
            asked = none;
            reply = some (error_response req_id (codes "path not allowed"));
          }
          | some path ↦ elim (data_of (field_of req (codes "body"))) [
            | none ↦ record { asked = none; reply = none }
            | some data' ↦
                let request : Request = record {
                  url = k.base_url ++ path;
                  body = data';
                  headers = headers_of data' (field_of req (codes "headers"));
                  method = method;
                } in
                record { asked = some request; reply = some (reply_to req_id (k.urlopen request)) }
          ]
        ]
      ]

  abbrev is_request : Option (Value j.Float) → Bool
  is_request (some (text t)) = t == codes "req"
  is_request _ = false

  -- `handle_frame`: the job that is submitted
  unfoldable pub handle_frame : Bytes → Option (Fields j.Float)
  unfolding decode
  handle_frame frame = elim (decode frame) [
    | none ↦ none
    | some body ↦ if is_request (field_of body (codes "t")) then some body else none
  ]

  -- `_serve`: the send that it asks of the transport. If that raises, as framing does where the reply
  -- has more than 65535 bytes, the exception is logged.
  unfoldable pub serve : Peer → Fields j.Float → List (Peer × Bytes)
  unfolding execute
  serve peer req = elim (execute req).reply [ none ↦ [] | some reply ↦ (peer, reply) ∷ [] ]

-- `if headers:` and `if body is not None:` of encode_request
abbrev pub with_headers : {F : Type 0} → Fields F → Fields F → Fields F
with_headers no_fields rest = rest
with_headers (field k v fs) rest = field (codes "headers") (object (field k v fs)) rest

abbrev pub with_body : {F : Type 0} → Option Text → Fields F
with_body none = no_fields
with_body (some t) = field (codes "body") (text t) no_fields

unfoldable pub request_fields :
    {F : Type 0} → Text → Text → Text → Option Text → Fields F → Fields F
request_fields req_id method path body headers = field (codes "t") (text (codes "req")) (
    field (codes "id") (text req_id) (
      field (codes "method") (text method)
        (field (codes "path") (text path) (with_headers headers (with_body body)))))

unfoldable pub encode_request :
    (j : Json) → Text → Text → Text → Option Text → Fields j.Float → Bytes
unfolding request_fields
encode_request j req_id method path body headers =
    backend_proxy_magic ++ j.dumps (object (request_fields req_id method path body headers))
