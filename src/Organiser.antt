-- ===== src/Organiser.antt =====
-- The organiser's public key at boot (node/attestation/organiser_key.py), and the choice of its source
-- in node/main.py.
pub mod Sources
use meshlink_node.Prelude.{
  Bool, Option, Text, [], codes, if◌then◌else◌, none, some, ◌++◌, ◌∷◌, nat_eq, list_eq,
}
use meshlink_node.Strings.{strip, rstrip_of}
use meshlink_node.Json.{Value, text, object, field_of}

-- How the request to the backend ends: an OSError (unreachable, refused, timed out), or a body that
-- `json.load` reads, where `none` is a ValueError.
pub data Response (F : Type 0) : Type 0 where
  unreachable : Response F
  body : Option (Value F) → Response F

-- The cache file, `none` where there is none, and whether it may be written.
pub record KeyCache : Type 0 where
  pub file : Option Text
  pub can_write : Bool

-- How load_organiser_pubkey ends: with a key, with its RuntimeError, or with another exception.
pub data KeyResult : Type 0 where
  key : Text → KeyResult
  runtime_error : KeyResult
  other_error : KeyResult

unfoldable pub key_url : Text → Text
unfolding rstrip_of
key_url base_url = rstrip_of b'/' base_url ++ codes "/attestation/public-key"

-- json.load(resp)["public_key"]; a KeyError or TypeError is `none`. The value is used as a text.
unfoldable pub public_key : {F : Type 0} → Value F → Option Text
public_key (object fs) = elim (field_of fs (codes "public_key")) [
  | none ↦ none
  | some v ↦ elim v [ text t ↦ some t | _ ↦ none ]
]
public_key _ = none

-- `except OSError`
unfoldable pub from_cache : KeyCache → KeyCache × KeyResult
unfolding strip
from_cache c = elim c.file [ none ↦ (c, runtime_error) | some t ↦ (c, key (strip t)) ]

-- A file that cannot be written is an OSError too.
unfoldable pub load_organiser_pubkey : {F : Type 0} → Response F → KeyCache → KeyCache × KeyResult
unfolding public_key from_cache
load_organiser_pubkey unreachable c = from_cache c
load_organiser_pubkey (body none) c = (c, other_error)
load_organiser_pubkey (body (some v)) c = elim (public_key v) [
  | none ↦ (c, other_error)
  | some t ↦ if c.can_write then (record c { file = some (t ++ 10 ∷ []) }, key t) else from_cache c
]

-- The key that main uses: the environment's, if it is set and not empty.
unfoldable pub organiser_pubkey :
    {F : Type 0} → Option Text → Response F → KeyCache → KeyCache × KeyResult
unfolding load_organiser_pubkey
organiser_pubkey (some (d ∷ t)) r c = (c, key (d ∷ t))
organiser_pubkey _ r c = load_organiser_pubkey r c
