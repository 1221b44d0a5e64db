-- ===== src/Directory.antt =====
-- The cached user directory (node/directory/cache.py). A row is what the JSON object holds under the
-- names that the node reads; a missing name is `none`. `pubkey_id` of meshlink-core is a parameter.
pub mod Hex
pub mod Index
use meshlink_node.Prelude.{
  Bytes, Dict, List, Option, Text, [], get, if◌then◌else◌, length, map, none, not, or_default, put,
  some, ℕ, ◌==◌, ◌∷◌, nat_eq, list_eq,
}
use meshlink_node.Directory.Hex.{from_hex}
use mathlib.Core.Option

pub record User : Type 0 where
  pub username : Option Text
  pub curve25519_pub : Option Text
  pub ed25519_pub : Option Text
  pub user_id : Option Text

pub record Directory : Type 0 where
  pub users_by_username : Dict Text User
  pub users_by_ed_id : Dict Bytes User
  pub cache_file : Option (List User)

abbrev pub empty_directory : Option (List User) → Directory
empty_directory file = record { users_by_username = []; users_by_ed_id = []; cache_file = file }

module _ (pubkey_id : Bytes → Bytes) where
  -- {u["username"]: u for u in users}, over the entries so far; `none` where it raises KeyError
  unfoldable pub index_usernames : Dict Text User → List User → Option (Dict Text User)
  index_usernames d [] = some d
  index_usernames d (u ∷ us) = elim u.username [
    | none ↦ none
    | some name ↦ index_usernames (put d name u) us
  ]

  -- pubkey_id(bytes.fromhex(u["ed25519_pub"])), or `none` where that raises
  unfoldable pub ed_id : User → Option Bytes
  ed_id u = elim u.ed25519_pub [ none ↦ none | some hex ↦ Option.map pubkey_id (from_hex hex) ]

  unfoldable pub index_ed_ids : Dict Bytes User → List User → Option (Dict Bytes User)
  index_ed_ids d [] = some d
  index_ed_ids d (u ∷ us) = elim (ed_id u) [ none ↦ none | some k ↦ index_ed_ids (put d k u) us ]

  -- `_index`: both tables are built before either is replaced
  unfoldable pub index : Directory → List User → Option Directory
  unfolding index_usernames index_ed_ids
  index d users = elim (index_usernames [] users) [
    | none ↦ none
    | some names ↦ elim (index_ed_ids [] users) [
      | none ↦ none
      | some ids ↦ some (record d { users_by_username = names; users_by_ed_id = ids })
    ]
  ]

  -- DirectoryCache(...): the cache file's rows, if there is one that parses, are loaded; rows that do
  -- not index leave the tables empty
  unfoldable pub new_directory : Option (List User) → Directory
  unfolding index
  new_directory none = empty_directory none
  new_directory (some users) =
      or_default (index (empty_directory (some users)) users) (empty_directory (some users))

  pub data Refreshed : Type 0 where
    synced kept raised : Refreshed

  -- `refresh`: no response is one that failed to arrive or to parse. Rows that do not index raise.
  unfoldable pub refresh : Directory → Option (List User) → Refreshed × Directory
  unfolding index
  refresh d none = (kept, d)
  refresh d (some users) = elim (index d users) [
    | none ↦ (raised, d)
    | some d' ↦ (synced, record d' { cache_file = some users })
  ]

  unfoldable pub by_username : Directory → Text → Option User
  by_username d name = get d.users_by_username name

  unfoldable pub by_ed25519_id : Directory → Bytes → Option User
  by_ed25519_id d k = get d.users_by_ed_id k

  unfoldable pub account_for : Directory → Bytes → Option User
  unfolding by_ed25519_id
  account_for d sender_key =
      if not (length sender_key == 32) then none else by_ed25519_id d (pubkey_id sender_key)

  unfoldable pub user_count : Directory → ℕ
  user_count d = length d.users_by_username
