-- ===== src/Examples/Users.antt =====
-- A directory of two users (node/directory/cache.py).
use meshlink_node.Prelude.{Bytes, codes, none, some, take, nat_eq, list_eq}
use meshlink_node.Directory.{User}

-- The first byte of a key stands for its hash.
abbrev pub first_byte : Bytes → Bytes
first_byte key = take 1 key

-- The keys are one byte long: a is 0a, b is 0b.
abbrev pub alice : User
alice = record {
  username = some (codes "alice");
  curve25519_pub = some (codes "ca");
  ed25519_pub = some (codes "0a");
  user_id = some (codes "u1");
}

abbrev pub bertha : User
bertha = record {
  username = some (codes "bertha");
  curve25519_pub = some (codes "cb");
  ed25519_pub = some (codes "0b");
  user_id = none;
}
