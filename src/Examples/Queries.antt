-- ===== src/Examples/Queries.antt =====
-- Location queries, run (node/location/authz.py).
use meshlink_node.Prelude.{
  List, [], get, pos, put, refl, ◌+◌, ◌↔◌, ◌∷◌, ◌≡◌, ◌≢◌, nat_eq, list_eq, pair_eq,
}
use meshlink_node.Directory.{
  by_ed25519_id, new_directory, index, index_usernames, index_ed_ids, ed_id,
}
use meshlink_node.Directory.Hex.{from_hex, hex_digit}
use meshlink_node.Location.Store.{
  Beacon, get_row, beacon_age_s, ingest, rows_for, last_beacon, option_to_list, rows_for-ingest,
}
use meshlink_node.Location.Authz.{served, authorise, respond, serve, handle_query, handle_revoke}
use meshlink_node.Location.Authz.Serves.{Serves, handle_query-Serves}
use meshlink_node.Location.Authz.Runs.{Op, asks, after_ops, served_at, Spaced, served_at-Spaced}
use meshlink_node.Location.Authz.Revocation.{revoked-never_served}
use meshlink_node.Examples.Toy.{toy_core, users, rows, now, guard, query, revocation}

-- The age, the accuracy, and the key that it is sealed to.
query_served : (handle_query toy_core rows users guard now now query).0 ≡ served (5 ∷ 8 ∷ 203 ∷ [])
unfolding handle_query serve authorise respond by_ed25519_id get_row beacon_age_s get put
    new_directory index index_usernames index_ed_ids ed_id from_hex hex_digit
query_served = refl

handle_query-Serves_example :
    ((handle_query toy_core rows users guard now now query).0 ≡ served (5 ∷ 8 ∷ 203 ∷ []))
    ↔ Serves toy_core rows users guard now now query (5 ∷ 8 ∷ 203 ∷ [])
handle_query-Serves_example =
    handle_query-Serves toy_core rows users guard now now query (5 ∷ 8 ∷ 203 ∷ [])

-- Asked twice within the interval, and once more after it.
abbrev asked : List Op
asked =
    asks rows users now now query
    ∷ asks rows users (now + 9000000) now query
    ∷ asks rows users (now + 12000000) now query
    ∷ []

served_at-Spaced_example :
    Spaced toy_core 10000000 (served_at toy_core (11 ∷ [], 10 ∷ []) guard asked)
served_at-Spaced_example = served_at-Spaced toy_core (11 ∷ [], 10 ∷ []) guard asked

revoked-never_served_example :
    (handle_query toy_core rows users
      (after_ops toy_core
        (handle_revoke toy_core guard revocation).1
        (asks rows users now now query ∷ []))
      (now + 20000000)
      now
      query).0
    ≢ served (5 ∷ 8 ∷ 203 ∷ [])
revoked-never_served_example =
    revoked-never_served toy_core guard revocation (10 ∷ [], 11 ∷ []) refl refl
      (asks rows users now now query ∷ []) query (10 ∷ 11 ∷ []) (10 ∷ [], 11 ∷ []) refl refl refl
      rows users (now + 20000000) now (5 ∷ 8 ∷ 203 ∷ [])

abbrev two_beacons : List Beacon
two_beacons =
    record {
      sender = 10 ∷ [];
      fix = record { lat = pos 1; lon = pos 2; accuracy = 3 };
      zone = 7;
      at = 4;
    }
    ∷ record {
      sender = 10 ∷ [];
      fix = record { lat = pos 5; lon = pos 6; accuracy = 7 };
      zone = 8;
      at = 9;
    }
    ∷ []

rows_for-ingest_example :
    rows_for (10 ∷ []) (ingest [] two_beacons) ≡ option_to_list (last_beacon (10 ∷ []) two_beacons)
rows_for-ingest_example = rows_for-ingest two_beacons (10 ∷ [])
