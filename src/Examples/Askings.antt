-- ===== src/Examples/Askings.antt =====
-- A location query at a node, run (node/relay.py, node/location/service.py).
use meshlink_node.Prelude.{Bytes, List, [], codes, take, ℕ, ◌++◌, ◌∷◌, nat_eq, list_eq}
use meshlink_node.Gatt.{Peer}
use meshlink_node.Relay.Parts.{ttl_offset}
use meshlink_node.Node.{Out, on_packet}
use meshlink_node.Examples.Toy.{toy_core, toy_signer, toy_pipeline}
use meshlink_node.Examples.Nodes.{json}
use meshlink_node.Examples.Networks.{no_uplink, node_a, at_time}
use meshlink_node.Examples.Journeys.{tail}

-- Bertha, whose phone is one of two on BLE, asks for Alice; behind the token stands a ttl of 3.
abbrev asking : Bytes
asking = 3 ∷ 11 ∷ 1 ∷ tail 65

abbrev bertha_phone : Peer
bertha_phone = codes "P1"

abbrev asking_copy : Bytes
asking_copy = take ttl_offset asking ++ 2 ∷ 8 ∷ []

abbrev outs : List (Out ℕ)
outs =
    (on_packet toy_core toy_signer toy_pipeline json no_uplink node_a (at_time 200) bertha_phone
      asking).1
