-- ===== src/Node/Queries.antt =====
-- A location query at a node: to whom its answer and the query itself go (node/relay.py,
-- node/location/service.py, over node/transport/ and node/backhaul/).
use meshlink_node.Prelude.{nat_eq, list_eq}
use meshlink_node.Json.{Json}
use meshlink_node.Location.Core.{Core}
use meshlink_node.Node.{Node}
