-- ===== src/Node/Events.antt =====
-- All that happens to a node, as a sequence of steps: what its radios, sockets, threads and timers bring
-- (node/main.py, node/transport/wifi_transport.py, and the loops of the services).
use meshlink_node.Prelude.{
  Bool, Bytes, List, Option, Text, [], contains, false, if◌then◌else◌, map, none, some, true, ℕ, ℤ,
  ◌++◌, ◌==◌, ◌∷◌, nat_eq, list_eq, int_eq,
}
use meshlink_node.Json.{Fields, Json}
use meshlink_node.Gatt.{Peer, Input}
use meshlink_node.Transport.Ble.{ble_run}
use meshlink_node.Transport.Wifi.{Recv}
use meshlink_node.Transport.Sockets.{accepted, turn, read}
use meshlink_node.Transport.Multi.{list_peers}
use meshlink_node.Transport.Multi
use meshlink_node.ZoneTable.{forget_stale}
use meshlink_node.Directory.{User, Refreshed, synced, kept, raised, refresh}
use meshlink_node.Location.Core.{Core}
use meshlink_node.Location.Service.{Signer}
use meshlink_node.Backhaul.Udp.{Datagram, Endpoint}
use meshlink_node.Backhaul.Sync.{announce_now}
use meshlink_node.PhonePing.{ping_all, fire_connect_ping}
use meshlink_node.BackendProxy.{Uplink, serve}
use meshlink_node.Relay.Parts.{Pipeline}
use meshlink_node.Node.{
  Node, sockets_of, with_sockets, Instant, Out, to_phone, to_node, on_calls, on_datagram,
}

pub data NodeEvent (F : Type 0) : Type 0 where
  radio : Input → NodeEvent F
  wifi_accepts : ℕ → Text → Text → NodeEvent F
  wifi_reads : ℕ → Recv → NodeEvent F
  datagram_in : Endpoint → Text → Bytes → NodeEvent F
  sync_wakes : NodeEvent F
  ping_wakes : NodeEvent F
  timer_fires : Peer → NodeEvent F
  directory_wakes : Option (List User) → NodeEvent F
  worker_serves : Peer → Fields F → NodeEvent F

-- What an event's handlers read of the clocks: the readings of each packet's handler, in order, and the
-- zone table's for each entry that a sweep looks at.
pub record Clock : Type 0 where
  pub handler : ℕ → Instant
  pub sweep : ℤ → ℕ

-- Whether the thread goes on after a refresh: only what `refresh` does not catch ends it.
abbrev pub goes_on : {key_id : Bytes → Bytes} → Refreshed key_id → Bool
goes_on synced = true
goes_on kept = true
goes_on raised = false

-- One timer of a phone is no longer pending.
unfoldable pub spent : Peer → List Peer → List Peer
spent q [] = []
spent q (x ∷ xs) = if x == q then xs else x ∷ spent q xs

module _ (c : Core) (k : Signer) (p : Pipeline) (j : Json) (u : Uplink) (max_packet : ℕ) where
  abbrev State : Type 0
  State = Node p j.Float

  abbrev Outs : Type 0
  Outs = List (Out j.Float)

  unfoldable pub on_radio : State → Clock → Input → State × Outs
  on_radio n t i =
      let (ble, calls) = ble_run max_packet n.transport.ble (i ∷ []) in
      on_calls c k p j u (record n { transport = record n.transport { ble = ble } }) t.handler calls

  unfoldable pub on_accept : State → Clock → ℕ → Text → Text → State × Outs
  unfolding accepted
  on_accept n t conn host port =
      let (s, calls) = accepted (sockets_of n) conn host port in
      on_calls c k p j u (with_sockets n s) t.handler calls

  unfoldable pub on_read : State → Clock → ℕ → Recv → State × Outs
  unfolding turn
  on_read n t conn x =
      let (s, calls) = read max_packet (sockets_of n) conn x in
      on_calls c k p j u (with_sockets n s) t.handler calls

  -- A turn of the zone sync's loop. What leaves `announce_now` ends the thread.
  unfoldable pub on_sync : State → Clock → Option (List Datagram) → State × Outs
  on_sync n t none = (record n { sync_running = false }, [])
  on_sync n t (some ds) = (record n { table = (forget_stale n.table t.sweep).1 }, map to_node ds)

  -- Sends that may fail, each on its own.
  abbrev pub sent : State → List (Peer × Bytes) → Outs
  sent n ps = map (λ q. to_phone q.0 (Multi.send n.transport q.0 q.1)) ps

  -- `_fire_connect_ping` of a timer that is pending
  unfoldable pub on_timer : State → Peer → State × Outs
  unfolding spent
  on_timer n q =
      if contains n.phone_ping.connect_timers q
      then (
        record n {
          phone_ping = record n.phone_ping { connect_timers = spent q n.phone_ping.connect_timers };
        },
        sent n (fire_connect_ping j n.phone_ping q),
      )
      else (n, [])

  unfoldable pub on_directory : State → Option (List User) → State
  on_directory n users =
      let (r, d) = refresh c.pubkey_id n.directory users in
      record n { directory = d; directory_running = goes_on r }

  unfoldable pub node_step : State → Clock → NodeEvent j.Float → State × Outs
  unfolding on_radio on_accept on_read on_sync on_timer on_directory
  node_step n t (radio i) = on_radio n t i
  node_step n t (wifi_accepts conn host port) = on_accept n t conn host port
  node_step n t (wifi_reads conn x) = on_read n t conn x
  node_step n t (datagram_in from digits raw) =
      on_datagram c k p j u n (t.handler 0) from digits raw
  node_step n t sync_wakes =
      if n.sync_running then on_sync n t (announce_now j n.sync n.backhaul) else (n, [])
  node_step n t ping_wakes = (
    n,
    if n.phone_ping.stopped then [] else sent n (ping_all j n.phone_ping (list_peers n.transport)),
  )
  node_step n t (timer_fires q) = on_timer n q
  node_step n t (directory_wakes users) =
      if n.directory_running then (on_directory n users, []) else (n, [])
  node_step n t (worker_serves q req) = (n, sent n (serve j u q req))

  unfoldable pub node_run : State → List (Clock × NodeEvent j.Float) → State × Outs
  unfolding node_step
  node_run n [] = (n, [])
  node_run n ((t, e) ∷ es) =
      let (n', outs) = node_step n t e in let (n'', more) = node_run n' es in (n'', outs ++ more)
