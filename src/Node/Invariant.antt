-- ===== src/Node/Invariant.antt =====
-- What stays true of a node whatever happens to it (node/main.py and its components).
use meshlink_node.Prelude.{
  Bool, Bytes, IsKeyed, List, Option, [], arith, contains, false, get, if◌then◌else◌, none,
  remove_all-IsKeyed, some, subst, sym, true, ℕ, ◌∙◌, ◌∷◌, ◌≡◌, nat_eq, list_eq, int_eq,
}
use meshlink_node.Json.{Json}
use meshlink_node.Gatt.{Peer}
use meshlink_node.Transport.Ble.{Call, received, connected}
use meshlink_node.Transport.Routing.{Prefixed}
use meshlink_node.Transport.Sockets.{turn-callback}
use meshlink_node.ZoneTable.{forget_stale, stale}
use meshlink_node.Directory.Index.{FiledByKey, refresh-FiledByKey}
use meshlink_node.Location.Core.{Core}
use meshlink_node.Location.Service.{Signer}
use meshlink_node.Backhaul.Udp.{Datagram, Inbound, to_control, to_data, receive}
use meshlink_node.Backhaul.Sync.{announce_now}
use meshlink_node.PhonePing.{on_peer_connected}
use meshlink_node.BackendProxy.{Uplink}
use meshlink_node.Relay.Parts.{Pipeline}
use meshlink_node.Relay
use meshlink_node.Relay.Counters.{Adds, handle_packet-Adds}
use meshlink_node.Relay.Rows.{HasOneRow, handle_packet-HasOneRow}
use meshlink_node.Relay.Growth.{handle_packet-Grows}
use meshlink_node.Node.{
  Node, sockets_of, Instant, Out, moment_of, perform_all, on_packet, on_call, on_calls, deliver_all,
  on_datagram,
}
use meshlink_node.Node.Calls.{perform_all-node}
use meshlink_node.Node.Events.{
  NodeEvent, radio, wifi_accepts, wifi_reads, datagram_in, sync_wakes, ping_wakes, timer_fires,
  directory_wakes, worker_serves, Clock, on_radio, on_accept, on_read, on_sync, on_timer,
  on_directory, node_step, node_run,
}
use meshlink_node.Node.Keeps.{
  settled-Adds, on_control-IsKeyed, accepted-Prefixed, accepted-callback, turn-Prefixed,
}

module _ (c : Core) (k : Signer) (p : Pipeline) (j : Json) (u : Uplink) where
  pub record IsGood (n : Node p j.Float) : Type 0 where
    pub counters : Adds n.relay.stats
    pub keyed : IsKeyed n.table.learned
    pub filed : FiledByKey c.pubkey_id n.directory.users_by_ed_id
    pub prefixed : Prefixed n.transport.wifi.conns
    pub hears : n.transport.wifi.callback ≡ true
    pub reported : IsKeyed n.phone_ping.reports
    pub located : HasOneRow n.relay.location

  on_packet-IsGood :
      (n : Node p j.Float) (t : Instant) (from : Peer) (raw : Bytes)
      → IsGood n
      → IsGood (on_packet c k p j u n t from raw).0
  unfolding on_packet
  on_packet-IsGood n t from raw g =
      let m = moment_of n t in
      let h = Relay.handle_packet c k p n.relay m from raw in
      let n' : Node p j.Float = record n { relay = h.relay } in
      let ran = perform_all c k p j u n' t.monotonic h.effects in
      let (s, same, kept) = perform_all-node c k p j u n' t.monotonic h.effects in
      record {
        counters =
            settled-Adds n.relay.stats h.relay.stats from ran.failed
              (handle_packet-Adds c k p n.relay m from raw g.counters)
              (handle_packet-Grows n.relay.stats c k n.relay m from raw
                (record { phones = omega arith; zones = omega arith; nodes = omega arith }));
        keyed = subst (λ (x : Node p j.Float). IsKeyed x.table.learned) (sym same) g.keyed;
        filed =
            subst (λ (x : Node p j.Float). FiledByKey c.pubkey_id x.directory.users_by_ed_id)
              (sym same) g.filed;
        prefixed =
            subst (λ (x : Node p j.Float). Prefixed x.transport.wifi.conns) (sym same) g.prefixed;
        hears = subst (λ (x : Node p j.Float). x.transport.wifi.callback ≡ true) (sym same) g.hears;
        reported =
            subst (λ (x : Node p j.Float). IsKeyed x.phone_ping.reports) (sym same)
              (kept g.reported);
        located =
            subst (λ (x : Node p j.Float). HasOneRow x.relay.location) (sym same)
              (handle_packet-HasOneRow c k n.relay m from raw g.located);
      }

  on_call-IsGood :
      (n : Node p j.Float) (t : Instant) (x : Call) → IsGood n → IsGood (on_call c k p j u n t x).0
  unfolding on_call on_peer_connected
  on_call-IsGood n t (received q b) g = on_packet-IsGood n t q b g
  on_call-IsGood n t (connected q) g = record {
    counters = g.counters;
    keyed = g.keyed;
    filed = g.filed;
    prefixed = g.prefixed;
    hears = g.hears;
    reported = g.reported;
    located = g.located;
  }

  on_calls-IsGood :
      (n : Node p j.Float) (clock : ℕ → Instant) (xs : List Call)
      → IsGood n
      → IsGood (on_calls c k p j u n clock xs).0
  unfolding on_calls
  on_calls-IsGood n clock [] g = g
  on_calls-IsGood n clock (x ∷ xs) g =
      on_calls-IsGood (on_call c k p j u n (clock 0) x).0 _ xs (on_call-IsGood n (clock 0) x g)

  deliver_all-IsGood :
      (n : Node p j.Float) (t : Instant) (is : List Inbound)
      → IsGood n
      → IsGood (deliver_all c k p j u n t is).0
  unfolding deliver_all
  deliver_all-IsGood n t [] g = g
  deliver_all-IsGood n t (to_control q b ∷ is) g = deliver_all-IsGood _ t is (record {
    counters = g.counters;
    keyed = on_control-IsKeyed j n.sync n.table t.monotonic b g.keyed;
    filed = g.filed;
    prefixed = g.prefixed;
    hears = g.hears;
    reported = g.reported;
    located = g.located;
  })
  deliver_all-IsGood n t (to_data q b ∷ is) g =
      deliver_all-IsGood (on_packet c k p j u n t q b).0 t is (on_packet-IsGood n t q b g)

  module _ (max_packet : ℕ) where
    abbrev stepped : Node p j.Float → Clock → NodeEvent j.Float → Node p j.Float
    stepped n t e = (node_step c k p j u max_packet n t e).0

    if-IsGood :
        (test : Bool) (x y : Node p j.Float × List (Out j.Float))
        → IsGood x.0
        → IsGood y.0
        → IsGood (if test then x else y).0
    if-IsGood true x y g h = g
    if-IsGood false x y g h = h

    on_sync-IsGood :
        (n : Node p j.Float) (t : Clock) (o : Option (List Datagram))
        → IsGood n
        → IsGood (on_sync c k p j u max_packet n t o).0
    unfolding on_sync forget_stale
    on_sync-IsGood n t none g = record {
      counters = g.counters;
      keyed = g.keyed;
      filed = g.filed;
      prefixed = g.prefixed;
      hears = g.hears;
      reported = g.reported;
      located = g.located;
    }
    on_sync-IsGood n t (some ds) g = record {
      counters = g.counters;
      keyed = remove_all-IsKeyed n.table.learned (stale n.table t.sweep n.table.learned) g.keyed;
      filed = g.filed;
      prefixed = g.prefixed;
      hears = g.hears;
      reported = g.reported;
      located = g.located;
    }

    node_step-IsGood :
        (n : Node p j.Float) (t : Clock) (e : NodeEvent j.Float) → IsGood n → IsGood (stepped n t e)
    unfolding node_step on_radio on_accept on_read on_timer on_directory on_datagram
    node_step-IsGood n t (radio i) g = on_calls-IsGood _ t.handler _ (record {
      counters = g.counters;
      keyed = g.keyed;
      filed = g.filed;
      prefixed = g.prefixed;
      hears = g.hears;
      reported = g.reported;
      located = g.located;
    })
    node_step-IsGood n t (wifi_accepts conn host port) g = on_calls-IsGood _ t.handler _ (record {
      counters = g.counters;
      keyed = g.keyed;
      filed = g.filed;
      prefixed = accepted-Prefixed (sockets_of n) conn host port g.prefixed;
      hears = accepted-callback (sockets_of n) conn host port ∙ g.hears;
      reported = g.reported;
      located = g.located;
    })
    node_step-IsGood n t (wifi_reads conn x) g = on_calls-IsGood _ t.handler _ (record {
      counters = g.counters;
      keyed = g.keyed;
      filed = g.filed;
      prefixed = turn-Prefixed max_packet (sockets_of n) conn (get n.readers conn) x g.prefixed;
      hears = turn-callback max_packet (sockets_of n) conn (get n.readers conn) x ∙ g.hears;
      reported = g.reported;
      located = g.located;
    })
    node_step-IsGood n t (datagram_in from digits raw) g =
        deliver_all-IsGood n (t.handler 0) (receive n.backhaul from digits raw) g
    node_step-IsGood n t sync_wakes g =
        if-IsGood n.sync_running _ (n, []) (on_sync-IsGood n t (announce_now j n.sync n.backhaul) g)
          g
    node_step-IsGood n t ping_wakes g = g
    node_step-IsGood n t (timer_fires q) g =
        if-IsGood (contains n.phone_ping.connect_timers q) _ (n, [])
          (record {
            counters = g.counters;
            keyed = g.keyed;
            filed = g.filed;
            prefixed = g.prefixed;
            hears = g.hears;
            reported = g.reported;
            located = g.located;
          })
          g
    node_step-IsGood n t (directory_wakes users) g =
        if-IsGood n.directory_running (on_directory c k p j u max_packet n users, []) (n, [])
          (record {
            counters = g.counters;
            keyed = g.keyed;
            filed = (refresh-FiledByKey c.pubkey_id n.directory users g.filed).0;
            prefixed = g.prefixed;
            hears = g.hears;
            reported = g.reported;
            located = g.located;
          })
          g
    node_step-IsGood n t (worker_serves q req) g = g

    -- No sequence of events makes a good node a bad one.
    pub node_run-IsGood :
        (n : Node p j.Float) (es : List (Clock × NodeEvent j.Float))
        → IsGood n
        → IsGood (node_run c k p j u max_packet n es).0
    unfolding node_run
    node_run-IsGood n [] g = g
    node_run-IsGood n ((t, e) ∷ es) g =
        node_run-IsGood (stepped n t e) es (node_step-IsGood n t e g)
