-- ===== src/Entry/Boot.antt =====
-- A node from its boot on (node/main.py).
use meshlink_node.Prelude.{
  Bool, Bool-cases, List, Option, Option-cases, ap, arith, inl, inr, map, none, refl, some,
  some-injective, subst, ℕ, ◌∙◌, ◌≡◌, nat_eq, list_eq, int_eq,
}
use meshlink_node.Json.{Json}
use meshlink_node.Config.{Settings}
use meshlink_node.Directory.{User, refresh}
use meshlink_node.Directory.Index.{refresh-FiledByKey, new_directory-FiledByKey}
use meshlink_node.Location.Core.{Core}
use meshlink_node.Location.Service.{Signer}
use meshlink_node.Transport.Wifi.{WifiTransport, start}
use meshlink_node.Transport.Routing.{starts, wifi_step, wifi_step-Prefixed, no_conns-Prefixed}
use meshlink_node.Backhaul.Sync.{announce_now}
use meshlink_node.BackendProxy.{Uplink}
use meshlink_node.Relay.Parts.{Pipeline, zero_stats}
use meshlink_node.Relay.Counters.{Adds}
use meshlink_node.Node.{Node, Out, to_node}
use meshlink_node.Node.Events.{NodeEvent, Clock, node_run, goes_on}
use meshlink_node.Node.Invariant.{IsGood, node_run-IsGood}
use meshlink_node.Entry.Wiring.{Boot, new_node, started}

zero_stats-Adds : Adds zero_stats
zero_stats-Adds = record {
  outcomes = refl;
  local_outcomes = omega arith;
  node_outcomes = omega arith;
}

none_not_some {ℓ} : {A : Type ℓ} (a : A) → ◌≡◌ {A = Option A} none (some a) → ⊥
none_not_some a e = cc

start-callback : (t : WifiTransport) (bound : Bool) → (start t bound).callback ≡ t.callback
unfolding start
start-callback t bound = ground arith

module _ (c : Core) (k : Signer) (p : Pipeline) (j : Json) (u : Uplink) where
  new_node-IsGood :
      (s : Settings j.Float) (b : Boot p j.Float) → IsGood c k p j u (new_node c p s b)
  unfolding new_node
  new_node-IsGood s b = record {
    counters = zero_stats-Adds;
    keyed = tt;
    filed = new_directory-FiledByKey c.pubkey_id b.cached_users;
    prefixed = no_conns-Prefixed;
    hears = refl;
    reported = tt;
    located = tt;
  }

  started-IsGood :
      (n n' : Node p j.Float) (outs : List (Out j.Float)) (bound : Bool)
      (users : Option (List User))
      → started c p j n bound users ≡ some (n', outs)
      → IsGood c k p j u n
      → IsGood c k p j u n'
  unfolding started wifi_step
  started-IsGood n n' outs bound users e g =
      elim (Option-cases (announce_now j n.sync n.backhaul)) [
        | inl a ↦ absurd (none_not_some (n', outs) (rw (a, started) at e))
        | inr (ds, a) ↦ elim (Bool-cases (goes_on (refresh c.pubkey_id n.directory users).0)) [
          | inl r ↦
              let m : Node p j.Float = record n {
                transport = record n.transport { wifi = start n.transport.wifi bound };
                directory = (refresh c.pubkey_id n.directory users).1;
              } in
              let good : IsGood c k p j u m = record {
                counters = g.counters;
                keyed = g.keyed;
                filed = (refresh-FiledByKey c.pubkey_id n.directory users g.filed).0;
                prefixed = wifi_step-Prefixed n.transport.wifi (starts bound) g.prefixed;
                hears = start-callback n.transport.wifi bound ∙ g.hears;
                reported = g.reported;
                located = g.located;
              } in
              subst (IsGood c k p j u)
                (ap (λ z. z.0)
                  (some-injective (m, map to_node ds) (n', outs) (rw (a, started, r) at e)))
                good
          | inr r ↦ absurd (none_not_some (n', outs) (rw (a, started, r) at e))
        ]
      ]

  -- A node that the main function makes from any settings, with WiFi on, and starts, has, after any
  -- sequence of what its radio, sockets, timers and threads bring, at any readings of the clocks:
  -- traffic counters that add up, one learned entry per zone at most, a directory with every row
  -- filed under the id of its own key, no WiFi connection under a peer id without the WiFi prefix,
  -- a WiFi transport that hands packets on to the relay, and at most one location row per identity
  -- and one report per phone.
  pub started-node_run :
      (s : Settings j.Float) (b : Boot p j.Float) (bound : Bool) (users : Option (List User))
      (n : Node p j.Float) (outs : List (Out j.Float)) (max_packet : ℕ)
      (es : List (Clock × NodeEvent j.Float))
      → started c p j (new_node c p s b) bound users ≡ some (n, outs)
      → IsGood c k p j u (node_run c k p j u max_packet n es).0
  started-node_run s b bound users n outs max_packet es e =
      node_run-IsGood c k p j u max_packet n es
        (started-IsGood (new_node c p s b) n outs bound users e (new_node-IsGood s b))
