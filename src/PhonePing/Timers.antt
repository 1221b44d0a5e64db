-- ===== src/PhonePing/Timers.antt =====
-- Pings to phones that connect (node/monitoring/phone_ping.py).
use meshlink_node.Prelude.{All, List, [], ap, false, map, refl, true, ◌∷◌, ◌≡◌, nat_eq, list_eq}
use meshlink_node.Json.{Json}
use meshlink_node.Gatt.{Peer}
use meshlink_node.Relay.Parts.{is_telemetry_frame}
use meshlink_node.PhonePing.{
  PhonePing, encode_ping, ping_peer, ping_all, on_peer_connected, fire_connect_ping, stop,
}

module _ (j : Json) where
  -- Every ping, to one phone or to all, is a telemetry frame, so a node that got it would not relay it.
  pub ping_all-is_telemetry_frame :
      (s : PhonePing j.Float) (ps : List Peer)
      → (map (λ q. q.0) (ping_all j s ps) ≡ ps)
        × All (λ q. is_telemetry_frame q.1 ≡ true) (ping_all j s ps)
  unfolding ping_all ping_peer encode_ping is_telemetry_frame
  ping_all-is_telemetry_frame s [] = (refl, tt)
  ping_all-is_telemetry_frame s (p ∷ ps) =
      let (names, all) = ping_all-is_telemetry_frame s ps in (ap (◌∷◌ p) names, (refl, all))

  -- A timer that fires after `stop`, started before it or after it, sends nothing; one that fires before
  -- sends one ping to its phone.
  pub fire_connect_ping-stop :
      (s : PhonePing j.Float) (p q : Peer)
      → (fire_connect_ping j (stop j (on_peer_connected j s p)) p ≡ [])
        × (fire_connect_ping j (on_peer_connected j (stop j s) q) q ≡ [])
        × (s.stopped ≡ false
            → fire_connect_ping j (on_peer_connected j s p) p ≡ (p, encode_ping j s) ∷ [])
  unfolding fire_connect_ping stop on_peer_connected ping_peer encode_ping
  fire_connect_ping-stop s p q = (refl, refl, λ h. rw h)
