-- ===== src/Bluez/Core.antt =====
-- The backend against the server core, and what a subscribed phone puts together
-- (node/ble/bluez.py, node/ble/base.py, node/ble/framing.py).
use meshlink_node.Prelude.{
  Bool, Bool-cases, Bytes, List, Option, Option-cases, [], ap, append-nil, append_assoc, arith,
  codes, false, if◌then◌else◌, inl, inr, map, none, or_default, refl, some, sym, true, ◌++◌, ◌∙◌,
  ◌∷◌, ◌≡◌, nat_eq, list_eq,
}
use meshlink_node.Gatt.{Peer, Event, Input, chunk_of, connects, disconnects, send_packet}
use meshlink_node.Gatt.Runs.{run-append}
use meshlink_node.Gatt
use meshlink_node.Bluez.{
  Bluez, Effect, properties_changed, hand, write_value, start_notify, stop_notify, notify_chunk,
  notify_all, send, device_properties_changed, Call, writes, starts_notify, stops_notify,
  device_changed, sends, step, run,
}

abbrev pub changes : Option Bool → Option Peer → List Input
changes none path = []
changes (some connected) none = []
changes (some connected) (some peer) = (if connected then connects peer else disconnects peer) ∷ []

abbrev pub inputs : List Call → List Input
inputs [] = []
inputs (writes value device ∷ ks) = chunk_of (or_default device (codes "unknown")) value ∷ inputs ks
inputs (device_changed connected path ∷ ks) = changes connected path ++ inputs ks
inputs (starts_notify ∷ ks) = inputs ks
inputs (stops_notify ∷ ks) = inputs ks
inputs (sends p packet ∷ ks) = inputs ks

-- What the node is handed.
abbrev pub handed : Effect → List Event
handed (hand e) = e ∷ []
handed _ = []

-- What the subscribed centrals get.
abbrev pub notified : Effect → List Bytes
notified (properties_changed b) = b ∷ []
notified _ = []

abbrev pub gather {ℓ} : {A : Type ℓ} → (Effect → List A) → List Effect → List A
gather f [] = []
gather f (e ∷ es) = f e ++ gather f es

pub gather-append {ℓ} :
    {A : Type ℓ} (f : Effect → List A) (es fs : List Effect)
    → gather f (es ++ fs) ≡ gather f es ++ gather f fs
gather-append f [] fs = refl
gather-append f (e ∷ es) fs =
    ap (◌++◌ (f e)) (gather-append f es fs) ∙ sym (append_assoc (f e) (gather f es) (gather f fs))

gather-hand : (es : List Event) → gather handed (map hand es) ≡ es
gather-hand [] = refl
gather-hand (e ∷ es) = ap (◌∷◌ e) (gather-hand es)

pub gather-hand_silent : (es : List Event) → gather notified (map hand es) ≡ []
gather-hand_silent [] = refl
gather-hand_silent (e ∷ es) = gather-hand_silent es

pub notify_all-effects :
    (s : Bluez) (cs : List Bytes)
    → (gather handed (notify_all s cs) ≡ [])
      × (gather notified (notify_all s cs) ≡ (if s.notifying then cs else []))
unfolding notify_all notify_chunk
notify_all-effects s [] = (refl, ground arith)
notify_all-effects s (c ∷ cs) =
    let (h, n) = notify_all-effects s cs in
    elim (Bool-cases s.notifying) [
      | inl e ↦ (rw (e) h, rw (e) (ap (◌∷◌ c) (n ∙ rw e)))
      | inr e ↦ (rw (e) h, rw (e) (n ∙ rw e))
    ]

step-core :
    (s : Bluez) (k : Call)
    → ((step s k).0.server, gather handed (step s k).1) ≡ Gatt.run s.server (inputs (k ∷ []))
unfolding step write_value start_notify stop_notify device_properties_changed send Gatt.run
    Gatt.step
step-core s (writes value device) =
    let peer = or_default device (codes "unknown") in
    let es = (Gatt.handle_chunk s.server peer value).1 in rw (gather-hand es, append-nil es)
step-core s starts_notify = refl
step-core s stops_notify = refl
step-core s (device_changed none path) = refl
step-core s (device_changed (some connected) none) = refl
step-core s (device_changed (some true) (some p)) =
    let es = (Gatt.peer_connected s.server p).1 in rw (gather-hand es, append-nil es)
step-core s (device_changed (some false) (some p)) =
    let es = (Gatt.peer_disconnected s.server p).1 in rw (gather-hand es, append-nil es)
step-core s (sends p packet) = elim (Option-cases (send_packet p packet)) [
  | inl e ↦ rw (e, send)
  | inr (cs, e) ↦ rw (e, send, (notify_all-effects s cs).0)
]

inputs-cons : (k : Call) (ks : List Call) → inputs (k ∷ ks) ≡ inputs (k ∷ []) ++ inputs ks
inputs-cons (writes value device) ks = refl
inputs-cons starts_notify ks = refl
inputs-cons stops_notify ks = refl
inputs-cons (device_changed connected path) ks = rw (append-nil (changes connected path))
inputs-cons (sends p packet) ks = refl

-- Over any sequence of calls and sends, the core ends up and the node is told as in a run of the
-- core.
pub run-gatt :
    (s : Bluez) (ks : List Call)
    → ((run s ks).0.server, gather handed (run s ks).1) ≡ Gatt.run s.server (inputs ks)
unfolding run Gatt.run
run-gatt s [] = refl
run-gatt s (k ∷ ks) =
    let (s', es) = step s k in
    let now = step-core s k in
    let rest = run-gatt s' ks in
    rw (
      inputs-cons k ks,
      run-append s.server (inputs (k ∷ [])) (inputs ks),
      sym now,
      sym rest,
      gather-append handed es (run s' ks).1,
    )
