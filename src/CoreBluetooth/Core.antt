-- ===== src/CoreBluetooth/Core.antt =====
-- The backend against the server core (node/ble/corebluetooth.py, node/ble/base.py): what its
-- callbacks do to the core, and what they hand to the node, is a run of the core.
use meshlink_node.Prelude.{
  Bool, Bool-cases, Bytes, List, Option-cases, [], ap, append-nil, arith, if◌then◌else◌, inl, inr,
  map, none, refl, some, sym, ℕ, ◌++◌, ◌==◌, ◌∙◌, ◌∷◌, ◌≡◌, nat_eq, list_eq,
}
use meshlink_node.Gatt.{GattServer, Event, Input, chunk_of, connects, disconnects}
use meshlink_node.Gatt.Runs.{run-append}
use meshlink_node.Gatt
use meshlink_node.CoreBluetooth.{
  CoreBluetooth, Request, Effect, hand, index_error, value_error, create_manager, run_loop,
  stop_advertising, stop_run_loop, add_service, start_advertising, respond, rx_char_uuid, stop,
  register_service, state_changed, service_added, handle_request, handle_requests, respond_first,
  write_requests, notify_chunk, notify_all, send, flush_pending, Callback, did_update_state,
  did_add_service, did_receive_write, did_subscribe, did_unsubscribe, is_ready, sends, step, run,
}

-- The chunks of a batch: the requests for the RX characteristic that carry a value.
abbrev pub request_input : Request → List Input
request_input q =
    if q.characteristic == rx_char_uuid
    then elim q.value [ none ↦ [] | some b ↦ chunk_of q.central b ∷ [] ]
    else []

abbrev pub request_inputs : List Request → List Input
request_inputs [] = []
request_inputs (q ∷ qs) = request_input q ++ request_inputs qs

abbrev pub inputs : List Callback → List Input
inputs [] = []
inputs (did_receive_write qs ∷ ks) = request_inputs qs ++ inputs ks
inputs (did_subscribe p ∷ ks) = connects p ∷ inputs ks
inputs (did_unsubscribe p ∷ ks) = disconnects p ∷ inputs ks
inputs (did_update_state on ∷ ks) = inputs ks
inputs (did_add_service failed is_advertising ∷ ks) = inputs ks
inputs (is_ready ∷ ks) = inputs ks
inputs (sends p packet ∷ ks) = inputs ks

-- What the node is handed.
abbrev pub events : List Effect → List Event
events [] = []
events (hand e ∷ es) = e ∷ events es
events (create_manager ∷ es) = events es
events (run_loop ∷ es) = events es
events (stop_advertising ∷ es) = events es
events (stop_run_loop ∷ es) = events es
events (add_service u cs ∷ es) = events es
events (start_advertising us n ∷ es) = events es
events (respond q ∷ es) = events es
events (index_error ∷ es) = events es
events (value_error ∷ es) = events es

events-append : (es fs : List Effect) → events (es ++ fs) ≡ events es ++ events fs
events-append [] fs = refl
events-append (hand e ∷ es) fs = ap (◌∷◌ e) (events-append es fs)
events-append (create_manager ∷ es) fs = events-append es fs
events-append (run_loop ∷ es) fs = events-append es fs
events-append (stop_advertising ∷ es) fs = events-append es fs
events-append (stop_run_loop ∷ es) fs = events-append es fs
events-append (add_service u cs ∷ es) fs = events-append es fs
events-append (start_advertising us n ∷ es) fs = events-append es fs
events-append (respond q ∷ es) fs = events-append es fs
events-append (index_error ∷ es) fs = events-append es fs
events-append (value_error ∷ es) fs = events-append es fs

events-hand : (es : List Event) → events (map hand es) ≡ es
events-hand [] = refl
events-hand (e ∷ es) = ap (◌∷◌ e) (events-hand es)

respond_first-silent : (qs : List Request) → events (respond_first qs) ≡ []
unfolding respond_first
respond_first-silent [] = refl
respond_first-silent (q ∷ qs) = refl

handle_request-run :
    (s : GattServer) (q : Request) → handle_request s q ≡ Gatt.run s (request_input q)
unfolding handle_request Gatt.run Gatt.step
handle_request-run s q = elim (Bool-cases (q.characteristic == rx_char_uuid)) [
  | inr e ↦ rw (e, handle_request)
  | inl e ↦ elim (Option-cases q.value) [
    | inl f ↦ rw (e, handle_request, f)
    | inr (b, f) ↦
        let (t, es) = Gatt.handle_chunk s q.central b in
        rw (e, handle_request, f) (λ i. (t, sym (append-nil es) i))
  ]
]

handle_requests-run :
    (s : GattServer) (qs : List Request) → handle_requests s qs ≡ Gatt.run s (request_inputs qs)
unfolding handle_requests Gatt.run
handle_requests-run s [] = refl
handle_requests-run s (q ∷ qs) =
    let now = handle_request-run s q in
    let rest = handle_requests-run (handle_request s q).0 qs in
    rw (run-append s (request_input q) (request_inputs qs), sym now, rest)

service_added-silent :
    (s : CoreBluetooth) (failed is_advertising : Bool)
    → events (service_added s failed is_advertising) ≡ []
unfolding service_added stop
service_added-silent s failed is_advertising = ground arith

notify_all-server :
    (accepts : ℕ → Bool) (s : CoreBluetooth) (cs : List Bytes)
    → (notify_all accepts s cs).server ≡ s.server
unfolding notify_all notify_chunk
notify_all-server accepts s [] = refl
notify_all-server accepts s (c ∷ cs) =
    notify_all-server accepts (notify_chunk accepts s c) cs ∙ ground arith

-- One callback.
step-core :
    (accepts : ℕ → Bool) (s : CoreBluetooth) (k : Callback)
    → ((step accepts s k).0.server, events (step accepts s k).1)
      ≡ Gatt.run s.server (inputs (k ∷ []))
unfolding step state_changed register_service write_requests flush_pending send Gatt.run Gatt.step
step-core accepts s (did_update_state on) = ground arith
step-core accepts s (did_add_service failed is_advertising) =
    rw (service_added-silent s failed is_advertising)
step-core accepts s (did_receive_write qs) =
    let es = (handle_requests s.server qs).1 in
    rw (
      events-append (map hand es) (respond_first qs),
      events-hand es,
      respond_first-silent qs,
      append-nil es,
      append-nil (request_inputs qs),
      handle_requests-run s.server qs,
    )
step-core accepts s (did_subscribe p) =
    let es = (Gatt.peer_connected s.server p).1 in rw (events-hand es, append-nil es)
step-core accepts s (did_unsubscribe p) =
    let es = (Gatt.peer_disconnected s.server p).1 in rw (events-hand es, append-nil es)
step-core accepts s is_ready = refl
step-core accepts s (sends p packet) = elim (Option-cases (Gatt.send_packet p packet)) [
  | inl e ↦ rw (e, send)
  | inr (cs, e) ↦ rw (e, send, notify_all-server accepts s cs)
]

inputs-cons : (k : Callback) (ks : List Callback) → inputs (k ∷ ks) ≡ inputs (k ∷ []) ++ inputs ks
inputs-cons (did_receive_write qs) ks = rw (append-nil (request_inputs qs))
inputs-cons (did_subscribe p) ks = refl
inputs-cons (did_unsubscribe p) ks = refl
inputs-cons (did_update_state on) ks = refl
inputs-cons (did_add_service failed is_advertising) ks = refl
inputs-cons is_ready ks = refl
inputs-cons (sends p packet) ks = refl

-- Over any sequence of callbacks and sends, the server core ends up, and the node is told, as in
-- the run of the core on the RX writes that carry a value, the subscriptions and the
-- unsubscriptions.
pub run-core :
    (accepts : ℕ → Bool) (s : CoreBluetooth) (ks : List Callback)
    → ((run accepts s ks).0.server, events (run accepts s ks).1) ≡ Gatt.run s.server (inputs ks)
unfolding run Gatt.run
run-core accepts s [] = refl
run-core accepts s (k ∷ ks) =
    let (s', es) = step accepts s k in
    let now = step-core accepts s k in
    let rest = run-core accepts s' ks in
    rw (
      inputs-cons k ks,
      run-append s.server (inputs (k ∷ [])) (inputs ks),
      sym now,
      sym rest,
      events-append es (run accepts s' ks).1,
    )
