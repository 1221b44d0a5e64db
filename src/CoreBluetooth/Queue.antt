-- ===== src/CoreBluetooth/Queue.antt =====
-- The queue of refused chunks (node/ble/corebluetooth.py) is a first-in first-out queue in front of
-- the radio, and it empties.
use meshlink_node.Prelude.{
  Bool, Bool-cases, Bytes, List, List-cases, Option-cases, [], ap, append-nil, append_assoc, arith,
  false, if◌then◌else◌, inl, inr, length, or_default, refl, repeat, repeat-append, subst, suc, sym,
  true, zero, zero-add, ℕ, ◌++◌, ◌+◌, ◌∙◌, ◌∷◌, ◌≡◌, ◌≤◌,
}
use meshlink_node.Gatt.{Peer, send_packet}
use meshlink_node.CoreBluetooth.{
  state_changed, register_service, write_requests, Radio, CoreBluetooth, Callback, did_update_state,
  did_add_service, did_receive_write, did_subscribe, did_unsubscribe, is_ready, sends, update_value,
  notify_chunk, notify_all, send, flush, flush_pending, step, run,
}

-- What was submitted so far, in order: what the radio took, then what waits.
abbrev pub line : CoreBluetooth → List Bytes
line s = s.radio.taken ++ s.pending

-- The chunks that the sends of a sequence of callbacks submit: none before the service is
-- registered.
abbrev pub submitted : Bool → List Callback → List Bytes
submitted on [] = []
submitted on (did_update_state powered_on ∷ cs) = submitted (if powered_on then true else on) cs
submitted on (did_add_service failed is_advertising ∷ cs) = submitted on cs
submitted on (did_receive_write qs ∷ cs) = submitted on cs
submitted on (did_subscribe p ∷ cs) = submitted on cs
submitted on (did_unsubscribe p ∷ cs) = submitted on cs
submitted on (is_ready ∷ cs) = submitted on cs
submitted on (sends p packet ∷ cs) =
    (if on then or_default (send_packet p packet) [] else []) ++ submitted on cs

module _ (accepts : ℕ → Bool) where
  flush-line :
      (r : Radio) (cs : List Bytes)
      → (flush accepts r cs).1.taken ++ (flush accepts r cs).0 ≡ r.taken ++ cs
  unfolding flush
  flush-line r [] = refl
  flush-line r (c ∷ cs) = elim (Bool-cases (accepts r.calls)) [
    | inl e ↦
        rw (e, update_value)
          (flush-line (record { calls = suc r.calls; taken = r.taken ++ c ∷ [] }) cs
            ∙ append_assoc r.taken (c ∷ []) cs)
    | inr e ↦ rw (e, update_value)
  ]

  notify_chunk-line :
      (s : CoreBluetooth) (c : Bytes)
      → ((notify_chunk accepts s c).tx_char ≡ s.tx_char)
        × (line (notify_chunk accepts s c) ≡ line s ++ (if s.tx_char then c ∷ [] else []))
  unfolding notify_chunk update_value
  notify_chunk-line s c = ground (
    arith,
    append_assoc s.radio.taken s.pending (c ∷ []),
    append-nil (line s),
    append-nil s.radio.taken,
    append-nil (s.radio.taken ++ c ∷ []),
  )

  notify_all-line :
      (s : CoreBluetooth) (cs : List Bytes)
      → ((notify_all accepts s cs).tx_char ≡ s.tx_char)
        × (line (notify_all accepts s cs) ≡ line s ++ (if s.tx_char then cs else []))
  unfolding notify_all
  notify_all-line s [] = (refl, ground (arith, append-nil (line s)))
  notify_all-line s (c ∷ cs) =
      let (t, e) = notify_chunk-line s c in
      let (u, f) = notify_all-line (notify_chunk accepts s c) cs in
      (
        u ∙ t,
        f
            ∙ rw (e, t)
                (append_assoc (line s) (if s.tx_char then c ∷ [] else [])
                    (if s.tx_char then cs else [])
                  ∙ ap (◌++◌ (line s)) (ground arith)),
      )

  send-line :
      (s : CoreBluetooth) (p : Peer) (packet : Bytes)
      → ((send accepts s p packet).0.tx_char ≡ s.tx_char)
        × (line (send accepts s p packet).0
            ≡ line s ++ (if s.tx_char then or_default (send_packet p packet) [] else []))
  unfolding send
  send-line s p packet = elim (Option-cases (send_packet p packet)) [
    | inl e ↦ rw (e, send) (refl, ground (arith, append-nil (line s)))
    | inr (cs, e) ↦ rw (e, send) (notify_all-line s cs)
  ]

  -- What one callback does to the line and to the characteristic.
  step-line :
      (s : CoreBluetooth) (k : Callback)
      → line (step accepts s k).0 ≡ line s ++ submitted s.tx_char (k ∷ [])
  unfolding step flush_pending state_changed register_service write_requests
  step-line s (did_update_state on) = ground (arith, append-nil (line s))
  step-line s (did_add_service failed is_advertising) = sym (append-nil (line s))
  step-line s (did_receive_write qs) = sym (append-nil (line s))
  step-line s (did_subscribe p) = sym (append-nil (line s))
  step-line s (did_unsubscribe p) = sym (append-nil (line s))
  step-line s is_ready = flush-line s.radio s.pending ∙ sym (append-nil (line s))
  step-line s (sends p packet) =
      (send-line s p packet).1
      ∙ ap (◌++◌ (line s))
          (sym (append-nil (if s.tx_char then or_default (send_packet p packet) [] else [])))

  submitted-step :
      (s : CoreBluetooth) (k : Callback) (ks : List Callback)
      → submitted s.tx_char (k ∷ ks)
        ≡ submitted s.tx_char (k ∷ []) ++ submitted (step accepts s k).0.tx_char ks
  unfolding step flush_pending state_changed register_service write_requests
  submitted-step s (did_update_state on) ks = ground arith
  submitted-step s (did_add_service failed is_advertising) ks = refl
  submitted-step s (did_receive_write qs) ks = refl
  submitted-step s (did_subscribe p) ks = refl
  submitted-step s (did_unsubscribe p) ks = refl
  submitted-step s is_ready ks = refl
  submitted-step s (sends p packet) ks = rw (
    (send-line s p packet).0,
    append-nil (if s.tx_char then or_default (send_packet p packet) [] else []),
  )

  -- Over any sequence of callbacks and sends, whatever the radio refuses and when, what it has
  -- taken and what waits are together what was submitted since the service was registered, in
  -- order, behind what there was before.
  pub run-line :
      (s : CoreBluetooth) (ks : List Callback)
      → line (run accepts s ks).0 ≡ line s ++ submitted s.tx_char ks
  unfolding run
  run-line s [] = sym (append-nil (line s))
  run-line s (k ∷ ks) =
      let t = (step accepts s k).0 in
      run-line t ks
      ∙ rw (step-line s k, submitted-step s k ks)
          (append_assoc (line s) (submitted s.tx_char (k ∷ [])) (submitted t.tx_char ks))

  -- A flush never makes the queue longer.
  flush-shorter : (r : Radio) (cs : List Bytes) → length (flush accepts r cs).0 ≤ length cs
  unfolding flush update_value
  flush-shorter r [] = omega arith
  flush-shorter r (c ∷ cs) =
      ground (arith, flush-shorter (record { calls = suc r.calls; taken = r.taken ++ c ∷ [] }) cs)

  flush-taken :
      (r : Radio) (c : Bytes) (cs : List Bytes)
      → accepts r.calls ≡ true
      → length (flush accepts r (c ∷ cs)).0 ≤ length cs
  unfolding flush update_value
  flush-taken r c cs e =
      rw (e, flush) (flush-shorter (record { calls = suc r.calls; taken = r.taken ++ c ∷ [] }) cs)

  flush-refused :
      (r : Radio) (c : Bytes) (cs : List Bytes)
      → accepts r.calls ≡ false
      → flush accepts r (c ∷ cs) ≡ (c ∷ cs, record r { calls = suc r.calls })
  unfolding flush update_value
  flush-refused r c cs e = rw (e, flush)

  -- The radio, once it has been asked often enough, takes the head of the queue.
  makes_progress :
      (m : ℕ) (s : CoreBluetooth) (c : Bytes) (cs : List Bytes)
      → s.pending ≡ c ∷ cs
      → accepts (m + s.radio.calls) ≡ true
      → (k : ℕ) × (length (run accepts s (repeat k is_ready)).0.pending ≤ length cs)
  unfolding run step flush_pending
  makes_progress zero s c cs h e =
      let now = subst (λ n. accepts n ≡ true) (zero-add s.radio.calls) e in
      (1, rw (h) (flush-taken s.radio c cs now))
  makes_progress (suc m) s c cs h e = elim (Bool-cases (accepts s.radio.calls)) [
    | inl now ↦ (1, rw (h) (flush-taken s.radio c cs now))
    | inr later ↦
        let s' = (step accepts s is_ready).0 in
        let next : suc m + s.radio.calls ≡ m + suc s.radio.calls = omega arith in
        let f : flush accepts s.radio s.pending
            ≡ (c ∷ cs, record s.radio { calls = suc s.radio.calls }) =
          rw (h) (flush-refused s.radio c cs later) in
        let (k, short) =
          makes_progress m s' c cs (ap (λ x. x.0) f)
            (subst (λ n. accepts n ≡ true) (next ∙ ap (λ x. m + x.1.calls) (sym f)) e) in
        (suc k, short)
  ]

  run-append :
      (s : CoreBluetooth) (js ks : List Callback)
      → (run accepts s (js ++ ks)).0 ≡ (run accepts (run accepts s js).0 ks).0
  unfolding run
  run-append s [] ks = refl
  run-append s (j ∷ js) ks = run-append (step accepts s j).0 js ks

  drains_within :
      (n : ℕ) (s : CoreBluetooth)
      → ((n : ℕ) → (m : ℕ) × (accepts (m + n) ≡ true))
      → length s.pending ≤ n
      → (k : ℕ) × ((run accepts s (repeat k is_ready)).0.pending ≡ [])
  unfolding run
  drains_within zero s fair h = elim (List-cases s.pending) [
    | inl e ↦ (0, e)
    | inr (c, cs, e) ↦
        let full : length s.pending ≡ suc (length cs) = ap length e in absurd (omega arith)
  ]
  drains_within (suc n) s fair h = elim (List-cases s.pending) [
    | inl e ↦ (0, e)
    | inr (c, cs, e) ↦
        let full : length s.pending ≡ suc (length cs) = ap length e in
        let (m, hit) = fair s.radio.calls in
        let (j, shorter) = makes_progress m s c cs e hit in
        let (k, done) = drains_within n (run accepts s (repeat j is_ready)).0 fair (omega arith) in
        (
          j + k,
          rw
              (
                sym (repeat-append j k is_ready),
                run-append s (repeat j is_ready) (repeat k is_ready),
              )
              done,
        )
  ]

  submitted-repeat : (on : Bool) (k : ℕ) → submitted on (repeat k is_ready) ≡ []
  submitted-repeat on zero = refl
  submitted-repeat on (suc k) = submitted-repeat on k

  -- If the radio, however often it has been asked, takes a chunk again some time later, then after
  -- enough calls of IsReadyToUpdateSubscribers nothing waits and the radio has taken every chunk
  -- that was submitted, in order.
  pub run-drains :
      (s : CoreBluetooth) (ks : List Callback)
      → ((n : ℕ) → (m : ℕ) × (accepts (m + n) ≡ true))
      → (k : ℕ) × (let t = (run accepts s (ks ++ repeat k is_ready)).0 in
          (t.pending ≡ []) × (t.radio.taken ≡ line s ++ submitted s.tx_char ks))
  unfolding run
  run-drains s ks fair =
      let t = (run accepts s ks).0 in
      let (k, done) = drains_within (length t.pending) t fair (omega arith) in
      let u = (run accepts t (repeat k is_ready)).0 in
      let whole : line u ≡ line t =
        run-line t (repeat k is_ready) ∙ rw (submitted-repeat t.tx_char k, append-nil (line t)) in
      (
        k,
        rw (run-append s ks (repeat k is_ready)) (
          done,
          sym (append-nil u.radio.taken)
              ∙ ap (◌++◌ u.radio.taken) (sym done)
              ∙ whole
              ∙ run-line s ks,
        ),
      )
