-- ===== src/PhonePing/Ageing.antt =====
-- Which reports the heartbeat gets (node/monitoring/phone_ping.py).
use meshlink_node.Prelude.{
  Bool, Bytes, Dict, IsKeyed, List, Option, [], ap, arith, contains, false, get, get-put,
  get-remove_all, if◌then◌else◌, keys, list_beq_iff, ltb, none, put-IsKeyed, refl, remove_all,
  remove_all-IsKeyed, some, true, ℕ, ◌+◌, ◌==◌, ◌∙◌, ◌∷◌, ◌≡◌, ◌≤◌, nat_eq, list_eq,
}
use meshlink_node.Json.{Json}
use meshlink_node.Gatt.{Peer}
use meshlink_node.PhonePing.{
  Report, PhonePing, report_ttl, stale_peers, insert_item, sort_items, reports, Pong, ignored,
  reported, failed, pong_of, handle_pong, handle_frame,
}

-- Has a report aged out?
abbrev pub aged : {F : Type 0} → ℕ → ℕ → Option (Report F) → Bool
aged ttl now none = false
aged ttl now (some r) = ltb (r.received_at + ttl) now

abbrev pub live : {F : Type 0} → ℕ → ℕ → Option (Report F) → Option (Report F)
live ttl now r = if aged ttl now r then none else r

module _ {F : Type 0} where
  contains-stale_absent :
      (ttl now : ℕ) (d : Dict Peer (Report F)) (p : Peer)
      → contains (keys d) p ≡ false
      → contains (stale_peers ttl now d) p ≡ false
  unfolding stale_peers
  contains-stale_absent ttl now [] p h = refl
  contains-stale_absent ttl now ((q, r) ∷ d) p h =
      ground (arith, list_beq_iff q p, contains-stale_absent ttl now d p)

  contains-stale_peers :
      (ttl now : ℕ) (d : Dict Peer (Report F)) (p : Peer)
      → IsKeyed d
      → contains (stale_peers ttl now d) p ≡ aged ttl now (get d p)
  unfolding stale_peers get
  contains-stale_peers ttl now [] p h = refl
  contains-stale_peers ttl now ((q, r) ∷ d) p h = ground (
    arith,
    list_beq_iff q p,
    contains-stale_absent ttl now d p,
    contains-stale_peers ttl now d p h.1,
  )

  get-insert_item :
      (p : Peer) (r : Report F) (d : Dict Peer (Report F)) (q : Peer)
      → contains (keys d) p ≡ false
      → get (insert_item p r d) q ≡ (if p == q then some r else get d q)
  unfolding insert_item get
  get-insert_item p r [] q h = refl
  get-insert_item p r ((i, s) ∷ d) q h =
      ground (arith, list_beq_iff p q, list_beq_iff i q, list_beq_iff i p, get-insert_item p r d q)

  contains-insert_item :
      (p : Peer) (r : Report F) (d : Dict Peer (Report F)) (q : Peer)
      → contains (keys (insert_item p r d)) q ≡ (if p == q then true else contains (keys d) q)
  unfolding insert_item
  contains-insert_item p r [] q = refl
  contains-insert_item p r ((i, s) ∷ d) q = ground (arith, contains-insert_item p r d q)

  contains-sort_items :
      (d : Dict Peer (Report F)) (q : Peer) → contains (keys (sort_items d)) q ≡ contains (keys d) q
  unfolding sort_items
  contains-sort_items [] q = refl
  contains-sort_items ((p, r) ∷ d) q =
      contains-insert_item p r (sort_items d) q ∙ rw (contains-sort_items d q) refl

  get-sort_items :
      (d : Dict Peer (Report F)) (q : Peer) → IsKeyed d → get (sort_items d) q ≡ get d q
  unfolding sort_items get
  get-sort_items [] q h = refl
  get-sort_items ((p, r) ∷ d) q h =
      get-insert_item p r (sort_items d) q (contains-sort_items d p ∙ h.0)
      ∙ rw (get-sort_items d q h.1) refl

  -- `reports` lists, for every phone, the report that is kept of it unless that has aged out, and drops
  -- exactly the reports that have.
  pub get-reports :
      (s : PhonePing F) (now : ℕ) (p : Peer)
      → IsKeyed s.reports
      → (get (reports s now).0 p ≡ live (report_ttl s) now (get s.reports p))
        × (get (reports s now).1.reports p ≡ live (report_ttl s) now (get s.reports p))
  unfolding reports
  get-reports s now p h =
      let ttl = report_ttl s in
      let stale = stale_peers ttl now s.reports in
      let kept =
        get-remove_all s.reports stale p ∙ rw (contains-stale_peers ttl now s.reports p h) refl in
      (
        get-sort_items (remove_all s.reports stale) p (remove_all-IsKeyed s.reports stale h) ∙ kept,
        kept,
      )

module _ {F : Type 0} where
  asked-ttl : (s : PhonePing F) (now : ℕ) → report_ttl (reports s now).1 ≡ report_ttl s
  unfolding report_ttl reports
  asked-ttl s now = refl

  asked-IsKeyed :
      (s : PhonePing F) (now : ℕ) → IsKeyed s.reports → IsKeyed (reports s now).1.reports
  unfolding reports
  asked-IsKeyed s now h = remove_all-IsKeyed s.reports (stale_peers (report_ttl s) now s.reports) h

-- What happens to the service: a frame arrives, or the heartbeat asks for the reports.
pub data PingOp : Type 0 where
  frame_in : ℕ → Peer → Bytes → PingOp
  asks : ℕ → PingOp

module _ (j : Json) where
  unfoldable pub ping_step : PhonePing j.Float → PingOp → PhonePing j.Float
  unfolding handle_frame reports
  ping_step s (frame_in now peer frame) = (handle_frame j s now peer frame).0
  ping_step s (asks now) = (reports s now).1

  unfoldable pub ping_run : PhonePing j.Float → List PingOp → PhonePing j.Float
  unfolding ping_step
  ping_run s [] = s
  ping_run s (op ∷ ops) = ping_run (ping_step s op) ops

  abbrev pub newer : Pong j → Option (Report j.Float) → Option (Report j.Float)
  newer ignored r = r
  newer (reported x) r = some x
  newer failed r = r

  -- The last report that a phone's frames carry, or else the one before them.
  abbrev pub last_report : Peer → Option (Report j.Float) → List PingOp → Option (Report j.Float)
  last_report p r [] = r
  last_report p r (frame_in now q frame ∷ ops) =
      last_report p (if q == p then newer (pong_of j now frame) r else r) ops
  last_report p r (asks now ∷ ops) = last_report p r ops

  -- No question was asked later.
  abbrev pub AskedBy : ℕ → List PingOp → Type 0
  AskedBy now [] = Unit
  AskedBy now (frame_in n p b ∷ ops) = AskedBy now ops
  AskedBy now (asks n ∷ ops) = (n ≤ now) × AskedBy now ops

  handle_pong-keeps :
      (s : PhonePing j.Float) (q p : Peer) (x : Pong j)
      → let s' = (handle_pong j s q x).0 in
        (report_ttl s' ≡ report_ttl s)
        × (IsKeyed s.reports → IsKeyed s'.reports)
        × (get s'.reports p ≡ (if q == p then newer x (get s.reports p) else get s.reports p))
  unfolding handle_pong report_ttl
  handle_pong-keeps s q p ignored = (refl, λ h. h, ground arith)
  handle_pong-keeps s q p (reported r) = (refl, put-IsKeyed s.reports q r, get-put s.reports q p r)
  handle_pong-keeps s q p failed = (refl, λ h. h, ground arith)

  pub handle_frame-IsKeyed :
      (s : PhonePing j.Float) (now : ℕ) (peer : Peer) (frame : Bytes)
      → IsKeyed s.reports
      → IsKeyed (handle_frame j s now peer frame).0.reports
  unfolding handle_frame
  handle_frame-IsKeyed s now peer frame = (handle_pong-keeps s peer peer (pong_of j now frame)).1

  live-live :
      (ttl n now : ℕ) (r : Option (Report j.Float))
      → n ≤ now
      → live ttl now (live ttl n r) ≡ live ttl now r
  live-live ttl n now none le = refl
  live-live ttl n now (some r) le = ground arith

  newer-live :
      (ttl now : ℕ) (x : Pong j) (r r' : Option (Report j.Float))
      → live ttl now r ≡ live ttl now r'
      → live ttl now (newer x r) ≡ live ttl now (newer x r')
  newer-live ttl now ignored r r' h = h
  newer-live ttl now (reported y) r r' h = refl
  newer-live ttl now failed r r' h = h

  last_report-live :
      (ttl now : ℕ) (p : Peer) (ops : List PingOp) (r r' : Option (Report j.Float))
      → live ttl now r ≡ live ttl now r'
      → live ttl now (last_report p r ops) ≡ live ttl now (last_report p r' ops)
  last_report-live ttl now p [] r r' h = h
  last_report-live ttl now p (frame_in n q b ∷ ops) r r' h =
      last_report-live ttl now p ops _ _ (either (q == p))
    where
      either :
          (t : Bool)
          → live ttl now (if t then newer (pong_of j n b) r else r)
            ≡ live ttl now (if t then newer (pong_of j n b) r' else r')
      either true = newer-live ttl now (pong_of j n b) r r' h
      either false = h
  last_report-live ttl now p (asks n ∷ ops) r r' h = last_report-live ttl now p ops r r' h

  ping_run-live :
      (s : PhonePing j.Float) (ops : List PingOp) (ttl now : ℕ) (p : Peer)
      → report_ttl s ≡ ttl
      → IsKeyed s.reports
      → AskedBy now ops
      → (live ttl now (get (ping_run s ops).reports p)
          ≡ live ttl now (last_report p (get s.reports p) ops))
        × IsKeyed (ping_run s ops).reports
        × (report_ttl (ping_run s ops) ≡ ttl)
  unfolding ping_run ping_step handle_frame
  ping_run-live s [] ttl now p t h a = (refl, h, t)
  ping_run-live s (frame_in n q b ∷ ops) ttl now p t h a =
      let (t', h', g) = handle_pong-keeps s q p (pong_of j n b) in
      let s' = (handle_pong j s q (pong_of j n b)).0 in
      let (l, k, u) = ping_run-live s' ops ttl now p (t' ∙ t) (h' h) a in
      (l ∙ ap (λ r. live ttl now (last_report p r ops)) g, k, u)
  ping_run-live s (asks n ∷ ops) ttl now p t h a =
      let s' = (reports s n).1 in
      let (l, k, u) =
        ping_run-live s' ops ttl now p (asked-ttl s n ∙ t) (asked-IsKeyed s n h) a.1 in
      let g = (get-reports s n p h).1 ∙ ap (λ x. live x n (get s.reports p)) t in
      (
        l
            ∙ ap (λ r. live ttl now (last_report p r ops)) g
            ∙ last_report-live ttl now p ops (live ttl n (get s.reports p)) (get s.reports p)
                (live-live ttl n now (get s.reports p) a.0),
        k,
        u,
      )

  -- On a service with one report per phone, whatever frames arrive and whenever the reports are
  -- asked for, as long as no earlier question has a later time, the reports list for a phone what
  -- its last pong carried, or else the report that it had, unless that is older than three
  -- intervals.
  pub reports-last_report :
      (s : PhonePing j.Float) (ops : List PingOp) (now : ℕ) (p : Peer)
      → IsKeyed s.reports
      → AskedBy now ops
      → get (reports (ping_run s ops) now).0 p
        ≡ live (report_ttl s) now (last_report p (get s.reports p) ops)
  reports-last_report s ops now p h a =
      let (l, k, u) = ping_run-live s ops (report_ttl s) now p refl h a in
      (get-reports (ping_run s ops) now p k).0
      ∙ ap (λ x. live x now (get (ping_run s ops).reports p)) u
      ∙ l
