-- ===== src/Entry/Lifecycle.antt =====
-- What the main function leaves running (node/main.py).
use meshlink_node.Prelude.{
  Bool, Bool-cases, List, [], ap, append-nil, arith, false, if◌then◌else◌, inl, inr, not, refl,
  true, ◌++◌, ◌||◌, ◌∙◌, ◌∷◌, ◌≡◌,
}
use meshlink_node.Entry.{
  Service, backend_proxy, access_point, Ending, unwinds, Action, starts, serves, stops, start_order,
  stop_order, call_all, lifecycle,
}

abbrev pub started : List Action → List Service
started [] = []
started (starts s ∷ as') = s ∷ started as'
started (serves ∷ as') = started as'
started (stops s ∷ as') = started as'

abbrev pub stopped : List Action → List Service
stopped [] = []
stopped (starts s ∷ as') = stopped as'
stopped (serves ∷ as') = stopped as'
stopped (stops s ∷ as') = s ∷ stopped as'

-- Whether one of them raises.
abbrev pub any_fails : (Service → Bool) → List Service → Bool
any_fails fails [] = false
any_fails fails (s ∷ ss) = fails s || any_fails fails ss

stopped-append : (as' bs : List Action) → stopped (as' ++ bs) ≡ stopped as' ++ stopped bs
stopped-append [] bs = refl
stopped-append (starts s ∷ as') bs = stopped-append as' bs
stopped-append (serves ∷ as') bs = stopped-append as' bs
stopped-append (stops s ∷ as') bs = ap (◌∷◌ s) (stopped-append as' bs)

call_all-starts :
    (fails : Service → Bool) (ss : List Service)
    → (stopped (call_all starts fails ss).0 ≡ [])
      × ((call_all starts fails ss).1 ≡ not (any_fails fails ss))
unfolding call_all
call_all-starts fails [] = (refl, refl)
call_all-starts fails (s ∷ ss) = ground (arith, call_all-starts fails ss)

call_all-stops :
    (fails : Service → Bool) (ss : List Service)
    → any_fails fails ss ≡ false
    → stopped (call_all stops fails ss).0 ≡ ss
unfolding call_all
call_all-stops fails [] h = refl
call_all-stops fails (s ∷ ss) h = ground (arith, call_all-stops fails ss)

stopped_then :
    (as' bs : List Action) (ok fine : Bool)
    → stopped as' ≡ []
    → ok ≡ fine
    → stopped (as' ++ (if ok then serves ∷ bs else [])) ≡ (if fine then stopped bs else [])
stopped_then as' bs ok fine e f =
    stopped-append as' (if ok then serves ∷ bs else []) ∙ rw (e, f) (ground arith)

call_all-started :
    (fails : Service → Bool) (ss : List Service)
    → any_fails fails ss ≡ false
    → started (call_all starts fails ss).0 ≡ ss
unfolding call_all
call_all-started fails [] h = refl
call_all-started fails (s ∷ ss) h = ground (arith, call_all-started fails ss)

call_all-stops_started :
    (fails : Service → Bool) (ss : List Service) → started (call_all stops fails ss).0 ≡ []
unfolding call_all
call_all-stops_started fails [] = refl
call_all-stops_started fails (s ∷ ss) = ground (arith, call_all-stops_started fails ss)

started-append : (as' bs : List Action) → started (as' ++ bs) ≡ started as' ++ started bs
started-append [] bs = refl
started-append (starts s ∷ as') bs = ap (◌∷◌ s) (started-append as' bs)
started-append (serves ∷ as') bs = started-append as' bs
started-append (stops s ∷ as') bs = started-append as' bs

-- The access point is brought up before, and the proxy needs no start.
abbrev pub has_start : Service → Bool
has_start backend_proxy = false
has_start access_point = false
has_start _ = true

abbrev pub with_start : List Service → List Service
with_start [] = []
with_start (s ∷ ss) = let rest = with_start ss in if has_start s then s ∷ rest else rest

abbrev pub without_start : List Service → List Service
without_start [] = []
without_start (s ∷ ss) = let rest = without_start ss in if has_start s then rest else s ∷ rest

abbrev pub backwards : List Service → List Service
backwards [] = []
backwards (s ∷ ss) = backwards ss ++ s ∷ []

stop_order-backwards :
    (ap : Bool)
    → (with_start (stop_order ap) ≡ backwards start_order)
      × (without_start (stop_order ap) ≡ backend_proxy ∷ (if ap then access_point ∷ [] else []))
stop_order-backwards true = (refl, refl)
stop_order-backwards false = (refl, refl)

-- What is stopped, if that is all or nothing.
all_or_nothing :
    (ap left : Bool) (ran : List Action)
    → (left ≡ true → stopped ran ≡ [])
    → (left ≡ false → (stopped ran ≡ stop_order ap) × (started ran ≡ start_order))
    → (with_start (stopped ran) ≡ (if left then [] else backwards (started ran)))
      × (without_start (stopped ran)
          ≡ (if left then [] else backend_proxy ∷ (if ap then access_point ∷ [] else [])))
all_or_nothing ap true ran none' all = rw (none' refl) (refl, refl)
all_or_nothing ap false ran none' all =
    let (whole, begun) = all refl in rw (whole, begun) (stop_order-backwards ap)

module _ (ap : Bool) (start_fails stop_fails : Service → Bool) (ending : Ending) where
  abbrev stopping : List Action
  stopping = if unwinds ending then (call_all stops stop_fails (stop_order ap)).0 else []

  stopped-lifecycle :
      stopped (lifecycle ap start_fails stop_fails ending)
      ≡ (if not (any_fails start_fails start_order) then stopped stopping else [])
  unfolding lifecycle
  stopped-lifecycle =
      let ran = call_all starts start_fails start_order in
      let (s, n) = call_all-starts start_fails start_order in
      stopped_then ran.0 stopping ran.1 (not (any_fails start_fails start_order)) s n

  started-stopping : (ok : Bool) → started (if ok then serves ∷ stopping else []) ≡ []
  started-stopping false = refl
  started-stopping true = elim (Bool-cases (unwinds ending)) [
    | inl e ↦ rw e (call_all-stops_started stop_fails (stop_order ap))
    | inr e ↦ rw e refl
  ]

  started-lifecycle :
      any_fails start_fails start_order ≡ false
      → started (lifecycle ap start_fails stop_fails ending) ≡ start_order
  unfolding lifecycle
  started-lifecycle h =
      let ran = call_all starts start_fails start_order in
      started-append ran.0 (if ran.1 then serves ∷ stopping else [])
      ∙ rw (started-stopping ran.1)
          (append-nil (started ran.0) ∙ call_all-started start_fails start_order h)

-- No stop raises. When every start returned and the server's loop ended in another way than by a
-- SIGTERM, the main function stops each service that it started, once, the last one first, and of
-- the others the proxy and then the access point, if there is one. When a start raises, or a
-- SIGTERM ends the node, nothing is stopped, not even what was started and the access point.
pub lifecycle-stopped :
    (ap : Bool) (start_fails stop_fails : Service → Bool) (ending : Ending)
    → any_fails stop_fails (stop_order ap) ≡ false
    → let ran = lifecycle ap start_fails stop_fails ending in
      let left = any_fails start_fails start_order || not (unwinds ending) in
      (with_start (stopped ran) ≡ (if left then [] else backwards (started ran)))
      × (without_start (stopped ran)
          ≡ (if left then [] else backend_proxy ∷ (if ap then access_point ∷ [] else [])))
lifecycle-stopped ap start_fails stop_fails ending h =
    let failed = any_fails start_fails start_order in
    let whole = stopped-lifecycle ap start_fails stop_fails ending in
    all_or_nothing ap (failed || not (unwinds ending)) (lifecycle ap start_fails stop_fails ending)
      (λ e. whole ∙ elim (Bool-cases failed) [
        | inl f ↦ rw f refl
        | inr f ↦ let u : unwinds ending ≡ false = ground (arith, f, e) in rw (f, u) refl
      ])
      (λ e.
        let f : failed ≡ false = ground (arith, e) in
        let u : unwinds ending ≡ true = ground (arith, e) in
        (
          whole ∙ rw (f, u) (call_all-stops stop_fails (stop_order ap) h),
          started-lifecycle ap start_fails stop_fails ending f,
        ))
