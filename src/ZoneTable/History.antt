-- ===== src/ZoneTable/History.antt =====
-- The table against the announcements that it has heard (node/backhaul/dynamic_zone_table.py).
use meshlink_node.Prelude.{
  Eq, IsKeyed, List, Option, [], ap, arith, get, get-put, if◌then◌else◌, none, or_else, or_else_if,
  put-IsKeyed, refl, remove_all-IsKeyed, some, ℕ, ◌==◌, ◌∙◌, ◌∷◌, ◌≡◌, ◌≤◌,
}
use meshlink_node.ZoneTable.{ZoneTable, answer, learn, addr_for, stale, forget_stale}
use meshlink_node.ZoneTable.Routing.{is_stale, forget_stale-gone}

-- What happens to a table: an announcement is learned, or the sync loop sweeps.
pub data TableOp (Zone Addr : Type 0) : Type 0 where
  hears : ℕ → Zone → Addr → TableOp Zone Addr
  sweeps : (Zone → ℕ) → TableOp Zone Addr

module _ {Zone Addr : Type 0} ⦃e : Eq Zone⦄ where
  unfoldable pub apply : ZoneTable Zone Addr → TableOp Zone Addr → ZoneTable Zone Addr
  apply t (hears now z a) = learn t now z a
  apply t (sweeps clock) = (forget_stale t clock).1

  unfoldable pub replay : ZoneTable Zone Addr → List (TableOp Zone Addr) → ZoneTable Zone Addr
  replay t [] = t
  replay t (op ∷ ops) = replay (apply t op) ops

  -- The last announcement of a zone, with its time.
  abbrev pub last_heard : Zone → List (TableOp Zone Addr) → Option (Addr × ℕ)
  last_heard y [] = none
  last_heard y (hears now z a ∷ ops) =
      or_else (last_heard y ops) (if z == y then some (a, now) else none)
  last_heard y (sweeps clock ∷ ops) = last_heard y ops

  -- No sweep read a later time for the zone.
  abbrev pub SweptBy : ℕ → Zone → List (TableOp Zone Addr) → Type 0
  SweptBy now y [] = Unit
  SweptBy now y (hears n z a ∷ ops) = SweptBy now y ops
  SweptBy now y (sweeps clock ∷ ops) = (clock y ≤ now) × SweptBy now y ops

  apply-IsKeyed :
      (t : ZoneTable Zone Addr) (op : TableOp Zone Addr)
      → IsKeyed t.learned
      → IsKeyed (apply t op).learned
  unfolding apply learn forget_stale
  apply-IsKeyed t (hears now z a) h = put-IsKeyed t.learned z (a, now) h
  apply-IsKeyed t (sweeps clock) h = remove_all-IsKeyed t.learned (stale t clock t.learned) h

  answer-heard_swept :
      (t : ZoneTable Zone Addr) (then' now : ℕ) (seed : Option Addr) (o u : Option (Addr × ℕ))
      → then' ≤ now
      → answer t now seed (or_else o (if is_stale t then' u then none else u))
        ≡ answer t now seed (or_else o u)
  answer-heard_swept t then' now seed (some v) u le = refl
  answer-heard_swept t then' now seed none none le = refl
  answer-heard_swept t then' now seed none (some v) le = ground arith

  -- After any announcements and sweeps, none of which read a later time for the zone, a table with
  -- one entry per zone answers with the zone's last announcement, or else with the entry that it
  -- had, if that is no older than the TTL, and else with the pinned address.
  pub replay-last_heard :
      (t : ZoneTable Zone Addr) (ops : List (TableOp Zone Addr)) (now : ℕ) (y : Zone)
      → IsKeyed t.learned
      → SweptBy now y ops
      → addr_for (replay t ops) now y
        ≡ answer t now (get t.pinned y) (or_else (last_heard y ops) (get t.learned y))
  unfolding replay apply learn forget_stale addr_for
  replay-last_heard t [] now y h k = refl
  replay-last_heard t (hears n z a ∷ ops) now y h k =
      replay-last_heard (learn t n z a) ops now y (put-IsKeyed t.learned z (a, n) h) k
      ∙ ap (λ o. answer t now (get t.pinned y) (or_else (last_heard y ops) o))
          (get-put t.learned z y (a, n))
      ∙ ap (answer t now (get t.pinned y))
          (or_else_if (last_heard y ops) (get t.learned y) (z == y) (a, n))
  replay-last_heard t (sweeps clock ∷ ops) now y h k =
      replay-last_heard (forget_stale t clock).1 ops now y (apply-IsKeyed t (sweeps clock) h) k.1
      ∙ ap (λ o. answer t now (get t.pinned y) (or_else (last_heard y ops) o))
          (forget_stale-gone t clock y h).1
      ∙ answer-heard_swept t (clock y) now (get t.pinned y) (last_heard y ops) (get t.learned y) k.0
