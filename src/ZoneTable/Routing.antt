-- ===== src/ZoneTable/Routing.antt =====
-- The views of one table agree: what `addr_for` answers, what `known_zones` and `snapshot` list, and
-- what `forget_stale` leaves (node/backhaul/dynamic_zone_table.py).
use meshlink_node.Prelude.{
  Bool, Bool-cases, Dict, Eq, IsKeyed, Option, [], add_all, ap, arith, beq_eq, beq_refl, contains,
  contains-add_all, contains-keys, false, get, get-put, get-remove_all, get-update, if◌then◌else◌,
  inl, inr, is_some, is_some-or_else, keys, leb, none, or_else, refl, some, subst, ℕ, ◌+◌, ◌==◌,
  ◌∙◌, ◌∷◌, ◌≡◌, ◌≤◌,
}
use meshlink_node.ZoneTable.{
  ZoneTable, answer, expired, learn, addr_for, stale, forget_stale, fresh, known_zones, snapshot,
}

module _ {Zone Addr : Type 0} ⦃e : Eq Zone⦄ where
  -- A learned address is the answer until it is older than the TTL, then the pinned one is; and the
  -- other zones keep their answers.
  pub addr_for-learn :
      (t : ZoneTable Zone Addr) (now later : ℕ) (z y : Zone) (a : Addr)
      → addr_for (learn t now z a) later y ≡ (
          if z == y
          then (if leb later (now + t.entry_ttl) then some a else get t.pinned y)
          else addr_for t later y)
  unfolding addr_for learn
  addr_for-learn t now later z y a =
      ap (answer t later (get t.pinned y)) (get-put t.learned z y (a, now)) ∙ ground arith

  -- Is there an entry of the zone, and has it expired?
  abbrev pub is_stale : ZoneTable Zone Addr → ℕ → Option (Addr × ℕ) → Bool
  is_stale t now none = false
  is_stale t now (some entry) = expired t now entry.1

  contains-stale_absent :
      (t : ZoneTable Zone Addr) (clock : Zone → ℕ) (d : Dict Zone (Addr × ℕ)) (y : Zone)
      → contains (keys d) y ≡ false
      → contains (stale t clock d) y ≡ false
  unfolding stale
  contains-stale_absent t clock [] y h = refl
  contains-stale_absent t clock ((z, entry) ∷ d) y h =
      ground (arith, contains-stale_absent t clock d y)

  contains-stale :
      (t : ZoneTable Zone Addr) (clock : Zone → ℕ) (d : Dict Zone (Addr × ℕ)) (y : Zone)
      → IsKeyed d
      → contains (stale t clock d) y ≡ is_stale t (clock y) (get d y)
  unfolding stale get
  contains-stale t clock [] y h = refl
  contains-stale t clock ((z, entry) ∷ d) y h = elim (Bool-cases (z == y)) [
    | inl same ↦
        let p : z ≡ y = beq_eq z y same in
        let q : contains (keys d) y ≡ false = subst (λ k. contains (keys d) k ≡ false) p h.0 in
        rw (same, ← p) (ground (arith, beq_refl z, contains-stale_absent t clock d z h.0))
    | inr other ↦ rw other (ground (arith, contains-stale t clock d y h.1))
  ]

  -- On a table with one entry per zone, a sweep reports and forgets exactly the zones whose entry
  -- has expired, and keeps every other entry.
  pub forget_stale-gone :
      (t : ZoneTable Zone Addr) (clock : Zone → ℕ) (y : Zone)
      → IsKeyed t.learned
      → (contains (forget_stale t clock).0 y ≡ is_stale t (clock y) (get t.learned y))
        × (get (forget_stale t clock).1.learned y
            ≡ (if is_stale t (clock y) (get t.learned y) then none else get t.learned y))
  unfolding forget_stale
  forget_stale-gone t clock y h =
      let gone = contains-stale t clock t.learned y h in
      (gone, get-remove_all t.learned (stale t clock t.learned) y ∙ rw gone)

  answer-swept :
      (t : ZoneTable Zone Addr) (then' now : ℕ) (seed : Option Addr) (o : Option (Addr × ℕ))
      → then' ≤ now
      → answer t now seed (if is_stale t then' o then none else o) ≡ answer t now seed o
  answer-swept t then' now seed none le = refl
  answer-swept t then' now seed (some entry) le = ground arith

  -- A sweep changes no answer that is given at the time of the sweep or later.
  pub addr_for-forget_stale :
      (t : ZoneTable Zone Addr) (clock : Zone → ℕ) (now : ℕ) (y : Zone)
      → IsKeyed t.learned
      → clock y ≤ now
      → addr_for (forget_stale t clock).1 now y ≡ addr_for t now y
  unfolding addr_for forget_stale
  addr_for-forget_stale t clock now y h le =
      ap (answer t now (get t.pinned y)) (forget_stale-gone t clock y h).1
      ∙ answer-swept t (clock y) now (get t.pinned y) (get t.learned y) le

  -- The address of an entry that has not expired.
  abbrev live : ZoneTable Zone Addr → ℕ → Option (Addr × ℕ) → Option Addr
  live t now o = answer t now none o

  contains-fresh_absent :
      (t : ZoneTable Zone Addr) (clock : Zone → ℕ) (d : Dict Zone (Addr × ℕ)) (y : Zone)
      → contains (keys d) y ≡ false
      → contains (keys (fresh t clock d)) y ≡ false
  unfolding fresh
  contains-fresh_absent t clock [] y h = refl
  contains-fresh_absent t clock ((z, entry) ∷ d) y h =
      ground (arith, contains-fresh_absent t clock d y)

  fresh-IsKeyed :
      (t : ZoneTable Zone Addr) (clock : Zone → ℕ) (d : Dict Zone (Addr × ℕ))
      → IsKeyed d
      → IsKeyed (fresh t clock d)
  unfolding fresh
  fresh-IsKeyed t clock [] h = tt
  fresh-IsKeyed t clock ((z, entry) ∷ d) h =
      ground (arith, fresh-IsKeyed t clock d h.1, contains-fresh_absent t clock d z h.0)

  get-fresh :
      (t : ZoneTable Zone Addr) (clock : Zone → ℕ) (d : Dict Zone (Addr × ℕ)) (y : Zone)
      → IsKeyed d
      → get (fresh t clock d) y ≡ live t (clock y) (get d y)
  unfolding fresh get
  get-fresh t clock [] y h = refl
  get-fresh t clock ((z, entry) ∷ d) y h = elim (Bool-cases (z == y)) [
    | inl same ↦
        let p : z ≡ y = beq_eq z y same in
        let absent = contains-fresh_absent t clock d z h.0 in
        let none_left = contains-keys (fresh t clock d) z in
        rw (← p, beq_refl z) (ground (arith, beq_refl z))
    | inr other ↦ rw other (ground (arith, get-fresh t clock d y h.1))
  ]

  answer-or_else :
      (t : ZoneTable Zone Addr) (now : ℕ) (seed : Option Addr) (o : Option (Addr × ℕ))
      → or_else (live t now o) seed ≡ answer t now seed o
  answer-or_else t now seed none = refl
  answer-or_else t now seed (some entry) = ground arith

  -- On a table with one entry per zone, the snapshot's entry of a zone is what addr_for answers at
  -- the reading taken for that zone.
  pub get-snapshot :
      (t : ZoneTable Zone Addr) (clock : Zone → ℕ) (y : Zone)
      → IsKeyed t.learned
      → get (snapshot t clock) y ≡ addr_for t (clock y) y
  unfolding snapshot addr_for
  get-snapshot t clock y h =
      get-update t.pinned (fresh t clock t.learned) y (fresh-IsKeyed t clock t.learned h)
      ∙ ap (λ o. or_else o (get t.pinned y)) (get-fresh t clock t.learned y h)
      ∙ answer-or_else t (clock y) (get t.pinned y) (get t.learned y)

  -- On a table with one entry per zone, a zone is among the known zones exactly when addr_for has
  -- an answer at the reading taken for that zone.
  pub contains-known_zones :
      (t : ZoneTable Zone Addr) (clock : Zone → ℕ) (y : Zone)
      → IsKeyed t.learned
      → contains (known_zones t clock) y ≡ is_some (addr_for t (clock y) y)
  unfolding known_zones addr_for
  contains-known_zones t clock y h =
      let f = fresh t clock t.learned in
      let seed = get t.pinned y in
      rw
        (
          contains-add_all (add_all [] (keys f)) (keys t.pinned) y,
          contains-add_all [] (keys f) y,
          contains-keys t.pinned y,
          contains-keys f y,
          get-fresh t clock t.learned y h,
        )
        (ground (
          arith,
          is_some-or_else (live t (clock y) (get t.learned y)) seed,
          answer-or_else t (clock y) seed (get t.learned y),
        ))
