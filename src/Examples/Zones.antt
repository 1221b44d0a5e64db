-- ===== src/Examples/Zones.antt =====
-- A routing table with one pinned and two learned zones (node/backhaul/dynamic_zone_table.py).
use meshlink_node.Prelude.{
  IsKeyed, List, [], arith, get, or_else, refl, ℕ, ◌∷◌, ◌≡◌, nat_eq, list_eq,
}
use meshlink_node.ZoneTable.{ZoneTable, answer, addr_for}
use meshlink_node.ZoneTable.History.{TableOp, hears, sweeps, last_heard, replay, replay-last_heard}

-- Zone 2 is pinned to address 20; zones 2 and 3 were heard at the times 100 and 105; the TTL is 30.
abbrev table : ZoneTable ℕ ℕ
table = record {
  own_zone_id = 1;
  entry_ttl = 30;
  pinned = (2, 20) ∷ [];
  learned = (2, (21, 100)) ∷ (3, (31, 105)) ∷ [];
}

table-IsKeyed : IsKeyed table.learned
table-IsKeyed = (refl, (refl, tt))

-- All entries are swept at the time 132: zone 2's entry has expired.
abbrev at_132 : ℕ → ℕ
at_132 zone = 132

-- Zone 3 announces itself twice, and a sweep comes between.
abbrev heard : List (TableOp ℕ ℕ)
heard = hears 110 3 32 ∷ sweeps at_132 ∷ hears 135 3 33 ∷ []

replay-last_heard_example :
    addr_for (replay table heard) 140 3
    ≡ answer table 140 (get table.pinned 3) (or_else (last_heard 3 heard) (get table.learned 3))
replay-last_heard_example = replay-last_heard table heard 140 3 table-IsKeyed (omega arith, tt)
