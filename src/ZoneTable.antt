-- ===== src/ZoneTable.antt =====
-- The zone routing table (node/backhaul/dynamic_zone_table.py): learned addresses that expire, over
-- addresses that the operator pinned. The code only compares zones and hands addresses on, so both
-- types are parameters. Times are the monotonic clock's readings in whole ticks; an operation that
-- goes through all entries reads the clock once for each, so it takes a reading for every zone.
pub mod Routing
pub mod History
use meshlink_node.Prelude.{
  Bool, Dict, Eq, List, Option, [], add_all, discard, get, if◌then◌else◌, keys, length, ltb, none,
  not, or_default, put, remove_all, some, update, ℕ, ◌+◌, ◌∷◌,
}

pub record ZoneTable (Zone Addr : Type 0) : Type 0 where
  pub own_zone_id : Zone
  pub entry_ttl : ℕ
  pub pinned : Dict Zone Addr
  pub learned : Dict Zone (Addr × ℕ)

module _ {Zone Addr : Type 0} ⦃e : Eq Zone⦄ where
  -- DynamicZoneTable(own_zone_id, seed, entry_ttl_s)
  unfoldable pub new_table : Zone → Option (Dict Zone Addr) → ℕ → ZoneTable Zone Addr
  new_table own seed ttl = record {
    own_zone_id = own;
    entry_ttl = ttl;
    pinned = or_default seed [];
    learned = [];
  }

  -- `self._clock() - last_seen > self._entry_ttl_s`
  abbrev pub expired : ZoneTable Zone Addr → ℕ → ℕ → Bool
  expired t now last_seen = ltb (last_seen + t.entry_ttl) now

  unfoldable pub learn : ZoneTable Zone Addr → ℕ → Zone → Addr → ZoneTable Zone Addr
  learn t now zone addr = record t { learned = put t.learned zone (addr, now) }

  -- What a pinned and a learned entry of one zone answer.
  abbrev pub answer : ZoneTable Zone Addr → ℕ → Option Addr → Option (Addr × ℕ) → Option Addr
  answer t now seed none = seed
  answer t now seed (some entry) = if not (expired t now entry.1) then some entry.0 else seed

  unfoldable pub addr_for : ZoneTable Zone Addr → ℕ → Zone → Option Addr
  addr_for t now zone = answer t now (get t.pinned zone) (get t.learned zone)

  -- [z for z, (_, seen) in items if self._expired(seen)]
  unfoldable pub stale : ZoneTable Zone Addr → (Zone → ℕ) → Dict Zone (Addr × ℕ) → List Zone
  stale t clock [] = []
  stale t clock ((z, entry) ∷ d) =
      let rest = stale t clock d in if expired t (clock z) entry.1 then z ∷ rest else rest

  unfoldable pub forget_stale : ZoneTable Zone Addr → (Zone → ℕ) → List Zone × ZoneTable Zone Addr
  unfolding stale remove_all
  forget_stale t clock =
      let gone = stale t clock t.learned in (gone, record t { learned = remove_all t.learned gone })

  -- The learned entries that have not expired, as `{z: addr for …}`.
  unfoldable pub fresh : ZoneTable Zone Addr → (Zone → ℕ) → Dict Zone (Addr × ℕ) → Dict Zone Addr
  fresh t clock [] = []
  fresh t clock ((z, entry) ∷ d) =
      let rest = fresh t clock d in
      if not (expired t (clock z) entry.1) then (z, entry.0) ∷ rest else rest

  unfoldable pub known_zones : ZoneTable Zone Addr → (Zone → ℕ) → List Zone
  unfolding fresh add_all
  known_zones t clock = add_all (add_all [] (keys (fresh t clock t.learned))) (keys t.pinned)

  unfoldable pub peer_count : ZoneTable Zone Addr → (Zone → ℕ) → ℕ
  unfolding known_zones
  peer_count t clock = length (discard (known_zones t clock) t.own_zone_id)

  unfoldable pub snapshot : ZoneTable Zone Addr → (Zone → ℕ) → Dict Zone Addr
  unfolding update fresh
  snapshot t clock = update t.pinned (fresh t clock t.learned)
