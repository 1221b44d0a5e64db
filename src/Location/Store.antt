-- ===== src/Location/Store.antt =====
-- The latest coordinate of each identity (node/location/store.py). Times are readings of the wall
-- clock in whole ticks, of which `ticks_per_s` make a second.
use meshlink_node.Prelude.{
  Bool-cases, Bytes, Dict, IsKeyed, List, Option, [], ap, arith, beq_eq, contains, false, get,
  get-put, if◌then◌else◌, inl, inr, keys, none, or_else, or_else-none, or_else_if, put, put-IsKeyed,
  refl, remove, some, subst, ℕ, ℤ, ◌-◌, ◌/◌, ◌==◌, ◌∙◌, ◌∷◌, ◌≡◌, nat_eq, list_eq,
}

pub record LocationRow : Type 0 where
  pub lat_microdeg : ℤ
  pub lon_microdeg : ℤ
  pub accuracy_m : ℕ
  pub zone_id : ℕ
  pub last_beacon_ts : ℕ

-- identity (sender_key) -> row
abbrev pub LocationStore : Type 0
LocationStore = Dict Bytes LocationRow

abbrev pub ticks_per_s : ℕ
ticks_per_s = 1000000

-- The coordinate that a beacon carries.
pub record Fix : Type 0 where
  pub lat : ℤ
  pub lon : ℤ
  pub accuracy : ℕ

unfoldable pub update_row : LocationStore → ℕ → Bytes → Fix → ℕ → LocationStore
update_row rows now identity fix zone = put rows identity (record {
  lat_microdeg = fix.lat;
  lon_microdeg = fix.lon;
  accuracy_m = fix.accuracy;
  zone_id = zone;
  last_beacon_ts = now;
})

unfoldable pub get_row : LocationStore → Bytes → Option LocationRow
get_row rows identity = get rows identity

-- max(0, int(now - ts)): `-` stops at 0, as the maximum does
unfoldable pub beacon_age_s : ℕ → LocationRow → ℕ
beacon_age_s now row = (now - row.last_beacon_ts) / ticks_per_s

unfoldable pub row_count : LocationStore → Bytes → ℕ
row_count rows identity = if contains (keys rows) identity then 1 else 0

unfoldable pub forget : LocationStore → Bytes → LocationStore
forget rows identity = remove rows identity

-- A beacon as the store gets it.
pub record Beacon : Type 0 where
  pub sender : Bytes
  pub fix : Fix
  pub zone : ℕ
  pub at : ℕ

unfoldable pub ingest : LocationStore → List Beacon → LocationStore
unfolding update_row
ingest rows [] = rows
ingest rows (b ∷ bs) = ingest (update_row rows b.at b.sender b.fix b.zone) bs

abbrev pub row_of : Beacon → LocationRow
row_of b = record {
  lat_microdeg = b.fix.lat;
  lon_microdeg = b.fix.lon;
  accuracy_m = b.fix.accuracy;
  zone_id = b.zone;
  last_beacon_ts = b.at;
}

-- The last beacon of an identity.
abbrev pub last_beacon : Bytes → List Beacon → Option LocationRow
last_beacon i [] = none
last_beacon i (b ∷ bs) =
    or_else (last_beacon i bs) (if b.sender == i then some (row_of b) else none)

-- The rows of an identity that the table holds.
abbrev pub rows_for : Bytes → LocationStore → List LocationRow
rows_for i [] = []
rows_for i ((k, r) ∷ rows) = if k == i then r ∷ rows_for i rows else rows_for i rows

abbrev pub option_to_list {ℓ} : {A : Type ℓ} → Option A → List A
option_to_list none = []
option_to_list (some a) = a ∷ []

rows_for-absent :
    (i : Bytes) (rows : LocationStore) → contains (keys rows) i ≡ false → rows_for i rows ≡ []
rows_for-absent i [] h = refl
rows_for-absent i ((k, r) ∷ rows) h = ground (arith, rows_for-absent i rows)

rows_for-get :
    (i : Bytes) (rows : LocationStore)
    → IsKeyed rows
    → rows_for i rows ≡ option_to_list (get rows i)
unfolding get
rows_for-get i [] h = refl
rows_for-get i ((k, r) ∷ rows) h = elim (Bool-cases (k == i)) [
  | inl same ↦
      let p : k ≡ i = beq_eq k i same in
      rw (same, rows_for-absent i rows (subst (λ x. contains (keys rows) x ≡ false) p h.0))
  | inr other ↦ rw other (rows_for-get i rows h.1)
]

ingest-IsKeyed : (rows : LocationStore) (bs : List Beacon) → IsKeyed rows → IsKeyed (ingest rows bs)
unfolding ingest
ingest-IsKeyed rows [] h = h
ingest-IsKeyed rows (b ∷ bs) h =
    ingest-IsKeyed (put rows b.sender (row_of b)) bs (put-IsKeyed rows b.sender (row_of b) h)

get-ingest :
    (rows : LocationStore) (bs : List Beacon) (i : Bytes)
    → get (ingest rows bs) i ≡ or_else (last_beacon i bs) (get rows i)
unfolding ingest
get-ingest rows [] i = refl
get-ingest rows (b ∷ bs) i =
    get-ingest (put rows b.sender (row_of b)) bs i
    ∙ ap (or_else (last_beacon i bs)) (get-put rows b.sender i (row_of b))
    ∙ or_else_if (last_beacon i bs) (get rows i) (b.sender == i) (row_of b)

-- However many beacons come in, an identity has the row of its last beacon and no other.
pub rows_for-ingest :
    (bs : List Beacon) (i : Bytes) → rows_for i (ingest [] bs) ≡ option_to_list (last_beacon i bs)
unfolding get
rows_for-ingest bs i =
    rows_for-get i (ingest [] bs) (ingest-IsKeyed [] bs tt)
    ∙ ap option_to_list (get-ingest [] bs i)
    ∙ ap option_to_list (or_else-none (last_beacon i bs))
