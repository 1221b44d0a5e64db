-- ===== src/Config/Tables.antt =====
-- A zone table that is written as the setting is read back as written (node/config.py).
use meshlink_node.Prelude.{
  &&-parts, Bool, Bool-cases, Dict, IsKeyed, List, Option, Text, [], ap, arith, false, get,
  get-update, inl, inr, leb, ltb, map, none, not, or_default, or_else-none, pos, put, refl, some,
  suc, true, update, zero, ℕ, ℤ, ◌%◌, ◌&&◌, ◌++◌, ◌+◌, ◌/◌, ◌==◌, ◌∙◌, ◌∷◌, ◌≡◌, ◌⊎◌, nat_eq,
  list_eq, int_eq,
}
use meshlink_node.Strings.Laws.{every-append, every-weaken, strip-id}
use meshlink_node.Strings.{every, is_space, strip, lstrip, rstrip, partition, rpartition, split}
use meshlink_node.ZoneTable.{new_table, addr_for}
use meshlink_node.Config.{
  read_pair, digits, str_of_nat, parse_addr, read_entry, read_entries, parse_zone_table,
}

-- A host as it may stand in the setting: without spaces, commas, colons and equals signs.
abbrev pub is_host : ℕ → Bool
is_host c = not (is_space c) && not (c == b',') && not (c == b':') && not (c == b'=')

abbrev is_digit : ℕ → Bool
is_digit c = leb b'0' c && leb c b'9'

-- An address that the setting can spell: a host, or a host and a port
abbrev pub Spelled : Type 0
Spelled = Text × Option ℕ

abbrev pub print_addr : Spelled → Text
print_addr (h, none) = h
print_addr (h, some p) = h ++ b':' ∷ str_of_nat p

abbrev pub print_entry : ℕ × Spelled → Text
print_entry (zone, a) = str_of_nat zone ++ b'=' ∷ print_addr a

abbrev pub print_table : List (ℕ × Spelled) → Text
print_table [] = []
print_table (e ∷ []) = print_entry e
print_table (e ∷ f ∷ es) = print_entry e ++ b',' ∷ print_table (f ∷ es)

abbrev pub addr_value : Spelled → Text ⊎ (Text × ℤ)
addr_value (h, none) = inl h
addr_value (h, some p) = inr (h, pos p)

abbrev pub table_value : List (ℕ × Spelled) → Dict ℤ (Text ⊎ (Text × ℤ))
table_value [] = []
table_value ((zone, a) ∷ es) = (pos zone, addr_value a) ∷ table_value es

abbrev pub HasHosts : List (ℕ × Spelled) → Type 0
HasHosts [] = Unit
HasHosts ((zone, (h, p)) ∷ es) = (every is_host h ≡ true) × HasHosts es

-- Texts without a character

abbrev lacks : ℕ → ℕ → Bool
lacks sep c = not (c == sep)

split-alone : (sep : ℕ) (t : Text) → every (lacks sep) t ≡ true → split sep t ≡ t ∷ []
unfolding split
split-alone sep [] h = refl
split-alone sep (c ∷ t) h =
    let (a, b) = &&-parts (lacks sep c) (every (lacks sep) t) h in
    let plain : (c == sep) ≡ false = ground arith in rw (plain, split, split-alone sep t b)

split-joined :
    (sep : ℕ) (s t : Text) → every (lacks sep) s ≡ true → split sep (s ++ sep ∷ t) ≡ s ∷ split sep t
unfolding split
split-joined sep [] t h = ground arith
split-joined sep (c ∷ s) t h =
    let (a, b) = &&-parts (lacks sep c) (every (lacks sep) s) h in
    let plain : (c == sep) ≡ false = ground arith in rw (plain, split, split-joined sep s t b)

partition-first :
    (sep : ℕ) (s t : Text) → every (lacks sep) s ≡ true → partition sep (s ++ sep ∷ t) ≡ some (s, t)
unfolding partition
partition-first sep [] t h = ground arith
partition-first sep (c ∷ s) t h =
    let (a, b) = &&-parts (lacks sep c) (every (lacks sep) s) h in
    let plain : (c == sep) ≡ false = ground arith in
    rw (plain, partition, partition-first sep s t b)

rpartition-none : (sep : ℕ) (t : Text) → every (lacks sep) t ≡ true → rpartition sep t ≡ none
unfolding rpartition
rpartition-none sep [] h = refl
rpartition-none sep (c ∷ t) h =
    let (a, b) = &&-parts (lacks sep c) (every (lacks sep) t) h in
    let plain : (c == sep) ≡ false = ground arith in rw (rpartition-none sep t b, rpartition, plain)

rpartition-last :
    (sep : ℕ) (s t : Text)
    → every (lacks sep) t ≡ true
    → rpartition sep (s ++ sep ∷ t) ≡ some (s, t)
unfolding rpartition
rpartition-last sep [] t h = rw (rpartition-none sep t h, rpartition) (ground arith)
rpartition-last sep (c ∷ s) t h = rw (rpartition-last sep s t h, rpartition)

digits-every : (fuel n : ℕ) → every is_digit (digits fuel n) ≡ true
unfolding digits
digits-every zero n = refl
digits-every (suc fuel) n = elim (Bool-cases (ltb n 10)) [
  | inl e ↦ rw (e, digits) (ground arith)
  | inr e ↦
      rw (e, digits)
        (every-append is_digit (digits fuel (n / 10)) ((b'0' + n % 10) ∷ [])
          (digits-every fuel (n / 10)) (ground arith))
]

abbrev is_free : ℕ → Bool
is_free c = not (is_space c) && not (c == b',')

digit-free : (c : ℕ) → is_digit c ≡ true → is_free c ≡ true
digit-free c h = ground arith

digit-lacks_colon : (c : ℕ) → is_digit c ≡ true → lacks b':' c ≡ true
digit-lacks_colon c h = ground arith

digit-lacks_equals : (c : ℕ) → is_digit c ≡ true → lacks b'=' c ≡ true
digit-lacks_equals c h = ground arith

host-free : (c : ℕ) → is_host c ≡ true → is_free c ≡ true
host-free c h = ground arith

host-lacks_colon : (c : ℕ) → is_host c ≡ true → lacks b':' c ≡ true
host-lacks_colon c h = ground arith

free-lacks_comma : (c : ℕ) → is_free c ≡ true → lacks b',' c ≡ true
free-lacks_comma c h = ground arith

free-not_space : (c : ℕ) → is_free c ≡ true → not (is_space c) ≡ true
free-not_space c h = ground arith

number-every :
    (q : ℕ → Bool) (n : ℕ)
    → ((c : ℕ) → is_digit c ≡ true → q c ≡ true)
    → every q (str_of_nat n) ≡ true
unfolding str_of_nat
number-every q n w = every-weaken is_digit q (digits (suc n) n) w (digits-every (suc n) n)

print_addr-free : (a : Spelled) → every is_host a.0 ≡ true → every is_free (print_addr a) ≡ true
print_addr-free (h, none) k = every-weaken is_host is_free h host-free k
print_addr-free (h, some p) k =
    every-append is_free h (b':' ∷ str_of_nat p) (every-weaken is_host is_free h host-free k)
      (number-every is_free p digit-free)

print_entry-free :
    (zone : ℕ) (a : Spelled)
    → every is_host a.0 ≡ true
    → every is_free (print_entry (zone, a)) ≡ true
print_entry-free zone a k =
    every-append is_free (str_of_nat zone) (b'=' ∷ print_addr a)
      (number-every is_free zone digit-free) (print_addr-free a k)

strip-free : (t : Text) → every is_free t ≡ true → strip t ≡ t
strip-free t h = strip-id t (every-weaken is_free (λ c. not (is_space c)) t free-not_space h)

split-print_table :
    (zone : ℕ) (a : Spelled) (es : List (ℕ × Spelled))
    → HasHosts ((zone, a) ∷ es)
    → split b',' (print_table ((zone, a) ∷ es)) ≡ map print_entry ((zone, a) ∷ es)
split-print_table zone a [] h =
    let e = print_entry (zone, a) in
    split-alone b',' e
      (every-weaken is_free (lacks b',') e free-lacks_comma (print_entry-free zone a h.0))
split-print_table zone a ((y, b) ∷ es) h =
    let e = print_entry (zone, a) in
    split-joined b',' e (print_table ((y, b) ∷ es))
      (every-weaken is_free (lacks b',') e free-lacks_comma (print_entry-free zone a h.0))
    ∙ ap (◌∷◌ e) (split-print_table y b es h.1)

-- With `int`, which reads the digits that `str` writes
module _ (int_of_text : Text → Option ℤ)
    (reads : (n : ℕ) → int_of_text (str_of_nat n) ≡ some (pos n)) where
  parse_addr-print_addr :
      (a : Spelled)
      → every is_host a.0 ≡ true
      → parse_addr int_of_text (print_addr a) ≡ some (addr_value a)
  unfolding parse_addr
  parse_addr-print_addr (h, none) k = rw (
    strip-free h (print_addr-free (h, none) k),
    rpartition-none b':' h (every-weaken is_host (lacks b':') h host-lacks_colon k),
    parse_addr,
    strip-free h (print_addr-free (h, none) k),
  )
  parse_addr-print_addr (h, some p) k = rw (
    strip-free (print_addr (h, some p)) (print_addr-free (h, some p) k),
    rpartition-last b':' h (str_of_nat p) (number-every (lacks b':') p digit-lacks_colon),
    parse_addr,
    reads p,
  )

  read_entry-parts :
      (table : Dict ℤ (Text ⊎ (Text × ℤ))) (t zone addr : Text) (z : ℤ) (v : Text ⊎ (Text × ℤ))
      → partition b'=' t ≡ some (zone, addr)
      → int_of_text zone ≡ some z
      → parse_addr int_of_text addr ≡ some v
      → read_entry int_of_text table t ≡ some (put table z v)
  unfolding read_entry read_pair partition
  read_entry-parts table [] zone addr z v e f g = absurd (cc)
  read_entry-parts table (c ∷ t) zone addr z v e f g =
      let pair : read_pair int_of_text table (zone, addr) ≡ some (put table z v) =
        rw (f, read_pair, g) in
      ap (λ o. read_pair int_of_text table (or_default o (c ∷ t, []))) e ∙ pair

  read_entries-print :
      (table : Dict ℤ (Text ⊎ (Text × ℤ))) (es : List (ℕ × Spelled))
      → HasHosts es
      → read_entries int_of_text table (map print_entry es) ≡ some (update table (table_value es))
  unfolding read_entries update
  read_entries-print table [] h = refl
  read_entries-print table ((zone, a) ∷ es) h =
      let e = print_entry (zone, a) in
      let one =
        read_entry-parts table e (str_of_nat zone) (print_addr a) (pos zone) (addr_value a)
          (partition-first b'=' (str_of_nat zone) (print_addr a)
            (number-every (lacks b'=') zone digit-lacks_equals))
          (reads zone) (parse_addr-print_addr a h.0) in
      rw (strip-free e (print_entry-free zone a h.0), one, read_entries)
        (read_entries-print (put table (pos zone) (addr_value a)) es h.1)

  -- The dict of the entries, in order.
  parse_zone_table-print_table :
      (es : List (ℕ × Spelled))
      → HasHosts es
      → parse_zone_table int_of_text (print_table es) ≡ some (update [] (table_value es))
  unfolding parse_zone_table read_entries read_entry split update strip lstrip rstrip
  parse_zone_table-print_table [] h = refl
  parse_zone_table-print_table ((zone, a) ∷ es) h =
      rw (split-print_table zone a es h) (read_entries-print [] ((zone, a) ∷ es) h)

  -- If int reads the digits of a number as that number, a zone table of numbered zones, no two the
  -- same, whose hosts have no spaces, commas, colons and equals signs, and which is spelled as the
  -- setting, is parsed, and a table seeded with the result that has learned nothing answers with
  -- the address that was spelled.
  pub parse_zone_table-addr_for :
      (es : List (ℕ × Spelled)) (own : ℤ) (ttl : ℕ)
      → HasHosts es
      → IsKeyed (table_value es)
      → (table : Dict ℤ (Text ⊎ (Text × ℤ))) × (parse_zone_table int_of_text (print_table es)
          ≡ some table)
        × ((now : ℕ) (zone : ℤ)
            → addr_for (new_table own (some table) ttl) now zone ≡ get (table_value es) zone)
  unfolding addr_for new_table get
  parse_zone_table-addr_for es own ttl h keyed = (
    update [] (table_value es),
    parse_zone_table-print_table es h,
    λ now zone.
        get-update [] (table_value es) zone keyed ∙ or_else-none (get (table_value es) zone),
  )
