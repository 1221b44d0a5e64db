-- ===== src/Examples/Settings.antt =====
-- A zone table in the environment (node/config.py).
use meshlink_node.Prelude.{
  Bool-cases, Dict, List, Option, Text, [], ap, arith, codes, get, inl, inr, ltb, none, pos, refl,
  some, suc, zero, ℕ, ℤ, ◌%◌, ◌*◌, ◌++◌, ◌+◌, ◌-◌, ◌/◌, ◌<◌, ◌∷◌, ◌≡◌, ◌⊎◌, nat_eq, list_eq, int_eq,
}
use meshlink_node.Config.{str_of_nat, digits, parse_zone_table}
use meshlink_node.ZoneTable.{new_table, addr_for}
use meshlink_node.Config.Tables.{Spelled, print_table, table_value, parse_zone_table-addr_for}

-- `int` of a run of digits
abbrev value : ℕ → Text → ℕ
value n [] = n
value n (c ∷ t) = value (n * 10 + (c - b'0')) t

abbrev int_of_text : Text → Option ℤ
int_of_text t = some (pos (value 0 t))

value-append : (n : ℕ) (s : Text) (c : ℕ) → value n (s ++ c ∷ []) ≡ value n s * 10 + (c - b'0')
value-append n [] c = refl
value-append n (d ∷ s) c = value-append (n * 10 + (d - b'0')) s c

value-digits : (fuel n : ℕ) → n < fuel → value 0 (digits fuel n) ≡ n
unfolding digits
value-digits zero n h = absurd (omega arith)
value-digits (suc fuel) n h = elim (Bool-cases (ltb n 10)) [
  | inl e ↦ rw (e, digits) (ground arith)
  | inr e ↦
      let big : ¬ (n < 10) = ground arith in
      let rest = value-digits fuel (n / 10) (omega arith) in
      rw (e, digits, value-append 0 (digits fuel (n / 10)) (b'0' + n % 10), rest) (omega arith)
]

reads_digits : (n : ℕ) → int_of_text (str_of_nat n) ≡ some (pos n)
unfolding str_of_nat
reads_digits n = ap (λ k. some (pos k)) (value-digits (suc n) n (omega arith))

abbrev entries : List (ℕ × Spelled)
entries = (1, (codes "10.77.0.1", none)) ∷ (12, (codes "node", some 19789)) ∷ []

parse_zone_table-addr_for_example :
    (table : Dict ℤ (Text ⊎ (Text × ℤ))) × (parse_zone_table int_of_text (print_table entries)
      ≡ some table)
    × ((now : ℕ) (zone : ℤ)
        → addr_for (new_table (pos 1) (some table) 180) now zone ≡ get (table_value entries) zone)
parse_zone_table-addr_for_example =
    parse_zone_table-addr_for int_of_text reads_digits entries (pos 1) 180 (refl, (refl, tt))
      (refl, (refl, tt))

-- The text of these entries.
entries_printed : print_table entries ≡ codes "1=10.77.0.1,12=node:19789"
unfolding str_of_nat digits
entries_printed = refl
