-- ===== src/Monitoring/Host.antt =====
-- Host health (node/monitoring/system_stats.py). Rounded quotients are arguments.
use meshlink_node.Prelude.{
  Dict, List, Option, Text, [], codes, false, get, if◌then◌else◌, leb, negsuc, none, or_default,
  pos, put, some, ℕ, ℤ, ◌+◌, ◌-◌, ◌==◌, ◌∷◌, nat_eq, list_eq, int_eq, ◌>>=◌,
}
use meshlink_node.Strings.{splitlines, strip, partition, words}
use meshlink_node.Json.{Value, null, real, text, Fields, no_fields, field}
use meshlink_node.Monitoring.Battery.{Read, content}

-- `int` of a text; `round` of a number of thousandths, and of a share in percent, where the total is
-- not 0.
pub record Rounding (F : Type 0) : Type 0 where
  pub int_of_text : Text → Option ℤ
  pub round_thousandths : ℤ → F
  pub round_percent : ℤ → ℤ → F

-- Of integers
abbrev minus_nat : ℕ → ℕ → ℤ
minus_nat a b = if leb b a then pos (a - b) else negsuc (b - a - 1)

unfoldable pub minus : ℤ → ℤ → ℤ
minus (pos a) (pos b) = minus_nat a b
minus (pos a) (negsuc b) = pos (a + b + 1)
minus (negsuc a) (pos b) = negsuc (a + b)
minus (negsuc a) (negsuc b) = minus_nat b a

module _ {F : Type 0} (p : Rounding F) where
  unfoldable pub cpu_temp_c : Read → Option F
  unfolding strip
  cpu_temp_c (content t) = p.int_of_text (strip t) >>= (λ n. some (p.round_thousandths n))
  cpu_temp_c _ = none

  -- One line of /proc/meminfo; an IndexError or ValueError is `none`.
  unfoldable pub read_field : Dict Text ℤ → Text → Option (Dict Text ℤ)
  unfolding partition words
  read_field fields line =
      let (key, rest) = or_default (partition b':' line) (line, []) in
      elim (words rest) [ [] ↦ none | w ∷ ws ↦ p.int_of_text w >>= (λ n. some (put fields key n)) ]

  unfoldable pub read_fields : Dict Text ℤ → List Text → Option (Dict Text ℤ)
  unfolding read_field
  read_fields fields [] = some fields
  read_fields fields (line ∷ ls) = read_field fields line >>= (λ fields'. read_fields fields' ls)

  -- 100 * used / total, where a total of 0 is a ZeroDivisionError
  unfoldable pub percent_used : ℤ → ℤ → Option F
  percent_used used total = if total == pos 0 then none else some (p.round_percent used total)

  unfoldable pub mem_used_percent : Read → Option F
  unfolding minus read_fields percent_used splitlines
  mem_used_percent (content t) = do
    fields ← read_fields [] (splitlines false [] t)
    total ← get fields (codes "MemTotal")
    available ← get fields (codes "MemAvailable")
    percent_used (minus total available) total
  mem_used_percent _ = none

  -- With shutil.disk_usage's `used` and `total`, or `none` for its OSError
  unfoldable pub disk_used_percent : Option (ℤ × ℤ) → Option F
  unfolding percent_used
  disk_used_percent none = none
  disk_used_percent (some (used, total)) = percent_used used total

  -- A reading that is missing is null.
  abbrev or_null : Option F → Value F
  or_null none = null
  or_null (some x) = real x

  -- With what platform.platform() and os.getloadavg() give, the latter rounded, or `none` for its
  -- OSError
  unfoldable pub read_system_stats : Text → Read → Option F → Read → Option (ℤ × ℤ) → Fields F
  unfolding cpu_temp_c mem_used_percent disk_used_percent
  read_system_stats platform thermal load meminfo disk = field (codes "platform") (text platform) (
      field (codes "cpu_temp_c") (or_null (cpu_temp_c thermal)) (
        field (codes "load_avg_1m") (or_null load) (
          field (codes "mem_used_percent") (or_null (mem_used_percent meminfo))
            (field (codes "disk_used_percent") (or_null (disk_used_percent disk)) no_fields))))
