-- ===== src/Monitoring/Battery.antt =====
-- The battery (node/monitoring/battery.py). `int`, `str.lower` and the character classes of `re` are
-- arguments.
use meshlink_node.Prelude.{
  Bool, List, Option, Text, [], codes, if◌then◌else◌, none, not, some, suc, zero, ℕ, ℤ, ◌&&◌, ◌++◌,
  ◌==◌, ◌||◌, ◌∷◌, nat_eq, list_eq, ◌>>=◌,
}
use meshlink_node.Strings.{is_space, strip}
use meshlink_node.Gatt.{text_leb}

pub record Battery : Type 0 where
  pub percent : ℤ
  pub charging : Bool
  pub source : Text

-- `int` of a text, where `none` is a ValueError; `str.lower`; and which characters are digits (\d) and
-- word characters (\w).
pub record Python : Type 0 where
  pub int_of_text : Text → Option ℤ
  pub lower : Text → Text
  pub is_digit : ℕ → Bool
  pub is_word : ℕ → Bool

-- What a read of a file does: an OSError, a text that is no UTF-8 (a ValueError), or its text.
pub data Read : Type 0 where
  os_error : Read
  decode_error : Read
  content : Text → Read

-- A directory under /sys/class/power_supply
pub record Supply : Type 0 where
  pub name : Text
  pub type : Read
  pub capacity : Read
  pub status : Read

-- How parse_sysfs ends.
pub data Parsed : Type 0 where
  parsed : Option Battery → Parsed
  raised : Parsed

-- sorted(root.iterdir()), whose names differ
unfoldable pub insert_supply : Supply → List Supply → List Supply
unfolding text_leb
insert_supply a [] = a ∷ []
insert_supply a (b ∷ bs) =
    let rest = insert_supply a bs in if text_leb a.name b.name then a ∷ b ∷ bs else b ∷ rest

unfoldable pub sorted_supplies : List Supply → List Supply
unfolding insert_supply
sorted_supplies [] = []
sorted_supplies (a ∷ as') = insert_supply a (sorted_supplies as')

module _ (p : Python) where
  -- The capacity of a supply of type Battery, or `none` where the loop goes on.
  unfoldable pub percent_of : Supply → Option ℤ
  unfolding strip
  percent_of s = elim s.type [
    | content t ↦
        if not (strip t == codes "Battery")
        then none
        else elim s.capacity [ content c ↦ p.int_of_text (strip c) | _ ↦ none ]
    | _ ↦ none
  ]

  unfoldable pub battery_of : Supply → ℤ → Parsed
  unfolding strip
  battery_of s percent =
      let with_status = λ (status : Text). parsed (
        some (record {
          percent = percent;
          charging = not (status == codes "discharging");
          source = codes "sysfs:" ++ s.name;
        })) in
      elim s.status [
        | content t ↦ with_status (p.lower (strip t))
        | os_error ↦ with_status (codes "unknown")
        | decode_error ↦ raised
      ]

  unfoldable pub first_battery : List Supply → Parsed
  unfolding percent_of battery_of
  first_battery [] = parsed none
  first_battery (s ∷ ss) =
      let rest = first_battery ss in
      elim (percent_of s) [ none ↦ rest | some percent ↦ battery_of s percent ]

  -- Of the directory's entries, or `none` where there is no directory.
  unfoldable pub parse_sysfs : Option (List Supply) → Parsed
  unfolding first_battery sorted_supplies
  parse_sysfs none = parsed none
  parse_sysfs (some ss) = first_battery (sorted_supplies ss)

  -- The groups of the expression (\d{1,3})%;\s*([\w ]+?)[;\n]: after the first character of the second
  -- group, the shortest run up to `;` or a line feed.
  unfoldable pub state_rest : Text → Option Text
  state_rest [] = none
  state_rest (c ∷ t) =
      let rest = state_rest t in
      if c == b';' || c == 10
      then some []
      else if p.is_word c || c == 32
      then rest >>= (λ u. some (c ∷ u))
      else none

  unfoldable pub state_here : Text → Option Text
  unfolding state_rest
  state_here [] = none
  state_here (c ∷ t) = if p.is_word c || c == 32 then state_rest t >>= (λ u. some (c ∷ u)) else none

  -- \s* takes as many spaces as it can, and gives them back one by one.
  unfoldable pub state_group : Text → Option Text
  unfolding state_here
  state_group [] = none
  state_group (c ∷ t) =
      let later = if is_space c then state_group t else none in
      let here = state_here (c ∷ t) in elim later [ some u ↦ some u | none ↦ here ]

  -- The match of `%;` and the second group
  unfoldable pub after_digits : Text → Option Text
  unfolding state_group
  after_digits (c ∷ d ∷ t) = if c == b'%' && d == b';' then state_group t else none
  after_digits _ = none

  -- At most so many digits more, of which a `%` must follow
  unfoldable pub digits_group : ℕ → Text → Option (Text × Text)
  unfolding after_digits
  digits_group zero t = after_digits t >>= (λ state. some ([], state))
  digits_group (suc n) [] = none
  digits_group (suc n) (c ∷ t) =
      let more = digits_group n t in
      let stop = after_digits (c ∷ t) in
      if p.is_digit c
      then elim more [
        | some (ds, state) ↦ some (c ∷ ds, state)
        | none ↦ stop >>= (λ state. some ([], state))
      ]
      else stop >>= (λ state. some ([], state))

  -- _PMSET_RE.search
  unfoldable pub search : Text → Option (Text × Text)
  unfolding digits_group
  search [] = none
  search (c ∷ t) =
      let later = search t in
      let here = if p.is_digit c then digits_group 2 t >>= (λ m. some (c ∷ m.0, m.1)) else none in
      elim here [ some m ↦ some m | none ↦ later ]

  unfoldable pub parse_pmset : Text → Parsed
  unfolding search strip
  parse_pmset out = elim (search out) [
    | none ↦ parsed none
    | some (ds, state) ↦ elim (p.int_of_text ds) [
      | none ↦ raised
      | some percent ↦ parsed (
          some (record {
            percent = percent;
            charging = not (p.lower (strip state) == codes "discharging");
            source = codes "pmset";
          }))
    ]
  ]

  -- On a Mac with what pmset prints, where `none` is an exception; elsewhere with the directory. An
  -- exception counts as no battery.
  unfoldable pub read_battery : Bool → Option Text → Option (List Supply) → Option Battery
  unfolding parse_pmset parse_sysfs
  read_battery darwin out supplies =
      let result =
        if darwin
        then elim out [ none ↦ raised | some t ↦ parse_pmset t ]
        else parse_sysfs supplies in
      elim result [ parsed b ↦ b | raised ↦ none ]
