-- ===== src/Backhaul/Radio.antt =====
-- The state of the backhaul radio (node/backhaul/radio_config.py). `int` of a text and the digits of
-- `re` are arguments.
use meshlink_node.Prelude.{
  Bool, List, Option, Text, [], codes, drop, false, if◌then◌else◌, length, none, not, pos, some,
  starts_with, true, ℕ, ℤ, ◌&&◌, ◌++◌, ◌+◌, ◌==◌, ◌∷◌, nat_eq, list_eq, int_eq, ◌>>=◌,
}
use meshlink_node.Strings.{is_space, lstrip, strip, split}

abbrev mesh_id_wanted : Text
mesh_id_wanted = codes "meshlink-backhaul"

abbrev mesh_freq_mhz : ℤ
mesh_freq_mhz = pos 5745

pub record RadioStatus : Type 0 where
  pub iface : Text
  pub exists : Bool
  pub is_mesh_mode : Bool
  pub mesh_id : Option Text
  pub freq_mhz : Option ℤ

abbrev is_id : Option Text → Bool
is_id none = false
is_id (some t) = t == mesh_id_wanted

abbrev is_freq : Option ℤ → Bool
is_freq none = false
is_freq (some n) = n == mesh_freq_mhz

unfoldable pub ready : RadioStatus → Bool
ready s = s.exists && s.is_mesh_mode && is_id s.mesh_id && is_freq s.freq_mhz

-- The rest of a line after its spaces, a word and one space, which starts with no space
unfoldable pub after_word : Text → Text → Option Text
unfolding lstrip
after_word word line =
    if starts_with (lstrip line) (word ++ 32 ∷ [])
    then elim (drop (length word + 1) (lstrip line)) [
      | [] ↦ none
      | c ∷ t ↦ if is_space c then none else some (c ∷ t)
    ]
    else none

-- The first line that has one
unfoldable pub find_word : Text → List Text → Option Text
unfolding after_word
find_word word [] = none
find_word word (l ∷ ls) =
    let rest = find_word word ls in elim (after_word word l) [ some t ↦ some t | none ↦ rest ]

-- \S+
unfoldable pub until_space : Text → Text
until_space [] = []
until_space (c ∷ t) = let rest = until_space t in if is_space c then [] else c ∷ rest

-- `int` of a run of digits, where `none` is a ValueError, and the digits of \d
module _ (int_of_text : Text → Option ℤ) (is_digit : ℕ → Bool) where
  unfoldable pub skip_digits : Text → Text
  skip_digits [] = []
  skip_digits (c ∷ t) = let rest = skip_digits t in if is_digit c then rest else c ∷ t

  unfoldable pub take_digits : Text → Text
  take_digits [] = []
  take_digits (c ∷ t) = let rest = take_digits t in if is_digit c then c ∷ rest else []

  -- (?:\.\d+)?
  unfoldable pub skip_fraction : Text → Text
  unfolding skip_digits
  skip_fraction (c ∷ d ∷ t) = if c == b'.' && is_digit d then skip_digits t else c ∷ d ∷ t
  skip_fraction t = t

  -- \((\d+)(?:\.\d+)? MHz\), searched for
  unfoldable pub find_freq : Text → Option Text
  unfolding take_digits skip_fraction
  find_freq [] = none
  find_freq (c ∷ t) =
      let later = find_freq t in
      let rest = skip_fraction (skip_digits t) in
      if (c == b'(') && not (take_digits t == []) && starts_with rest (codes " MHz)")
      then some (take_digits t)
      else later

  unfoldable pub parse_iw_info : Text → Text → Option RadioStatus
  unfolding find_word until_space find_freq split strip
  parse_iw_info iface out =
      let lines = split 10 out in
      let found : Option (Option ℤ) = elim (find_freq out) [
        | none ↦ some none
        | some ds ↦ int_of_text ds >>= (λ n. some (some n))
      ] in
      found >>= (λ freq. some (record {
        iface = iface;
        exists = true;
        is_mesh_mode = elim (find_word (codes "type") lines) [
          | none ↦ false
          | some t ↦ strip t == codes "mesh point"
        ];
        mesh_id = elim (find_word (codes "meshid") lines) [
          | none ↦ none
          | some t ↦ some (until_space t)
        ];
        freq_mhz = freq;
      }))

  -- With what `iw` prints, or `none` where it fails
  unfoldable pub radio_status : Text → Option Text → Option RadioStatus
  unfolding parse_iw_info
  radio_status iface none = some (record {
    iface = iface;
    exists = false;
    is_mesh_mode = false;
    mesh_id = none;
    freq_mhz = none;
  })
  radio_status iface (some out) = parse_iw_info iface out

  unfoldable pub check_backhaul_radio : Text → Option Text → Option Bool
  unfolding radio_status ready
  check_backhaul_radio iface out = radio_status iface out >>= (λ s. some (ready s))
