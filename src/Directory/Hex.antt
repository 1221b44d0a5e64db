-- ===== src/Directory/Hex.antt =====
-- `bytes.fromhex` of Python: pairs of hexadecimal digits, with ASCII white space between the pairs.
use meshlink_node.Prelude.{
  Bool, Bytes, Option, Text, [], codes, if◌then◌else◌, leb, none, refl, some, ℕ, ◌&&◌, ◌*◌, ◌+◌,
  ◌-◌, ◌==◌, ◌||◌, ◌∷◌, ◌≡◌, nat_eq,
}

abbrev is_space : ℕ → Bool
is_space c = c == 32 || (leb 9 c && leb c 13)

unfoldable pub hex_digit : ℕ → Option ℕ
hex_digit c =
    if leb b'0' c && leb c b'9'
    then some (c - b'0')
    else if leb b'a' c && leb c b'f'
    then some (c - b'a' + 10)
    else if leb b'A' c && leb c b'F'
    then some (c - b'A' + 10)
    else none

hex_pair : ℕ → ℕ → Option ℕ
unfolding hex_digit
hex_pair c d = elim (hex_digit c) [
  | none ↦ none
  | some hi ↦ elim (hex_digit d) [ none ↦ none | some lo ↦ some (hi * 16 + lo) ]
]

cons_byte : Option ℕ → Option Bytes → Option Bytes
cons_byte none bs = none
cons_byte (some b) none = none
cons_byte (some b) (some bs) = some (b ∷ bs)

unfoldable pub from_hex : Text → Option Bytes
unfolding hex_pair cons_byte
from_hex [] = some []
from_hex (c ∷ []) = if is_space c then some [] else none
from_hex (c ∷ d ∷ s) =
    let skipped = from_hex (d ∷ s) in
    let pair = cons_byte (hex_pair c d) (from_hex s) in if is_space c then skipped else pair

from_hex_test : from_hex (codes "0aF f1b") ≡ none
unfolding from_hex
from_hex_test = refl

from_hex_test2 : from_hex (codes "0aFf 1b") ≡ some (10 ∷ 255 ∷ 27 ∷ [])
unfolding from_hex
from_hex_test2 = refl
