-- ===== src/Json.antt =====
-- Values as Python's json module gives them. A float is opaque.
use meshlink_node.Prelude.{
  Bool, Bytes, Option, Text, [], false, if◌then◌else◌, none, not, pos, some, true, ℤ, ◌==◌, ◌∷◌,
  nat_eq, list_eq, int_eq,
}

mutual
  pub data Value (F : Type 0) : Type 0 where
    null : Value F
    boolean : Bool → Value F
    integer : ℤ → Value F
    real : F → Value F
    text : Text → Value F
    array : Values F → Value F
    object : Fields F → Value F

  pub data Values (F : Type 0) : Type 0 where
    nil : Values F
    cons : Value F → Values F → Values F

  pub data Fields (F : Type 0) : Type 0 where
    no_fields : Fields F
    field : Text → Value F → Fields F → Fields F

abbrev pub field_of : {F : Type 0} → Fields F → Text → Option (Value F)
field_of no_fields name = none
field_of (field key v fs) name = let rest = field_of fs name in if key == name then some v else rest

-- `not v`, with which floats are zero
abbrev pub is_false : {F : Type 0} → (F → Bool) → Value F → Bool
is_false is_zero null = true
is_false is_zero (boolean b) = not b
is_false is_zero (integer n) = n == pos 0
is_false is_zero (real x) = is_zero x
is_false is_zero (text []) = true
is_false is_zero (text (c ∷ t)) = false
is_false is_zero (array nil) = true
is_false is_zero (array (cons v vs)) = false
is_false is_zero (object no_fields) = true
is_false is_zero (object (field k v fs)) = false

-- int(x) of a float: a number, the ValueError of a NaN, or the OverflowError of an infinity.
pub data Whole : Type 0 where
  whole : ℤ → Whole
  value_error overflow_error : Whole

-- What the code relies on in Python: `json.dumps(v).encode()`; `json.loads`, of bytes and of their UTF-8
-- text, where `none` is a ValueError; `int` of a float and of a string; `float` of an integer, where
-- `none` is its OverflowError; and `str` of a value.
pub record Json : Type 1 where
  pub Float : Type 0
  pub dumps : Value Float → Bytes
  pub loads : Bytes → Option (Value Float)
  pub loads_utf8 : Bytes → Option (Value Float)
  pub int_of_float : Float → Whole
  pub float_of_int : ℤ → Option Float
  pub int_of_text : Text → Option ℤ
  pub str_of : Value Float → Text
