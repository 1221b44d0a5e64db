-- ===== src/Strings.antt =====
-- The methods of Python's `str` that the node uses, on lists of code points.
pub mod Laws
use meshlink_node.Prelude.{
  Bool, List, Option, Text, [], if◌then◌else◌, leb, none, not, some, true, ℕ, ◌&&◌, ◌++◌, ◌==◌,
  ◌||◌, ◌∷◌, nat_eq, list_eq,
}

-- The characters at which str.splitlines breaks, and those that str.strip takes off.
abbrev pub is_break : ℕ → Bool
is_break c =
    (leb 10 c && leb c 13) || (leb 28 c && leb c 30) || c == 0x85 || c == 0x2028 || c == 0x2029

abbrev pub is_space : ℕ → Bool
is_space c =
    (leb 9 c && leb c 13)
    || (leb 28 c && leb c 32)
    || c == 0x85
    || c == 0xa0
    || c == 0x1680
    || (leb 0x2000 c && leb c 0x200a)
    || c == 0x2028
    || c == 0x2029
    || c == 0x202f
    || c == 0x205f
    || c == 0x3000

-- all(test(c) for c in text)
abbrev pub every : (ℕ → Bool) → Text → Bool
every test [] = true
every test (c ∷ t) = test c && every test t

-- The lines of a text, after the start of a line and perhaps a carriage return.
unfoldable pub splitlines : Bool → Text → Text → List Text
splitlines after_cr [] [] = []
splitlines after_cr (a ∷ acc) [] = (a ∷ acc) ∷ []
splitlines after_cr acc (c ∷ t) =
    let joined = after_cr && c == 10 in
    let breaks = not joined && is_break c in
    let rest =
      splitlines (breaks && c == 13) (if joined then acc else if breaks then [] else acc ++ c ∷ [])
        t in
    if breaks then acc ∷ rest else rest

unfoldable pub lstrip : Text → Text
lstrip [] = []
lstrip (c ∷ t) = let rest = lstrip t in if is_space c then rest else c ∷ t

abbrev pub keep : ℕ → Text → Text
keep c [] = if is_space c then [] else c ∷ []
keep c (d ∷ t) = c ∷ d ∷ t

unfoldable pub rstrip : Text → Text
rstrip [] = []
rstrip (c ∷ t) = keep c (rstrip t)

unfoldable pub strip : Text → Text
unfolding lstrip rstrip
strip t = lstrip (rstrip t)

abbrev before : ℕ → Option (Text × Text) → Option (Text × Text)
before c none = none
before c (some (key, value)) = some (c ∷ key, value)

-- line.partition(sep), or `none` where there is no separator
unfoldable pub partition : ℕ → Text → Option (Text × Text)
partition sep [] = none
partition sep (c ∷ t) =
    let rest = before c (partition sep t) in if c == sep then some ([], t) else rest

-- line.rpartition(sep), or `none` where there is no separator
unfoldable pub rpartition : ℕ → Text → Option (Text × Text)
rpartition sep [] = none
rpartition sep (c ∷ t) = elim (rpartition sep t) [
  | some (key, value) ↦ some (c ∷ key, value)
  | none ↦ if c == sep then some ([], t) else none
]

abbrev onto : ℕ → List Text → List Text
onto c [] = (c ∷ []) ∷ []
onto c (part ∷ parts) = (c ∷ part) ∷ parts

-- text.split(sep)
unfoldable pub split : ℕ → Text → List Text
split sep [] = [] ∷ []
split sep (c ∷ t) = let parts = split sep t in if c == sep then [] ∷ parts else onto c parts

-- text.rstrip(c)
unfoldable pub rstrip_of : ℕ → Text → Text
rstrip_of c [] = []
rstrip_of c (d ∷ t) = elim (rstrip_of c t) [
  | [] ↦ if d == c then [] else d ∷ []
  | e ∷ u ↦ d ∷ e ∷ u
]

abbrev add_word : Text → List Text → List Text
add_word [] ws = ws
add_word (c ∷ t) ws = (c ∷ t) ∷ ws

-- text.split(), after the start of a word
unfoldable pub words_from : Text → Text → List Text
words_from acc [] = add_word acc []
words_from acc (c ∷ t) =
    let rest = words_from (if is_space c then [] else acc ++ c ∷ []) t in
    if is_space c then add_word acc rest else rest

unfoldable pub words : Text → List Text
unfolding words_from
words t = words_from [] t
