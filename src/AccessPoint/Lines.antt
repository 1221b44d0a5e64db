-- ===== src/AccessPoint/Lines.antt =====
-- The settings of a deployment file are single lines (node/wifi_ap/deployment_config.py).
use meshlink_node.Prelude.{
  &&-parts, All, Bool, Bool-cases, List, List-cases, Option, Option-cases, Text, [], arith, codes,
  false, inl, inr, none, not, refl, some, subst, true, ℕ, ◌&&◌, ◌++◌, ◌==◌, ◌∷◌, ◌≡◌, nat_eq,
  list_eq,
}
use meshlink_node.Strings.Laws.{every-append}
use meshlink_node.Strings.{every, splitlines, is_break, strip, lstrip, rstrip, partition}
use meshlink_node.AccessPoint.Deployment.{
  WifiDeploymentConfig, set_key, valid, Values, read_line, read_lines, config_of,
  parse_deployment_conf,
}

-- A text that is one line, for str.splitlines.
abbrev pub IsLine : Text → Type 0
IsLine t = every (λ c. not (is_break c)) t ≡ true

-- Every line that str.splitlines gives is one.
splitlines-IsLine :
    (after_cr : Bool) (acc t : Text) → IsLine acc → All IsLine (splitlines after_cr acc t)
unfolding splitlines
splitlines-IsLine after_cr [] [] h = tt
splitlines-IsLine after_cr (a ∷ acc) [] h = (h, tt)
splitlines-IsLine after_cr acc (c ∷ t) h = elim (Bool-cases (after_cr && c == 10)) [
  | inl e ↦ rw (e) (splitlines-IsLine false acc t h)
  | inr e ↦ elim (Bool-cases (is_break c)) [
    | inl f ↦ rw (e, f) (h, splitlines-IsLine (c == 13) [] t refl)
    | inr f ↦
        rw (e, f)
          (splitlines-IsLine false (acc ++ c ∷ []) t
            (every-append (λ c. not (is_break c)) acc (c ∷ []) h (rw (f) refl)))
  ]
]

module _ (test : ℕ → Bool) where
  lstrip-every : (t : Text) → every test t ≡ true → every test (lstrip t) ≡ true
  unfolding lstrip
  lstrip-every [] h = refl
  lstrip-every (c ∷ t) h = ground (arith, lstrip-every t)

  rstrip-every : (t : Text) → every test t ≡ true → every test (rstrip t) ≡ true
  unfolding rstrip
  rstrip-every [] h = refl
  rstrip-every (c ∷ t) h =
      let (a, b) = &&-parts (test c) (every test t) h in
      elim (List-cases (rstrip t)) [
        | inl e ↦ rw (e, rstrip) (ground arith)
        | inr (d, u, e) ↦ rw (e, rstrip, a) (subst (λ x. every test x ≡ true) e (rstrip-every t b))
      ]

  strip-every : (t : Text) → every test t ≡ true → every test (strip t) ≡ true
  unfolding strip
  strip-every t h = lstrip-every (rstrip t) (rstrip-every t h)

  -- Both parts of a line.
  abbrev Parts : Option (Text × Text) → Type 0
  Parts none = Unit
  Parts (some (k, v)) = (every test k ≡ true) × (every test v ≡ true)

  partition-every : (sep : ℕ) (t : Text) → every test t ≡ true → Parts (partition sep t)
  unfolding partition
  partition-every sep [] h = tt
  partition-every sep (c ∷ t) h =
      let (a, b) = &&-parts (test c) (every test t) h in
      let rest = partition-every sep t b in
      elim (Bool-cases (c == sep)) [
        | inl e ↦ rw (e, partition) (refl, b)
        | inr e ↦ elim (Option-cases (partition sep t)) [
          | inl f ↦ rw (e, partition, f) tt
          | inr (kv, f) ↦ let (k, v) = subst Parts f rest in rw (e, partition, f, a, k) (refl, v)
        ]
      ]

-- Values that are lines, as far as they are there.
abbrev IsLineOr : Option Text → Type 0
IsLineOr none = Unit
IsLineOr (some t) = IsLine t

abbrev AreLines : Option Values → Type 0
AreLines none = Unit
AreLines (some vs) = IsLineOr vs.ssid_value × IsLineOr vs.passphrase_value

set_key-AreLines :
    (vs : Values) (key value : Text)
    → AreLines (some vs)
    → IsLine value
    → AreLines (set_key vs key value)
set_key-AreLines vs key value h k = elim (Bool-cases (key == codes "ssid")) [
  | inl e ↦ elim (Option-cases vs.ssid_value) [
    | inl f ↦ rw (e, f) (k, h.1)
    | inr (s, f) ↦ rw (e, f) tt
  ]
  | inr e ↦ elim (Bool-cases (key == codes "passphrase")) [
    | inl g ↦ elim (Option-cases vs.passphrase_value) [
      | inl f ↦ rw (e, g, f) (h.0, k)
      | inr (s, f) ↦ rw (e, g, f) tt
    ]
    | inr g ↦ rw (e, g) tt
  ]
]

read_line-AreLines :
    (vs : Values) (line : Text) → AreLines (some vs) → IsLine line → AreLines (read_line vs line)
unfolding read_line
read_line-AreLines vs [] h k = h
read_line-AreLines vs (c ∷ t) h k = elim (Bool-cases (c == b'#')) [
  | inl e ↦ rw (e, read_line) h
  | inr e ↦
      let plain = λ (c : ℕ). not (is_break c) in
      let parts = partition-every plain b'=' (c ∷ t) k in
      elim (Option-cases (partition b'=' (c ∷ t))) [
        | inl f ↦ rw (e, read_line, f) tt
        | inr (kv, f) ↦
            let v = (subst (Parts plain) f parts).1 in
            rw (e, read_line, f)
              (set_key-AreLines vs (strip kv.0) (strip kv.1) h (strip-every plain kv.1 v))
      ]
]

read_lines-AreLines :
    (vs : Values) (ls : List Text)
    → AreLines (some vs)
    → All IsLine ls
    → AreLines (read_lines vs ls)
unfolding read_lines
read_lines-AreLines vs [] h k = h
read_lines-AreLines vs (l ∷ ls) h k =
    let now = read_line-AreLines vs (strip l) h (strip-every (λ c. not (is_break c)) l k.0) in
    elim (Option-cases (read_line vs (strip l))) [
      | inl e ↦ rw (e, read_lines) tt
      | inr (vs', e) ↦ rw (e, read_lines) (read_lines-AreLines vs' ls (subst AreLines e now) k.1)
    ]

abbrev pub IsOneLine : Option WifiDeploymentConfig → Type 0
IsOneLine none = Unit
IsOneLine (some c) = IsLine c.ssid × IsLine c.passphrase

config_of-IsOneLine : (s p : Option Text) → IsLineOr s → IsLineOr p → IsOneLine (config_of s p)
unfolding config_of
config_of-IsOneLine none p h k = tt
config_of-IsOneLine (some s) none h k = tt
config_of-IsOneLine (some s) (some p) h k =
    elim (Bool-cases (valid (record { ssid = s; passphrase = p }))) [
      | inl e ↦ rw (e, config_of) (h, k)
      | inr e ↦ rw (e, config_of) tt
    ]

-- The settings that are read from a file are single lines.
pub parse_deployment_conf-IsOneLine : (t : Text) → IsOneLine (parse_deployment_conf t)
unfolding parse_deployment_conf
parse_deployment_conf-IsOneLine t =
    let start : Values = record { ssid_value = none; passphrase_value = none } in
    let read =
      read_lines-AreLines start (splitlines false [] t) (tt, tt)
        (splitlines-IsLine false [] t refl) in
    elim (Option-cases (read_lines start (splitlines false [] t))) [
      | inl e ↦ rw (e, parse_deployment_conf) tt
      | inr (vs, e) ↦
          let (s, p) = subst AreLines e read in
          rw (e, parse_deployment_conf) (config_of-IsOneLine vs.ssid_value vs.passphrase_value s p)
    ]
