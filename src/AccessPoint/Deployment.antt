-- ===== src/AccessPoint/Deployment.antt =====
-- The deployment's WiFi settings (node/wifi_ap/deployment_config.py). Every ValueError is `none`.
use meshlink_node.Prelude.{
  Bool, List, Option, Text, [], codes, false, if◌then◌else◌, is_some, leb, length, ltb, none, not,
  some, ℕ, ◌&&◌, ◌+◌, ◌==◌, ◌||◌, ◌∷◌, nat_eq, list_eq,
}
use meshlink_node.Strings.{every, splitlines, strip, partition}

pub record WifiDeploymentConfig : Type 0 where
  pub ssid : Text
  pub passphrase : Text

-- `values`, under its two keys
pub record Values : Type 0 where
  pub ssid_value : Option Text
  pub passphrase_value : Option Text

abbrev pub set_key : Values → Text → Text → Option Values
set_key vs key value =
    if key == codes "ssid"
    then (if is_some vs.ssid_value then none else some (record vs { ssid_value = some value }))
    else if key == codes "passphrase"
    then (if is_some vs.passphrase_value
        then none
        else some (record vs { passphrase_value = some value }))
    else none

-- One turn of the loop, on a stripped line.
unfoldable pub read_line : Values → Text → Option Values
unfolding partition strip
read_line vs [] = some vs
read_line vs (c ∷ t) = if c == b'#' then some vs else elim (partition b'=' (c ∷ t)) [
  | none ↦ none
  | some (key, value) ↦ set_key vs (strip key) (strip value)
]

unfoldable pub read_lines : Values → List Text → Option Values
unfolding read_line
read_lines vs [] = some vs
read_lines vs (line ∷ ls) = elim (read_line vs (strip line)) [
  | none ↦ none
  | some vs' ↦ read_lines vs' ls
]

-- len(text.encode()), or `none` for a surrogate, which has no UTF-8
unfoldable pub utf8_length : Text → Option ℕ
utf8_length [] = some 0
utf8_length (c ∷ t) =
    let size =
      if ltb c 0x80 then 1 else if ltb c 0x800 then 2 else if ltb c 0x10000 then 3 else 4 in
    let rest = utf8_length t in
    if leb 0xd800 c && leb c 0xdfff
    then none
    else elim rest [ none ↦ none | some n ↦ some (size + n) ]

abbrev pub is_control : ℕ → Bool
is_control c = ltb c 0x20 || c == 0x7f

abbrev pub is_printable : ℕ → Bool
is_printable c = leb 0x20 c && leb c 0x7e

abbrev pub within : ℕ → ℕ → Option ℕ → Bool
within low high none = false
within low high (some n) = leb low n && leb n high

-- The checks on both values.
unfoldable pub valid : WifiDeploymentConfig → Bool
unfolding utf8_length
valid c =
    within 1 32 (utf8_length c.ssid)
    && every (λ x. not (is_control x)) c.ssid
    && within 8 63 (some (length c.passphrase))
    && every is_printable c.passphrase

unfoldable pub config_of : Option Text → Option Text → Option WifiDeploymentConfig
unfolding valid
config_of (some s) (some p) =
    let c : WifiDeploymentConfig = record { ssid = s; passphrase = p } in
    if valid c then some c else none
config_of _ _ = none

unfoldable pub parse_deployment_conf : Text → Option WifiDeploymentConfig
unfolding splitlines read_lines config_of
parse_deployment_conf t =
    elim (read_lines (record { ssid_value = none; passphrase_value = none })
      (splitlines false [] t)) [
        | none ↦ none
        | some vs ↦ config_of vs.ssid_value vs.passphrase_value
      ]
