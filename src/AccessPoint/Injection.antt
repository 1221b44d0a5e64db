-- ===== src/AccessPoint/Injection.antt =====
-- Settings cannot add lines to hostapd.conf (node/wifi_ap/).
use meshlink_node.Prelude.{
  All, Bool, Bool-cases, List, Option, Option-cases, Text, [], arith, false, if◌then◌else◌, inl,
  inr, length, le→leb, ltb, none, not, refl, some, subst, suc, true, ℕ, ◌&&◌, ◌++◌, ◌+◌, ◌==◌, ◌∙◌,
  ◌∷◌, ◌≡◌, ◌≤◌, nat_eq, list_eq,
}
use meshlink_node.Strings.{every, splitlines}
use meshlink_node.AccessPoint.Deployment.{
  WifiDeploymentConfig, utf8_length, is_control, is_printable, within, valid, Values, config_of,
  read_lines, parse_deployment_conf,
}
use meshlink_node.AccessPoint.Hostapd.{conf_lines, unlines, decimal, render_hostapd_conf}

-- How many line feeds are in a text.
abbrev pub feeds : Text → ℕ
feeds [] = 0
feeds (c ∷ t) = let rest = feeds t in if c == 10 then suc rest else rest

feeds-append : (s t : Text) → feeds (s ++ t) ≡ feeds s + feeds t
feeds-append [] t = omega arith
feeds-append (c ∷ s) t = ground (arith, feeds-append s t)

feeds-every : (test : ℕ → Bool) (t : Text) → test 10 ≡ false → every test t ≡ true → feeds t ≡ 0
feeds-every test [] no' h = refl
feeds-every test (c ∷ t) no' h = ground (arith, feeds-every test t no')

feeds-unlines : (ls : List Text) → All (λ l. feeds l ≡ 0) ls → feeds (unlines ls) ≡ length ls
unfolding unlines
feeds-unlines [] h = refl
feeds-unlines (l ∷ ls) h =
    feeds-append l (10 ∷ unlines ls) ∙ rw (h.0, feeds-unlines ls h.1) (omega arith)

second_and_fourth : (a b c d : Bool) → (a && b && c && d) ≡ true → (b ≡ true) × (d ≡ true)
second_and_fourth a b c d h = ground arith

valid-feeds :
    (c : WifiDeploymentConfig) → valid c ≡ true → (feeds c.ssid ≡ 0) × (feeds c.passphrase ≡ 0)
unfolding valid
valid-feeds c h =
    let (s, p) =
      second_and_fourth (within 1 32 (utf8_length c.ssid)) (every (λ x. not (is_control x)) c.ssid)
        (within 8 63 (some (length c.passphrase))) (every is_printable c.passphrase) h in
    (
      feeds-every (λ x. not (is_control x)) c.ssid refl s,
      feeds-every is_printable c.passphrase refl p,
    )

abbrev IsValid : Option WifiDeploymentConfig → Type 0
IsValid none = Unit
IsValid (some c) = valid c ≡ true

config_of-IsValid : (s p : Option Text) → IsValid (config_of s p)
unfolding config_of
config_of-IsValid none p = tt
config_of-IsValid (some s) none = tt
config_of-IsValid (some s) (some p) =
    elim (Bool-cases (valid (record { ssid = s; passphrase = p }))) [
      | inl e ↦ rw (e, config_of) e
      | inr e ↦ rw (e, config_of) tt
    ]

parse_deployment_conf-IsValid : (t : Text) → IsValid (parse_deployment_conf t)
unfolding parse_deployment_conf
parse_deployment_conf-IsValid t =
    let start : Values = record { ssid_value = none; passphrase_value = none } in
    elim (Option-cases (read_lines start (splitlines false [] t))) [
      | inl e ↦ rw (e, parse_deployment_conf) tt
      | inr (vs, e) ↦
          rw (e, parse_deployment_conf) (config_of-IsValid vs.ssid_value vs.passphrase_value)
    ]

feeds-decimal : (n : ℕ) → feeds (decimal n) ≡ 0
unfolding decimal
feeds-decimal n = elim (Bool-cases (ltb n 10)) [
  | inl e ↦ rw (e, decimal) (ground arith)
  | inr e ↦ rw (e, decimal) (ground arith)
]

conf_lines-feeds :
    (c : WifiDeploymentConfig) (iface : Text) (channel : ℕ)
    → feeds c.ssid ≡ 0
    → feeds c.passphrase ≡ 0
    → feeds iface ≡ 0
    → All (λ l. feeds l ≡ 0) (conf_lines c iface channel)
conf_lines-feeds c iface channel s p i = (
  refl,
  (
    refl,
    (
      refl,
      (
        i,
        (
          refl,
          (
            refl,
            (
              s,
              (
                refl,
                (
                  feeds-decimal channel,
                  (
                    refl,
                    (
                      refl,
                      (
                        refl,
                        (
                          refl,
                          (
                            refl,
                            (refl, (refl, (p, (refl, (refl, (refl, (refl, (refl, (refl, tt))))))))),
                          ),
                        ),
                      ),
                    ),
                  ),
                ),
              ),
            ),
          ),
        ),
      ),
    ),
  ),
)

-- Whatever the deployment file holds, if its settings are read and the channel is one of 1 to 13,
-- the hostapd.conf made of them, for an interface name without a line feed, has exactly its 23
-- lines.
pub render_hostapd_conf-feeds :
    (t : Text) (c : WifiDeploymentConfig) (iface : Text) (channel : ℕ)
    → parse_deployment_conf t ≡ some c
    → feeds iface ≡ 0
    → 1 ≤ channel
    → channel ≤ 13
    → (out : Text) × (render_hostapd_conf c iface channel ≡ some out) × (feeds out ≡ 23)
unfolding render_hostapd_conf
render_hostapd_conf-feeds t c iface channel read i low high =
    let ok = subst IsValid read (parse_deployment_conf-IsValid t) in
    let (s, p) = valid-feeds c ok in
    let ls = conf_lines c iface channel in
    (
      unlines ls,
      rw (le→leb 1 channel low, le→leb channel 13 high),
      feeds-unlines ls (conf_lines-feeds c iface channel s p i),
    )
