-- ===== src/AccessPoint/ReadBack.antt =====
-- The hostapd.conf that is written says, read back, what the deployment's settings say
-- (node/wifi_ap/hostapd_config.py, hostapd.py, base.py).
use meshlink_node.Prelude.{
  &&-parts, Bool, List, Text, [], ap, append-nil, append_assoc, arith, beq_refl, false, le→leb, not,
  refl, some, subst, sym, true, ℕ, ◌&&◌, ◌++◌, ◌∙◌, ◌∷◌, ◌≡◌, ◌≤◌, nat_eq, list_eq,
}
use meshlink_node.Strings.{every, splitlines, is_break}
use meshlink_node.AccessPoint.Deployment.{parse_deployment_conf, WifiDeploymentConfig}
use meshlink_node.AccessPoint.Hostapd.{conf_lines, unlines, decimal, render_hostapd_conf}
use meshlink_node.AccessPoint.Lines.{IsLine, parse_deployment_conf-IsOneLine, IsOneLine}
use meshlink_node.AccessPoint.Hosting.{
  verify_consistency, ssid_line, hostapd_configured_ssid, HostapdHost, hostapd_start,
}

splitlines-line :
    (acc l t : Text)
    → IsLine l
    → splitlines false acc (l ++ 10 ∷ t) ≡ (acc ++ l) ∷ splitlines false [] t
unfolding splitlines
splitlines-line acc [] t h = ap (λ x. x ∷ splitlines false [] t) (sym (append-nil acc))
splitlines-line acc (c ∷ l) t h =
    let (a, b) = &&-parts (not (is_break c)) (every (λ c. not (is_break c)) l) h in
    let plain : is_break c ≡ false = ground arith in
    rw (plain) (splitlines-line (acc ++ c ∷ []) l t b ∙ rw (append_assoc acc (c ∷ []) l))

abbrev are_lines : List Text → Bool
are_lines [] = true
are_lines (l ∷ ls) = every (λ c. not (is_break c)) l && are_lines ls

splitlines-unlines : (ls : List Text) → are_lines ls ≡ true → splitlines false [] (unlines ls) ≡ ls
unfolding unlines splitlines
splitlines-unlines [] h = refl
splitlines-unlines (l ∷ ls) h =
    let (a, b) = &&-parts (every (λ c. not (is_break c)) l) (are_lines ls) h in
    splitlines-line [] l (unlines ls) a ∙ ap (◌∷◌ l) (splitlines-unlines ls b)

decimal-IsLine : (n : ℕ) → n ≤ 13 → IsLine (decimal n)
unfolding decimal
decimal-IsLine n h = ground arith

conf_lines-IsLine :
    (c : WifiDeploymentConfig) (iface : Text) (channel : ℕ)
    → IsLine c.ssid
    → IsLine c.passphrase
    → IsLine iface
    → channel ≤ 13
    → are_lines (conf_lines c iface channel) ≡ true
conf_lines-IsLine c iface channel s p i h = let e = decimal-IsLine channel h in simp (s, p, i, e)

-- What hostapd.conf is read back to hold.
hostapd_configured_ssid-render :
    (c : WifiDeploymentConfig) (iface : Text) (channel : ℕ)
    → IsLine c.ssid
    → IsLine c.passphrase
    → IsLine iface
    → channel ≤ 13
    → hostapd_configured_ssid (some (unlines (conf_lines c iface channel))) ≡ some c.ssid
unfolding hostapd_configured_ssid ssid_line
hostapd_configured_ssid-render c iface channel s p i h =
    rw (splitlines-unlines (conf_lines c iface channel) (conf_lines-IsLine c iface channel s p i h))

-- If the settings are read from a deployment file, the interface name is one line, the channel is 1
-- to 13 and hostapd.conf is what the renderer makes of them, then the SSID read back from it is the
-- deployment's, and start returns whether the setup script is there and succeeds.
pub hostapd_start-rendered :
    (t : Text) (c : WifiDeploymentConfig) (iface : Text) (channel : ℕ) (h : HostapdHost)
    → parse_deployment_conf t ≡ some c
    → IsLine iface
    → 1 ≤ channel
    → channel ≤ 13
    → h.conf ≡ render_hostapd_conf c iface channel
    → (hostapd_configured_ssid h.conf ≡ some c.ssid)
      × (hostapd_start c h ≡ (h.script_exists && h.script_succeeds))
unfolding hostapd_start verify_consistency render_hostapd_conf
hostapd_start-rendered t c iface channel h read i low high conf =
    let (s, p) = subst IsOneLine read (parse_deployment_conf-IsOneLine t) in
    let written : h.conf ≡ some (unlines (conf_lines c iface channel)) =
      conf ∙ rw (le→leb 1 channel low, le→leb channel 13 high) in
    let back : hostapd_configured_ssid h.conf ≡ some c.ssid =
      rw (written) (hostapd_configured_ssid-render c iface channel s p i high) in
    (back, rw (back, verify_consistency, beq_refl c.ssid) (ground arith))
