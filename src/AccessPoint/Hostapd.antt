-- ===== src/AccessPoint/Hostapd.antt =====
-- The hostapd.conf of a node (node/wifi_ap/hostapd_config.py).
use meshlink_node.Prelude.{
  List, Option, Text, [], codes, if◌then◌else◌, leb, ltb, none, some, ℕ, ◌%◌, ◌&&◌, ◌++◌, ◌+◌, ◌/◌,
  ◌∷◌, nat_eq, list_eq,
}
use meshlink_node.AccessPoint.Deployment.{WifiDeploymentConfig}

-- str of a channel, which has one digit or two
unfoldable pub decimal : ℕ → Text
decimal n = if ltb n 10 then (b'0' + n) ∷ [] else (b'0' + n / 10) ∷ (b'0' + n % 10) ∷ []

-- The lines of the f-string.
abbrev pub conf_lines : WifiDeploymentConfig → Text → ℕ → List Text
conf_lines config iface channel =
    codes "# Generated by node/wifi_ap/hostapd_config.py — do not hand-edit."
    ∷ codes "# SSID/passphrase come from the deployment-wide config; see"
    ∷ codes "# docs/wifi-ap-deployment.md."
    ∷ (codes "interface=" ++ iface)
    ∷ codes "driver=nl80211"
    ∷ []
    ∷ (codes "ssid=" ++ config.ssid)
    ∷ codes "hw_mode=g"
    ∷ (codes "channel=" ++ decimal channel)
    ∷ codes "ieee80211n=1"
    ∷ codes "wmm_enabled=1"
    ∷ []
    ∷ codes "auth_algs=1"
    ∷ codes "wpa=2"
    ∷ codes "wpa_key_mgmt=WPA-PSK"
    ∷ codes "rsn_pairwise=CCMP"
    ∷ (codes "wpa_passphrase=" ++ config.passphrase)
    ∷ []
    ∷ codes "# Roaming assists (WiFi Mesh Add-On §2.4): 802.11k neighbor reports and"
    ∷ codes "# 802.11v BSS transition hints help phones hand off between nodes sooner."
    ∷ codes "# 802.11r fast transition is deferred — it needs cross-node key material."
    ∷ codes "rrm_neighbor_report=1"
    ∷ codes "bss_transition=1"
    ∷ []

unfoldable pub unlines : List Text → Text
unlines [] = []
unlines (l ∷ ls) = l ++ 10 ∷ unlines ls

unfoldable pub render_hostapd_conf : WifiDeploymentConfig → Text → ℕ → Option Text
unfolding unlines decimal
render_hostapd_conf config iface channel =
    if leb 1 channel && leb channel 13
    then some (unlines (conf_lines config iface channel))
    else none
