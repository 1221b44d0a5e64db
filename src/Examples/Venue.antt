-- ===== src/Examples/Venue.antt =====
-- A deployment file and what is made of it (node/wifi_ap/).
use meshlink_node.Prelude.{
  Bytes, Option, Text, [], ap, arith, codes, false, none, or_default, refl, some, true, ◌++◌, ◌∷◌,
  ◌≡◌, nat_eq, list_eq,
}
use meshlink_node.Strings.{splitlines, partition, strip, lstrip, rstrip}
use meshlink_node.AccessPoint.Deployment.{
  WifiDeploymentConfig, parse_deployment_conf, read_lines, read_line, config_of, valid, utf8_length,
}
use meshlink_node.AccessPoint.Hostapd.{render_hostapd_conf}
use meshlink_node.AccessPoint.Injection.{feeds, render_hostapd_conf-feeds}
use meshlink_node.Json.{Value, boolean, text, object, Fields, no_fields, field, field_of}
use meshlink_node.AccessPoint.Hosting.{HostapdHost, hostapd_configured_ssid, hostapd_start}
use meshlink_node.AccessPoint.ReadBack.{hostapd_start-rendered}
use meshlink_node.AccessPoint.Sharing.{
  Loaded, loaded, configured, Rights, merge, read_plist, sharing_configured_ssid, sharing_start,
  sharing_stop,
}
use meshlink_node.AccessPoint.Restore.{
  fresh_mac, on_mac, open_mac, sharing_stop-start, sharing_start-configures,
}

abbrev conf : Text
conf = codes "# venue" ++ 10 ∷ codes "ssid = Fest" ++ 13 ∷ 10 ∷ codes "passphrase=longenough"

abbrev config : WifiDeploymentConfig
config = record { ssid = codes "Fest"; passphrase = codes "longenough" }

conf_parsed : parse_deployment_conf conf ≡ some config
unfolding parse_deployment_conf splitlines read_lines read_line partition strip lstrip rstrip
    config_of valid utf8_length
conf_parsed = refl

render_hostapd_conf-feeds_example :
    (out : Text) × (render_hostapd_conf config (codes "wlan0") 6 ≡ some out) × (feeds out ≡ 23)
render_hostapd_conf-feeds_example =
    render_hostapd_conf-feeds conf config (codes "wlan0") 6 conf_parsed refl (omega arith)
      (omega arith)

abbrev pi : HostapdHost
pi = record {
  script_exists = true;
  script_succeeds = true;
  conf = render_hostapd_conf config (codes "wlan0") 6;
}

hostapd_start-rendered_example :
    (hostapd_configured_ssid pi.conf ≡ some (codes "Fest")) × (hostapd_start config pi ≡ true)
hostapd_start-rendered_example =
    hostapd_start-rendered conf config (codes "wlan0") 6 pi conf_parsed refl (omega arith)
      (omega arith) refl

-- A plist of one key, and the one that the merge makes of it.
abbrev plist : Fields Unit
plist = field (codes "Other") (boolean true) no_fields

abbrev or_empty : Option (Fields Unit) → Fields Unit
or_empty o = or_default o no_fields

-- A plistlib that knows two files.
abbrev toy_load : Fields Unit → Bytes → Loaded Unit
toy_load merged [] = loaded (object plist)
toy_load merged (b ∷ bs) = loaded (object merged)

abbrev toy_dump : Value Unit → Bytes
toy_dump v = 1 ∷ []

sharing_stop-start_example :
    let rights : Rights = record { darwin = true; root = true; job_runs = true } in
    sharing_stop rights
      (sharing_start
        (toy_load no_fields)
        toy_dump
        (λ x. false)
        config
        6
        rights
        (fresh_mac [] true true)).0
    ≡ fresh_mac [] true true
sharing_stop-start_example =
    sharing_stop-start (toy_load no_fields) toy_dump (λ x. false) config 6 true true true [] true
      true

abbrev load : Bytes → Loaded Unit
load = toy_load (or_empty (merge config 6 plist))

sharing_start-configures_example :
    let (m, answer) =
      sharing_start load toy_dump (λ x. false) config 6 (on_mac true) (open_mac (some []) none) in
    (merged : Fields Unit) × (m.nat_plist ≡ some (toy_dump (object merged)))
    × (answer ≡ some true)
    × (field_of merged (codes "Other") ≡ some (boolean true))
    × (sharing_configured_ssid load toy_dump (λ x. false) m
        ≡ configured (some (text (codes "Fest"))))
unfolding read_plist
sharing_start-configures_example =
    sharing_start-configures load toy_dump (λ x. false) config 6 true (some []) none plist no_fields
      (codes "Other") (λ fs h. ap (λ o. loaded (object (or_empty o))) h) (omega arith) (omega arith)
      refl refl refl
