-- ===== src/AccessPoint/Hosting.antt =====
-- Bringing the access point up (node/wifi_ap/base.py, hostapd.py, __init__.py, and _provision_ap of
-- node/main.py). What the system does is an argument: whether files exist, how a command ends.
use meshlink_node.Prelude.{
  Bool, List, Option, Text, [], codes, drop, false, if◌then◌else◌, none, not, some, starts_with,
  ◌&&◌, ◌==◌, ◌∷◌, nat_eq, list_eq,
}
use meshlink_node.Strings.{splitlines}
use meshlink_node.AccessPoint.Deployment.{WifiDeploymentConfig, parse_deployment_conf}

-- verify_consistency, with what configured_ssid returns
unfoldable pub verify_consistency : WifiDeploymentConfig → Option Text → Bool
verify_consistency config none = false
verify_consistency config (some have) = have == config.ssid

-- `for line in ...splitlines(): if line.startswith("ssid=")`
unfoldable pub ssid_line : List Text → Option Text
ssid_line [] = none
ssid_line (line ∷ ls) =
    let rest = ssid_line ls in if starts_with line (codes "ssid=") then some (drop 5 line) else rest

-- Of a hostapd.conf that cannot be read, there is none.
unfoldable pub hostapd_configured_ssid : Option Text → Option Text
unfolding ssid_line
hostapd_configured_ssid none = none
hostapd_configured_ssid (some conf) = ssid_line (splitlines false [] conf)

-- Whether the setup script is there, whether it succeeds, and the hostapd.conf that it leaves.
pub record HostapdHost : Type 0 where
  pub script_exists : Bool
  pub script_succeeds : Bool
  pub conf : Option Text

unfoldable pub hostapd_start : WifiDeploymentConfig → HostapdHost → Bool
hostapd_start config h =
    if not h.script_exists
    then false
    else if not h.script_succeeds
    then false
    else verify_consistency config (hostapd_configured_ssid h.conf)

pub data Backend : Type 0 where
  hostapd : Backend
  internet_sharing : Backend

abbrev default_backend : Bool → Text
default_backend darwin = if darwin then codes "internet_sharing" else codes "hostapd"

-- `if not backend`
abbrev backend_name : Bool → Option Text → Text
backend_name darwin none = default_backend darwin
backend_name darwin (some []) = default_backend darwin
backend_name darwin (some (c ∷ t)) = c ∷ t

-- create_ap_provisioner, of MESHLINK_AP_BACKEND; a ValueError is `none`.
unfoldable pub create_ap_provisioner : Bool → Option Text → Option Backend
create_ap_provisioner darwin set =
    let name = backend_name darwin set in
    if name == codes "hostapd"
    then some hostapd
    else if name == codes "internet_sharing"
    then some internet_sharing
    else none

-- load_deployment_config, of the text of the file; a ValueError is `none`.
unfoldable pub load_deployment_config : Option Text → Option WifiDeploymentConfig
unfolding parse_deployment_conf
load_deployment_config none = none
load_deployment_config (some t) = parse_deployment_conf t

-- How _provision_ap ends.
pub data Provisioned : Type 0 where
  no_provisioner : Provisioned
  provisioner : Backend → Bool → Provisioned
  raised : Provisioned

-- With what the start of a backend returns, where `none` is an exception.
unfoldable pub provision_ap :
    Text
    → Bool
    → Option Text
    → Option Text
    → (Backend → WifiDeploymentConfig → Option Bool)
    → Provisioned
unfolding create_ap_provisioner load_deployment_config
provision_ap mode darwin set file start =
    if mode == codes "off"
    then no_provisioner
    else if (mode == codes "auto") && not darwin
    then no_provisioner
    else elim (load_deployment_config file) [
      | none ↦ no_provisioner
      | some config ↦ elim (create_ap_provisioner darwin set) [
        | none ↦ raised
        | some backend ↦ elim (start backend config) [
          | none ↦ raised
          | some up ↦ provisioner backend up
        ]
      ]
    ]
